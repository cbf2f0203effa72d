-- ===== src/Common.antt =====
-- src/common.cpp, without the Windows branches: the wrappers of the socket calls. What the calls
-- return is handed in, and so are the constants of the platform.
use velo_kv.Prelude.{
  ℕ, Bool, true, false, ◌||◌, Option, none, some, ℤ, pos, negsuc, eqb_ℤ, if◌then◌else◌,
}

-- `close_result` is what `close` returns for a socket.
unfoldable pub close_socket : (ℕ → ℤ) → Option ℕ → Bool
close_socket close_result none = true
close_socket close_result (some fd) = eqb_ℤ (close_result fd) (pos 0)

-- `flags` is what F_GETFL returns, `set_flags` what F_SETFL returns for the flags that it gets, and
-- `with_nonblock` adds O_NONBLOCK to them.
unfoldable pub set_nonblocking : (ℕ → ℤ) → (ℕ → ℤ → ℤ) → (ℤ → ℤ) → Option ℕ → Bool
set_nonblocking flags set_flags with_nonblock none = false
set_nonblocking flags set_flags with_nonblock (some fd) =
    if eqb_ℤ (flags fd) (negsuc 0)
    then false
    else eqb_ℤ (set_flags fd (with_nonblock (flags fd))) (pos 0)

-- The numbers of the three errors, and `errno`.
unfoldable pub is_would_block : ℤ → ℤ → ℤ → ℤ → Bool
is_would_block ewouldblock eagain einprogress errno =
    eqb_ℤ errno ewouldblock || (eqb_ℤ errno eagain || eqb_ℤ errno einprogress)
