-- ===== src/Main/Flags.antt =====
-- src/main.cpp: what a configuration that `main` accepts is like, and how a flag is found.
use velo_kv.Prelude.{
  false, ◌≡◌, ◌≢◌, subst, if◌then◌else◌, some, List, [], ◌∷◌, ◌++◌, Bytes, codes, pos, ◌≤ℤ◌, ok,
  ◌>>=◌, >>=-eq-ok, ok-injective, bytes_beq_iff, is_empty, arith, All, Bool-cases, inl, inr,
}
use velo_kv.Replication.Manager.{replica}
use velo_kv.Main.{
  Config, configured, help, value_of, atoi, get_arg, has_flag, check_config, make_config,
  parse_arguments, read_arguments,
}

-- The value of a flag is the argument behind the first place of the flag.
value_of-append :
    (flag value : Bytes) (before rest : List Bytes)
    → All (λ arg. arg ≢ flag) before
    → value_of flag (before ++ flag ∷ value ∷ rest) ≡ some value
unfolding value_of
value_of-append flag value [] rest h = ground (arith, bytes_beq_iff flag flag)
value_of-append flag value (arg ∷ []) rest (h, hs) =
    ground (arith, bytes_beq_iff flag flag, bytes_beq_iff arg flag)
value_of-append flag value (arg ∷ next ∷ before) rest (h, hs) =
    ground (arith, value_of-append flag value (next ∷ before) rest hs, bytes_beq_iff arg flag)

-- A port of TCP, and a leader where one is needed.
pub record IsUsable (c : Config) : Type 0 where
  least : pos 1 ≤ℤ c.port
  most : c.port ≤ℤ pos 65535
  followed : c.role ≡ replica → is_empty c.leader_host ≡ false

configured_self : (c d : Config) → check_config c ≡ configured d → c ≡ d
unfolding check_config
configured_self c d h = ground arith

check_config-IsUsable : (c d : Config) → check_config c ≡ configured d → IsUsable c
unfolding check_config
check_config-IsUsable c d h = record {
  least = ground arith;
  most = ground arith;
  followed = λ f. ground arith;
}

parse_arguments-IsUsable :
    (argv : List Bytes) (c : Config) → parse_arguments argv ≡ ok (configured c) → IsUsable c
unfolding parse_arguments
parse_arguments-IsUsable argv c h =
    let (port, rest, p) =
      >>=-eq-ok (atoi (get_arg argv (codes "--port") (codes "6379")).1)
        (λ port. atoi (get_arg argv (codes "--leader-port") (codes "6379")).1 >>= λ leader_port.
          ok (check_config (make_config argv port leader_port)))
        h in
    let (leader_port, checked, l) =
      >>=-eq-ok (atoi (get_arg argv (codes "--leader-port") (codes "6379")).1)
        (λ leader_port. ok (check_config (make_config argv port leader_port))) rest in
    let made = make_config argv port leader_port in
    let same = ok-injective (check_config made) (configured c) checked in
    subst IsUsable (configured_self made c same) (check_config-IsUsable made c same)

-- A configuration with which `main` goes on, whatever its arguments are, has a port from 1 to 65535,
-- and where it is for a replica, a leader's host that is not empty.
pub read_arguments-IsUsable :
    (argv : List Bytes) (c : Config) → read_arguments argv ≡ ok (configured c) → IsUsable c
unfolding read_arguments
read_arguments-IsUsable argv c h = elim (Bool-cases (has_flag argv (codes "--help"))) [
  | inl asked ↦ absurd (ground (arith, h, asked))
  | inr started ↦
      parse_arguments-IsUsable argv c
        (subst (λ b. (if b then ok help else parse_arguments argv) ≡ ok (configured c)) started h)
]
