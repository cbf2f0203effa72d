-- ===== src/Spec/Coded.antt =====
-- src/command.cpp: the replies that the handlers make of an entry, and that they are the answers of the
-- abstract store.
use velo_kv.Prelude.{
  ◌≡◌, refl, ℕ, suc, [], ◌∷◌, Option, none, some, Bytes, ℤ, pos, length, back, arith,
}
use velo_kv.Text.Decimal.{to_string}
use velo_kv.Resp.{
  serialize_integer, serialize_simple_string, serialize_error, serialize_bulk_string,
  serialize_null_bulk_string,
}
use velo_kv.Db.View.{str, list, string_seen, list_seen, is_seen}
use velo_kv.Db.Deadlines.{ttl_seen}
use velo_kv.Command.{ok_reply, bool_reply, bulk_reply, wrong_type, ttl_reply}
use velo_kv.Spec.{
  Entry, Keys, Request, setting, getting, testing, deleting, timing, counting, expiring,
  pushing_front, pushing_back, popping_front, popping_back, live, answer,
}
use velo_kv.Spec

abbrev pub counted : ℕ → Bytes
counted n = serialize_integer (pos n)

abbrev pub get_answer : Entry → Bytes
get_answer (some (list l, deadline)) = wrong_type
get_answer e = bulk_reply (string_seen e)

abbrev pub llen_answer : Entry → Bytes
llen_answer (some (str value, deadline)) = wrong_type
llen_answer e = counted (length (list_seen e))

-- A push replies with the new length.
abbrev pub push_answer : Entry → Bytes
push_answer (some (str value, deadline)) = wrong_type
push_answer e = counted (suc (length (list_seen e)))

abbrev pub pop_front_answer : Entry → Bytes
pop_front_answer (some (str value, deadline)) = wrong_type
pop_front_answer (some (list (x ∷ l), deadline)) = bulk_reply (some x)
pop_front_answer _ = bulk_reply none

abbrev pub pop_back_answer : Entry → Bytes
pop_back_answer (some (str value, deadline)) = wrong_type
pop_back_answer (some (list l, deadline)) = bulk_reply (back l)
pop_back_answer none = bulk_reply none

-- The reply to a request.
abbrev pub coded : ℤ → Request → Keys → Bytes
coded now (setting key value) keys = ok_reply
coded now (getting key) keys = get_answer (live now (keys key))
coded now (testing key) keys = bool_reply (is_seen (live now (keys key)))
coded now (deleting key) keys = ok_reply
coded now (timing key) keys = ttl_reply (ttl_seen now (live now (keys key)))
coded now (counting key) keys = llen_answer (live now (keys key))
coded now (expiring key seconds) keys = bool_reply (is_seen (live now (keys key)))
coded now (pushing_front key value) keys = push_answer (live now (keys key))
coded now (pushing_back key value) keys = push_answer (live now (keys key))
coded now (popping_front key) keys = pop_front_answer (live now (keys key))
coded now (popping_back key) keys = pop_back_answer (live now (keys key))

ttl-answer :
    (now : ℤ) (e : Entry) → ttl_reply (ttl_seen now (live now e)) ≡ Spec.ttl_answer now (live now e)
unfolding ttl_reply ttl_seen serialize_integer to_string
ttl-answer now none = refl
ttl-answer now (some (v, none)) = refl
ttl-answer now (some (v, some d)) = ground arith

get-answer : (e : Entry) → get_answer e ≡ Spec.get_answer e
unfolding string_seen serialize_error serialize_bulk_string serialize_null_bulk_string
get-answer none = refl
get-answer (some (str v, d)) = refl
get-answer (some (list l, d)) = refl

test-answer : (e : Entry) → bool_reply (is_seen e) ≡ Spec.test_answer e
unfolding is_seen serialize_integer to_string
test-answer none = refl
test-answer (some e) = refl

llen-answer : (e : Entry) → llen_answer e ≡ Spec.llen_answer e
unfolding list_seen serialize_integer to_string serialize_error
llen-answer none = refl
llen-answer (some (str v, d)) = refl
llen-answer (some (list l, d)) = refl

push-answer : (e : Entry) → push_answer e ≡ Spec.push_answer e
unfolding list_seen serialize_integer to_string serialize_error
push-answer none = refl
push-answer (some (str v, d)) = refl
push-answer (some (list l, d)) = refl

pop_front-answer : (e : Entry) → pop_front_answer e ≡ Spec.pop_front_answer e
unfolding serialize_error serialize_bulk_string serialize_null_bulk_string
pop_front-answer none = refl
pop_front-answer (some (str v, d)) = refl
pop_front-answer (some (list [], d)) = refl
pop_front-answer (some (list (x ∷ l), d)) = refl

last-answer : (v : Option Bytes) → bulk_reply v ≡ Spec.last_answer v
unfolding serialize_bulk_string serialize_null_bulk_string
last-answer none = refl
last-answer (some v) = refl

pop_back-answer : (e : Entry) → pop_back_answer e ≡ Spec.pop_back_answer e
unfolding serialize_error serialize_null_bulk_string
pop_back-answer none = refl
pop_back-answer (some (str v, d)) = refl
pop_back-answer (some (list l, d)) = last-answer (back l)

-- What the handlers reply is what the abstract store answers.
pub coded-answer : (now : ℤ) (r : Request) (keys : Keys) → coded now r keys ≡ answer now r keys
unfolding serialize_simple_string
coded-answer now (setting key value) keys = refl
coded-answer now (getting key) keys = get-answer (live now (keys key))
coded-answer now (testing key) keys = test-answer (live now (keys key))
coded-answer now (deleting key) keys = refl
coded-answer now (timing key) keys = ttl-answer now (keys key)
coded-answer now (counting key) keys = llen-answer (live now (keys key))
coded-answer now (expiring key seconds) keys = test-answer (live now (keys key))
coded-answer now (pushing_front key value) keys = push-answer (live now (keys key))
coded-answer now (pushing_back key value) keys = push-answer (live now (keys key))
coded-answer now (popping_front key) keys = pop_front-answer (live now (keys key))
coded-answer now (popping_back key) keys = pop_back-answer (live now (keys key))
