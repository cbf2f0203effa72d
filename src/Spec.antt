-- ===== src/Spec.antt =====
-- What the store promises, with no trace of its data structures: a function from keys to what is stored
-- under them, and for each request of a client the answer and the new function.
pub mod Coded
pub mod Refines
pub mod Reads
pub mod Strings
pub mod Lists
pub mod Execute
pub mod Session
pub mod Served
use velo_kv.Prelude.{
  ◌≡◌, in_range, int64_bound, ℕ, suc, ◌*◌, Bool, true, false, Option, none, some, List, [], ◌∷◌,
  ◌++◌, Bytes, codes, ℤ, pos, leb_ℤ, ◌+ℤ◌, ◌-ℤ◌, pos_part, ◌/◌, length, bytes_beq, back, pop_back,
  if◌then◌else◌,
}
use velo_kv.Text.Decimal.{decimal}
use velo_kv.Resp.{Command}
use velo_kv.Db.View.{Value, str, list}

-- A value and its deadline.
abbrev pub Entry : Type 0
Entry = Option (Value × Option ℤ)

abbrev pub Keys : Type 0
Keys = Bytes → Entry

-- What is left of an entry at a time.
abbrev pub live : ℤ → Entry → Entry
live now none = none
live now (some (v, none)) = some (v, none)
live now (some (v, some d)) = if leb_ℤ d now then none else some (v, some d)

-- Every deadline is of `int64_t`.
abbrev pub IsTimed : Keys → Type 0
IsTimed keys =
    (key : Bytes) (v : Value) (d : ℤ) → keys key ≡ some (v, some d) → in_range int64_bound d ≡ true

abbrev pub update : Bytes → Entry → Keys → Keys
update key e keys j = if bytes_beq key j then e else keys j

pub data Request : Type 0 where
  setting : Bytes → Bytes → Request
  getting testing deleting timing counting : Bytes → Request
  expiring : Bytes → ℕ → Request
  pushing_front pushing_back : Bytes → Bytes → Request
  popping_front popping_back : Bytes → Request

-- The name of the command and its arguments; the seconds of EXPIRE are a decimal number.
abbrev pub word_of : Request → Bytes
word_of (setting key value) = codes "SET"
word_of (getting key) = codes "GET"
word_of (testing key) = codes "EXISTS"
word_of (deleting key) = codes "DEL"
word_of (timing key) = codes "TTL"
word_of (counting key) = codes "LLEN"
word_of (expiring key seconds) = codes "EXPIRE"
word_of (pushing_front key value) = codes "LPUSH"
word_of (pushing_back key value) = codes "RPUSH"
word_of (popping_front key) = codes "LPOP"
word_of (popping_back key) = codes "RPOP"

abbrev pub args_of : Request → List Bytes
args_of (setting key value) = key ∷ value ∷ []
args_of (getting key) = key ∷ []
args_of (testing key) = key ∷ []
args_of (deleting key) = key ∷ []
args_of (timing key) = key ∷ []
args_of (counting key) = key ∷ []
args_of (expiring key seconds) = key ∷ decimal seconds ∷ []
args_of (pushing_front key value) = key ∷ value ∷ []
args_of (pushing_back key value) = key ∷ value ∷ []
args_of (popping_front key) = key ∷ []
args_of (popping_back key) = key ∷ []

-- A list that a pop leaves: the last element takes the key with it.
abbrev pub rest_of : List Bytes → Option ℤ → Entry
rest_of [] deadline = none
rest_of (x ∷ l) deadline = some (list (x ∷ l), deadline)

-- The new entries, from the entry that is left at the time.
abbrev pub expire_entry : ℤ → Entry → Entry
expire_entry deadline none = none
expire_entry deadline (some (v, old)) = some (v, some deadline)

abbrev pub push_front_entry : Bytes → Entry → Entry
push_front_entry value none = some (list (value ∷ []), none)
push_front_entry value (some (str old, deadline)) = some (str old, deadline)
push_front_entry value (some (list l, deadline)) = some (list (value ∷ l), deadline)

abbrev pub push_back_entry : Bytes → Entry → Entry
push_back_entry value none = some (list (value ∷ []), none)
push_back_entry value (some (str old, deadline)) = some (str old, deadline)
push_back_entry value (some (list l, deadline)) = some (list (l ++ value ∷ []), deadline)

abbrev pub pop_front_entry : Entry → Entry
pop_front_entry (some (list (x ∷ l), deadline)) = rest_of l deadline
pop_front_entry e = e

abbrev pub pop_back_entry : Entry → Entry
pop_back_entry (some (list l, deadline)) = rest_of (pop_back l) deadline
pop_back_entry e = e

-- What goes over the wire: a number, the two answers of a test, a text, and a wrong type.
abbrev pub line_end : Bytes
line_end = 13 ∷ 10 ∷ []

abbrev pub ok_answer : Bytes
ok_answer = codes "+OK" ++ line_end

abbrev pub wrong_answer : Bytes
wrong_answer =
    codes "-WRONGTYPE Operation against a key holding the wrong kind of value" ++ line_end

abbrev pub number_answer : ℕ → Bytes
number_answer n = codes ":" ++ (decimal n ++ line_end)

abbrev pub no_text : Bytes
no_text = codes "$-1" ++ line_end

abbrev pub text_answer : Bytes → Bytes
text_answer v = codes "$" ++ (decimal (length v) ++ (line_end ++ (v ++ line_end)))

abbrev pub last_answer : Option Bytes → Bytes
last_answer none = no_text
last_answer (some v) = text_answer v

-- The answers, from the entry that is left at the time.
abbrev pub get_answer : Entry → Bytes
get_answer none = no_text
get_answer (some (str value, deadline)) = text_answer value
get_answer (some (list l, deadline)) = wrong_answer

abbrev pub test_answer : Entry → Bytes
test_answer none = number_answer 0
test_answer (some e) = number_answer 1

-- The whole seconds that are left until the deadline, -1 with no deadline and -2 with no key.
abbrev pub ttl_answer : ℤ → Entry → Bytes
ttl_answer now none = codes ":-2" ++ line_end
ttl_answer now (some (v, none)) = codes ":-1" ++ line_end
ttl_answer now (some (v, some d)) = number_answer (pos_part (d -ℤ now) / 1000)

abbrev pub llen_answer : Entry → Bytes
llen_answer none = number_answer 0
llen_answer (some (str value, deadline)) = wrong_answer
llen_answer (some (list l, deadline)) = number_answer (length l)

-- A push answers with the new length.
abbrev pub push_answer : Entry → Bytes
push_answer none = number_answer 1
push_answer (some (str value, deadline)) = wrong_answer
push_answer (some (list l, deadline)) = number_answer (suc (length l))

abbrev pub pop_front_answer : Entry → Bytes
pop_front_answer none = no_text
pop_front_answer (some (str value, deadline)) = wrong_answer
pop_front_answer (some (list [], deadline)) = no_text
pop_front_answer (some (list (x ∷ l), deadline)) = text_answer x

abbrev pub pop_back_answer : Entry → Bytes
pop_back_answer none = no_text
pop_back_answer (some (str value, deadline)) = wrong_answer
pop_back_answer (some (list l, deadline)) = last_answer (back l)

abbrev pub answer : ℤ → Request → Keys → Bytes
answer now (setting key value) keys = ok_answer
answer now (getting key) keys = get_answer (live now (keys key))
answer now (testing key) keys = test_answer (live now (keys key))
answer now (deleting key) keys = ok_answer
answer now (timing key) keys = ttl_answer now (live now (keys key))
answer now (counting key) keys = llen_answer (live now (keys key))
answer now (expiring key seconds) keys = test_answer (live now (keys key))
answer now (pushing_front key value) keys = push_answer (live now (keys key))
answer now (pushing_back key value) keys = push_answer (live now (keys key))
answer now (popping_front key) keys = pop_front_answer (live now (keys key))
answer now (popping_back key) keys = pop_back_answer (live now (keys key))

abbrev pub effect : ℤ → Request → Keys → Keys
effect now (setting key value) keys = update key (some (str value, none)) keys
effect now (getting key) keys = keys
effect now (testing key) keys = keys
effect now (deleting key) keys = update key none keys
effect now (timing key) keys = keys
effect now (counting key) keys = keys
effect now (expiring key seconds) keys =
    update key (expire_entry (now +ℤ pos (seconds * 1000)) (live now (keys key))) keys
effect now (pushing_front key value) keys =
    update key (push_front_entry value (live now (keys key))) keys
effect now (pushing_back key value) keys =
    update key (push_back_entry value (live now (keys key))) keys
effect now (popping_front key) keys = update key (pop_front_entry (live now (keys key))) keys
effect now (popping_back key) keys = update key (pop_back_entry (live now (keys key))) keys

-- The deadline that EXPIRE sets is an `int64_t`.
abbrev pub Fits : ℤ → Request → Type 0
Fits now (expiring key seconds) = in_range int64_bound (now +ℤ pos (seconds * 1000)) ≡ true
Fits now _ = Unit

-- A request as it is sent: the name may be in any case.
abbrev pub Call : Type 0
Call = Bytes × Request

abbrev pub command_of : Call → Command
command_of (name, r) = name ∷ args_of r

-- All the answers to the calls, one behind the other; `now i` is the time of the call number `i`.
unfoldable pub replies : (ℕ → ℤ) → ℕ → List Call → Keys → Bytes
replies now i [] keys = []
replies now i ((name, r) ∷ calls) keys =
    answer (now i) r keys ++ replies now (suc i) calls (effect (now i) r keys)

unfoldable pub entries : (ℕ → ℤ) → ℕ → List Call → Keys → Keys
entries now i [] keys = keys
entries now i ((name, r) ∷ calls) keys = entries now (suc i) calls (effect (now i) r keys)
