-- ===== src/World.antt =====
-- The state that the C code of util/ruminate-jansson/ runs in, and how its runs end.
--
-- The state is the memory of the process, a byte at each address, and for each kind of object the
-- number of references that the running code has taken and not yet given back; the blocks that
-- r_memory_new has allocated, the newest first; and the answer that the library waits for.
use ruminate.Base.{
  ℕ, zero, suc, ◌+◌, ◌-◌, ◌*◌, ◌/◌, ◌%◌, ◌==◌, if◌then◌else◌, ◌^◌, Option, none, some, List,
}
use ruminate.Base.Int.{ℤ, pos, negsuc}
use ruminate.Errors.{GError, Call, ok, raised}
use ruminate.RType.{RType}

abbrev pub Addr : Type 0
Addr = ℕ

abbrev pub Memory : Type 0
Memory = Addr → ℕ

-- RMemory, at the address of its data.
pub record Block : Type 0 where
  pub data_address : Addr
  pub type : RType
  pub refcnt : ℕ
  pub size : ℕ

pub record World : Type 0 where
  pub memory : Memory
  pub types : ℕ
  pub members : ℕ
  pub strings : ℕ
  pub jsons : ℕ
  pub heap : List Block
  pub arp : ℕ

-- `done` has the value returned, the error that was set on the way, and the state. A `segfault` is a
-- use of NULL, of a handle of another type, of a reference that is not held, or of memory that is not
-- allocated.
pub data Run (A : Type 0) : Type 0 where
  done : A → Option GError → World → Run A
  assertion_failed segfault out_of_fuel : Run A

abbrev pub Cmd : Type 0 → Type 0
Cmd A = World → Run A

abbrev pub pure : {A : Type 0} → A → Cmd A
pure a w = done a none w

-- Sets the error and returns.
abbrev pub fail : {A : Type 0} → GError → A → Cmd A
fail e a w = done a (some e) w

-- An error that is set stays: g_set_error and g_propagate_error do not overwrite one.
abbrev pub with_error : {A : Type 0} → Option GError → Run A → Run A
with_error none r = r
with_error (some e) (done a later w) = done a (some e) w
with_error (some e) assertion_failed = assertion_failed
with_error (some e) segfault = segfault
with_error (some e) out_of_fuel = out_of_fuel

-- A call that is given a fresh GError *err, and what is done with the value and with err.
abbrev pub catching : {A B : Type 0} → Run A → (A → Option GError → Cmd B) → Run B
catching (done a e w) k = k a e w
catching assertion_failed k = assertion_failed
catching segfault k = segfault
catching out_of_fuel k = out_of_fuel

-- Calls that share the caller's GError **.
abbrev pub and_then : {A B : Type 0} → Run A → (A → Cmd B) → Run B
and_then m k = catching m (λ a e w. with_error e (k a w))

infixl 5 ◌>>=◌ ◌>>◌
abbrev pub ◌>>=◌ : {A B : Type 0} → Cmd A → (A → Cmd B) → Cmd B
m >>= k = λ w. and_then (m w) k

abbrev pub ◌>>◌ : {A B : Type 0} → Cmd A → Cmd B → Cmd B
m >> k = m >>= λ _. k

abbrev pub modify : (World → World) → Cmd (Unit {0})
modify f w = done tt none (f w)

-- What ends the program.
abbrev pub assert_false : {A : Type 0} → Cmd A
assert_false w = assertion_failed

abbrev pub use_null : {A : Type 0} → Cmd A
use_null w = segfault

abbrev pub catch : {A B : Type 0} → Cmd A → (A → Option GError → Cmd B) → Cmd B
catch m k w = catching (m w) k

-- A call into the library, with what follows on success and after an error.
abbrev pub attempt : {A B : Type 0} → Call A → (A → Cmd B) → (GError → Cmd B) → Cmd B
attempt (ok a) k h = k a
attempt (raised e) k h = h e
attempt Call.aborted k h = assert_false
attempt Call.crashed k h = use_null

abbrev pub take_type : World → World
take_type w = record w { types = suc w.types }

abbrev pub take_member : World → World
take_member w = record w { members = suc w.members }

abbrev pub take_string : World → World
take_string w = record w { strings = suc w.strings }

abbrev pub take_json : World → World
take_json w = record w { jsons = suc w.jsons }

-- One reference given back: the count held, and the state with the count that is left.
abbrev pub give_back : ℕ → (ℕ → World) → Run (Unit {0})
give_back zero after = segfault
give_back (suc n) after = done tt none (after n)

-- r_type_unref, r_type_member_unref, r_string_unref and json_decref, of a reference of one's own.
abbrev pub drop_type : Cmd (Unit {0})
drop_type w = give_back w.types (λ n. record w { types = n })

abbrev pub drop_member : Cmd (Unit {0})
drop_member w = give_back w.members (λ n. record w { members = n })

abbrev pub drop_string : Cmd (Unit {0})
drop_string w = give_back w.strings (λ n. record w { strings = n })

abbrev pub drop_json : Cmd (Unit {0})
drop_json w = give_back w.jsons (λ n. record w { jsons = n })

-- The little-endian number in the `n` bytes at an address.
unfoldable pub load : ℕ → Memory → Addr → ℕ
load zero m a = 0
load (suc n) m a = m a % 256 + 256 * load n m (a + 1)

-- A byte stored, a little-endian number of `n` bytes stored, and `n` bytes copied, as memcpy does.
abbrev pub put : Addr → ℕ → Memory → Memory
put a b m x = if x == a then b else m x

unfoldable pub store : ℕ → Addr → ℕ → Memory → Memory
store zero a v m = m
store (suc n) a v m = store n (a + 1) (v / 256) (put a (v % 256) m)

unfoldable pub copy : ℕ → Addr → Addr → Memory → Memory
copy zero to from m = m
copy (suc n) to from m = copy n (to + 1) (from + 1) (put to (m from) m)

-- `((char *) p) + offset`
unfoldable pub advance : Addr → ℤ → Addr
advance p (pos n) = (p + n) % 2 ^ 64
advance p (negsuc n) = (p + 2 ^ 64 - (n + 1) % 2 ^ 64) % 2 ^ 64
