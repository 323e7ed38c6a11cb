-- ===== src/Json/Deserialize/Scalar.antt =====
-- json_deserialize_builtin of util/ruminate-jansson/deserialize.c against json_serialize_builtin of
-- serialize.c.
use ruminate.Base.{ℕ, ◌*◌, ◌%◌, ◌^◌, ◌<◌, ◌≡◌, refl, sym, ap, Option, none, some, arith}
use ruminate.Base.Int.{ℤ, pos, negsuc, to_signed, to_unsigned}
use ruminate.Backend.{TypePrx, TypeId}
use ruminate.RString.{RString}
use ruminate.RType.New.{new_object}
use ruminate.RType.Query.{r_builtin_type_id}
use ruminate.RMemory.Fresh.{Serves, made, r_mem_malloc-made}
use mathlib.Core.Path.{subst}
use ruminate.World.{Addr, Memory, World, done, take_json, store}
use ruminate.Words.{load-store}
use ruminate.Json.{Env}
use ruminate.Json.Serialize.Values.{State, int_at, builtin_json, json_serialize_builtin}
use ruminate.Json.Deserialize.Values.{set_new, write_value, builtin_value, json_deserialize_builtin}

-- The integer types of C, with their sizes.
pub data IsInteger : TypeId → ℕ → Type 0 where
  int : IsInteger TypeId.int 4
  long : IsInteger TypeId.long 8
  short : IsInteger TypeId.short 2
  char : IsInteger TypeId.char 1

-- A value of a narrower type is one of 64 bits, and converted back it has its own bytes.
widened :
    (t : TypeId) (bytes n : ℕ)
    → IsInteger t bytes
    → n < 256 ^ bytes
    → to_signed 64 (to_unsigned 64 (to_signed (8 * bytes) n)) ≡ to_signed (8 * bytes) n
widened _ _ n int h = ground arith
widened _ _ n long h = ground arith
widened _ _ n short h = ground arith
widened _ _ n char h = ground arith

pub narrowed :
    (t : TypeId) (bytes n : ℕ)
    → IsInteger t bytes
    → n < 256 ^ bytes
    → to_unsigned 64 (to_signed (8 * bytes) n) % 256 ^ bytes ≡ n
narrowed _ _ n int h = ground arith
narrowed _ _ n long h = ground arith
narrowed _ _ n short h = ground arith
narrowed _ _ n char h = ground arith

pub to_unsigned-lt : (z : ℤ) → to_unsigned 64 z < 2 ^ 64
to_unsigned-lt (pos n) = ground arith
to_unsigned-lt (negsuc n) = ground arith

int_at-store :
    (t : TypeId) (bytes n a : ℕ) (m : Memory)
    → IsInteger t bytes
    → n < 256 ^ bytes
    → int_at bytes (store bytes a (to_unsigned 64 (to_signed (8 * bytes) n)) m) a
      ≡ to_signed (8 * bytes) n
unfolding int_at
int_at-store t bytes n a m is h =
    rw (load-store bytes a (to_unsigned 64 (to_signed (8 * bytes) n)) m)
      (rw (narrowed t bytes n is h) refl)

module _ (E : Env) where
  open E use {backend, jansson, tid, malloc}
  open jansson use {Json}

  module _ (t : TypeId) (bytes : ℕ) (w : World) (s : Serves backend tid malloc t bytes w) where
    -- What is left once a value of the C type is allocated and set.
    abbrev pub place : Addr
    place = malloc w.heap bytes

    abbrev pub filled : ℕ → World
    filled v = record (made backend tid malloc t bytes w s) {
      memory = store bytes place v w.memory;
    }

    set_new-filled : (v : ℕ) → set_new E t bytes v w ≡ done place none (filled v)
    unfolding set_new write_value
    set_new-filled v = rw (r_mem_malloc-made backend tid malloc t bytes w s) (rw s.not_null refl)

  integer_value-signed :
      (t : TypeId) (bytes n : ℕ)
      → IsInteger t bytes
      → n < 256 ^ bytes
      → jansson.integer_value (some (jansson.integer (to_signed (8 * bytes) n)))
        ≡ to_signed (8 * bytes) n
  integer_value-signed t bytes n is h =
      let z = to_signed (8 * bytes) n in
      let same : to_signed 64 (to_unsigned 64 z) ≡ z = widened t bytes n is h in
      subst (λ x. jansson.integer_value (some (jansson.integer x)) ≡ x) same
        (jansson.integer_value-integer (to_unsigned 64 z) (to_unsigned-lt z))

  read-value :
      (t : TypeId) (bytes n : ℕ) (w : World)
      → IsInteger t bytes
      → n < 256 ^ bytes
      → (s : Serves backend tid malloc t bytes w)
      → set_new E t bytes
          (to_unsigned 64
            (jansson.integer_value (some (jansson.integer (to_signed (8 * bytes) n)))))
          w
        ≡ done
            (place t bytes w s)
            none
            (filled t bytes w s (to_unsigned 64 (to_signed (8 * bytes) n)))
  read-value t bytes n w is h s =
      subst
        (λ x.
          set_new E t bytes (to_unsigned 64 x) w
          ≡ done (place t bytes w s) none
              (filled t bytes w s (to_unsigned 64 (to_signed (8 * bytes) n))))
        (sym (integer_value-signed t bytes n is h))
        (set_new-filled t bytes w s (to_unsigned 64 (to_signed (8 * bytes) n)))

  written-value :
      (t : TypeId) (bytes n : ℕ) (a : Addr) (m : Memory) (w : World)
      → IsInteger t bytes
      → n < 256 ^ bytes
      → done
          (some (
            jansson.integer
              (int_at bytes (store bytes a (to_unsigned 64 (to_signed (8 * bytes) n)) m) a)))
          none
          w
        ≡ done (some (jansson.integer (to_signed (8 * bytes) n))) none w
  written-value t bytes n a m w is h =
      ap (λ x. done (some (jansson.integer x)) none w) (int_at-store t bytes n a m is h)

  module _ (js : State E) (p : TypePrx) (r : ℕ) (name : Option RString) (w : World) where
    -- A JSON integer in the range of an integer type of C is read to a new block that holds the
    -- number, and what is then written for the block is the JSON integer again.
    pub json_deserialize_builtin-integer :
        (t : TypeId) (bytes n : ℕ)
        → IsInteger t bytes
        → n < 256 ^ bytes
        → (s : Serves backend tid malloc t bytes w)
        → let j = jansson.integer (to_signed (8 * bytes) n) in
          let w' = filled t bytes w s (to_unsigned 64 (to_signed (8 * bytes) n)) in
          let a = place t bytes w s in
          (json_deserialize_builtin E (new_object p t r name) (some j) w ≡ done a none w')
          × (json_serialize_builtin E js (new_object p t r name) a w'
              ≡ done (some j) none (take_json w'))
    unfolding json_deserialize_builtin builtin_value r_builtin_type_id new_object
        json_serialize_builtin builtin_json
    json_deserialize_builtin-integer _ _ n int h s = (
      read-value TypeId.int 4 n w int h s,
      written-value TypeId.int 4 n (place TypeId.int 4 w s) w.memory
          (take_json (filled TypeId.int 4 w s (to_unsigned 64 (to_signed (8 * 4) n)))) int h,
    )
    json_deserialize_builtin-integer _ _ n long h s = (
      read-value TypeId.long 8 n w long h s,
      written-value TypeId.long 8 n (place TypeId.long 8 w s) w.memory
          (take_json (filled TypeId.long 8 w s (to_unsigned 64 (to_signed (8 * 8) n)))) long h,
    )
    json_deserialize_builtin-integer _ _ n short h s = (
      read-value TypeId.short 2 n w short h s,
      written-value TypeId.short 2 n (place TypeId.short 2 w s) w.memory
          (take_json (filled TypeId.short 2 w s (to_unsigned 64 (to_signed (8 * 2) n)))) short h,
    )
    json_deserialize_builtin-integer _ _ n char h s = (
      read-value TypeId.char 1 n w char h s,
      written-value TypeId.char 1 n (place TypeId.char 1 w s) w.memory
          (take_json (filled TypeId.char 1 w s (to_unsigned 64 (to_signed (8 * 1) n)))) char h,
    )
