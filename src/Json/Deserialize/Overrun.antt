-- ===== src/Json/Deserialize/Overrun.antt =====
-- json_deserialize_enum of util/ruminate-jansson/deserialize.c: the bytes that it writes.
use ruminate.Base.{ℕ, ◌≡◌, ◌∙◌, refl, Option, none, true, false, ◌==◌}
use ruminate.Base.Int.{ℤ, to_unsigned}
use ruminate.Errors.{returned}
use ruminate.Backend.{TypePrx, TypeId}
use ruminate.RString.{RString}
use ruminate.RType.New.{new_object}
use ruminate.RMemory.{has_room}
use ruminate.RMemory.Typed.{with_block_typed, bytes, r_mem_malloc_fn-made}
use ruminate.World.{Addr, World, done, load, store}
use ruminate.Words.{Outside, load-store, store-Outside}
use native.Mathlib.Nat.{mod-eq_of_lt}
use ruminate.Json.{Env}
use ruminate.Json.Deserialize.Scalar.{to_unsigned-lt}
use ruminate.Json.Deserialize.Values.{write_value, json_deserialize_enum}

module _ (E : Env) (p : TypePrx) (r : ℕ) (name : Option RString) (size : ℤ) (w : World) where
  open E use {backend, jansson, malloc}
  open jansson use {Json}

  abbrev pub place : Addr
  place = malloc w.heap (bytes malloc p TypeId.enum r name size w)

  abbrev pub value_of : Option Json → ℕ
  value_of json = to_unsigned 64 (jansson.integer_value json)

  -- The new block has the size of the enum; the number takes 8 bytes.
  abbrev pub with_number : Option Json → World
  with_number json =
      let made = with_block_typed malloc p TypeId.enum r name size w in
      record made { memory = store 8 place (value_of json) made.memory }

  -- Where the debugger says the size of an enum, which does not wrap around with the size of an
  -- RMemory, and there is memory: json_deserialize_enum allocates a block of that size and writes 8
  -- bytes at its place, whatever the size is. They hold the JSON integer as a uintmax_t, and every
  -- byte outside these 8 is as it was.
  pub json_deserialize_enum-eight_bytes :
      (json : Option Json) (x : Addr)
      → backend.get_size p ≡ returned size
      → has_room (to_unsigned 64 size) ≡ true
      → (place == 0) ≡ false
      → Outside 8 place x
      → (json_deserialize_enum E (new_object p TypeId.enum r name) json w
          ≡ done place none (with_number json))
        × (load 8 (with_number json).memory place ≡ value_of json)
        × ((with_number json).memory x ≡ w.memory x)
  unfolding json_deserialize_enum write_value
  json_deserialize_enum-eight_bytes json x told room address beyond = (
    rw (r_mem_malloc_fn-made malloc p TypeId.enum r name size w backend told room)
        (rw address refl),
    load-store 8 place (value_of json) w.memory
        ∙ mod-eq_of_lt (to_unsigned-lt (jansson.integer_value json)),
    store-Outside 8 place (value_of json) x w.memory beyond,
  )
