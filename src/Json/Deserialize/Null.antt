-- ===== src/Json/Deserialize/Null.antt =====
-- NULL pointers through util/ruminate-jansson/deserialize.c and back through serialize.c.
use ruminate.Base.{ℕ, suc, ◌≡◌, refl, ◌≢◌, true, false, Option, none, some, ◌==◌}
use ruminate.Base.Int.{ℤ, to_unsigned}
use ruminate.Errors.{returned}
use ruminate.Backend.{TypePrx, TypeId}
use ruminate.RString.{RString}
use ruminate.RType.{RTypeId, RType, type_category}
use ruminate.RType.New.{new_object}
use ruminate.RMemory.{has_room}
use ruminate.RMemory.Typed.{with_block_typed, r_mem_malloc_fn-made}
use ruminate.World.{Addr, World, done, take_json, load, store}
use ruminate.Words.{load-store}
use ruminate.Json.{Env}
use ruminate.Json.Fits.{Typed}
use ruminate.Json.Serialize.{serialize_value, switch_json, pointer_json}
use ruminate.Json.Serialize.Values.{State, Serializer}
use ruminate.Json.Encoding.Step.{NoSerializers, step-new_object}
use ruminate.Json.Deserialize.{pointer_value, null_value, switch_value, deserialize_value}
use ruminate.Json.Deserialize.Values.{Deserializer, write_value}
use ruminate.Json.Deserialize.RoundTrip.{NoDeserializers, deserialize-switch}

module _ (E : Env) (js : State E) (p : TypePrx) (r : ℕ) (size : ℤ) (w : World) where
  open E use {backend, jansson, malloc}

  abbrev pub place : Addr
  place = malloc w.heap (to_unsigned 64 size)

  -- What is left when a pointer that is NULL has been allocated.
  abbrev pub with_null : Option RString → World
  with_null name = record (with_block_typed malloc p TypeId.pointer r name size w) {
    memory = store 8 place 0 w.memory;
  }

  null-loaded : (load 8 (store 8 place 0 w.memory) place == 0) ≡ true
  null-loaded = rw (load-store 8 place 0 w.memory) refl

  pointer-known : type_category TypeId.pointer ≢ RTypeId.unknown
  unfolding type_category
  pointer-known e = cc

  null-read :
      (rec : Deserializer E) (name : Option RString)
      → backend.get_size p ≡ returned size
      → has_room (to_unsigned 64 size) ≡ true
      → (place == 0) ≡ false
      → switch_value E rec
          (type_category TypeId.pointer)
          (new_object p TypeId.pointer r name)
          (some jansson.null)
          w
        ≡ done place none (with_null name)
  unfolding switch_value type_category pointer_value null_value write_value
  null-read rec name told room address = rw jansson.is_null-null (
      rw (r_mem_malloc_fn-made malloc p TypeId.pointer r name size w backend told room)
        (rw address refl))

  null-written :
      (rec : Serializer E) (rt : RType) (name : Option RString)
      → switch_json E rec js (type_category TypeId.pointer) rt place (with_null name)
        ≡ done (some jansson.null) none (take_json (with_null name))
  unfolding switch_json type_category pointer_json
  null-written rec rt name = rw null-loaded refl

  -- Where no hook has a serializer or a deserializer, the debugger gives the kind, the name and the
  -- size of a pointer type, and there is memory for a block of that size, which does not wrap
  -- around with the size of an RMemory: _json_deserialize reads a JSON null to a new block of that
  -- type that holds NULL and sets no error, and _json_serialize of that block gives null again.
  pub deserialize_value-null :
      NoSerializers E js
      → NoDeserializers E js
      → (name : Option RString) (d e : ℕ) → backend.get_size p ≡ returned size
      → has_room (to_unsigned 64 size) ≡ true
      → Typed E p TypeId.pointer place
      → (q : Option RString) × (deserialize_value E
            (suc d)
            js
            true
            (new_object p TypeId.pointer r name)
            (some jansson.null)
            w
          ≡ done place none (with_null q))
        × (serialize_value E
              (suc e)
              js
              (new_object p TypeId.pointer r name)
              place
              true
              (with_null q)
            ≡ done (some jansson.null) none (take_json (with_null q)))
  unfolding deserialize_value serialize_value
  deserialize_value-null no_ser no_des name d e told room (id, (text, named), address) =
      let rec : Deserializer E = deserialize_value E d js true in
      let out : Serializer E = λ u v. serialize_value E e js u v true in
      let (s, read) =
        deserialize-switch E js rec (deserialize_value E d js false) p TypeId.pointer r name text
          (some jansson.null) w no_des named pointer-known in
      let (s', written) =
        step-new_object E p TypeId.pointer r js no_ser out (λ u v. serialize_value E e js u v false)
          place name (with_null (some s)) (id, (text, named), address) pointer-known in
      (
        some s,
        rw read (null-read rec (some s) told room address),
        rw written (null-written out (new_object p TypeId.pointer r (some s')) (some s)),
      )
