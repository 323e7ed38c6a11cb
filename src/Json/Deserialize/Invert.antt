-- ===== src/Json/Deserialize/Invert.antt =====
-- json_deserialize of util/ruminate-jansson/deserialize.c on what json_serialize of serialize.c writes
-- with JSON_FLAG_INVERTABLE.
use ruminate.Base.Int.{to_signed, to_unsigned}
use ruminate.Base.{
  ℕ, suc, ◌+◌, ◌*◌, ◌^◌, ◌<◌, ◌≡◌, ◌==◌, refl, none, some, List, [], ◌∷◌, length, ap, ◌∙◌, String,
  true, false, arith,
}
use ruminate.Errors.{returned, ok, gxx_call}
use ruminate.Backend.{TypePrx, TypeId}
use ruminate.RType.{RType}
use ruminate.RType.New.{new_object, r_type_new-new_object}
use ruminate.Lookup.{types_of, ruminate_get_types_by_name}
use ruminate.RMemory.Fresh.{Serves, Serves-heap}
use ruminate.RString.{c_str}
use ruminate.World.{Addr, World, done, load, store}
use ruminate.Words.{load-lt, load-store}
use ruminate.Json.{Env, is_invertable}
use ruminate.Json.Fits.{Fits}
use ruminate.Json.Shape.{Shape, spend, cost, add_cost, height, encode, cost_of}
use ruminate.Json.Serialize.{json_serialize}
use ruminate.Json.Serialize.Values.{State}
use ruminate.Json.Encoding.Step.{NoSerializers}
use ruminate.Json.Encoding.Whole.{json_serialize-invertable}
use ruminate.Json.Deserialize.RoundTrip.{
  NoDeserializers, deserialize-switch, integer-known, integer-read,
}
use ruminate.Json.Deserialize.Scalar.{IsInteger, filled, narrowed, json_deserialize_builtin-integer}
use ruminate.Json.Deserialize.Stored.{
  builtin_of, scalar_json-number, integer-start, integer-category, not_void,
}
use ruminate.Json.Deserialize.{
  deserialize_value, take_types, drop_types, deserialize_typed, deserialize_with, member_of,
  json_deserialize,
}

module _ (E : Env) where
  open E use {backend, jansson}
  open jansson use {Json}

  -- The world with other references to types.
  abbrev with_types : ℕ → World → World
  with_types n w = record w { types = n }

  take_types-count :
      (ts : List RType) (w : World) → take_types E ts w ≡ with_types (length ts + w.types) w
  take_types-count [] w = let e : w.types ≡ 0 + w.types = omega arith in ap (λ k. with_types k w) e
  take_types-count (t ∷ ts) w =
      let e : length ts + suc w.types ≡ suc (length ts) + w.types = omega arith in
      take_types-count ts (with_types (suc w.types) w) ∙ ap (λ k. with_types k w) e

  drop_types-count :
      (ts : List RType) (n : ℕ) (w : World)
      → drop_types E ts (with_types (length ts + n) w) ≡ done tt none (with_types n w)
  unfolding drop_types
  drop_types-count [] n w =
      let e : 0 + n ≡ n = omega arith in ap (λ k. done tt none (with_types k w)) e
  drop_types-count (t ∷ ts) n w =
      let e : suc (length ts) + n ≡ suc (length ts + n) = omega arith in
      rw e (rw (drop_types-count ts n w) refl)

  -- The debugger names the kind of each type.
  abbrev pub AllKinds : List TypePrx → Type 0
  AllKinds [] = Unit
  AllKinds (p ∷ ps) = ((t : TypeId) × (backend.get_id p ≡ returned t)) × AllKinds ps

  types_of-AllKinds :
      (ps : List TypePrx) → AllKinds ps → (ts : List RType) × (types_of backend ps ≡ ok ts)
  unfolding types_of
  types_of-AllKinds [] kinds = ([], refl)
  types_of-AllKinds (p ∷ ps) ((t, id), kinds) =
      let (ts, made) = types_of-AllKinds ps kinds in
      (new_object p t 1 none ∷ ts, rw made (rw (r_type_new-new_object backend p t id) refl))

  first_type :
      (p : TypePrx) (ps : List TypePrx) (t : TypeId)
      → backend.get_id p ≡ returned t
      → AllKinds ps
      → (ts : List RType) × (types_of backend (p ∷ ps) ≡ ok (new_object p t 1 none ∷ ts))
  unfolding types_of
  first_type p ps t id kinds =
      let (ts, made) = types_of-AllKinds ps kinds in
      (ts, rw made (rw (r_type_new-new_object backend p t id) refl))

  -- The value is read by the first type of the name, with a reference taken to each of the types.
  json_deserialize-first :
      (depth : ℕ) (js : State E) (obj j : Json) (s : String) (first : RType) (ts : List RType)
      (a : Addr) (w v : World) (n : ℕ)
      → jansson.object_get obj "value" ≡ some j
      → jansson.string_value (jansson.object_get obj "type") ≡ some s
      → ruminate_get_types_by_name backend (some s) ≡ ok (first ∷ ts)
      → deserialize_value E depth js true first
          (some j)
          (with_types (length (first ∷ ts) + w.types) w)
        ≡ done a none (with_types (length (first ∷ ts) + n) v)
      → json_deserialize E depth (some js) (some obj) w ≡ done (a, some js) none (with_types n v)
  unfolding json_deserialize deserialize_with deserialize_typed member_of
  json_deserialize-first depth js obj j s first ts a w v n value type found read = rw type (
      rw found (
        rw value (
          rw (take_types-count (first ∷ ts) w)
            (rw read (rw (drop_types-count (first ∷ ts) n v) refl)))))

  module _ (js : State E) (no_ser : NoSerializers E js) (no_des : NoDeserializers E js) where
    open E use {glib, tid, malloc}

    -- An integer is read by an object of its type.
    integer-deserialized :
        (t : TypeId) (bytes n d : ℕ) (p : TypePrx) (text : String) (w : World)
        → IsInteger t bytes
        → n < 256 ^ bytes
        → backend.get_name p ≡ returned text
        → (s : Serves backend tid malloc t bytes w)
        → let j = jansson.integer (to_signed (8 * bytes) n) in
          deserialize_value E (suc d) js true (new_object p t 1 none) (some j) w
          ≡ done
              (malloc w.heap bytes)
              none
              (filled E t bytes w s (to_unsigned 64 (to_signed (8 * bytes) n)))
    unfolding deserialize_value
    integer-deserialized t bytes n d p text w is small named s =
        let j = some (jansson.integer (to_signed (8 * bytes) n)) in
        let (q, read) =
          deserialize-switch E js (deserialize_value E d js true) (deserialize_value E d js false) p
            t 1 none text j w no_des named (integer-known E js t bytes is) in
        rw read (
          rw
            (integer-read E js (deserialize_value E d js true) t bytes (new_object p t 1 (some q)) j
              w is)
            (json_deserialize_builtin-integer E js p 1 (some q) w t bytes n is small s).0)

    -- The object with the name and the value is read to a block of the integer type.
    object-deserialized :
        (t : TypeId) (bytes n d : ℕ) (p : TypePrx) (ps : List TypePrx) (text : String) (obj : Json)
        (w : World)
        → IsInteger t bytes
        → n < 256 ^ bytes
        → backend.get_id p ≡ returned t
        → backend.get_name p ≡ returned text
        → backend.get_types_by_name (c_str text) ≡ returned (p ∷ ps)
        → AllKinds ps
        → jansson.object_get obj "type" ≡ some (jansson.string (c_str text))
        → jansson.object_get obj "value" ≡ some (jansson.integer (to_signed (8 * bytes) n))
        → (s : Serves backend tid malloc t bytes w)
        → (v : World) × (json_deserialize E (suc d) (some js) (some obj) w
            ≡ done (malloc w.heap bytes, some js) none v)
          × (v.memory
              ≡ store bytes
                  (malloc w.heap bytes)
                  (to_unsigned 64 (to_signed (8 * bytes) n))
                  w.memory)
          × (v.types ≡ suc (suc w.types))
    unfolding ruminate_get_types_by_name gxx_call
    object-deserialized t bytes n d p ps text obj w is small id named found kinds type value s =
        let (ts, made) = first_type p ps t id kinds in
        let first = new_object p t 1 none in
        let k = suc (length ts) in
        let u = with_types (k + w.types) w in
        let s' : Serves backend tid malloc t bytes u = Serves-heap u refl s.idle s in
        let v = filled E t bytes u s' (to_unsigned 64 (to_signed (8 * bytes) n)) in
        let e : suc (suc (k + w.types)) ≡ k + suc (suc w.types) = omega arith in
        (
          with_types (suc (suc w.types)) v,
          json_deserialize-first (suc d) js obj (jansson.integer (to_signed (8 * bytes) n))
              (c_str text) first ts (malloc w.heap bytes) w v (suc (suc w.types)) value
              (rw type (jansson.string_value-string text)) (rw found made)
              (integer-deserialized t bytes n d p text u is small named s'
                ∙ ap (λ i. done (malloc w.heap bytes) none (with_types i v)) e),
          refl,
          refl,
        )

    -- Where no hook has a serializer or a deserializer, JSON_FLAG_INVERTABLE is set, the debugger
    -- knows the integer type by its name, as the first of the types of that name, and the kinds of
    -- the others, and allocation is served: for an integer in memory that is not at NULL,
    -- json_serialize gives a JSON object, and json_deserialize reads that object, which says its
    -- own type, to a new block that has the bytes of the integer. Neither sets an error; three
    -- references to JSON values are left taken by the first, and two to types by the second.
    pub json_deserialize-json_serialize :
        (t : TypeId) (bytes d e r : ℕ) (p : TypePrx) (ps : List TypePrx) (text : String) (a : Addr)
        (w : World)
        → is_invertable js.flags ≡ true
        → IsInteger t bytes
        → backend.get_id p ≡ returned t
        → backend.get_name p ≡ returned text
        → backend.get_types_by_name (c_str text) ≡ returned (p ∷ ps)
        → AllKinds ps
        → (a == 0) ≡ false
        → (s : Serves backend tid malloc t bytes w)
        → let b = malloc w.heap bytes in
          let w' = spend (cost 0 0 3) w in
          (obj : Json) × (v : World) × (json_serialize E
              (suc e)
              (some js)
              (new_object p t r none)
              a
              w
            ≡ done (some obj, some js) none w')
          × (json_deserialize E (suc d) (some js) (some obj) w' ≡ done (b, some js) none v)
          × (load bytes v.memory b ≡ load bytes w.memory a)
          × (v.types ≡ w.types + 2)
    unfolding height encode cost_of ruminate_get_types_by_name
    json_deserialize-json_serialize t bytes d e r p ps text a w inv is id named found kinds address
          s =
        let n = load bytes w.memory a in
        let w' = spend (cost 0 0 3) w in
        let s' : Serves backend tid malloc t bytes w' = Serves-heap w' refl s.idle s in
        let z = to_unsigned 64 (to_signed (8 * bytes) n) in
        let j = jansson.integer (to_signed (8 * bytes) n) in
        let shape = Shape.scalar t (builtin_of t) in
        let value : encode E shape w.memory a ≡ some j =
          scalar_json-number E js w.heap a t bytes n w.memory a is refl in
        let fits : Fits E js.flags shape p w.memory a = (
          (id, (text, named), address),
          integer-start E js w.heap a t bytes is,
          integer-category E js w.heap a t bytes is,
          λ h. absurd (not_void E js w.heap a t bytes is h),
        ) in
        let (obj, written, type, stored) =
          json_serialize-invertable E js no_ser shape (suc e) p r text j a w inv (omega arith) fits
            named value in
        let paid : spend (add_cost (cost_of E shape w.memory a) (cost 0 0 2)) w ≡ w' =
          rw value refl in
        let (v, read, memory, types) =
          object-deserialized t bytes n d p ps text obj w' is (load-lt bytes a w.memory) id named
            found kinds type stored s' in
        (
          obj,
          v,
          written ∙ ap (λ u. done (some obj, some js) none u) paid,
          read,
          ap (λ m. load bytes m (malloc w.heap bytes)) memory
              ∙ (load-store bytes (malloc w.heap bytes) z w.memory
                  ∙ narrowed t bytes n is (load-lt bytes a w.memory)),
          omega (arith, types),
        )
