-- ===== src/Json/Deserialize/RoundTrip.antt =====
-- Integers through util/ruminate-jansson/deserialize.c and back through serialize.c.
use ruminate.Base.{
  ℕ, suc, ◌*◌, ◌^◌, ◌<◌, String, ◌≡◌, refl, ap, ◌≢◌, true, false, Option, none, some, Bool,
}
use ruminate.Base.Int.{to_signed, to_unsigned}
use ruminate.Errors.{returned, Call, ok}
use ruminate.Backend.{TypePrx, TypeId}
use ruminate.RString.{RString, r_string_quark}
use ruminate.RType.{RTypeId, RType, type_category}
use ruminate.RType.New.{new_object}
use ruminate.RType.Query.{r_type_id, r_type_name}
use ruminate.RMemory.Fresh.{Serves}
use ruminate.World.{
  Addr, World, done, attempt, modify, drop_string, take_string, take_json, use_null, ◌>>◌,
}
use ruminate.Json.{Env}
use ruminate.Json.Fits.{Typed}
use ruminate.Json.Serialize.{switch_json, serialize_value}
use ruminate.Json.Serialize.Values.{State, Serializer, json_serialize_builtin}
use ruminate.Json.Encoding.Step.{NoSerializers, r_type_name-new_object, step-new_object}
use ruminate.Json.Deserialize.{
  switch_value, deserializer_for, hooked_value, named_value, known_value, deserialize_step,
  deserialize_value,
}
use ruminate.Json.Deserialize.Values.{Deserializer, json_deserialize_builtin}
use ruminate.Json.Deserialize.Scalar.{IsInteger, filled, json_deserialize_builtin-integer}

module _ (E : Env) (js : State E) where
  open E use {glib, backend, jansson, tid, malloc}
  open jansson use {Json}

  -- No hook of this state has a deserializer.
  abbrev pub NoDeserializers : Type 0
  NoDeserializers = (q : ℕ) → deserializer_for E js true q ≡ none

  pub known-named :
      (rec cont : Deserializer E) (do_hook : Bool) (id : RTypeId) (rt : RType) (json : Option Json)
      (w : World)
      → id ≢ RTypeId.unknown
      → known_value E rec cont js do_hook id rt json w
        ≡ named_value E rec cont js do_hook id rt json w
  unfolding known_value
  known-named rec cont do_hook RTypeId.unknown rt json w known = absurd (known refl)
  known-named rec cont do_hook _ rt json w known = refl

  pub named-hooked :
      (rec cont : Deserializer E) (do_hook : Bool) (id : RTypeId) (rt rt' : RType) (s : RString)
      (json : Option Json) (w : World)
      → r_type_name glib backend rt ≡ (rt', ok s)
      → named_value E rec cont js do_hook id rt json w
        ≡ hooked_value E
            (deserializer_for E js do_hook (r_string_quark glib s).1)
            rec
            cont
            id
            rt'
            json
            w
  unfolding named_value
  named-hooked rec cont do_hook id rt rt' s json w answer =
      ap
        (λ (x : RType × Call RString).
          attempt x.1
            (λ u. do
              modify take_string
              drop_string
              hooked_value E (deserializer_for E js do_hook (r_string_quark glib u).1) rec cont id
                  x.0 json)
            (λ e. use_null) w)
        answer

  -- An object that answers with its name is read by the switch on its kind.
  pub deserialize-named :
      (rec cont : Deserializer E) (rt rt' : RType) (s : RString) (json : Option Json) (w : World)
      → NoDeserializers
      → r_type_id rt ≢ RTypeId.unknown
      → r_type_name glib backend rt ≡ (rt', ok s)
      → deserialize_step E rec cont js true rt json w ≡ switch_value E rec (r_type_id rt) rt' json w
  unfolding deserialize_step hooked_value
  deserialize-named rec cont rt rt' s json w quiet known answer =
      rw (known-named rec cont true (r_type_id rt) rt json w known) (
        rw (named-hooked rec cont true (r_type_id rt) rt rt' s json w answer)
          (rw (quiet (r_string_quark glib s).1) refl))

  -- So is a new object, whose type's name the debugger gives.
  pub deserialize-switch :
      (rec cont : Deserializer E) (p : TypePrx) (t : TypeId) (r : ℕ) (name : Option RString)
      (n : String) (json : Option Json) (w : World)
      → NoDeserializers
      → backend.get_name p ≡ returned n
      → type_category t ≢ RTypeId.unknown
      → (s : RString) × (deserialize_step E rec cont js true (new_object p t r name) json w
          ≡ switch_value E rec (type_category t) (new_object p t r (some s)) json w)
  unfolding r_type_id new_object
  deserialize-switch rec cont p t r name n json w quiet named known =
      let (s, answer) = r_type_name-new_object E p t r n name named in
      (
        s,
        deserialize-named rec cont (new_object p t r name) (new_object p t r (some s)) s json w
            quiet known answer,
      )

  pub integer-known :
      (t : TypeId) (bytes : ℕ) → IsInteger t bytes → type_category t ≢ RTypeId.unknown
  unfolding type_category
  integer-known _ _ IsInteger.int e = cc
  integer-known _ _ IsInteger.long e = cc
  integer-known _ _ IsInteger.short e = cc
  integer-known _ _ IsInteger.char e = cc

  integer-written :
      (rec : Serializer E) (t : TypeId) (bytes : ℕ) (rt : RType) (a : Addr) (w : World)
      → IsInteger t bytes
      → switch_json E rec js (type_category t) rt a w ≡ json_serialize_builtin E js rt a w
  unfolding type_category switch_json
  integer-written rec _ _ rt a w IsInteger.int = refl
  integer-written rec _ _ rt a w IsInteger.long = refl
  integer-written rec _ _ rt a w IsInteger.short = refl
  integer-written rec _ _ rt a w IsInteger.char = refl

  pub integer-read :
      (rec : Deserializer E) (t : TypeId) (bytes : ℕ) (rt : RType) (json : Option Json) (w : World)
      → IsInteger t bytes
      → switch_value E rec (type_category t) rt json w ≡ json_deserialize_builtin E rt json w
  unfolding type_category switch_value
  integer-read rec _ _ rt json w IsInteger.int = refl
  integer-read rec _ _ rt json w IsInteger.long = refl
  integer-read rec _ _ rt json w IsInteger.short = refl
  integer-read rec _ _ rt json w IsInteger.char = refl

  -- Where no hook has a serializer or a deserializer, the debugger knows the integer type and
  -- allocation is served: _json_deserialize reads a JSON integer in the range of the type to a new
  -- block and sets no error, and _json_serialize of that block gives the same JSON integer.
  pub deserialize_value-serialize_value :
      NoSerializers E js
      → NoDeserializers
      → (t : TypeId) (bytes n : ℕ) → IsInteger t bytes
      → n < 256 ^ bytes
      → (p : TypePrx) (r : ℕ) (name : Option RString) (d e : ℕ) (w : World)
      → (s : Serves backend tid malloc t bytes w) → Typed E p t (malloc w.heap bytes)
      → let j = jansson.integer (to_signed (8 * bytes) n) in
        let w' = filled E t bytes w s (to_unsigned 64 (to_signed (8 * bytes) n)) in
        let a = malloc w.heap bytes in
        (deserialize_value E (suc d) js true (new_object p t r name) (some j) w ≡ done a none w')
        × (serialize_value E (suc e) js (new_object p t r name) a true w'
            ≡ done (some j) none (take_json w'))
  unfolding deserialize_value serialize_value
  deserialize_value-serialize_value no_ser no_des t bytes n is h p r name d e w s
        (id, (text, named), address) =
      let known = integer-known t bytes is in
      let a = malloc w.heap bytes in
      let w' = filled E t bytes w s (to_unsigned 64 (to_signed (8 * bytes) n)) in
      let rec : Deserializer E = deserialize_value E d js true in
      let out : Serializer E = λ u v. serialize_value E e js u v true in
      let (q, read) =
        deserialize-switch rec (deserialize_value E d js false) p t r name text
          (some (jansson.integer (to_signed (8 * bytes) n))) w no_des named known in
      let (q', written) =
        step-new_object E p t r js no_ser out (λ u v. serialize_value E e js u v false) a name w'
          (id, (text, named), address) known in
      (
        rw read (
            rw
              (integer-read rec t bytes (new_object p t r (some q))
                (some (jansson.integer (to_signed (8 * bytes) n))) w is)
              (json_deserialize_builtin-integer E js p r (some q) w t bytes n is h s).0),
        rw written (
            rw (integer-written out t bytes (new_object p t r (some q')) a w' is)
              (json_deserialize_builtin-integer E js p r (some q') w t bytes n is h s).1),
      )
