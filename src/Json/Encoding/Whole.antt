-- ===== src/Json/Encoding/Whole.antt =====
-- json_serialize of util/ruminate-jansson/serialize.c, on a value whose shape is known.
use ruminate.Base.{ℕ, ◌≤◌, String, ◌≡◌, refl, ◌≢◌, ap, true, false, Option, none, some, arith}
use ruminate.Errors.{returned}
use ruminate.Backend.{TypePrx, TypeId}
use ruminate.RString.{RString, c_str, r_string_bytes, r_string_ref, r_string_new_cxx}
use ruminate.RType.{RType}
use ruminate.RType.New.{new_object}
use ruminate.RType.Query.{r_type_name}
use ruminate.World.{Addr, World, done, take_json}
use ruminate.Json.{Env, is_invertable, json_state_new, json_state_unref}
use ruminate.Json.State.{release-hold}
use ruminate.Json.Serialize.{
  json_serialize, finish_json, wrap_json, invertable_json, set_or_keep, state_or_new, state_after,
  serializer_for, hook_serializer,
}
use ruminate.Json.Serialize.Values.{State}
use ruminate.Json.Shape.{Shape, kind_of, spend, height, encode, cost, add_cost, cost_of}
use ruminate.Json.Fits.{Fits}
use ruminate.Json.Encoding.Spending.{spend-spend}
use ruminate.Json.Encoding.Step.{NoSerializers}
use ruminate.Json.Encoding.{serialize_value-encode}

module _ (E : Env) where
  open E use {glib, backend, jansson}
  open jansson use {Json}

  finish_json-plain :
      (js : State E) (rt : RType) (o : Option Json) (w : World)
      → is_invertable js.flags ≡ false
      → finish_json E js rt o w ≡ done o none w
  unfolding finish_json
  finish_json-plain js rt none w plain = refl
  finish_json-plain js rt (some j) w plain = rw plain refl

  new_unref : json_state_unref E (json_state_new E) ≡ none
  new_unref = (release-hold E 0 (omega arith)).1

  new-NoSerializers : NoSerializers E (json_state_new E)
  unfolding serializer_for hook_serializer json_state_new
  new-NoSerializers q = rw (E.datalist.get-init q) refl

  type-value : ◌≢◌ {A = String} "value" "type"
  type-value e = cc

  invertable_json-keys :
      (name : RString) (j : Json)
      → (jansson.object_get (invertable_json E name j) "type"
          ≡ some (jansson.string (r_string_bytes name)))
        × (jansson.object_get (invertable_json E name j) "value" ≡ some j)
  unfolding invertable_json set_or_keep
  invertable_json-keys name j =
      let v = jansson.string (r_string_bytes name) in
      let (o, set, is) =
        jansson.object_set_succeeds jansson.object v "type" jansson.object-IsObject in
      let (o', set', is') = jansson.object_set_succeeds o j "value" is in
      (
        rw set (
            rw set' (
              rw (jansson.object_get-object_set_ne o j o' "value" "type" type-value set')
                (jansson.object_get-object_set_self jansson.object v o "type" set))),
        rw set (rw set' (jansson.object_get-object_set_self o j o' "value" set')),
      )

  spend-two : (w : World) → take_json (take_json w) ≡ spend (cost 0 0 2) w
  spend-two w = ground arith

  wrap_json-new_object :
      (p : TypePrx) (t : TypeId) (r : ℕ) (n : String) (j : Json) (w : World)
      → backend.get_name p ≡ returned n
      → wrap_json E (new_object p t r none) j w
        ≡ done
            (some (invertable_json E (r_string_ref glib (r_string_new_cxx n)) j))
            none
            (spend (cost 0 0 2) w)
  unfolding wrap_json r_type_name new_object
  wrap_json-new_object p t r n j w h = rw h (
      ap (λ u. done (some (invertable_json E (r_string_ref glib (r_string_new_cxx n)) j)) none u)
        (spend-two w))

  -- Called with NULL for the state, under the conditions of serialize_value-encode at no flags,
  -- json_serialize returns the value's JSON, and the state it made for the call is freed.
  pub json_serialize-stateless :
      (s : Shape) (depth : ℕ) (p : TypePrx) (r : ℕ) (name : Option RString) (a : Addr) (w : World)
      → height s ≤ depth
      → Fits E 0 s p w.memory a
      → json_serialize E depth none (new_object p (kind_of s) r name) a w
        ≡ done (encode E s w.memory a, none) none (spend (cost_of E s w.memory a) w)
  unfolding json_serialize state_or_new state_after json_state_new
  json_serialize-stateless s depth p r name a w h fits =
      rw (serialize_value-encode E (json_state_new E) new-NoSerializers s depth p r name a w h fits)
        (rw
          (finish_json-plain (json_state_new E) (new_object p (kind_of s) r name)
            (encode E s w.memory a) (spend (cost_of E s w.memory a) w) refl)
          (rw new_unref refl))

  module _ (js : State E) (no_hooks : NoSerializers E js) where
    -- Without JSON_FLAG_INVERTABLE, under the conditions of serialize_value-encode, json_serialize
    -- returns the value's JSON and leaves the state as it was.
    pub json_serialize-encode :
        (s : Shape) (depth : ℕ) (p : TypePrx) (r : ℕ) (name : Option RString) (a : Addr) (w : World)
        → is_invertable js.flags ≡ false
        → height s ≤ depth
        → Fits E js.flags s p w.memory a
        → json_serialize E depth (some js) (new_object p (kind_of s) r name) a w
          ≡ done (encode E s w.memory a, some js) none (spend (cost_of E s w.memory a) w)
    unfolding json_serialize state_or_new state_after
    json_serialize-encode s depth p r name a w plain h fits =
        rw (serialize_value-encode E js no_hooks s depth p r name a w h fits) (
          rw
            (finish_json-plain js (new_object p (kind_of s) r name) (encode E s w.memory a)
              (spend (cost_of E s w.memory a) w) plain)
            refl)

    -- With JSON_FLAG_INVERTABLE, for a new object whose type's name the debugger gives and a value that
    -- has JSON, the result is an object with the name as "type" and the JSON as "value", and two
    -- references more than those of the value and its parts are left taken; under the conditions of
    -- serialize_value-encode.
    pub json_serialize-invertable :
        (s : Shape) (depth : ℕ) (p : TypePrx) (r : ℕ) (n : String) (j : Json) (a : Addr) (w : World)
        → is_invertable js.flags ≡ true
        → height s ≤ depth
        → Fits E js.flags s p w.memory a
        → backend.get_name p ≡ returned n
        → encode E s w.memory a ≡ some j
        → (obj : Json) × (json_serialize E depth (some js) (new_object p (kind_of s) r none) a w
            ≡ done
                (some obj, some js)
                none
                (spend (add_cost (cost_of E s w.memory a) (cost 0 0 2)) w))
          × (jansson.object_get obj "type" ≡ some (jansson.string (c_str n)))
          × (jansson.object_get obj "value" ≡ some j)
    unfolding json_serialize finish_json state_or_new state_after r_string_bytes r_string_ref
        r_string_new_cxx
    json_serialize-invertable s depth p r n j a w inv h fits named has =
        let name = r_string_ref glib (r_string_new_cxx n) in
        (
          invertable_json E name j,
          rw (serialize_value-encode E js no_hooks s depth p r none a w h fits) (
              rw has (
                rw inv (
                  rw
                    (wrap_json-new_object p (kind_of s) r n j (spend (cost_of E s w.memory a) w)
                      named)
                    (ap (λ u. done (some (invertable_json E name j), some js) none u)
                      (spend-spend (cost_of E s w.memory a) (cost 0 0 2) w))))),
          (invertable_json-keys name j).0,
          (invertable_json-keys name j).1,
        )
