-- ===== src/Json/Deserialize.antt =====
-- util/ruminate-jansson/deserialize.c: the dispatch on the kind of a type, hooks, and
-- json_deserialize.
pub mod Values
pub mod Struct
pub mod Array
pub mod Scalar
pub mod RoundTrip
pub mod Refused
pub mod Null
pub mod Overrun
pub mod Fields
pub mod Members
pub mod Stored
pub mod StructTrip
pub mod Items
pub mod ArrayTrip
pub mod Invert
pub mod Hooked
use ruminate.Base.{
  ℕ, zero, suc, String, Bool, true, false, Option, none, some, List, [], ◌∷◌, ◌==◌, if◌then◌else◌,
}
use ruminate.Errors.{Call}
use ruminate.RString.{r_string_quark}
use ruminate.RType.{RTypeId, RAggregateTypeId, RType}
use ruminate.RType.Query.{r_type_id, r_type_name, r_aggregate_type_id, r_pointer_type_pointee}
use ruminate.RMemory.{r_mem_malloc_fn}
use ruminate.Lookup.{ruminate_get_types_by_name}
use ruminate.World.{
  Addr, World, out_of_fuel, Cmd, pure, fail, modify, assert_false, use_null, ◌>>=◌, ◌>>◌, attempt,
  take_type, take_string, drop_type, drop_string,
}
use ruminate.Json.{JsonHook, JsonDeserializeCont, Env, JsonState, json_state_new, json_state_unref}
use Values.{Deserializer, write_value, json_deserialize_builtin, json_deserialize_enum}
use Struct.{json_deserialize_struct}
use Array.{json_deserialize_array}

module _ (E : Env) where
  open E use {glib, backend, jansson, datalist, malloc}
  open jansson use {Json}

  aggregate_value : Deserializer E → RAggregateTypeId → RType → Option Json → Cmd Addr
  aggregate_value rec RAggregateTypeId.union rat value = assert_false
  aggregate_value rec RAggregateTypeId.function rat value = assert_false
  aggregate_value rec RAggregateTypeId.struct rat value = json_deserialize_struct E rec rat value
  aggregate_value rec RAggregateTypeId.enum rat value = json_deserialize_enum E rat value
  aggregate_value rec RAggregateTypeId.unknown rat value = pure 0

  json_deserialize_aggregate : Deserializer E → Deserializer E
  unfolding aggregate_value
  json_deserialize_aggregate rec rat value =
      attempt (r_aggregate_type_id rat) (λ id. aggregate_value rec id rat value) (λ e. fail e 0)

  -- A new pointer to `pt`: the allocation may not fail.
  point_to : RType → Addr → Cmd Addr
  point_to rt pt = do ppt ← (r_mem_malloc_fn malloc backend rt).1; write_value 8 ppt pt; pure ppt

  -- A JSON null is a new pointer to NULL, or NULL where the allocation gives that.
  unfoldable pub null_value : RType → Cmd Addr
  null_value rt = do
    ppt ← (r_mem_malloc_fn malloc backend rt).1
    if ppt == 0 then pure 0 else (do write_value 8 ppt 0; pure ppt)

  unfoldable pub pointer_value : Deserializer E → Deserializer E
  unfolding point_to null_value
  pointer_value rec rt json =
      if jansson.is_null json
      then null_value rt
      else attempt (r_pointer_type_pointee backend rt)
          (λ pointee. do modify take_type; pt ← rec pointee json; drop_type; point_to rt pt)
          (λ e. use_null)

  -- The switch of _json_deserialize, which has no case for a typedef.
  pub switch_value : Deserializer E → RTypeId → Deserializer E
  switch_value rec RTypeId.builtin rt json = json_deserialize_builtin E rt json
  switch_value rec RTypeId.aggregate rt json = json_deserialize_aggregate rec rt json
  switch_value rec RTypeId.pointer rt json = pointer_value rec rt json
  switch_value rec RTypeId.array rt json = json_deserialize_array E rec rt json
  switch_value rec RTypeId.typedef rt json = assert_false
  switch_value rec RTypeId.unknown rt json = assert_false

  unfoldable pub hook_deserializer :
      Option (JsonHook Json) → Option (JsonDeserializeCont Json → JsonDeserializeCont Json)
  hook_deserializer none = none
  hook_deserializer (some hook) = hook.deserializer

  unfoldable pub deserializer_for :
      JsonState E → Bool → ℕ → Option (JsonDeserializeCont Json → JsonDeserializeCont Json)
  unfolding hook_deserializer
  deserializer_for js false typeid = none
  deserializer_for js true typeid = hook_deserializer (datalist.id_get_data js.handlers typeid)

  -- What a hook's deserializer returns is the result, NULL too.
  pub hooked_value :
      Option (JsonDeserializeCont Json → JsonDeserializeCont Json)
      → Deserializer E
      → Deserializer E
      → RTypeId
      → Deserializer E
  hooked_value none rec cont id rt json = switch_value rec id rt json
  hooked_value (some deserializer) rec cont id rt json = deserializer cont rt json

  pub named_value : Deserializer E → Deserializer E → JsonState E → Bool → RTypeId → Deserializer E
  named_value rec cont js do_hook id rt json =
      let (rt', name) = r_type_name glib backend rt in
      attempt name
        (λ s. do
          modify take_string
          drop_string
          hooked_value (deserializer_for js do_hook (r_string_quark glib s).1) rec cont id rt' json)
        (λ e. use_null)

  pub known_value : Deserializer E → Deserializer E → JsonState E → Bool → RTypeId → Deserializer E
  unfolding named_value
  known_value rec cont js do_hook RTypeId.unknown rt json = pure 0
  known_value rec cont js do_hook id rt json = named_value rec cont js do_hook id rt json

  pub deserialize_step : Deserializer E → Deserializer E → JsonState E → Bool → Deserializer E
  unfolding known_value
  deserialize_step rec cont js do_hook rt json =
      known_value rec cont js do_hook (r_type_id rt) rt json

  -- _json_deserialize, with the depth of the calls as fuel.
  pub deserialize_value : ℕ → JsonState E → Bool → Deserializer E
  deserialize_value zero js do_hook rt json = λ w. out_of_fuel
  deserialize_value (suc depth) js do_hook rt json =
      deserialize_step (deserialize_value depth js true) (deserialize_value depth js false) js
        do_hook rt json

  abbrev take_types : List RType → World → World
  take_types [] w = w
  take_types (t ∷ ts) w = take_types ts (take_type w)

  drop_types : List RType → Cmd (Unit {0})
  drop_types [] = pure tt
  drop_types (t ∷ ts) = do drop_type; drop_types ts

  -- The first type of the name.
  unfoldable deserialize_typed : ℕ → JsonState E → Option Json → List RType → Cmd Addr
  unfolding drop_types
  deserialize_typed depth js value [] = use_null
  deserialize_typed depth js value (type ∷ types) = do
    modify (take_types (type ∷ types))
    ret ← deserialize_value depth js true type value
    drop_types (type ∷ types)
    pure ret

  -- json_object_get, of NULL for NULL.
  member_of : Option Json → String → Option Json
  member_of none key = none
  member_of (some json) key = jansson.object_get json key

  unfoldable deserialize_with : ℕ → JsonState E → Option Json → Cmd Addr
  unfolding member_of
  deserialize_with depth js json =
      attempt (ruminate_get_types_by_name backend (jansson.string_value (member_of json "type")))
        (λ types. deserialize_typed depth js (member_of json "value") types) (λ e. fail e 0)

  -- A state of the call's own is freed at its end, and the caller's stays.
  pub json_deserialize : ℕ → Option (JsonState E) → Option Json → Cmd (Addr × Option (JsonState E))
  json_deserialize depth none json = do
    ret ← deserialize_with depth (json_state_new E) json
    pure (ret, json_state_unref E (json_state_new E))
  json_deserialize depth (some js) json = do
    ret ← deserialize_with depth js json
    pure (ret, some js)
