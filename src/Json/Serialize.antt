-- ===== src/Json/Serialize.antt =====
-- util/ruminate-jansson/serialize.c: the dispatch on the kind of a type, hooks, and json_serialize.
pub mod Checks
pub mod Values
pub mod Struct
pub mod Enum
pub mod Array
pub mod Results
use ruminate.Base.{
  ℕ, zero, suc, ◌+◌, ◌*◌, Bool, true, false, not, ◌||◌, Option, none, some, ◌==◌, if◌then◌else◌,
}
use ruminate.Base.Int.{ℤ, int_eq, to_signed, to_unsigned}
use ruminate.Errors.{Call}
use ruminate.RString.{RString, r_string_bytes, r_string_quark}
use ruminate.RType.{RTypeId, RBuiltinTypeId, RAggregateTypeId, RType}
use ruminate.RType.Query.{
  r_type_id, r_type_name, r_builtin_type_id, r_builtin_type_is_signed, r_aggregate_type_id,
  r_aggregate_type_nmembers, r_array_type_size, r_pointer_type_pointee, r_typedef_type_canonical,
}
use ruminate.Member.{
  EnumValue, MemberExtension, RTypeMember, r_type_member_type, r_type_member_offset,
  r_aggregate_type_member_at, r_array_type_member_at, r_aggregate_member_name,
}
use ruminate.Member.Enum.{r_enum_member_value_signed, r_enum_member_value_unsigned}
use ruminate.World.{
  Addr, Memory, World, Run, assertion_failed, out_of_fuel, Cmd, pure, fail, modify, assert_false,
  use_null, catch, ◌>>=◌, ◌>>◌, attempt, take_type, take_member, take_string, take_json, drop_type,
  drop_member, drop_string, drop_json, load, advance,
}
use ruminate.Json.{
  JsonHook, JsonSerializeCont, Env, JsonState, is_invertable, skips_unknown, json_state_new,
  json_state_unref,
}
use Values.{State, Serializer, new_json, skip_or_abort, json_serialize_builtin}
use Struct.{json_serialize_struct}
use Enum.{json_serialize_enum}
use Array.{json_serialize_array}

module _ (E : Env) where
  open E use {glib, backend, jansson, datalist, tid, double_to_int}
  open jansson use {Json}

  aggregate_json : Serializer E → State E → RAggregateTypeId → RType → Addr → Cmd (Option Json)
  aggregate_json rec js RAggregateTypeId.union rat value = skip_or_abort E js
  aggregate_json rec js RAggregateTypeId.function rat value = skip_or_abort E js
  aggregate_json rec js RAggregateTypeId.struct rat value = json_serialize_struct E rec rat value
  aggregate_json rec js RAggregateTypeId.enum rat value = json_serialize_enum E js rat value
  aggregate_json rec js RAggregateTypeId.unknown rat value = pure none

  unfoldable pub json_serialize_aggregate :
      Serializer E → State E → RType → Addr → Cmd (Option Json)
  unfolding aggregate_json
  json_serialize_aggregate rec js rat value =
      attempt (r_aggregate_type_id rat) (λ id. aggregate_json rec js id rat value)
        (λ e. fail e none)

  -- `rec` on the type that `type` gives, with the reference to it given back.
  through : Serializer E → Call RType → Addr → Cmd (Option Json)
  through rec type value =
      attempt type (λ rt. do modify take_type; ret ← rec rt value; drop_type; pure ret)
        (λ e. use_null)

  unfoldable pub pointer_json : Serializer E → RType → Addr → Cmd (Option Json)
  unfolding through
  pointer_json rec rt pointee_value =
      if pointee_value == 0
      then new_json E jansson.null
      else through rec (r_pointer_type_pointee backend rt) pointee_value

  -- The switch of _json_serialize.
  unfoldable pub switch_json : Serializer E → State E → RTypeId → RType → Addr → Cmd (Option Json)
  unfolding pointer_json through
  switch_json rec js RTypeId.builtin rt value w = json_serialize_builtin E js rt value w
  switch_json rec js RTypeId.aggregate rt value w = json_serialize_aggregate rec js rt value w
  switch_json rec js RTypeId.pointer rt value w = pointer_json rec rt (load 8 w.memory value) w
  switch_json rec js RTypeId.array rt value w = json_serialize_array E rec rt value w
  switch_json rec js RTypeId.typedef rt value w =
      through rec (r_typedef_type_canonical backend rt) value w
  switch_json rec js RTypeId.unknown rt value w = assertion_failed

  unfoldable pub hook_serializer :
      Option (JsonHook Json) → Option (JsonSerializeCont Json → JsonSerializeCont Json)
  hook_serializer none = none
  hook_serializer (some hook) = hook.serializer

  unfoldable pub serializer_for :
      State E → Bool → ℕ → Option (JsonSerializeCont Json → JsonSerializeCont Json)
  unfolding hook_serializer
  serializer_for js false typeid = none
  serializer_for js true typeid = hook_serializer (datalist.id_get_data js.handlers typeid)

  run_hook :
      Option (JsonSerializeCont Json → JsonSerializeCont Json)
      → JsonSerializeCont Json
      → RType
      → Addr
      → Cmd (Option Json)
  run_hook none cont rt value = pure none
  run_hook (some serializer) cont rt value = serializer cont rt value

  -- The body of _json_serialize once the type has a name, with `rec` and `cont` the calls of
  -- _json_serialize that go through the hooks and past them.
  hook_or_switch :
      Serializer E → Serializer E → State E → RTypeId → RType → Addr → Bool → ℕ → Cmd (Option Json)
  unfolding run_hook
  hook_or_switch rec cont js id rt value do_hook typeid = do
    ret ← run_hook (serializer_for js do_hook typeid) cont rt value
    elim ret [ some j ↦ pure (some j) | none ↦ switch_json rec js id rt value ]

  pub named_json :
      Serializer E → Serializer E → State E → RTypeId → RType → Addr → Bool → Cmd (Option Json)
  unfolding hook_or_switch
  named_json rec cont js id rt value do_hook =
      let (rt', name) = r_type_name glib backend rt in
      attempt name
        (λ s. do
          modify take_string
          drop_string
          hook_or_switch rec cont js id rt' value do_hook (r_string_quark glib s).1)
        (λ e. use_null)

  -- NULL for a type of no known kind and for a value at NULL.
  pub checked_json :
      Serializer E → Serializer E → State E → RTypeId → RType → Addr → Bool → Cmd (Option Json)
  unfolding named_json
  checked_json rec cont js RTypeId.unknown rt value do_hook = pure none
  checked_json rec cont js id rt value do_hook =
      if value == 0 then pure none else named_json rec cont js id rt value do_hook

  unfoldable pub serialize_step :
      Serializer E → Serializer E → State E → RType → Addr → Bool → Cmd (Option Json)
  unfolding checked_json
  serialize_step rec cont js rt value do_hook =
      checked_json rec cont js (r_type_id rt) rt value do_hook

  -- _json_serialize, with the depth of the calls as fuel.
  unfoldable pub serialize_value : ℕ → State E → RType → Addr → Bool → Cmd (Option Json)
  serialize_value zero js rt value do_hook = λ w. out_of_fuel
  serialize_value (suc depth) js rt value do_hook =
      serialize_step (λ t v. serialize_value depth js t v true)
        (λ t v. serialize_value depth js t v false) js rt value do_hook

  -- A failure of json_object_set is not looked at.
  unfoldable pub set_or_keep : Json → Option Json → Json
  set_or_keep obj none = obj
  set_or_keep obj (some obj') = obj'

  unfoldable pub invertable_json : RString → Json → Json
  unfolding set_or_keep
  invertable_json name serialized =
      let obj =
        set_or_keep jansson.object
          (jansson.object_set jansson.object "type" (jansson.string (r_string_bytes name))) in
      set_or_keep obj (jansson.object_set obj "value" serialized)

  -- With JSON_FLAG_INVERTABLE: the new object and the string in it are references of the caller's.
  unfoldable pub wrap_json : RType → Json → Cmd (Option Json)
  wrap_json rt serialized =
      attempt (r_type_name glib backend rt).1
        (λ name. do
          modify take_string
          modify take_json
          modify take_json
          drop_string
          pure (some (invertable_json name serialized)))
        (λ e. do drop_json; fail e none)

  unfoldable pub finish_json : State E → RType → Option Json → Cmd (Option Json)
  finish_json js rt none = pure none
  finish_json js rt (some serialized) =
      if is_invertable js.flags then wrap_json rt serialized else pure (some serialized)

  unfoldable pub state_or_new : Option (State E) → State E
  state_or_new none = json_state_new E
  state_or_new (some js) = js

  -- What is left of a state that the call made for itself, and of the caller's.
  unfoldable pub state_after : Option (State E) → Option (State E)
  state_after none = json_state_unref E (json_state_new E)
  state_after (some js) = some js

  unfoldable pub json_serialize :
      ℕ → Option (State E) → RType → Addr → Cmd (Option Json × Option (State E))
  json_serialize depth js rt value = do
    serialized ← serialize_value depth (state_or_new js) rt value true
    ret ← finish_json (state_or_new js) rt serialized
    pure (ret, state_after js)
