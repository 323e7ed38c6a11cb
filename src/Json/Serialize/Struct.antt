-- ===== src/Json/Serialize/Struct.antt =====
-- json_serialize_struct_member and json_serialize_struct of util/ruminate-jansson/serialize.c, over
-- the call `rec` of _json_serialize that they make.
use ruminate.Base.{ℕ, zero, suc, ◌+◌, Bool, true, false, ◌||◌, Option, none, some}
use ruminate.Errors.{GError}
use ruminate.RString.{RString, r_string_bytes}
use ruminate.RType.{RType}
use ruminate.RType.Query.{r_aggregate_type_nmembers}
use ruminate.Member.{
  RTypeMember, r_type_member_type, r_type_member_offset, r_aggregate_type_member_at,
  r_aggregate_member_name,
}
use ruminate.World.{
  Addr, Cmd, pure, fail, modify, assert_false, catch, ◌>>=◌, ◌>>◌, attempt, take_type, take_member,
  take_string, take_json, drop_type, drop_member, drop_string, drop_json, advance,
}
use ruminate.Json.{Env}
use ruminate.Json.Serialize.Values.{Serializer}

module _ (E : Env) where
  open E use {glib, backend, jansson, datalist, tid, double_to_int}
  open jansson use {Json}

  -- The end of json_serialize_struct_member, from json_object_set on.
  store_member : Json → RString → Option Json → Cmd (Bool × Json)
  store_member obj name none = assert_false
  store_member obj name (some obj') = do drop_string; drop_type; pure (true, obj')

  name_member : RTypeMember → Json → Json → Cmd (Bool × Json)
  unfolding store_member
  name_member ram obj obj_memb =
      attempt (r_aggregate_member_name glib backend ram).1
        (λ name. do
          modify take_string
          store_member obj name (jansson.object_set obj (r_string_bytes name) obj_memb))
        (λ e. do drop_json; drop_type; fail e (false, obj))

  add_member : RTypeMember → Json → Option Json → Option GError → Cmd (Bool × Json)
  unfolding name_member
  add_member ram obj obj_memb (some e) = do drop_type; fail e (false, obj)
  add_member ram obj none none = do drop_type; pure (false, obj)
  add_member ram obj (some j) none = name_member ram obj j

  -- The object is changed in place: it is returned beside the function's own result.
  unfoldable pub json_serialize_struct_member :
      Serializer E → RTypeMember → Addr → Json → Cmd (Bool × Json)
  unfolding add_member
  json_serialize_struct_member rec ram value obj =
      let (ram', type) = r_type_member_type glib backend ram in
      attempt type (λ rt. do modify take_type; catch (rec rt value) (add_member ram' obj))
        (λ e. fail e (false, obj))

  -- The rounds left, and the index. The result is none where the loop goes to error_in_loop.
  unfoldable pub struct_loop :
      Serializer E → ℕ → RType → Addr → ℕ → Json → Bool → Cmd (Option (Bool × Json))
  struct_loop rec zero rat value i obj did_insert = pure (some (did_insert, obj))
  struct_loop rec (suc rounds) rat value i obj did_insert =
      let (rat', at) = r_aggregate_type_member_at backend rat i in
      attempt at
        (λ memb. do
          modify take_member
          attempt (r_type_member_offset backend memb)
              (λ offset.
                catch (json_serialize_struct_member rec memb (advance value offset) obj)
                  (λ (inserted, obj') err. do
                    drop_member
                    elim err [
                      | some e ↦ fail e none
                      | none ↦
                          struct_loop rec rounds rat' value (i + 1) obj' (did_insert || inserted)
                    ]))
              (λ e. do drop_member; fail e none))
        (λ e. fail e none)

  finish_struct : Option (Bool × Json) → Cmd (Option Json)
  finish_struct none = do drop_json; pure none
  finish_struct (some (true, obj)) = pure (some obj)
  finish_struct (some (false, obj)) = do drop_json; pure none

  unfoldable pub json_serialize_struct : Serializer E → RType → Addr → Cmd (Option Json)
  unfolding finish_struct
  json_serialize_struct rec rat value =
      let (rat', count) = r_aggregate_type_nmembers backend rat in
      do
        modify take_json
        attempt count
            (λ members. do
              r ← struct_loop rec members rat' value 0 jansson.object false
              finish_struct r)
            (λ e. do drop_json; fail e none)
