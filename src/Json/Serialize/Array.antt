-- ===== src/Json/Serialize/Array.antt =====
-- json_serialize_array of util/ruminate-jansson/serialize.c, over the call `rec` of _json_serialize.
use ruminate.Base.{ℕ, zero, suc, ◌+◌, Option, none, some}
use ruminate.Errors.{GError}
use ruminate.RType.{RType}
use ruminate.RType.Query.{r_array_type_size}
use ruminate.Member.{r_type_member_type, r_type_member_offset, r_array_type_member_at}
use ruminate.World.{
  Addr, Cmd, pure, fail, modify, catch, ◌>>=◌, ◌>>◌, attempt, take_type, take_member, take_json,
  drop_type, drop_member, drop_json, advance,
}
use ruminate.Json.{Env}
use ruminate.Json.Serialize.Values.{Serializer}

module _ (E : Env) where
  open E use {glib, backend, jansson, datalist, tid, double_to_int}
  open jansson use {Json}

  -- json_array_append, and the way out where it fails.
  append_member : Json → Option Json → Cmd (Option Json)
  append_member array none = do drop_json; drop_type; drop_member; pure none
  append_member array (some array') = do drop_type; drop_member; pure (some array')

  -- A member that is NULL with no error becomes a JSON null.
  unfoldable pub add_element : Json → Option Json → Option GError → Cmd (Option Json)
  unfolding append_member
  add_element array memb_json (some e) = do drop_type; drop_member; fail e none
  add_element array none none = do
    modify take_json
    append_member array (jansson.array_append array jansson.null)
  add_element array (some j) none = append_member array (jansson.array_append array j)

  -- The rounds left, and the index. The result is none where the loop goes to error_in_loop.
  unfoldable pub array_loop : Serializer E → ℕ → RType → Addr → ℕ → Json → Cmd (Option Json)
  unfolding add_element
  array_loop rec zero rat value i array = pure (some array)
  array_loop rec (suc rounds) rat value i array =
      let (rat', at) = r_array_type_member_at backend tid rat i in
      attempt at
        (λ tm. do
          modify take_member
          let (tm', type) = r_type_member_type glib backend tm
          attempt type
              (λ rt. do
                modify take_type
                attempt (r_type_member_offset backend tm')
                    (λ offset. do
                      r ← catch (rec rt (advance value offset)) (add_element array)
                      elim r [
                        | none ↦ pure none
                        | some array' ↦ array_loop rec rounds rat' value (i + 1) array'
                      ])
                    (λ e. do drop_type; drop_member; fail e none))
              (λ e. do drop_member; fail e none))
        (λ e. fail e none)

  finish_array : Option Json → Cmd (Option Json)
  finish_array none = do drop_json; pure none
  finish_array (some array) = pure (some array)

  unfoldable pub json_serialize_array : Serializer E → RType → Addr → Cmd (Option Json)
  unfolding finish_array
  json_serialize_array rec rat value =
      let (rat', count) = r_array_type_size backend tid rat in
      attempt count
        (λ size. do
          modify take_json
          r ← array_loop rec size rat' value 0 jansson.array
          finish_array r)
        (λ e. fail e none)
