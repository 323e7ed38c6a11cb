-- ===== src/Json/Deserialize/Struct.antt =====
-- json_deserialize_struct_member and json_deserialize_struct of util/ruminate-jansson/deserialize.c,
-- over the call `rec` of _json_deserialize that they make.
use ruminate.Base.{ℕ, zero, suc, ◌+◌, String, Bool, true, false, Option, none, some}
use ruminate.Errors.{GError}
use ruminate.RString.{r_string_bytes}
use ruminate.RType.{RType}
use ruminate.RType.Query.{r_type_size, r_aggregate_type_nmembers}
use ruminate.RMemory.{r_mem_malloc_fn, r_mem_unref}
use ruminate.Member.{
  RTypeMember, r_type_member_type, r_type_member_offset, r_aggregate_type_member_at,
  r_aggregate_member_name,
}
use ruminate.World.{
  Addr, Cmd, pure, fail, modify, catch, ◌>>=◌, ◌>>◌, attempt, take_type, take_member, take_string,
  drop_type, drop_member, drop_string, advance,
}
use ruminate.Json.{Env}
use ruminate.Json.Deserialize.Values.{Deserializer, memcpy}

module _ (E : Env) where
  open E use {glib, backend, jansson, malloc}
  open jansson use {Json}

  -- json_object_get, of NULL for NULL.
  unfoldable pub object_member : Option Json → String → Option Json
  object_member none key = none
  object_member (some obj) key = jansson.object_get obj key

  -- The value that was read is copied to its place and given back.
  unfoldable pub place_value : RType → Addr → Addr → Option GError → Cmd Bool
  place_value rt out memb (some e) = do drop_type; fail e false
  place_value rt out memb none =
      attempt (r_type_size backend rt).1
        (λ size. do memcpy out memb size; r_mem_unref glib memb; drop_type; pure true)
        (λ e. do r_mem_unref glib memb; drop_type; fail e false)

  unfoldable pub json_deserialize_struct_member :
      Deserializer E → RTypeMember → Option Json → Addr → Cmd Bool
  unfolding place_value
  json_deserialize_struct_member rec ram value out =
      attempt (r_type_member_type glib backend ram).1
        (λ rt. do modify take_type; catch (rec rt value) (place_value rt out)) (λ e. fail e false)

  -- The rounds left, and the index. The result is whether the loop ran to its end.
  unfoldable pub struct_members_loop :
      Deserializer E → ℕ → RType → Option Json → Addr → ℕ → Cmd Bool
  struct_members_loop rec zero rat value st i = pure true
  struct_members_loop rec (suc rounds) rat value st i =
      let (rat', at) = r_aggregate_type_member_at backend rat i in
      attempt at
        (λ memb. do
          modify take_member
          attempt (r_type_member_offset backend memb)
              (λ offset.
                let (memb', name) = r_aggregate_member_name glib backend memb in
                attempt name
                  (λ memb_name. do
                    modify take_string
                    catch
                        (json_deserialize_struct_member rec memb'
                          (object_member value (r_string_bytes memb_name)) (advance st offset))
                        (λ inserted err. elim err [
                          | some e ↦ do drop_string; drop_member; fail e false
                          | none ↦ do
                            drop_member
                            drop_string
                            struct_members_loop rec rounds rat' value st (i + 1)
                        ]))
                  (λ e. do drop_member; fail e false))
              (λ e. do drop_member; fail e false))
        (λ e. fail e false)

  finish_struct : Addr → Bool → Cmd Addr
  finish_struct st true = pure st
  finish_struct st false = do r_mem_unref glib st; pure 0

  unfoldable pub fill_struct :
      Deserializer E → RType → Option Json → Addr → Option GError → Cmd Addr
  unfolding finish_struct
  fill_struct rec rat value st (some e) = fail e 0
  fill_struct rec rat value st none =
      let (rat', count) = r_aggregate_type_nmembers backend rat in
      attempt count
        (λ members. do
          whole ← struct_members_loop rec members rat' value st 0
          finish_struct st whole)
        (λ e. do r_mem_unref glib st; fail e 0)

  unfoldable pub json_deserialize_struct : Deserializer E → Deserializer E
  unfolding fill_struct
  json_deserialize_struct rec rat value =
      let (rat', allocate) = r_mem_malloc_fn malloc backend rat in
      catch allocate (fill_struct rec rat' value)
