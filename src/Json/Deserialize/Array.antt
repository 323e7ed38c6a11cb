-- ===== src/Json/Deserialize/Array.antt =====
-- json_deserialize_array of util/ruminate-jansson/deserialize.c, over the call `rec` of
-- _json_deserialize that it makes.
use ruminate.Base.{ℕ, zero, suc, ◌+◌, ◌*◌, ◌%◌, ◌^◌, Option, none, some}
use ruminate.Errors.{GError, Call}
use ruminate.RType.{RType}
use ruminate.RType.Query.{r_type_size, r_array_type_size}
use ruminate.RMemory.{r_mem_malloc_sized_fn, r_mem_unref}
use ruminate.Member.{r_type_member_type, r_type_member_offset, r_array_type_member_at}
use ruminate.World.{
  Addr, Cmd, pure, fail, modify, assert_false, use_null, catch, ◌>>◌, attempt, take_type,
  take_member, drop_type, drop_member, advance,
}
use ruminate.Json.{Env}
use ruminate.Json.Deserialize.Values.{Deserializer, memcpy}

module _ (E : Env) where
  open E use {glib, backend, jansson, tid, malloc}
  open jansson use {Json}

  -- A call whose failure is an assertion.
  sure : {A B : Type 0} → Call A → (A → Cmd B) → Cmd B
  sure answer k = attempt answer k (λ e. assert_false)

  unfoldable pub item_at : Option Json → ℕ → Option Json
  item_at none i = none
  item_at (some array) i = jansson.array_get array i

  -- An error leads to json_decref, of the memory of the array.
  place_item : RType → Addr → ℕ → Addr → Option GError → Cmd (Unit {0})
  place_item rt out rt_size memb (some e) = use_null
  place_item rt out rt_size memb none = do
    memcpy out memb rt_size
    r_mem_unref glib memb
    drop_type
    drop_member

  unfoldable pub read_item : Deserializer E → RType → Option Json → Addr → ℕ → Cmd (Unit {0})
  unfolding place_item
  read_item rec rt none out rt_size = assert_false
  read_item rec rt (some memb_json) out rt_size =
      catch (rec rt (some memb_json)) (place_item rt out rt_size)

  -- The rounds left, and the index.
  unfoldable pub items_loop : Deserializer E → ℕ → RType → Option Json → Addr → ℕ → Cmd (Unit {0})
  unfolding sure
  items_loop rec zero rat value array i = pure tt
  items_loop rec (suc rounds) rat value array i =
      let (rat', at) = r_array_type_member_at backend tid rat i in
      attempt at
        (λ tm. do
          modify take_member
          let (tm', type) = r_type_member_type glib backend tm
          attempt type
              (λ rt. do
                modify take_type
                let (rt', answer) = r_type_size backend rt
                sure answer (λ rt_size.
                    attempt (r_type_member_offset backend tm')
                      (λ offset. do
                        read_item rec rt' (item_at value i) (advance array offset) rt_size
                        items_loop rec rounds rat' value array (i + 1))
                      (λ e. use_null)))
              (λ e. use_null))
        (λ e. use_null)

  fill_array : Deserializer E → ℕ → RType → Option Json → Addr → Option GError → Cmd Addr
  fill_array rec size rat value array (some e) = assert_false
  fill_array rec size rat value array none = do items_loop rec size rat value array 0; pure array

  -- `size * type_size` is a size_t.
  unfoldable pub json_deserialize_array : Deserializer E → Deserializer E
  unfolding sure fill_array
  json_deserialize_array rec rat value =
      let (sized, count) = r_array_type_size backend tid rat in
      attempt count
        (λ size.
          let (known, answer) = r_type_size backend sized in
          sure answer (λ type_size.
            let (same, allocate) =
              r_mem_malloc_sized_fn malloc backend known (size * type_size % 2 ^ 64) in
            catch allocate (fill_array rec size same value)))
        (λ e. fail e 0)
