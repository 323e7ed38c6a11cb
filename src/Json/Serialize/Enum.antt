-- ===== src/Json/Serialize/Enum.antt =====
-- json_serialize_enum of util/ruminate-jansson/serialize.c.
use ruminate.Base.{ℕ, zero, suc, ◌+◌, Bool, true, false, Option, none, some, ◌==◌}
use ruminate.Base.Int.{ℤ, int_eq, to_unsigned}
use ruminate.RType.{RBuiltinTypeId, RType}
use ruminate.RType.Query.{r_builtin_type_id, r_builtin_type_is_signed, r_aggregate_type_nmembers}
use ruminate.Member.{RTypeMember, r_type_member_type, r_aggregate_type_member_at}
use ruminate.Member.Enum.{r_enum_member_value_signed, r_enum_member_value_unsigned}
use ruminate.World.{
  Addr, Memory, Cmd, pure, fail, modify, assert_false, ◌>>=◌, ◌>>◌, attempt, take_type, take_member,
  drop_type, drop_member, load,
}
use ruminate.Json.{Env}
use ruminate.Json.Serialize.Values.{State, new_json, skip_or_abort, int_at, bool_at, bool_to_int}

module _ (E : Env) where
  open E use {glib, backend, jansson, datalist, tid, double_to_int}
  open jansson use {Json}

  -- `*((T *) value)` converted to json_int_t, for the type of an enumerator.
  unfoldable pub enum_value_at : RBuiltinTypeId → Memory → Addr → Option ℤ
  unfolding int_at bool_at
  enum_value_at RBuiltinTypeId.int m a = some (int_at 4 m a)
  enum_value_at RBuiltinTypeId.long m a = some (int_at 8 m a)
  enum_value_at RBuiltinTypeId.short m a = some (int_at 2 m a)
  enum_value_at RBuiltinTypeId.char m a = some (int_at 1 m a)
  enum_value_at RBuiltinTypeId.double m a = some (double_to_int (load 8 m a))
  enum_value_at RBuiltinTypeId.bool m a = some (bool_to_int (bool_at m a))
  enum_value_at RBuiltinTypeId.void m a = none
  enum_value_at RBuiltinTypeId.unknown m a = none

  drop_both : Cmd (Unit {0})
  drop_both = do drop_type; drop_member

  -- The two tests of json_serialize_enum for the enumerator `memb`, whose value was not read before:
  -- reading it takes a reference to its type that ensure_value_init does not give back. The result is
  -- none after an error.
  unfoldable pub vals_are_equal : RTypeMember → Bool → ℤ → Cmd (Option Bool)
  unfolding drop_both
  vals_are_equal memb true val =
      attempt (r_enum_member_value_signed glib backend memb).1
        (λ real_val. do modify take_type; pure (some (int_eq val real_val)))
        (λ e. do drop_both; fail e none)
  vals_are_equal memb false val =
      attempt (r_enum_member_value_unsigned glib backend memb).1
        (λ real_val. do modify take_type; pure (some (to_unsigned 64 val == real_val)))
        (λ e. do drop_both; fail e none)

  -- One enumerator, with a reference to it and to its type held: whether the value in memory, which
  -- is returned, is that enumerator's. The result is none where json_serialize_enum returns NULL.
  unfoldable pub try_enumerator :
      State E → RTypeMember → RType → RBuiltinTypeId → Option ℤ → Cmd (Option (ℤ × Bool))
  unfolding drop_both
  try_enumerator js memb rbt RBuiltinTypeId.void val = skip_or_abort E js
  try_enumerator js memb rbt id (some val) =
      attempt (r_builtin_type_is_signed backend rbt)
        (λ is_signed. do
          equal ← vals_are_equal memb is_signed val
          elim equal [ none ↦ pure none | some b ↦ pure (some (val, b)) ])
        (λ e. do drop_both; fail e none)
  try_enumerator js memb rbt id none = do drop_both; pure none

  -- The rounds left, and the index. A match leaves the loop with both references held.
  unfoldable pub enum_loop : State E → ℕ → RType → Addr → ℕ → Cmd (Option ℤ)
  unfolding drop_both
  enum_loop js zero rat value i = assert_false
  enum_loop js (suc rounds) rat value i =
      let (rat', at) = r_aggregate_type_member_at backend rat i in
      attempt at
        (λ memb. do
          modify take_member
          let (memb', type) = r_type_member_type glib backend memb
          attempt type
              (λ rbt. do
                modify take_type
                attempt (r_builtin_type_id rbt)
                    (λ id w.
                      (do
                        tried ← try_enumerator js memb' rbt id (enum_value_at id w.memory value)
                        elim tried [
                          | none ↦ pure none
                          | some (val, true) ↦ pure (some val)
                          | some (val, false) ↦ do drop_both; enum_loop js rounds rat' value (i + 1)
                        ])
                        w)
                    (λ e. do drop_both; fail e none))
              (λ e. do drop_member; fail e none))
        (λ e. fail e none)

  finish_enum : Option ℤ → Cmd (Option Json)
  finish_enum none = pure none
  finish_enum (some val) = new_json E (jansson.integer val)

  unfoldable pub json_serialize_enum : State E → RType → Addr → Cmd (Option Json)
  unfolding finish_enum
  json_serialize_enum js rat value =
      let (rat', count) = r_aggregate_type_nmembers backend rat in
      attempt count (λ members. do r ← enum_loop js members rat' value 0; finish_enum r)
        (λ e. fail e none)
