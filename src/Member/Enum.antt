-- ===== src/Member/Enum.antt =====
-- src/enum_member.cpp: the value of an enumerator, read once from the debugger and remembered.
use ruminate.Base.{Option, none, some, Bool, true, false, ℕ, if◌then◌else◌}
use ruminate.Base.Int.{ℤ, to_unsigned}
use ruminate.Glib.{Glib}
use ruminate.Errors.{Call, ok, raised, aborted, crashed, ◌>>=◌, gxx_call}
use ruminate.Backend.{Backend}
use ruminate.RType.{RTypeId, RType}
use ruminate.RType.Alloc.{Released, kept, r_type_unref}
use ruminate.RType.Query.{r_type_id, r_builtin_type_is_signed}
use ruminate.Member.{
  EnumValue, RAggregateMember, MemberExtension, RTypeMember, MemberQuery, r_type_member_type,
}

abbrev pub is_builtin : RTypeId → Bool
is_builtin RTypeId.builtin = true
is_builtin _ = false

module _ (G : Glib) (B : Backend) where
  -- The questions that follow once the enumerator's type is known, with `rt` that type.
  read_value : RTypeMember → RType → Call EnumValue
  read_value em rt =
      let answer = do
        is_signed ← r_builtin_type_is_signed B rt
        val ← gxx_call (B.member_value_signed em.member)
        ok (if is_signed then EnumValue.signed val else EnumValue.unsigned (to_unsigned 64 val))
      in if is_builtin (r_type_id rt) then answer else aborted

  -- What the member remembers of its type after r_type_unref.
  after_unref : Call (Released G) → Option RType
  after_unref (ok (kept rt)) = some rt
  after_unref _ = none

  -- On success the reference to the type stays taken; on an error it is given back.
  settle : RTypeMember → RAggregateMember → RType → Call EnumValue → RTypeMember × Call EnumValue
  unfolding after_unref
  settle em a rt (ok v) =
      (record em { extension = MemberExtension.aggregate (record a { value = some v }) }, ok v)
  settle em a rt (raised e) = (record em { type = after_unref (r_type_unref G rt) }, raised e)
  settle em a rt aborted = (em, aborted)
  settle em a rt crashed = (em, crashed)

  with_type : RAggregateMember → RTypeMember → Call RType → RTypeMember × Call EnumValue
  unfolding settle read_value
  with_type a em (ok rt) = settle em a rt (read_value em rt)
  with_type a em (raised e) = (em, raised e)
  with_type a em aborted = (em, aborted)
  with_type a em crashed = (em, crashed)

  value_of : RTypeMember → RAggregateMember → Option EnumValue → RTypeMember × Call EnumValue
  unfolding with_type
  value_of em a (some v) = (em, ok v)
  value_of em a none = let (em', t) = r_type_member_type G B em in with_type a em' t

  value_of_extension : RTypeMember → MemberExtension → RTypeMember × Call EnumValue
  unfolding value_of
  value_of_extension em (MemberExtension.aggregate a) = value_of em a a.value
  value_of_extension em MemberExtension.plain = (em, crashed)

  pub ensure_value_init : MemberQuery EnumValue
  unfolding value_of_extension
  ensure_value_init em = value_of_extension em em.extension

  signed_part : EnumValue → Call ℤ
  signed_part (EnumValue.signed v) = ok v
  signed_part (EnumValue.unsigned v) = aborted

  unsigned_part : EnumValue → Call ℕ
  unsigned_part (EnumValue.signed v) = aborted
  unsigned_part (EnumValue.unsigned v) = ok v

  unfoldable pub r_enum_member_value_signed : MemberQuery ℤ
  unfolding ensure_value_init signed_part
  r_enum_member_value_signed em = let (em', v) = ensure_value_init em in (em', v >>= signed_part)

  unfoldable pub r_enum_member_value_unsigned : MemberQuery ℕ
  unfolding ensure_value_init unsigned_part
  r_enum_member_value_unsigned em =
      let (em', v) = ensure_value_init em in (em', v >>= unsigned_part)
