-- ===== src/Member/Value.antt =====
-- The value of an enumerator that was just made and has said what its type is.
use ruminate.Base.{◌≡◌, true, false, some}
use ruminate.Base.Int.{ℤ, to_unsigned}
use ruminate.Glib.{Glib}
use ruminate.Errors.{returned, ok}
use ruminate.Backend.{TypePrx, TypeMemberPrx, TypeId, Backend}
use ruminate.RType.{RTypeId, type_category}
use ruminate.RType.New.{new_object}
use ruminate.RType.Query.{r_type_id, r_builtin_type_is_signed}
use ruminate.Member.{RAggregateMemberId, RTypeMember, r_type_member_type}
use ruminate.Member.New.{new_member, member_object}
use ruminate.Member.Enum.{r_enum_member_value_signed, r_enum_member_value_unsigned}

module _ (G : Glib) (B : Backend) (m : TypeMemberPrx) (p : TypePrx) (t : TypeId) where
  abbrev pub known_enumerator : RTypeMember
  known_enumerator = new_member m (some RAggregateMemberId.enum) (some (member_object G p t))

  module _ (is_builtin : type_category t ≡ RTypeId.builtin) (x : ℤ)
      (value : B.member_value_signed m ≡ returned x) where
    pub value_signed-known :
        B.is_signed p ≡ returned true → (r_enum_member_value_signed G B known_enumerator).1 ≡ ok x
    unfolding r_enum_member_value_signed r_type_member_type new_member new_object r_type_id
        r_builtin_type_is_signed
    value_signed-known sign = rw (is_builtin, sign, value)

    pub value_unsigned-known :
        B.is_signed p ≡ returned false
        → (r_enum_member_value_unsigned G B known_enumerator).1 ≡ ok (to_unsigned 64 x)
    unfolding r_enum_member_value_unsigned r_type_member_type new_member new_object r_type_id
        r_builtin_type_is_signed
    value_unsigned-known sign = rw (is_builtin, sign, value)
