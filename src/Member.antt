-- ===== src/Member.antt =====
-- src/type_member.cpp, src/aggregate_member.cpp and src/enum_member.cpp, with the accessors of
-- src/aggregate_type.cpp and src/array_type.cpp that make members.
pub mod ByName
pub mod Enum
pub mod At
pub mod New
pub mod Value
pub mod Alloc
use ruminate.Base.{ℕ, zero, suc, String, Option, none, some, List, [], ◌∷◌, if◌then◌else◌}
use ruminate.Base.Int.{ℤ}
use ruminate.Glib.{Glib}
use ruminate.Errors.{Call, ok, raised, aborted, crashed, ◌>>=◌, gxx_call}
use ruminate.Backend.{TypePrx, TypeMemberPrx, TypeId, Backend}
use ruminate.RString.{RString, c_str, r_string_new_cxx, r_string_ref}
use ruminate.RType.{RType, r_type_new}
use ruminate.RType.Alloc.{r_type_ref}
use ruminate.RType.Query.{init_members, init_array_members}

pub data RTypeMemberId : Type 0 where
  aggregate array : RTypeMemberId

pub data RAggregateMemberId : Type 0 where
  bitfield enum other : RAggregateMemberId

-- REnumMember's value: the tag of its union with the part that is set. A uintmax_t is below 2 ^ 64.
pub data EnumValue : Type 0 where
  signed : ℤ → EnumValue
  unsigned : ℕ → EnumValue

-- An RAggregateMember beyond its parent. `value` is none until it is initialised, and stays so
-- unless the member is an REnumMember.
pub record RAggregateMember : Type 0 where
  pub id : RAggregateMemberId
  pub name : Option RString
  pub value : Option EnumValue

pub data MemberExtension : Type 0 where
  plain : MemberExtension
  aggregate : RAggregateMember → MemberExtension

pub record RTypeMember : Type 0 where
  pub id : RTypeMemberId
  pub refcnt : ℕ
  pub member : TypeMemberPrx
  pub type : Option RType
  pub extension : MemberExtension

abbrev pub MemberQuery : Type 0 → Type 0
MemberQuery A = RTypeMember → RTypeMember × Call A

aggregate_member : RAggregateMemberId → RAggregateMember
aggregate_member i = record { id = i; name = none; value = none }

module _ (B : Backend) where
  r_aggregate_member_init : TypeMemberPrx → TypeId → Call RAggregateMember
  unfolding aggregate_member gxx_call
  r_aggregate_member_init member TypeId.structure = do
    is_bitfield ← gxx_call (B.member_is_bitfield member)
    ok (
        aggregate_member
          (if is_bitfield then RAggregateMemberId.bitfield else RAggregateMemberId.other))
  r_aggregate_member_init member TypeId.union = do
    is_bitfield ← gxx_call (B.member_is_bitfield member)
    ok (
        aggregate_member
          (if is_bitfield then RAggregateMemberId.bitfield else RAggregateMemberId.other))
  r_aggregate_member_init member TypeId.enum = ok (aggregate_member RAggregateMemberId.enum)
  r_aggregate_member_init member TypeId.function = ok (aggregate_member RAggregateMemberId.other)
  r_aggregate_member_init member _ = aborted

  abbrev new_aggregate : TypeMemberPrx → TypeId → Call RTypeMember
  new_aggregate member container = do
    a ← r_aggregate_member_init member container
    ok (record {
      id = RTypeMemberId.aggregate;
      refcnt = 1;
      member = member;
      type = none;
      extension = MemberExtension.aggregate a;
    })

  -- r_type_member_init, for a container of this kind.
  r_type_member_init : TypeMemberPrx → TypeId → Call RTypeMember
  unfolding r_aggregate_member_init
  r_type_member_init member TypeId.array = ok (record {
    id = RTypeMemberId.array;
    refcnt = 1;
    member = member;
    type = none;
    extension = MemberExtension.plain;
  })
  r_type_member_init member TypeId.structure = new_aggregate member TypeId.structure
  r_type_member_init member TypeId.enum = new_aggregate member TypeId.enum
  r_type_member_init member TypeId.union = new_aggregate member TypeId.union
  r_type_member_init member TypeId.function = new_aggregate member TypeId.function
  r_type_member_init member _ = aborted

  pub r_type_member_new : TypeMemberPrx → RType → Call RTypeMember
  unfolding r_type_member_init
  r_type_member_new member container = r_type_member_init member container.type_id

  pub r_type_member_offset : RTypeMember → Call ℤ
  unfolding gxx_call
  r_type_member_offset tm = gxx_call (B.member_offset tm.member)

  -- `members[i]` past the end is undefined.
  member_at : RType → List TypeMemberPrx → ℕ → Call RTypeMember
  member_at rt [] i = crashed
  member_at rt (m ∷ ms) zero = r_type_member_new m rt
  member_at rt (m ∷ ms) (suc i) = member_at rt ms i

  pub r_aggregate_type_member_at : RType → ℕ → RType × Call RTypeMember
  unfolding init_members member_at
  r_aggregate_type_member_at rat i =
      let (rat', members) = init_members B rat in (rat', members >>= λ ms. member_at rat' ms i)

  pub r_array_type_member_at : ℕ → RType → ℕ → RType × Call RTypeMember
  unfolding init_array_members member_at
  r_array_type_member_at tid rat i =
      let (rat', members) = init_array_members B tid rat in
      (rat', members >>= λ ms. member_at rat' ms i)

module _ (G : Glib) (B : Backend) where
  -- Where r_type_new fails, the NULL that it returns goes to r_type_ref.
  first_type : RTypeMember → Call RType → RTypeMember × Call RType
  first_type tm (ok t) = let t' = r_type_ref G t in (record tm { type = some t' }, ok t')
  first_type tm (raised e) = (tm, crashed)
  first_type tm aborted = (tm, aborted)
  first_type tm crashed = (tm, crashed)

  fetch_type : RTypeMember → Call TypePrx → RTypeMember × Call RType
  unfolding first_type
  fetch_type tm (ok t) = first_type tm (r_type_new B t)
  fetch_type tm (raised e) = (tm, raised e)
  fetch_type tm aborted = (tm, aborted)
  fetch_type tm crashed = (tm, crashed)

  type_of : RTypeMember → Option RType → RTypeMember × Call RType
  unfolding fetch_type gxx_call r_type_ref
  type_of tm (some t) = let t' = r_type_ref G t in (record tm { type = some t' }, ok t')
  type_of tm none = fetch_type tm (gxx_call (B.member_type tm.member))

  pub r_type_member_type : MemberQuery RType
  unfolding type_of
  r_type_member_type tm = type_of tm tm.type

  first_name : RTypeMember → RAggregateMember → Call String → RTypeMember × Call RString
  first_name tm a (ok name) =
      let s = r_string_ref G (r_string_new_cxx (c_str name)) in
      (record tm { extension = MemberExtension.aggregate (record a { name = some s }) }, ok s)
  first_name tm a (raised e) = (tm, raised e)
  first_name tm a aborted = (tm, aborted)
  first_name tm a crashed = (tm, crashed)

  name_of : RTypeMember → RAggregateMember → Option RString → RTypeMember × Call RString
  unfolding first_name gxx_call
  name_of tm a (some s) =
      let s' = r_string_ref G s in
      (record tm { extension = MemberExtension.aggregate (record a { name = some s' }) }, ok s')
  name_of tm a none = first_name tm a (gxx_call (B.member_name tm.member))

  name_of_extension : RTypeMember → MemberExtension → RTypeMember × Call RString
  unfolding name_of
  name_of_extension tm (MemberExtension.aggregate a) = name_of tm a a.name
  name_of_extension tm MemberExtension.plain = (tm, crashed)

  pub r_aggregate_member_name : MemberQuery RString
  unfolding name_of_extension
  r_aggregate_member_name rm = name_of_extension rm rm.extension
