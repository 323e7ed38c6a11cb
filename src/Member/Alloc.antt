-- ===== src/Member/Alloc.antt =====
-- Allocation and references of the members of src/type_member.cpp, src/aggregate_member.cpp and
-- src/enum_member.cpp.
use ruminate.Base.{◌≡◌, refl, Bool, true, false, Option, none, some, arith, if◌then◌else◌}
use ruminate.Glib.{Glib}
use ruminate.Errors.{Call, ok, aborted, crashed, returned, ◌>>=◌}
use ruminate.Backend.{TypeMemberPrx, TypeId, Backend}
use ruminate.RString.{RString}
use ruminate.RType.{RType}
use ruminate.Member.{
  RTypeMemberId, RAggregateMemberId, MemberExtension, RTypeMember, r_type_member_new,
  r_type_member_init, r_aggregate_member_init,
}
use ruminate.Member.New.{new_member}

-- The struct that a member is allocated as, and freed as.
pub data MemberSlice : Type 0 where
  r_type_member r_aggregate_member r_enum_member : MemberSlice

r_aggregate_member_alloc : TypeId → Call MemberSlice
r_aggregate_member_alloc TypeId.enum = ok MemberSlice.r_enum_member
r_aggregate_member_alloc TypeId.structure = ok MemberSlice.r_aggregate_member
r_aggregate_member_alloc TypeId.union = ok MemberSlice.r_aggregate_member
r_aggregate_member_alloc TypeId.function = ok MemberSlice.r_aggregate_member
r_aggregate_member_alloc _ = aborted

-- For a container of this kind.
pub r_type_member_alloc : TypeId → Call MemberSlice
unfolding r_aggregate_member_alloc
r_type_member_alloc TypeId.array = ok MemberSlice.r_type_member
r_type_member_alloc TypeId.structure = r_aggregate_member_alloc TypeId.structure
r_type_member_alloc TypeId.enum = r_aggregate_member_alloc TypeId.enum
r_type_member_alloc TypeId.union = r_aggregate_member_alloc TypeId.union
r_type_member_alloc TypeId.function = r_aggregate_member_alloc TypeId.function
r_type_member_alloc _ = aborted

aggregate_slice : RAggregateMemberId → MemberSlice
aggregate_slice RAggregateMemberId.enum = MemberSlice.r_enum_member
aggregate_slice _ = MemberSlice.r_aggregate_member

r_aggregate_member_free : MemberExtension → Call MemberSlice
unfolding aggregate_slice
r_aggregate_member_free (MemberExtension.aggregate a) = ok (aggregate_slice a.id)
r_aggregate_member_free MemberExtension.plain = crashed

free_as : RTypeMemberId → MemberExtension → Call MemberSlice
unfolding r_aggregate_member_free
free_as RTypeMemberId.aggregate x = r_aggregate_member_free x
free_as RTypeMemberId.array x = ok MemberSlice.r_type_member

r_type_member_free : RTypeMember → Call MemberSlice
unfolding free_as
r_type_member_free tm = free_as tm.id tm.extension

-- What a member gives up: its references to its name and to its type.
pub record GivenUp : Type 0 where
  pub name : Option RString
  pub type : Option RType

held_name : MemberExtension → Option RString
held_name MemberExtension.plain = none
held_name (MemberExtension.aggregate a) = a.name

r_type_member_destroy : RTypeMember → RTypeMember × GivenUp
unfolding held_name
r_type_member_destroy tm =
    (record tm { type = none }, record { name = held_name tm.extension; type = tm.type })

r_type_member_delete : RTypeMember → Call (MemberSlice × GivenUp)
unfolding r_type_member_destroy r_type_member_free
r_type_member_delete tm =
    let (destroyed, given_up) = r_type_member_destroy tm in
    r_type_member_free destroyed >>= λ s. ok (s, given_up)

pub data MemberLeft : Type 0 where
  kept : RTypeMember → MemberLeft
  freed : MemberSlice → GivenUp → MemberLeft

module _ (G : Glib) where
  unfoldable r_type_member_ref : RTypeMember → RTypeMember
  r_type_member_ref tm = record tm { refcnt = G.atomic_int_inc tm.refcnt }

  pub r_type_member_unref : RTypeMember → Call MemberLeft
  unfolding r_type_member_delete
  r_type_member_unref tm =
      let (n, last) = G.atomic_int_dec_and_test tm.refcnt in
      let gone = r_type_member_delete tm >>= λ (s, given_up). ok (freed s given_up) in
      if last then gone else ok (kept (record tm { refcnt = n }))

-- The kinds of type that have members.
pub data IsContainer : TypeId → Type 0 where
  array : IsContainer TypeId.array
  structure : IsContainer TypeId.structure
  union : IsContainer TypeId.union
  enum : IsContainer TypeId.enum
  function : IsContainer TypeId.function

-- What a member of such a container is, where `b` says that it is a bit field.
abbrev pub kind_in : TypeId → Bool → Option RAggregateMemberId
kind_in TypeId.structure b =
    some (if b then RAggregateMemberId.bitfield else RAggregateMemberId.other)
kind_in TypeId.union b = some (if b then RAggregateMemberId.bitfield else RAggregateMemberId.other)
kind_in TypeId.enum b = some RAggregateMemberId.enum
kind_in TypeId.function b = some RAggregateMemberId.other
kind_in _ b = none

gone-by_kind :
    (b : Bool) (m : TypeMemberPrx) (t : TypeId)
    → IsContainer t
    → (r_type_member_delete (new_member m (kind_in t b) none) >>= λ (s, g). ok (freed s g))
      ≡ (r_type_member_alloc t >>= λ s. ok (freed s (record { name = none; type = none })))
unfolding r_type_member_delete r_type_member_alloc new_member
gone-by_kind b m _ array = refl
gone-by_kind true m _ structure = refl
gone-by_kind false m _ structure = refl
gone-by_kind true m _ union = refl
gone-by_kind false m _ union = refl
gone-by_kind b m _ enum = refl
gone-by_kind b m _ function = refl

module _ (G : Glib) (B : Backend) (m : TypeMemberPrx) (b : Bool) where
  made-by_kind :
      (t : TypeId)
      → IsContainer t
      → B.member_is_bitfield m ≡ returned b
      → r_type_member_init B m t ≡ ok (new_member m (kind_in t b) none)
  unfolding r_type_member_init r_aggregate_member_init new_member
  made-by_kind _ array h = refl
  made-by_kind _ structure h = rw h refl
  made-by_kind _ union h = rw h refl
  made-by_kind _ enum h = refl
  made-by_kind _ function h = refl

  -- A member that is made for a container of any kind that has members, and given back at once, is
  -- freed as the very struct that r_type_member_alloc allocates for it, and holds no name and no type.
  -- This is where the debugger says whether the member is a bit field.
  pub r_type_member_unref-r_type_member_new :
      (rt : RType)
      → IsContainer rt.type_id
      → B.member_is_bitfield m ≡ returned b
      → (x : RTypeMember) × (r_type_member_new B m rt ≡ ok x)
        × (r_type_member_unref G x ≡ (
            r_type_member_alloc rt.type_id >>= λ s.
            ok (freed s (record { name = none; type = none }))))
  unfolding r_type_member_new r_type_member_unref new_member
  r_type_member_unref-r_type_member_new rt c h = (
    new_member m (kind_in rt.type_id b) none,
    made-by_kind rt.type_id c h,
    rw (G.dec_subtracts 1 (omega arith) (omega arith)) (gone-by_kind b m rt.type_id c),
  )
