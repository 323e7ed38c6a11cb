-- ===== src/Member/New.antt =====
-- A member just made by r_type_member_new, and its first answers.
use ruminate.Base.{String, ◌≡◌, refl, Bool, Option, none, some, if◌then◌else◌}
use ruminate.Base.Int.{ℤ}
use ruminate.Glib.{Glib}
use ruminate.Errors.{GError, returned, ok, raised, gxx_call}
use ruminate.Backend.{TypePrx, TypeMemberPrx, TypeId, Backend}
use ruminate.RString.{c_str, r_string_new_cxx, r_string_ref}
use ruminate.RType.{RType}
use ruminate.RType.Alloc.{r_type_ref}
use ruminate.RType.New.{new_object, r_type_new-new_object}
use ruminate.Member.{
  RTypeMemberId, RAggregateMemberId, MemberExtension, RTypeMember, r_type_member_new,
  r_type_member_offset, r_type_member_type, r_aggregate_member_name,
}

-- The extension of a new member: `none` for an array's.
abbrev start_member : Option RAggregateMemberId → MemberExtension
start_member none = MemberExtension.plain
start_member (some i) = MemberExtension.aggregate (record { id = i; name = none; value = none })

abbrev member_id : Option RAggregateMemberId → RTypeMemberId
member_id none = RTypeMemberId.array
member_id (some i) = RTypeMemberId.aggregate

-- `type` is what the member remembers of its type.
unfoldable pub new_member : TypeMemberPrx → Option RAggregateMemberId → Option RType → RTypeMember
new_member m i type = record {
  id = member_id i;
  refcnt = 1;
  member = m;
  type = type;
  extension = start_member i;
}

-- The object of a member's type, with the reference that the caller is given.
abbrev pub member_object : Glib → TypePrx → TypeId → RType
member_object G p t = new_object p t (G.atomic_int_inc 1) none

module _ (B : Backend) (m : TypeMemberPrx) (rt : RType) where
  pub new_member-structure :
      (b : Bool)
      → rt.type_id ≡ TypeId.structure
      → B.member_is_bitfield m ≡ returned b
      → (i : RAggregateMemberId) × (r_type_member_new B m rt ≡ ok (new_member m (some i) none))
  unfolding r_type_member_new new_member
  new_member-structure b s h =
      (if b then RAggregateMemberId.bitfield else RAggregateMemberId.other, rw (s, h))

  pub r_type_member_new-raised :
      (e : GError)
      → rt.type_id ≡ TypeId.structure
      → gxx_call (B.member_is_bitfield m) ≡ raised e
      → r_type_member_new B m rt ≡ raised e
  unfolding r_type_member_new
  r_type_member_new-raised e s h = rw (s, h)

  pub new_member-enum :
      rt.type_id ≡ TypeId.enum
      → r_type_member_new B m rt ≡ ok (new_member m (some RAggregateMemberId.enum) none)
  unfolding r_type_member_new new_member
  new_member-enum s = rw s

  pub new_member-array :
      rt.type_id ≡ TypeId.array → r_type_member_new B m rt ≡ ok (new_member m none none)
  unfolding r_type_member_new new_member
  new_member-array s = rw s

module _ (G : Glib) (B : Backend) (m : TypeMemberPrx) (i : Option RAggregateMemberId) where
  pub r_type_member_type-new_member :
      (p : TypePrx) (t : TypeId)
      → B.member_type m ≡ returned p
      → B.get_id p ≡ returned t
      → r_type_member_type G B (new_member m i none)
        ≡ (new_member m i (some (member_object G p t)), ok (member_object G p t))
  unfolding r_type_member_type new_member new_object
  r_type_member_type-new_member p t type id = rw (type, r_type_new-new_object B p t id)

  pub r_type_member_type-raised :
      (e : GError)
      → gxx_call (B.member_type m) ≡ raised e
      → (r_type_member_type G B (new_member m i none)).1 ≡ raised e
  unfolding r_type_member_type new_member
  r_type_member_type-raised e h = rw h refl

module _ (G : Glib) (B : Backend) where
  -- Any member that does not remember its type.
  pub r_type_member_type-unknown :
      (x : RTypeMember) (p : TypePrx) (t : TypeId)
      → x.type ≡ none
      → B.member_type x.member ≡ returned p
      → B.get_id p ≡ returned t
      → (r_type_member_type G B x).1 ≡ ok (member_object G p t)
  unfolding r_type_member_type r_type_ref new_object
  r_type_member_type-unknown x p t unknown type id =
      rw unknown (rw (type, r_type_new-new_object B p t id) refl)

module _ (G : Glib) (B : Backend) (m : TypeMemberPrx) (i : RAggregateMemberId) where
  pub r_aggregate_member_name-new_member :
      (n : String) (type : Option RType)
      → B.member_name m ≡ returned n
      → (r_aggregate_member_name G B (new_member m (some i) type)).1
        ≡ ok (r_string_ref G (r_string_new_cxx (c_str n)))
  unfolding r_aggregate_member_name new_member
  r_aggregate_member_name-new_member n type h = rw h

module _ (B : Backend) (m : TypeMemberPrx) (i : Option RAggregateMemberId) where
  pub r_type_member_offset-new_member :
      (off : ℤ) (type : Option RType)
      → B.member_offset m ≡ returned off
      → r_type_member_offset B (new_member m i type) ≡ ok off
  unfolding r_type_member_offset new_member
  r_type_member_offset-new_member off type h = rw h

  pub r_type_member_offset-raised :
      (e : GError) (type : Option RType)
      → gxx_call (B.member_offset m) ≡ raised e
      → r_type_member_offset B (new_member m i type) ≡ raised e
  unfolding r_type_member_offset new_member
  r_type_member_offset-raised e type h = rw h refl

module _ (G : Glib) (B : Backend) (m : TypeMemberPrx) (i : RAggregateMemberId) where
  -- A member that has told its name, and not its type.
  pub r_aggregate_member_name-told :
      (n : String)
      → B.member_name m ≡ returned n
      → (x : RTypeMember) × (r_aggregate_member_name G B (new_member m (some i) none)
          ≡ (x, ok (r_string_ref G (r_string_new_cxx (c_str n)))))
        × (x.type ≡ none)
        × (x.member ≡ m)
  unfolding r_aggregate_member_name new_member
  r_aggregate_member_name-told n h =
      let s = r_string_ref G (r_string_new_cxx (c_str n)) in
      (
        record (new_member m (some i) none) {
          extension = MemberExtension.aggregate (record { id = i; name = some s; value = none });
        },
        rw h refl,
        refl,
        refl,
      )
