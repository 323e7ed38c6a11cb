-- ===== src/Member/At.antt =====
-- r_aggregate_type_member_at and r_array_type_member_at on an object that has its members.
use ruminate.Base.{ℕ, zero, suc, ◌≡◌, some, List, [], ◌∷◌, drop}
use ruminate.Backend.{TypeMemberPrx, Backend}
use ruminate.RType.{RAggregateTypeId, Extension, RType}
use ruminate.Member.{
  member_at, r_type_member_new, r_aggregate_type_member_at, r_array_type_member_at,
}

module _ (B : Backend) (rt : RType) where
  member_at-drop :
      (all : List TypeMemberPrx) (i : ℕ) {m : TypeMemberPrx} {rest : List TypeMemberPrx}
      → drop i all ≡ m ∷ rest
      → member_at B rt all i ≡ r_type_member_new B m rt
  unfolding member_at
  member_at-drop [] zero h = cc
  member_at-drop [] (suc i) h = cc
  member_at-drop (x ∷ xs) zero {m} {rest} h = let same : x ≡ m = cc in rw same
  member_at-drop (x ∷ xs) (suc i) h = member_at-drop xs i h

  module _ (all : List TypeMemberPrx) (i : ℕ) {m : TypeMemberPrx} {rest : List TypeMemberPrx}
      (left : drop i all ≡ m ∷ rest) where
    pub aggregate_member_at-drop :
        (k : RAggregateTypeId)
        → rt.extension ≡ Extension.aggregate k (some all)
        → r_aggregate_type_member_at B rt i ≡ (rt, r_type_member_new B m rt)
    unfolding r_aggregate_type_member_at r_type_member_new
    aggregate_member_at-drop k h = rw h (rw (member_at-drop all i left))

    pub array_member_at-drop :
        (tid : ℕ)
        → rt.extension ≡ Extension.array (some all)
        → r_array_type_member_at B tid rt i ≡ (rt, r_type_member_new B m rt)
    unfolding r_array_type_member_at r_type_member_new
    array_member_at-drop tid h = rw h (rw (member_at-drop all i left))
