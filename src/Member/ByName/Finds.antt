-- ===== src/Member/ByName/Finds.antt =====
-- What r_aggregate_type_member_by_name of src/aggregate_type.cpp finds.
use text.Mathlib.Text.{◌==◌ as str_eq}
use ruminate.Base.{
  ℕ, ◌+◌, String, ◌≡◌, refl, ap, Bool, true, false, Option, none, some, List, [], ◌∷◌,
  if◌then◌else◌, drop, drop-next, length,
}
use ruminate.Glib.{Glib}
use ruminate.Glib.Quarks.{quark-str_eq}
use ruminate.Errors.{returned, Call, ok, ◌>>=◌}
use ruminate.Backend.{TypePrx, TypeMemberPrx, TypeId, Backend}
use ruminate.RString.{
  RString, c_str, r_string_new_cxx, r_string_ref, r_string_bytes, r_string_quark,
}
use ruminate.RType.{RAggregateTypeId, RType}
use ruminate.RType.New.{new_object, with_members, nmembers-new_object}
use ruminate.Member.{RAggregateMemberId, MemberExtension, RTypeMember, r_aggregate_member_name}
use ruminate.Member.New.{new_member, new_member-structure}
use ruminate.Member.At.{aggregate_member_at-drop}
use ruminate.Member.ByName.{by_name_loop, r_aggregate_type_member_by_name}

-- A member, with the name that the debugger gives it.
pub record NamedMember : Type 0 where
  pub proxy : TypeMemberPrx
  pub name : String

abbrev pub proxies : List NamedMember → List TypeMemberPrx
proxies [] = []
proxies (m ∷ ms) = m.proxy ∷ proxies ms

-- The first member of a name.
abbrev pub first_named : List NamedMember → String → Option TypeMemberPrx
first_named [] name = none
first_named (m ∷ ms) name =
    if str_eq (c_str (c_str m.name)) name then some m.proxy else first_named ms name

abbrev pub proxy_of : Option RTypeMember → Option TypeMemberPrx
proxy_of none = none
proxy_of (some m) = some m.member

abbrev pub Answered : Backend → List NamedMember → Type 0
Answered B [] = Unit
Answered B (m ∷ ms) =
    (B.member_name m.proxy ≡ returned m.name)
    × ((b : Bool) × (B.member_is_bitfield m.proxy ≡ returned b))
    × Answered B ms

choose :
    (c : Bool) (x : RTypeMember) (m : TypeMemberPrx)
    → x.member ≡ m
    → (rest : Call (Option RTypeMember)) (o : Option TypeMemberPrx)
    → (rest >>= λ u. ok (proxy_of u)) ≡ ok o
    → ((if c then ok (some x) else rest) >>= λ u. ok (proxy_of u)) ≡ ok (if c then some m else o)
choose true x m same rest o h = ap (λ u. ok (some u)) same
choose false x m same rest o h = h

module _ (G : Glib) (B : Backend) where
  name-new_member :
      (m : TypeMemberPrx) (i : RAggregateMemberId) (n : String)
      → B.member_name m ≡ returned n
      → (x : RTypeMember) × (x.member ≡ m)
        × (r_aggregate_member_name G B (new_member m (some i) none)
            ≡ (x, ok (r_string_ref G (r_string_new_cxx (c_str n)))))
  unfolding r_aggregate_member_name new_member
  name-new_member m i n h = (
    record (new_member m (some i) none) {
      extension = MemberExtension.aggregate (record {
        id = i;
        name = some (r_string_ref G (r_string_new_cxx (c_str n)));
        value = none;
      });
    },
    refl,
    rw h refl,
  )

  module _ (p : TypePrx) (r : ℕ) (name : Option RString) (all : List TypeMemberPrx)
      (key : String) where
    abbrev rat : RType
    rat = with_members B p r name TypeId.structure RAggregateTypeId.struct all

    rat_structure : rat.type_id ≡ TypeId.structure
    unfolding new_object
    rat_structure = refl

    loop-first_named :
        (ms : List NamedMember) (i : ℕ)
        → drop i all ≡ proxies ms
        → Answered B ms
        → (by_name_loop G B (length (proxies ms)) rat (G.quark_from_string key) i >>= λ o.
            ok (proxy_of o))
          ≡ ok (first_named ms key)
    unfolding by_name_loop r_string_quark r_string_ref r_string_new_cxx r_string_bytes
    loop-first_named [] i left a = refl
    loop-first_named (m ∷ ms) i left (named, (b, bit), a) =
        let (k, made) = new_member-structure B m.proxy rat b rat_structure bit in
        let at = aggregate_member_at-drop B rat all i left RAggregateTypeId.struct refl in
        let (x, same, answer) = name-new_member m.proxy k m.name named in
        let rest = loop-first_named ms (i + 1) (drop-next i all left) a in
        rw at (
          rw made (
            rw answer (
              rw (quark-str_eq G (c_str (c_str m.name)) key) (
                choose (str_eq (c_str (c_str m.name)) key) x m.proxy same _ (first_named ms key)
                  rest))))

  -- In a struct whose members the debugger lists, with a name for each and the answer whether it is
  -- a bitfield, r_aggregate_type_member_by_name finds the first member of the name that is asked
  -- for, and none if no member has it.
  pub member_by_name-first_named :
      (p : TypePrx) (r : ℕ) (name : Option RString) (ms : List NamedMember) (key : String)
      → B.get_members p ≡ returned (proxies ms)
      → Answered B ms
      → (r_aggregate_type_member_by_name G B (new_object p TypeId.structure r name) key >>= λ o.
          ok (proxy_of o))
        ≡ ok (first_named ms key)
  unfolding r_aggregate_type_member_by_name
  member_by_name-first_named p r name ms key members a =
      rw
        (nmembers-new_object B p r name TypeId.structure RAggregateTypeId.struct (proxies ms) refl
          members)
        (loop-first_named p r name (proxies ms) key ms 0 refl a)
