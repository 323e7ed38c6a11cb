-- ===== src/RType/Query/Caches.antt =====
-- What an object of src/type.cpp, src/aggregate_type.cpp and src/array_type.cpp remembers, against what
-- the debugger would say again.
pub mod Asked
use ruminate.Base.{ℕ, ◌≡◌, refl, sym, Option, none, some, List, String}
use ruminate.Base.Int.{ℤ, to_unsigned}
use ruminate.Glib.{Glib}
use ruminate.Errors.{Call, ok, raised, aborted, crashed, ◌>>=◌, gxx_call}
use ruminate.Backend.{TypePrx, TypeMemberPrx, Backend}
use ruminate.RString.{RString, r_string_new_cxx, r_string_ref}
use ruminate.RType.{RAggregateTypeId, Extension, RType}
use mathlib.Core.Path.{subst}
use ruminate.RType.Query.{
  first_size, size_of, first_members, aggregate_members, first_name, name_of, r_type_name,
  r_type_size, init_members,
}

module _ (B : Backend) (tid : ℕ) (p : TypePrx) where
  -- The answers of the debugger, asked afresh.
  abbrev pub asked_size : Call ℕ
  asked_size = gxx_call (B.get_size p) >>= λ n. ok (to_unsigned 64 n)

  abbrev pub asked_array : Call (List TypeMemberPrx)
  asked_array = gxx_call (B.begin_get_members p tid) >>= λ r. gxx_call (B.end_get_members p r)

  abbrev pub SizeAgrees : Option ℕ → Type 0
  SizeAgrees none = Unit
  SizeAgrees (some n) = asked_size ≡ ok n

  abbrev pub MembersAgree : Extension → Type 0
  MembersAgree (Extension.aggregate i (some ms)) = gxx_call (B.get_members p) ≡ ok ms
  MembersAgree (Extension.array (some ms)) = asked_array ≡ ok ms
  MembersAgree _ = Unit

  abbrev pub NameAgrees : Option RString → Type 0
  NameAgrees none = Unit
  NameAgrees (some s) = gxx_call (B.get_name p) ≡ ok s.gstr

abbrev pub text_of : Call RString → Call String
text_of c = c >>= λ s. ok s.gstr

module _ (G : Glib) (B : Backend) (tid : ℕ) where
  pub record IsCoherent (rt : RType) : Type 0 where
    pub size : SizeAgrees B tid rt.type rt.size
    pub members : MembersAgree B tid rt.type rt.extension
    pub name : NameAgrees B tid rt.type rt.name

  module _ (rt : RType) (c : IsCoherent rt) where
    first_size-coherent :
        (answer : Call ℤ)
        → gxx_call (B.get_size rt.type) ≡ answer
        → ((first_size B rt answer).1 ≡ asked_size B tid rt.type)
          × IsCoherent (first_size B rt answer).0
    unfolding first_size
    first_size-coherent (ok n) e =
        (rw e, record { size = rw e; members = c.members; name = c.name })
    first_size-coherent (raised x) e = (rw e, c)
    first_size-coherent aborted e = (rw e, c)
    first_size-coherent crashed e = (rw e, c)

    size_of-coherent :
        (o : Option ℕ)
        → rt.size ≡ o
        → ((size_of B rt o).1 ≡ asked_size B tid rt.type) × IsCoherent (size_of B rt o).0
    unfolding size_of
    size_of-coherent none e = first_size-coherent (gxx_call (B.get_size rt.type)) refl
    size_of-coherent (some n) e = (sym (subst (SizeAgrees B tid rt.type) e c.size), c)

    -- For an object that remembers nothing but what the debugger would say, r_type_size answers what
    -- the debugger answers for the type, value or error, and what the object remembers then is still
    -- what the debugger would say.
    pub r_type_size-coherent :
        ((r_type_size B rt).1 ≡ asked_size B tid rt.type) × IsCoherent (r_type_size B rt).0
    unfolding r_type_size
    r_type_size-coherent = size_of-coherent rt.size refl

    first_members-coherent :
        (i : RAggregateTypeId) (answer : Call (List TypeMemberPrx))
        → gxx_call (B.get_members rt.type) ≡ answer
        → ((first_members B rt i answer).1 ≡ gxx_call (B.get_members rt.type))
          × IsCoherent (first_members B rt i answer).0
    unfolding first_members
    first_members-coherent i (ok ms) e =
        (sym e, record { size = c.size; members = e; name = c.name })
    first_members-coherent i (raised x) e = (sym e, c)
    first_members-coherent i aborted e = (sym e, c)
    first_members-coherent i crashed e = (sym e, c)

    aggregate_members-coherent :
        (i : RAggregateTypeId) (o : Option (List TypeMemberPrx))
        → rt.extension ≡ Extension.aggregate i o
        → ((aggregate_members B rt (Extension.aggregate i o)).1 ≡ gxx_call (B.get_members rt.type))
          × IsCoherent (aggregate_members B rt (Extension.aggregate i o)).0
    unfolding aggregate_members
    aggregate_members-coherent i none e =
        first_members-coherent i (gxx_call (B.get_members rt.type)) refl
    aggregate_members-coherent i (some ms) e =
        (sym (subst (MembersAgree B tid rt.type) e c.members), c)

    -- For an object that remembers nothing but what the debugger would say, the members of a struct,
    -- union, enum or function type are those that the debugger lists, asked for now or remembered,
    -- or its error, and the object stays coherent.
    pub init_members-coherent :
        (i : RAggregateTypeId) (o : Option (List TypeMemberPrx))
        → rt.extension ≡ Extension.aggregate i o
        → ((init_members B rt).1 ≡ gxx_call (B.get_members rt.type))
          × IsCoherent (init_members B rt).0
    unfolding init_members
    init_members-coherent i o e =
        subst
          (λ x.
            ((aggregate_members B rt x).1 ≡ gxx_call (B.get_members rt.type))
            × IsCoherent (aggregate_members B rt x).0)
          (sym e) (aggregate_members-coherent i o e)

    first_name-coherent :
        (answer : Call String)
        → gxx_call (B.get_name rt.type) ≡ answer
        → (text_of (first_name G B rt answer).1 ≡ gxx_call (B.get_name rt.type))
          × IsCoherent (first_name G B rt answer).0
    unfolding first_name r_string_ref r_string_new_cxx
    first_name-coherent (ok n) e = (sym e, record { size = c.size; members = c.members; name = e })
    first_name-coherent (raised x) e = (sym e, c)
    first_name-coherent aborted e = (sym e, c)
    first_name-coherent crashed e = (sym e, c)

    name_of-coherent :
        (o : Option RString)
        → rt.name ≡ o
        → (text_of (name_of G B rt o).1 ≡ gxx_call (B.get_name rt.type))
          × IsCoherent (name_of G B rt o).0
    unfolding name_of r_string_ref
    name_of-coherent none e = first_name-coherent (gxx_call (B.get_name rt.type)) refl
    name_of-coherent (some s) e =
        let same = subst (NameAgrees B tid rt.type) e c.name in
        (sym same, record { size = c.size; members = c.members; name = same })

    -- For an object that remembers nothing but what the debugger would say, r_type_name gives the
    -- name that the debugger gives, asked for now or remembered, or its error, and the object stays
    -- coherent.
    pub r_type_name-coherent :
        (text_of (r_type_name G B rt).1 ≡ gxx_call (B.get_name rt.type))
        × IsCoherent (r_type_name G B rt).0
    unfolding r_type_name
    r_type_name-coherent = name_of-coherent rt.name refl
