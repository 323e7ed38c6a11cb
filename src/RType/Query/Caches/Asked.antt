-- ===== src/RType/Query/Caches/Asked.antt =====
-- The questions put to a type of src/type.cpp and its extensions, in any order, and what they answer.
use mathlib.Core.Path.{subst}
use ruminate.Base.{ℕ, String, ◌≡◌, ◌∙◌, refl, sym, ap, Option, none, some, List}
use ruminate.Base.Int.{ℤ}
use ruminate.Glib.{Glib}
use ruminate.Errors.{Call, ok, raised, aborted, crashed, gxx_call}
use ruminate.Backend.{TypePrx, TypeMemberPrx, TypeId, Backend}
use ruminate.RString.{RString}
use ruminate.RType.{RAggregateTypeId, Extension, RType}
use ruminate.RType.Alloc.{r_type_ref}
use ruminate.RType.New.{new_object, start_extension}
use ruminate.RType.Query.{
  r_type_name, name_of, first_name, r_type_size, size_of, first_size, init_members,
  aggregate_members, first_members, init_array_members, array_members, first_array, fetch_array,
}
use ruminate.RType.Query.Caches.{
  asked_size, asked_array, text_of, MembersAgree, IsCoherent, first_members-coherent,
  r_type_size-coherent, r_type_name-coherent,
}

module _ (G : Glib) (B : Backend) (tid : ℕ) where
  -- One question, or one more reference.
  pub data Asks (rt : RType) : RType → Type 0 where
    name : Asks rt (r_type_name G B rt).0
    size : Asks rt (r_type_size B rt).0
    members : Asks rt (init_members B rt).0
    elements : Asks rt (init_array_members B tid rt).0
    ref : Asks rt (r_type_ref G rt)

  pub data Asked (first : RType) : RType → Type 0 where
    here : Asked first first
    next : {rt rt' : RType} → Asked first rt → Asks rt rt' → Asked first rt'

  -- The members of an aggregate are those that the debugger lists, and so are those of an array; a cast of
  -- another type goes wrong.
  abbrev pub Listed :
      TypePrx → Extension → Call (List TypeMemberPrx) → Call (List TypeMemberPrx) → Type 0
  Listed p (Extension.aggregate i o) ms es = (ms ≡ gxx_call (B.get_members p)) × (es ≡ crashed)
  Listed p (Extension.array o) ms es = (ms ≡ crashed) × (es ≡ asked_array B tid p)
  Listed p _ ms es = (ms ≡ crashed) × (es ≡ crashed)

  -- What an object with this extension answers and is left as, for either question for members.
  abbrev Fresh : RType → Extension → Type 0
  Fresh rt x =
      let (after, ms) = aggregate_members B rt x in
      let (after', es) = array_members B tid rt x in
      Listed rt.type x ms es
      × (IsCoherent G B tid after × (after.type ≡ rt.type))
      × (IsCoherent G B tid after' × (after'.type ≡ rt.type))

  first_array-Fresh :
      (rt : RType) (c : IsCoherent G B tid rt) (answer : Call (List TypeMemberPrx))
      → asked_array B tid rt.type ≡ answer
      → ((first_array B tid rt answer).1 ≡ asked_array B tid rt.type)
        × IsCoherent G B tid (first_array B tid rt answer).0
        × ((first_array B tid rt answer).0.type ≡ rt.type)
  unfolding first_array
  first_array-Fresh rt c (ok ms) e =
      (sym e, record { size = c.size; members = e; name = c.name }, refl)
  first_array-Fresh rt c (raised x) e = (sym e, c, refl)
  first_array-Fresh rt c aborted e = (sym e, c, refl)
  first_array-Fresh rt c crashed e = (sym e, c, refl)

  first_members-type :
      (rt : RType) (i : RAggregateTypeId) (answer : Call (List TypeMemberPrx))
      → (first_members B rt i answer).0.type ≡ rt.type
  unfolding first_members
  first_members-type rt i (ok ms) = refl
  first_members-type rt i _ = refl

  extension-Fresh :
      (rt : RType) (c : IsCoherent G B tid rt) (x : Extension) → rt.extension ≡ x → Fresh rt x
  unfolding aggregate_members array_members init_members fetch_array
  extension-Fresh rt c (Extension.aggregate i none) e =
      let answer = gxx_call (B.get_members rt.type) in
      let (same, coherent) = first_members-coherent G B tid rt c i answer refl in
      ((same, refl), (coherent, first_members-type rt i answer), (c, refl))
  extension-Fresh rt c (Extension.aggregate i (some ms)) e =
      ((sym (subst (MembersAgree B tid rt.type) e c.members), refl), (c, refl), (c, refl))
  extension-Fresh rt c (Extension.array none) e =
      let (same, coherent, type) = first_array-Fresh rt c (asked_array B tid rt.type) refl in
      ((refl, same), (c, refl), (coherent, type))
  extension-Fresh rt c (Extension.array (some ms)) e =
      ((refl, sym (subst (MembersAgree B tid rt.type) e c.members)), (c, refl), (c, refl))
  extension-Fresh rt c Extension.plain e = ((refl, refl), (c, refl), (c, refl))
  extension-Fresh rt c (Extension.builtin i) e = ((refl, refl), (c, refl), (c, refl))

  first_size-type : (rt : RType) (answer : Call ℤ) → (first_size B rt answer).0.type ≡ rt.type
  unfolding first_size
  first_size-type rt (ok n) = refl
  first_size-type rt _ = refl

  size_of-type : (rt : RType) (o : Option ℕ) → (size_of B rt o).0.type ≡ rt.type
  unfolding size_of
  size_of-type rt none = first_size-type rt (gxx_call (B.get_size rt.type))
  size_of-type rt (some n) = refl

  first_name-type :
      (rt : RType) (answer : Call String) → (first_name G B rt answer).0.type ≡ rt.type
  unfolding first_name
  first_name-type rt (ok n) = refl
  first_name-type rt _ = refl

  name_of-type : (rt : RType) (o : Option RString) → (name_of G B rt o).0.type ≡ rt.type
  unfolding name_of
  name_of-type rt none = first_name-type rt (gxx_call (B.get_name rt.type))
  name_of-type rt (some s) = refl

  -- Nothing is remembered but what the debugger would say of the type.
  abbrev Remembers : TypePrx → RType → Type 0
  Remembers p rt = IsCoherent G B tid rt × (rt.type ≡ p)

  Asks-Remembers : (p : TypePrx) {rt rt' : RType} → Asks rt rt' → Remembers p rt → Remembers p rt'
  unfolding r_type_name r_type_size init_members init_array_members r_type_ref
  Asks-Remembers p {rt} name (c, same) =
      ((r_type_name-coherent G B tid rt c).1, name_of-type rt rt.name ∙ same)
  Asks-Remembers p {rt} size (c, same) =
      ((r_type_size-coherent G B tid rt c).1, size_of-type rt rt.size ∙ same)
  Asks-Remembers p {rt} members (c, same) =
      let (listed, (after, type), rest) = extension-Fresh rt c rt.extension refl in
      (after, type ∙ same)
  Asks-Remembers p {rt} elements (c, same) =
      let (listed, rest, (after, type)) = extension-Fresh rt c rt.extension refl in
      (after, type ∙ same)
  Asks-Remembers p {rt} ref (c, same) =
      (record { size = c.size; members = c.members; name = c.name }, same)

  start-MembersAgree : (p : TypePrx) (t : TypeId) → MembersAgree B tid p (start_extension t)
  start-MembersAgree p TypeId.structure = tt
  start-MembersAgree p _ = tt

  Asked-Remembers :
      (p : TypePrx) (t : TypeId) (r : ℕ) {rt : RType}
      → Asked (new_object p t r none) rt
      → Remembers p rt
  unfolding new_object
  Asked-Remembers p t r here =
      (record { size = tt; members = start-MembersAgree p t; name = tt }, refl)
  Asked-Remembers p t r (next a q) = Asks-Remembers p q (Asked-Remembers p t r a)

  -- A new object for a type answers with what the debugger says of it, whatever it has been asked
  -- before and in whatever order: its name, its size, the members of an aggregate and those of an array,
  -- each of them the value or the error that the debugger gives when it is asked afresh. Asked for
  -- members that its kind does not have, it goes wrong.
  pub r_type-answers :
      (p : TypePrx) (t : TypeId) (r : ℕ) {rt : RType}
      → Asked (new_object p t r none) rt
      → (text_of (r_type_name G B rt).1 ≡ gxx_call (B.get_name p))
        × ((r_type_size B rt).1 ≡ asked_size B tid p)
        × Listed p rt.extension (init_members B rt).1 (init_array_members B tid rt).1
  unfolding init_members init_array_members
  r_type-answers p t r {rt} a =
      let (c, same) = Asked-Remembers p t r a in
      (
        (r_type_name-coherent G B tid rt c).0 ∙ ap (λ q. gxx_call (B.get_name q)) same,
        (r_type_size-coherent G B tid rt c).0 ∙ ap (λ q. asked_size B tid q) same,
        subst (λ q. Listed q rt.extension (init_members B rt).1 (init_array_members B tid rt).1)
            same (extension-Fresh rt c rt.extension refl).0,
      )
