-- ===== src/Json/Deserialize/Stored.antt =====
-- What the memory holds when the members of a struct have been read, and its shape.
use ruminate.Base.{
  ℕ, ◌*◌, ◌^◌, ◌<◌, ◌≤◌, ◌≡◌, ◌∙◌, refl, ap, true, false, some, List, [], ◌∷◌, ◌==◌, arith, ◌≢◌,
}
use ruminate.Base.Int.{to_signed, to_unsigned}
use ruminate.Backend.{TypeId}
use ruminate.RType.{RTypeId, RBuiltinTypeId, Extension, type_category}
use ruminate.RType.New.{start_extension}
use ruminate.World.{Addr, Memory, Block, World, load, store}
use ruminate.Words.{load-store}
use ruminate.Words.Copy.{Apart, load-store-Apart, load-copy-Apart, load-copy}
use ruminate.Json.{Env}
use ruminate.Json.Fits.{FitsMembers}
use ruminate.Json.Shape.{
  Shape, Members, scalar, no_members, member, member_proxies, height_members, height, encode,
  scalar_json, has_member,
}
use ruminate.Json.Serialize.Values.{State, int_at}
use ruminate.Json.Encoding.Object.{Has, here, there}
use ruminate.Json.Deserialize.Fields.{Field, value_of, spot, read_field}
use ruminate.Json.Deserialize.Members.{proxies, place, read_fields, AllTold}
use ruminate.Json.Deserialize.Scalar.{IsInteger, narrowed}

abbrev pub builtin_of : TypeId → RBuiltinTypeId
builtin_of TypeId.int = RBuiltinTypeId.int
builtin_of TypeId.long = RBuiltinTypeId.long
builtin_of TypeId.short = RBuiltinTypeId.short
builtin_of TypeId.char = RBuiltinTypeId.char
builtin_of _ = RBuiltinTypeId.unknown

abbrev pub shape_of : Field → Shape
shape_of f = scalar f.kind (builtin_of f.kind)

abbrev pub members_of : List Field → Members
members_of [] = no_members
members_of (f ∷ fs) = member f.slot (shape_of f) (members_of fs)

-- A member of the list.
pub data In (f : Field) : List Field → Type 0 where
  first : {fs : List Field} → In f (f ∷ fs)
  later : {g : Field} {fs : List Field} → In f fs → In f (g ∷ fs)

pub In-Has : {f : Field} (fs : List Field) → In f fs → Has f.slot (shape_of f) (members_of fs)
In-Has (f ∷ fs) first = here
In-Has (g ∷ fs) (later i) = there (In-Has fs i)
In-Has [] i = elim i [ ]

pub members_of-proxies : (fs : List Field) → member_proxies (members_of fs) ≡ proxies fs
members_of-proxies [] = refl
members_of-proxies (f ∷ fs) = ap (λ ms. f.slot.proxy ∷ ms) (members_of-proxies fs)

pub members_of-height : (fs : List Field) → height_members (members_of fs) ≤ 1
unfolding height_members height
members_of-height [] = omega arith
members_of-height (f ∷ fs) = omega (arith, members_of-height fs)

-- Types and numbers of integers.
abbrev pub AllIntegers : List Field → Type 0
AllIntegers [] = Unit
AllIntegers (f ∷ fs) = (IsInteger f.kind f.bytes × (f.number < 256 ^ f.bytes)) × AllIntegers fs

pub AllTold-AllIntegers :
    (E : Env) (js : State E) (w : World) (fs : List Field) → AllTold E js w fs → AllIntegers fs
AllTold-AllIntegers E js w [] told = tt
AllTold-AllIntegers E js w (f ∷ fs) (told, others) =
    ((told.is, told.small), AllTold-AllIntegers E js w fs others)

module _ (E : Env) (js : State E) (h : List Block) (st : Addr) where
  -- What is written for the later members is apart from the place of this one.
  abbrev pub Clear : Field → List Field → Type 0
  Clear f [] = Unit
  Clear f (g ∷ gs) =
      Apart f.bytes (place E js st f) g.bytes (place E js st g)
      × Apart f.bytes (place E js st f) g.bytes (spot E js h g)
      × Clear f gs

  -- The places of the members are apart from each other and from the blocks that are read to, and none
  -- is NULL.
  abbrev pub Separate : List Field → Type 0
  Separate [] = Unit
  Separate (f ∷ fs) =
      Apart f.bytes (spot E js h f) f.bytes (place E js st f)
      × ((place E js st f == 0) ≡ false)
      × Clear f fs
      × Separate fs

  abbrev pub AllStored : Memory → List Field → Type 0
  AllStored m [] = Unit
  AllStored m (f ∷ fs) = (load f.bytes m (place E js st f) ≡ f.number) × AllStored m fs

  Clear-kept :
      (f : Field) (gs : List Field) (m : Memory)
      → Clear f gs
      → load f.bytes (read_fields E js h gs st m) (place E js st f)
        ≡ load f.bytes m (place E js st f)
  Clear-kept f [] m clear = refl
  Clear-kept f (g ∷ gs) m (places, spots, clear) =
      let a = place E js st f in
      let m' = store g.bytes (spot E js h g) (to_unsigned 64 (value_of g)) m in
      Clear-kept f gs (read_field E js h g (place E js st g) m) clear
      ∙ (load-copy-Apart f.bytes a g.bytes (place E js st g) (spot E js h g) m' places
          ∙ load-store-Apart f.bytes a g.bytes (spot E js h g) (to_unsigned 64 (value_of g)) m
              spots)

  read_field-stored :
      (f : Field) (m : Memory)
      → IsInteger f.kind f.bytes
      → f.number < 256 ^ f.bytes
      → Apart f.bytes (spot E js h f) f.bytes (place E js st f)
      → load f.bytes (read_field E js h f (place E js st f) m) (place E js st f) ≡ f.number
  read_field-stored f m is small apart =
      let v = to_unsigned 64 (value_of f) in
      load-copy f.bytes (place E js st f) (spot E js h f) (store f.bytes (spot E js h f) v m) apart
      ∙ (load-store f.bytes (spot E js h f) v m ∙ narrowed f.kind f.bytes f.number is small)

  pub read_fields-AllStored :
      (fs : List Field) (m : Memory)
      → AllIntegers fs
      → Separate fs
      → AllStored (read_fields E js h fs st m) fs
  read_fields-AllStored [] m integers separate = tt
  read_fields-AllStored (f ∷ fs) m ((is, small), others) (apart, address, clear, rest) =
      let m' = read_field E js h f (place E js st f) m in
      (
        Clear-kept f fs m' clear ∙ read_field-stored f m is small apart,
        read_fields-AllStored fs m' others rest,
      )

  pub scalar_json-number :
      (t : TypeId) (bytes n : ℕ) (m : Memory) (a : Addr)
      → IsInteger t bytes
      → load bytes m a ≡ n
      → scalar_json E (builtin_of t) m a ≡ some (E.jansson.integer (to_signed (8 * bytes) n))
  unfolding int_at
  scalar_json-number _ _ n m a IsInteger.int stored = rw stored refl
  scalar_json-number _ _ n m a IsInteger.long stored = rw stored refl
  scalar_json-number _ _ n m a IsInteger.short stored = rw stored refl
  scalar_json-number _ _ n m a IsInteger.char stored = rw stored refl

  pub integer-start :
      (t : TypeId) (bytes : ℕ)
      → IsInteger t bytes
      → start_extension t ≡ Extension.builtin (builtin_of t)
  integer-start _ _ IsInteger.int = refl
  integer-start _ _ IsInteger.long = refl
  integer-start _ _ IsInteger.short = refl
  integer-start _ _ IsInteger.char = refl

  pub integer-category :
      (t : TypeId) (bytes : ℕ) → IsInteger t bytes → type_category t ≡ RTypeId.builtin
  unfolding type_category
  integer-category _ _ IsInteger.int = refl
  integer-category _ _ IsInteger.long = refl
  integer-category _ _ IsInteger.short = refl
  integer-category _ _ IsInteger.char = refl

  pub not_void : (t : TypeId) (bytes : ℕ) → IsInteger t bytes → builtin_of t ≢ RBuiltinTypeId.void
  not_void _ _ IsInteger.int e = cc
  not_void _ _ IsInteger.long e = cc
  not_void _ _ IsInteger.short e = cc
  not_void _ _ IsInteger.char e = cc

  pub members_of-FitsMembers :
      (flags : ℕ) (fs : List Field) (m : Memory) (w : World)
      → AllTold E js w fs
      → Separate fs
      → FitsMembers E flags (members_of fs) m st
  members_of-FitsMembers flags [] m w told separate = tt
  members_of-FitsMembers flags (f ∷ fs) m w (told, others) (apart, address, clear, rest) = (
    (told.type, told.offset),
    told.name,
    (told.bitfield, told.is_bitfield),
    (
      (told.id, (told.type_name, told.named), address),
      integer-start f.kind f.bytes told.is,
      integer-category f.kind f.bytes told.is,
      λ e. absurd (not_void f.kind f.bytes told.is e),
    ),
    members_of-FitsMembers flags fs m w others rest,
  )

  -- The JSON of a member is its number.
  pub encode-In :
      {f : Field} (fs : List Field) (m : Memory)
      → In f fs
      → AllIntegers fs
      → AllStored m fs
      → encode E (shape_of f) m (place E js st f) ≡ some (E.jansson.integer (value_of f))
  unfolding encode
  encode-In (f ∷ fs) m first ((is, small), others) (stored, rest) =
      scalar_json-number f.kind f.bytes f.number m (place E js st f) is stored
  encode-In (g ∷ fs) m (later i) (integer, others) (stored, rest) = encode-In fs m i others rest
  encode-In [] m i integers stored = elim i [ ]

  pub has_member-In :
      {f : Field} (fs : List Field) (m : Memory)
      → In f fs
      → AllIntegers fs
      → AllStored m fs
      → has_member E (members_of fs) m st ≡ true
  unfolding encode
  has_member-In (g ∷ fs) m i ((is, small), others) (stored, rest) =
      rw (scalar_json-number g.kind g.bytes g.number m (place E js st g) is stored) refl
  has_member-In [] m i integers stored = elim i [ ]
