-- ===== src/RType/New.antt =====
-- r_type_new of src/type.cpp, and the first answers of the object that it makes.
use ruminate.Base.{ℕ, ◌≡◌, refl, Option, none, some, List, length}
use ruminate.Errors.{returned, GError, ok, raised, gxx_call}
use ruminate.Backend.{TypePrx, TypeMemberPrx, TypeId, Backend}
use ruminate.RString.{RString}
use ruminate.RType.Query.{
  r_aggregate_type_nmembers, r_array_type_size, r_pointer_type_pointee, r_typedef_type_canonical,
}
use ruminate.RType.{
  RTypeId, RBuiltinTypeId, RAggregateTypeId, Extension, RType, type_category, r_type_init,
  r_type_new,
}

-- The extension of a new object, by the kind of type.
abbrev pub start_extension : TypeId → Extension
start_extension TypeId.structure = Extension.aggregate RAggregateTypeId.struct none
start_extension TypeId.enum = Extension.aggregate RAggregateTypeId.enum none
start_extension TypeId.union = Extension.aggregate RAggregateTypeId.union none
start_extension TypeId.function = Extension.aggregate RAggregateTypeId.function none
start_extension TypeId.typedef = Extension.plain
start_extension TypeId.pointer = Extension.plain
start_extension TypeId.array = Extension.array none
start_extension TypeId.int = Extension.builtin RBuiltinTypeId.int
start_extension TypeId.long = Extension.builtin RBuiltinTypeId.long
start_extension TypeId.double = Extension.builtin RBuiltinTypeId.double
start_extension TypeId.short = Extension.builtin RBuiltinTypeId.short
start_extension TypeId.char = Extension.builtin RBuiltinTypeId.char
start_extension TypeId.void = Extension.builtin RBuiltinTypeId.void
start_extension TypeId.bool = Extension.builtin RBuiltinTypeId.bool
start_extension TypeId.unknown = Extension.plain

-- An object that has answered nothing but, perhaps, its name.
unfoldable pub new_object : TypePrx → TypeId → ℕ → Option RString → RType
unfolding type_category
new_object p id refcnt name = record {
  id = type_category id;
  refcnt = refcnt;
  name = name;
  type = p;
  type_id = id;
  size = none;
  extension = start_extension id;
}

new_object-init : (p : TypePrx) (id : TypeId) → r_type_init p id ≡ ok (new_object p id 1 none)
unfolding r_type_init new_object
new_object-init p TypeId.structure = refl
new_object-init p _ = refl

-- What an object is by the kind of type that the debugger names: its category, and what its subclass
-- starts with.
pub data IsOf : TypeId → RTypeId → Extension → Type 0 where
  structure :
      IsOf TypeId.structure RTypeId.aggregate (Extension.aggregate RAggregateTypeId.struct none)
  union : IsOf TypeId.union RTypeId.aggregate (Extension.aggregate RAggregateTypeId.union none)
  enum : IsOf TypeId.enum RTypeId.aggregate (Extension.aggregate RAggregateTypeId.enum none)
  function :
      IsOf TypeId.function RTypeId.aggregate (Extension.aggregate RAggregateTypeId.function none)
  array : IsOf TypeId.array RTypeId.array (Extension.array none)
  typedef : IsOf TypeId.typedef RTypeId.typedef Extension.plain
  pointer : IsOf TypeId.pointer RTypeId.pointer Extension.plain
  unknown : IsOf TypeId.unknown RTypeId.unknown Extension.plain
  int : IsOf TypeId.int RTypeId.builtin (Extension.builtin RBuiltinTypeId.int)
  long : IsOf TypeId.long RTypeId.builtin (Extension.builtin RBuiltinTypeId.long)
  double : IsOf TypeId.double RTypeId.builtin (Extension.builtin RBuiltinTypeId.double)
  short : IsOf TypeId.short RTypeId.builtin (Extension.builtin RBuiltinTypeId.short)
  char : IsOf TypeId.char RTypeId.builtin (Extension.builtin RBuiltinTypeId.char)
  void : IsOf TypeId.void RTypeId.builtin (Extension.builtin RBuiltinTypeId.void)
  bool : IsOf TypeId.bool RTypeId.builtin (Extension.builtin RBuiltinTypeId.bool)

-- A new object for a type of this kind.
pub record IsNew (p : TypePrx) (id : TypeId) (rt : RType) : Type 0 where
  pub category : IsOf id rt.id rt.extension
  pub one_reference : rt.refcnt ≡ 1
  pub of_type : rt.type ≡ p
  pub of_kind : rt.type_id ≡ id
  pub no_name : rt.name ≡ none
  pub no_size : rt.size ≡ none

new_object-IsOf :
    (p : TypePrx) (id : TypeId)
    → IsOf id (new_object p id 1 none).id (new_object p id 1 none).extension
unfolding new_object type_category
new_object-IsOf p TypeId.structure = IsOf.structure
new_object-IsOf p TypeId.union = IsOf.union
new_object-IsOf p TypeId.enum = IsOf.enum
new_object-IsOf p TypeId.function = IsOf.function
new_object-IsOf p TypeId.array = IsOf.array
new_object-IsOf p TypeId.typedef = IsOf.typedef
new_object-IsOf p TypeId.pointer = IsOf.pointer
new_object-IsOf p TypeId.unknown = IsOf.unknown
new_object-IsOf p TypeId.int = IsOf.int
new_object-IsOf p TypeId.long = IsOf.long
new_object-IsOf p TypeId.double = IsOf.double
new_object-IsOf p TypeId.short = IsOf.short
new_object-IsOf p TypeId.char = IsOf.char
new_object-IsOf p TypeId.void = IsOf.void
new_object-IsOf p TypeId.bool = IsOf.bool

module _ (B : Backend) (p : TypePrx) where
  alloc_then : (id : TypeId) → B.get_id p ≡ returned id → r_type_new B p ≡ r_type_init p id
  unfolding r_type_new
  alloc_then TypeId.structure h = rw h
  alloc_then _ h = rw h

  -- The object that is made where the debugger names the kind.
  pub r_type_new-new_object :
      (id : TypeId) → B.get_id p ≡ returned id → r_type_new B p ≡ ok (new_object p id 1 none)
  r_type_new-new_object id h = rw (alloc_then id h) (new_object-init p id)

  -- For every kind of type that the debugger names, r_type_new makes an object of that kind's
  -- category and subclass, with one reference and nothing remembered: no assertion of its switches
  -- is reached.
  pub r_type_new-IsNew :
      (id : TypeId)
      → B.get_id p ≡ returned id
      → (rt : RType) × (r_type_new B p ≡ ok rt) × IsNew p id rt
  unfolding new_object
  r_type_new-IsNew id h = (
    new_object p id 1 none,
    r_type_new-new_object id h,
    record {
      category = new_object-IsOf p id;
      one_reference = refl;
      of_type = refl;
      of_kind = refl;
      no_name = refl;
      no_size = refl;
    },
  )

  -- If the debugger does not answer, the error is the one that gxx_call makes of it.
  pub r_type_new-raised :
      (e : GError) → gxx_call (B.get_id p) ≡ raised e → r_type_new B p ≡ raised e
  unfolding r_type_new
  r_type_new-raised e h = rw h

module _ (B : Backend) (p : TypePrx) (r : ℕ) (name : Option RString) where
  -- The object of an aggregate that has asked for its members.
  abbrev pub with_members : TypeId → RAggregateTypeId → List TypeMemberPrx → RType
  with_members t k all = record (new_object p t r name) {
    extension = Extension.aggregate k (some all);
  }

  pub nmembers-new_object :
      (t : TypeId) (k : RAggregateTypeId) (all : List TypeMemberPrx)
      → start_extension t ≡ Extension.aggregate k none
      → B.get_members p ≡ returned all
      → r_aggregate_type_nmembers B (new_object p t r name)
        ≡ (with_members t k all, ok (length all))
  unfolding r_aggregate_type_nmembers new_object
  nmembers-new_object t k all start h = rw (start, h)

  -- The object of an array that has asked for its members.
  abbrev pub with_elements : List TypeMemberPrx → RType
  with_elements all = record (new_object p TypeId.array r name) {
    extension = Extension.array (some all);
  }

  pub array_size-new_object :
      (tid result : ℕ) (all : List TypeMemberPrx)
      → B.begin_get_members p tid ≡ returned result
      → B.end_get_members p result ≡ returned all
      → r_array_type_size B tid (new_object p TypeId.array r name)
        ≡ (with_elements all, ok (length all))
  unfolding r_array_type_size new_object
  array_size-new_object tid result all start h = rw (start, h)

module _ (B : Backend) (p q : TypePrx) (r : ℕ) (name : Option RString) (t : TypeId) where
  pub pointee-new_object :
      (u : TypeId)
      → B.get_pointee_type p ≡ returned q
      → B.get_id q ≡ returned t
      → r_pointer_type_pointee B (new_object p u r name) ≡ ok (new_object q t 1 none)
  unfolding r_pointer_type_pointee new_object
  pointee-new_object u h id = rw h (r_type_new-new_object B q t id)

  pub canonical-new_object :
      (u : TypeId)
      → B.get_canonical_type p ≡ returned q
      → B.get_id q ≡ returned t
      → r_typedef_type_canonical B (new_object p u r name) ≡ ok (new_object q t 1 none)
  unfolding r_typedef_type_canonical new_object
  canonical-new_object u h id = rw h (r_type_new-new_object B q t id)
