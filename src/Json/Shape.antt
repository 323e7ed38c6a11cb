-- ===== src/Json/Shape.antt =====
-- What a value in memory looks like, independently of the code that walks over it: a tree of its
-- parts, with the debugger's proxies for them, and the JSON and the references that go with it.
use Prim.Native.Nat.{max}
use ruminate.Base.{
  ℕ, suc, ◌+◌, String, Bool, true, false, Option, none, some, List, [], ◌∷◌, ◌||◌, length, ◌==◌,
  if◌then◌else◌,
}
use ruminate.Base.Int.{ℤ, pos, to_signed, int_eq, to_unsigned}
use ruminate.Backend.{TypePrx, TypeMemberPrx, TypeId}
use ruminate.RString.{c_str}
use ruminate.RType.{RBuiltinTypeId}
use ruminate.World.{Addr, Memory, World, load, advance}
use ruminate.Json.{Env}
use ruminate.Json.Serialize.Values.{int_at, bool_at}

-- A member of a struct or of an array, as the debugger describes it.
pub record Slot : Type 0 where
  pub proxy : TypeMemberPrx
  pub type : TypePrx
  pub name : String
  pub offset : ℤ

-- An enumerator, with its type.
pub record Enumerator : Type 0 where
  pub proxy : TypeMemberPrx
  pub type : TypePrx
  pub kind : TypeId
  pub builtin : RBuiltinTypeId
  pub is_signed : Bool
  pub value : ℤ

-- An enumeration has the enumerators before the one that matches, that one, and the proxies behind
-- it. A pointer leads to its target, a typedef to its canonical type.
mutual
  pub data Shape : Type 0 where
    scalar : TypeId → RBuiltinTypeId → Shape
    enumeration : List Enumerator → Enumerator → List TypeMemberPrx → Shape
    struct : Members → Shape
    array : Elements → Shape
    null_pointer : Shape
    pointer : TypePrx → Shape → Shape
    typedef : TypePrx → Shape → Shape
    union function unknown : Shape

  pub data Members : Type 0 where
    no_members : Members
    member : Slot → Shape → Members → Members

  pub data Elements : Type 0 where
    no_elements : Elements
    element : Slot → Shape → Elements → Elements

abbrev pub kind_of : Shape → TypeId
kind_of (scalar t b) = t
kind_of (enumeration before e after) = TypeId.enum
kind_of (struct ms) = TypeId.structure
kind_of (array es) = TypeId.array
kind_of null_pointer = TypeId.pointer
kind_of (pointer p s) = TypeId.pointer
kind_of (typedef p s) = TypeId.typedef
kind_of union = TypeId.union
kind_of function = TypeId.function
kind_of unknown = TypeId.unknown

abbrev pub member_proxies : Members → List TypeMemberPrx
member_proxies no_members = []
member_proxies (member m s ms) = m.proxy ∷ member_proxies ms

abbrev pub element_proxies : Elements → List TypeMemberPrx
element_proxies no_elements = []
element_proxies (element m s es) = m.proxy ∷ element_proxies es

abbrev pub enumerator_proxies : List Enumerator → List TypeMemberPrx → List TypeMemberPrx
enumerator_proxies [] rest = rest
enumerator_proxies (e ∷ es) rest = e.proxy ∷ enumerator_proxies es rest

-- References that a run leaves taken.
pub record Cost : Type 0 where
  pub types : ℕ
  pub members : ℕ
  pub jsons : ℕ

abbrev pub cost : ℕ → ℕ → ℕ → Cost
cost t m j = record { types = t; members = m; jsons = j }

abbrev pub add_cost : Cost → Cost → Cost
add_cost c d = cost (c.types + d.types) (c.members + d.members) (c.jsons + d.jsons)

abbrev pub spend : Cost → World → World
spend c w = record w {
  types = c.types + w.types;
  members = c.members + w.members;
  jsons = c.jsons + w.jsons;
}

-- Whether an enumerator's value is the one that was read.
abbrev pub is_value : Bool → ℤ → ℤ → Bool
is_value true val real_val = int_eq val real_val
is_value false val real_val = to_unsigned 64 val == to_unsigned 64 real_val

-- The depth of calls that a shape takes.
unfoldable mutual
  pub height : Shape → ℕ
  height (scalar t b) = 1
  height (enumeration before e after) = 1
  height (struct ms) = suc (height_members ms)
  height (array es) = suc (height_elements es)
  height null_pointer = 1
  height (pointer p s) = suc (height s)
  height (typedef p s) = suc (height s)
  height union = 1
  height function = 1
  height unknown = 1

  pub height_members : Members → ℕ
  height_members no_members = 0
  height_members (member m s ms) = max (height s) (height_members ms)

  pub height_elements : Elements → ℕ
  height_elements no_elements = 0
  height_elements (element m s es) = max (height s) (height_elements es)

module _ (E : Env) where
  open E use {backend, jansson, double_to_int}
  open jansson use {Json}

  abbrev pub scalar_json : RBuiltinTypeId → Memory → Addr → Option Json
  scalar_json RBuiltinTypeId.int m a = some (jansson.integer (int_at 4 m a))
  scalar_json RBuiltinTypeId.long m a = some (jansson.integer (int_at 8 m a))
  scalar_json RBuiltinTypeId.short m a = some (jansson.integer (int_at 2 m a))
  scalar_json RBuiltinTypeId.char m a = some (jansson.integer (int_at 1 m a))
  scalar_json RBuiltinTypeId.double m a = jansson.real (load 8 m a)
  scalar_json RBuiltinTypeId.bool m a = some (jansson.boolean (bool_at m a))
  scalar_json RBuiltinTypeId.void m a = none
  scalar_json RBuiltinTypeId.unknown m a = none

  -- The number in memory of a type of C, as an enumerator of it is compared.
  unfoldable pub number_at : RBuiltinTypeId → Memory → Addr → Option ℤ
  number_at RBuiltinTypeId.int m a = some (to_signed 32 (load 4 m a))
  number_at RBuiltinTypeId.long m a = some (to_signed 64 (load 8 m a))
  number_at RBuiltinTypeId.short m a = some (to_signed 16 (load 2 m a))
  number_at RBuiltinTypeId.char m a = some (to_signed 8 (load 1 m a))
  number_at RBuiltinTypeId.double m a = some (double_to_int (load 8 m a))
  number_at RBuiltinTypeId.bool m a = some (if load 1 m a == 0 then pos 0 else pos 1)
  number_at RBuiltinTypeId.void m a = none
  number_at RBuiltinTypeId.unknown m a = none

  abbrev pub integer_json : Option ℤ → Option Json
  integer_json none = none
  integer_json (some v) = some (jansson.integer v)

  abbrev pub updated : Json → Option Json → Json
  updated j none = j
  updated j (some j') = j'

  -- The key of a member in the object.
  abbrev pub key_of : Slot → String
  key_of m = c_str (c_str m.name)

  -- A member with no JSON is left out of the object.
  abbrev pub put_member : Json → String → Option Json → Json
  put_member obj k none = obj
  put_member obj k (some v) = updated obj (jansson.object_set obj k v)

  -- An element with no JSON is null.
  abbrev pub put_element : Json → Option Json → Json
  put_element arr none = updated arr (jansson.array_append arr jansson.null)
  put_element arr (some v) = updated arr (jansson.array_append arr v)

  abbrev pub is_some : Option Json → Bool
  is_some none = false
  is_some (some j) = true

  abbrev pub count_json : Option Json → ℕ
  count_json none = 0
  count_json (some j) = 1

  -- The cost of an element, which is a new null if it has no JSON.
  abbrev pub with_null : Cost → Option Json → Cost
  with_null c none = add_cost c (cost 0 0 1)
  with_null c (some v) = c

  -- The object, if anything was put in it.
  abbrev pub unless_empty : Bool → Json → Option Json
  unless_empty true obj = some obj
  unless_empty false obj = none

  unfoldable mutual
    -- The JSON for the value at an address.
    pub encode : Shape → Memory → Addr → Option Json
    encode (scalar t b) m a = scalar_json b m a
    encode (enumeration before e after) m a = integer_json (number_at e.builtin m a)
    encode (struct ms) m a = unless_empty (has_member ms m a) (encode_members ms m a jansson.object)
    encode (array es) m a = some (encode_elements es m a jansson.array)
    encode null_pointer m a = some jansson.null
    encode (pointer p s) m a = encode s m (load 8 m a)
    encode (typedef p s) m a = encode s m a
    encode union m a = none
    encode function m a = none
    encode unknown m a = none

    pub encode_members : Members → Memory → Addr → Json → Json
    encode_members no_members m a obj = obj
    encode_members (member slot s ms) m a obj =
        encode_members ms m a (put_member obj (key_of slot) (encode s m (advance a slot.offset)))

    pub has_member : Members → Memory → Addr → Bool
    has_member no_members m a = false
    has_member (member slot s ms) m a =
        is_some (encode s m (advance a slot.offset)) || has_member ms m a

    pub encode_elements : Elements → Memory → Addr → Json → Json
    encode_elements no_elements m a arr = arr
    encode_elements (element slot s es) m a arr =
        encode_elements es m a (put_element arr (encode s m (advance a slot.offset)))

  unfoldable mutual
    -- The references that serializing the value leaves taken, those of the result among them.
    pub cost_of : Shape → Memory → Addr → Cost
    cost_of (scalar t b) m a = cost 0 0 (count_json (scalar_json b m a))
    cost_of (enumeration before e after) m a = cost (length before + 2) 1 1
    cost_of (struct ms) m a =
        add_cost (members_cost ms m a) (cost 0 0 (if has_member ms m a then 1 else 0))
    cost_of (array es) m a = add_cost (elements_cost es m a) (cost 0 0 1)
    cost_of null_pointer m a = cost 0 0 1
    cost_of (pointer p s) m a = cost_of s m (load 8 m a)
    cost_of (typedef p s) m a = cost_of s m a
    cost_of union m a = cost 0 0 0
    cost_of function m a = cost 0 0 0
    cost_of unknown m a = cost 0 0 0

    pub members_cost : Members → Memory → Addr → Cost
    members_cost no_members m a = cost 0 0 0
    members_cost (member slot s ms) m a =
        add_cost (cost_of s m (advance a slot.offset)) (members_cost ms m a)

    pub elements_cost : Elements → Memory → Addr → Cost
    elements_cost no_elements m a = cost 0 0 0
    elements_cost (element slot s es) m a =
        add_cost
          (with_null (cost_of s m (advance a slot.offset)) (encode s m (advance a slot.offset)))
          (elements_cost es m a)
