-- ===== src/RType.antt =====
-- src/type.cpp, with the parts of src/builtin_type.cpp, src/aggregate_type.cpp and
-- src/array_type.cpp that make an object: what kind of type a proxy stands for, and the object for it.
pub mod Alloc
pub mod New
pub mod Lifetime
pub mod Query
use ruminate.Base.{
  ℕ, ◌+◌, ◌-◌, ◌%◌, ◌^◌, Bool, true, false, Option, none, some, List, if◌then◌else◌,
}
use ruminate.Base.Int.{ℤ, to_unsigned}
use ruminate.Errors.{Call, ok, raised, aborted, crashed, ◌>>=◌, ◌>>◌, gxx_call}
use ruminate.Backend.{TypePrx, TypeMemberPrx, TypeId, Backend}
use ruminate.RString.{RString}

pub data RTypeId : Type 0 where
  builtin aggregate typedef pointer array unknown : RTypeId

pub data RBuiltinTypeId : Type 0 where
  int long double short char void bool unknown : RBuiltinTypeId

pub data RAggregateTypeId : Type 0 where
  struct union enum function unknown : RAggregateTypeId

-- The fields of the struct that extends RType: RBuiltinType, RAggregateType with its members once
-- they are initialised, RArrayType with its members once they are valid, or nothing more.
pub data Extension : Type 0 where
  plain : Extension
  builtin : RBuiltinTypeId → Extension
  aggregate : RAggregateTypeId → Option (List TypeMemberPrx) → Extension
  array : Option (List TypeMemberPrx) → Extension

-- `name` is none while it is NULL, `size` while it is not initialised.
pub record RType : Type 0 where
  pub id : RTypeId
  pub refcnt : ℕ
  pub name : Option RString
  pub type : TypePrx
  pub type_id : TypeId
  pub size : Option ℕ
  pub extension : Extension

-- The first switch of r_type_init.
unfoldable pub type_category : TypeId → RTypeId
type_category TypeId.array = RTypeId.array
type_category TypeId.structure = RTypeId.aggregate
type_category TypeId.union = RTypeId.aggregate
type_category TypeId.enum = RTypeId.aggregate
type_category TypeId.function = RTypeId.aggregate
type_category TypeId.int = RTypeId.builtin
type_category TypeId.long = RTypeId.builtin
type_category TypeId.double = RTypeId.builtin
type_category TypeId.void = RTypeId.builtin
type_category TypeId.short = RTypeId.builtin
type_category TypeId.char = RTypeId.builtin
type_category TypeId.bool = RTypeId.builtin
type_category TypeId.typedef = RTypeId.typedef
type_category TypeId.pointer = RTypeId.pointer
type_category TypeId.unknown = RTypeId.unknown

r_builtin_type_init : TypeId → Call RBuiltinTypeId
r_builtin_type_init TypeId.int = ok RBuiltinTypeId.int
r_builtin_type_init TypeId.long = ok RBuiltinTypeId.long
r_builtin_type_init TypeId.double = ok RBuiltinTypeId.double
r_builtin_type_init TypeId.void = ok RBuiltinTypeId.void
r_builtin_type_init TypeId.short = ok RBuiltinTypeId.short
r_builtin_type_init TypeId.char = ok RBuiltinTypeId.char
r_builtin_type_init TypeId.bool = ok RBuiltinTypeId.bool
r_builtin_type_init _ = aborted

r_aggregate_type_init : TypeId → Call RAggregateTypeId
r_aggregate_type_init TypeId.structure = ok RAggregateTypeId.struct
r_aggregate_type_init TypeId.union = ok RAggregateTypeId.union
r_aggregate_type_init TypeId.enum = ok RAggregateTypeId.enum
r_aggregate_type_init TypeId.function = ok RAggregateTypeId.function
r_aggregate_type_init _ = aborted

-- The second switch of r_type_init.
init_extension : RTypeId → TypeId → Call Extension
unfolding r_builtin_type_init r_aggregate_type_init
init_extension RTypeId.aggregate t =
    r_aggregate_type_init t >>= λ i. ok (Extension.aggregate i none)
init_extension RTypeId.builtin t = r_builtin_type_init t >>= λ i. ok (Extension.builtin i)
init_extension RTypeId.typedef t = ok Extension.plain
init_extension RTypeId.pointer t = ok Extension.plain
init_extension RTypeId.array t = ok (Extension.array none)
init_extension RTypeId.unknown t = ok Extension.plain

r_type_init : TypePrx → TypeId → Call RType
unfolding type_category init_extension
r_type_init type type_id = do
  extension ← init_extension (type_category type_id) type_id
  ok (record {
    id = type_category type_id;
    refcnt = 1;
    name = none;
    type = type;
    type_id = type_id;
    size = none;
    extension = extension;
  })

-- The struct that an object is allocated as, and freed as.
pub data Slice : Type 0 where
  r_type r_array_type r_aggregate_type r_function_type r_builtin_type : Slice
  r_typedef_type r_pointer_type : Slice

r_aggregate_type_alloc : TypeId → Call Slice
r_aggregate_type_alloc TypeId.function = ok Slice.r_function_type
r_aggregate_type_alloc TypeId.union = ok Slice.r_aggregate_type
r_aggregate_type_alloc TypeId.enum = ok Slice.r_aggregate_type
r_aggregate_type_alloc TypeId.structure = ok Slice.r_aggregate_type
r_aggregate_type_alloc _ = aborted

pub r_type_alloc : TypeId → Call Slice
unfolding r_aggregate_type_alloc
r_type_alloc TypeId.array = ok Slice.r_array_type
r_type_alloc TypeId.structure = r_aggregate_type_alloc TypeId.structure
r_type_alloc TypeId.enum = r_aggregate_type_alloc TypeId.enum
r_type_alloc TypeId.union = r_aggregate_type_alloc TypeId.union
r_type_alloc TypeId.function = r_aggregate_type_alloc TypeId.function
r_type_alloc TypeId.typedef = ok Slice.r_typedef_type
r_type_alloc TypeId.pointer = ok Slice.r_pointer_type
r_type_alloc TypeId.unknown = ok Slice.r_type
r_type_alloc _ = ok Slice.r_builtin_type

-- The cleanup of a failed r_type_init is r_type_free, which no failure here reaches.
pub r_type_new : Backend → TypePrx → Call RType
unfolding r_type_alloc r_type_init gxx_call
r_type_new B type = do id ← gxx_call (B.get_id type); r_type_alloc id; r_type_init type id
