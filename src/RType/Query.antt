-- ===== src/RType/Query.antt =====
-- The questions of include/ruminate/type.h and of its extensions that an object answers, from what
-- it remembers or from the debugger: the second half of src/type.cpp, src/builtin_type.cpp,
-- src/aggregate_type.cpp, src/array_type.cpp, src/pointer_type.cpp, src/typedef_type.cpp and
-- src/function_type.cpp.
pub mod Caches
use ruminate.Base.{ℕ, String, Bool, Option, none, some, List, length}
use ruminate.Base.Int.{ℤ, to_unsigned}
use ruminate.Glib.{Glib}
use ruminate.Errors.{Call, ok, raised, aborted, crashed, ◌>>=◌, gxx_call}
use ruminate.Backend.{TypeMemberPrx, Backend}
use ruminate.RString.{RString, r_string_new_cxx, r_string_ref}
use ruminate.RType.{RTypeId, RBuiltinTypeId, RAggregateTypeId, Extension, RType, r_type_new}

-- A function that fills in what the object remembers returns the object too.
abbrev pub Query : Type 0 → Type 0
Query A = RType → RType × Call A

unfoldable pub r_type_id : RType → RTypeId
r_type_id rt = rt.id

-- A cast to RBuiltinType, and then to RAggregateType, is of an object of that struct or a crash.
as_builtin : Extension → Call RBuiltinTypeId
as_builtin (Extension.builtin i) = ok i
as_builtin _ = crashed

unfoldable pub r_builtin_type_id : RType → Call RBuiltinTypeId
unfolding as_builtin
r_builtin_type_id rbt = as_builtin rbt.extension

as_aggregate : Extension → Call RAggregateTypeId
as_aggregate (Extension.aggregate i ms) = ok i
as_aggregate _ = crashed

unfoldable pub r_aggregate_type_id : RType → Call RAggregateTypeId
unfolding as_aggregate
r_aggregate_type_id rat = as_aggregate rat.extension

module _ (G : Glib) (B : Backend) where
  first_name : RType → Call String → RType × Call RString
  first_name rt (ok name) =
      let s = r_string_ref G (r_string_new_cxx name) in (record rt { name = some s }, ok s)
  first_name rt (raised e) = (rt, raised e)
  first_name rt aborted = (rt, aborted)
  first_name rt crashed = (rt, crashed)

  -- The string returned carries the reference that is the caller's.
  name_of : RType → Option RString → RType × Call RString
  unfolding first_name gxx_call
  name_of rt (some s) = let s' = r_string_ref G s in (record rt { name = some s' }, ok s')
  name_of rt none = first_name rt (gxx_call (B.get_name rt.type))

  unfoldable pub r_type_name : Query RString
  unfolding name_of r_string_ref r_string_new_cxx
  r_type_name rt = name_of rt rt.name

module _ (B : Backend) where
  first_size : RType → Call ℤ → RType × Call ℕ
  first_size rt (ok n) = let n' = to_unsigned 64 n in (record rt { size = some n' }, ok n')
  first_size rt (raised e) = (rt, raised e)
  first_size rt aborted = (rt, aborted)
  first_size rt crashed = (rt, crashed)

  size_of : RType → Option ℕ → RType × Call ℕ
  unfolding first_size gxx_call
  size_of rt (some n) = (rt, ok n)
  size_of rt none = first_size rt (gxx_call (B.get_size rt.type))

  unfoldable pub r_type_size : Query ℕ
  unfolding size_of
  r_type_size rt = size_of rt rt.size

  unfoldable r_type_pointer : RType → Call RType
  unfolding gxx_call r_type_new
  r_type_pointer rt = do t ← gxx_call (B.get_pointer_type rt.type); r_type_new B t

  unfoldable pub r_pointer_type_pointee : RType → Call RType
  unfolding gxx_call r_type_new
  r_pointer_type_pointee rpt = do t ← gxx_call (B.get_pointee_type rpt.type); r_type_new B t

  unfoldable pub r_typedef_type_canonical : RType → Call RType
  unfolding gxx_call r_type_new
  r_typedef_type_canonical rtt = do t ← gxx_call (B.get_canonical_type rtt.type); r_type_new B t

  unfoldable r_function_type_return_type : RType → Call RType
  unfolding gxx_call r_type_new
  r_function_type_return_type rft = do t ← gxx_call (B.get_return_type rft.type); r_type_new B t

  unfoldable pub r_builtin_type_is_signed : RType → Call Bool
  unfolding gxx_call
  r_builtin_type_is_signed rbt = gxx_call (B.is_signed rbt.type)

  unfoldable r_builtin_type_is_unsigned : RType → Call Bool
  unfolding gxx_call
  r_builtin_type_is_unsigned rbt = gxx_call (B.is_unsigned rbt.type)

  first_members :
      RType → RAggregateTypeId → Call (List TypeMemberPrx) → RType × Call (List TypeMemberPrx)
  first_members rt i (ok ms) = (record rt { extension = Extension.aggregate i (some ms) }, ok ms)
  first_members rt i (raised e) = (rt, raised e)
  first_members rt i aborted = (rt, aborted)
  first_members rt i crashed = (rt, crashed)

  aggregate_members : RType → Extension → RType × Call (List TypeMemberPrx)
  unfolding first_members gxx_call
  aggregate_members rt (Extension.aggregate i (some ms)) = (rt, ok ms)
  aggregate_members rt (Extension.aggregate i none) =
      first_members rt i (gxx_call (B.get_members rt.type))
  aggregate_members rt _ = (rt, crashed)

  -- init_members of src/aggregate_type.cpp, with the members that it leaves behind.
  unfoldable pub init_members : Query (List TypeMemberPrx)
  unfolding aggregate_members
  init_members rt = aggregate_members rt rt.extension

  unfoldable pub r_aggregate_type_nmembers : Query ℕ
  unfolding init_members
  r_aggregate_type_nmembers rat =
      let (rat', members) = init_members rat in (rat', members >>= λ ms. ok (length ms))

  module _ (tid : ℕ) where
    fetch_array : RType → Call (List TypeMemberPrx)
    unfolding gxx_call
    fetch_array rt = do
      arp ← gxx_call (B.begin_get_members rt.type tid)
      gxx_call (B.end_get_members rt.type arp)

    first_array : RType → Call (List TypeMemberPrx) → RType × Call (List TypeMemberPrx)
    first_array rt (ok ms) = (record rt { extension = Extension.array (some ms) }, ok ms)
    first_array rt (raised e) = (rt, raised e)
    first_array rt aborted = (rt, aborted)
    first_array rt crashed = (rt, crashed)

    array_members : RType → Extension → RType × Call (List TypeMemberPrx)
    unfolding fetch_array first_array
    array_members rt (Extension.array (some ms)) = (rt, ok ms)
    array_members rt (Extension.array none) = first_array rt (fetch_array rt)
    array_members rt _ = (rt, crashed)

    -- init_members of src/array_type.cpp.
    unfoldable pub init_array_members : Query (List TypeMemberPrx)
    unfolding array_members
    init_array_members rt = array_members rt rt.extension

    unfoldable pub r_array_type_size : Query ℕ
    unfolding init_array_members
    r_array_type_size rat =
        let (rat', members) = init_array_members rat in (rat', members >>= λ ms. ok (length ms))
