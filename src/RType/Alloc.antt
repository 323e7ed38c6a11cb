-- ===== src/RType/Alloc.antt =====
-- r_type_ref, r_type_unref, r_type_delete, r_type_destroy and r_type_free of src/type.cpp, with the
-- same of src/aggregate_type.cpp.
use ruminate.Base.{Option, none, some, if◌then◌else◌}
use ruminate.Glib.{Glib}
use ruminate.Errors.{Call, ok, aborted, ◌>>=◌}
use ruminate.Backend.{TypeId}
use ruminate.RString.{RString, r_string_unref}
use ruminate.RType.{RTypeId, RAggregateTypeId, Extension, RType, Slice}

-- The struct that a call of r_aggregate_type_free or r_type_free gives back.
free_aggregate : Extension → Call Slice
free_aggregate (Extension.aggregate RAggregateTypeId.struct ms) = ok Slice.r_aggregate_type
free_aggregate (Extension.aggregate RAggregateTypeId.union ms) = ok Slice.r_aggregate_type
free_aggregate (Extension.aggregate RAggregateTypeId.enum ms) = ok Slice.r_aggregate_type
free_aggregate (Extension.aggregate RAggregateTypeId.function ms) = ok Slice.r_function_type
free_aggregate _ = aborted

free_as : TypeId → Extension → Call Slice
unfolding free_aggregate
free_as TypeId.array x = ok Slice.r_array_type
free_as TypeId.structure x = free_aggregate x
free_as TypeId.union x = free_aggregate x
free_as TypeId.enum x = free_aggregate x
free_as TypeId.function x = free_aggregate x
free_as TypeId.typedef x = ok Slice.r_typedef_type
free_as TypeId.pointer x = ok Slice.r_pointer_type
free_as TypeId.unknown x = ok Slice.r_type
free_as _ x = ok Slice.r_builtin_type

pub r_type_free : RType → Call Slice
unfolding free_as
r_type_free rt = free_as rt.type_id rt.extension

-- r_aggregate_type_destroy: a function's own name is NULL throughout, since nothing sets it.
destroy_aggregate : Extension → Call Extension
destroy_aggregate (Extension.aggregate RAggregateTypeId.unknown ms) = aborted
destroy_aggregate (Extension.aggregate i ms) = ok (Extension.aggregate i none)
destroy_aggregate _ = aborted

destroy_extension : RTypeId → Extension → Call Extension
unfolding destroy_aggregate
destroy_extension RTypeId.aggregate x = destroy_aggregate x
destroy_extension RTypeId.array (Extension.array ms) = ok (Extension.array none)
destroy_extension _ x = ok x

module _ (G : Glib) where
  unref_name : Option RString → Option RString
  unref_name none = none
  unref_name (some s) = r_string_unref G s

  -- The object with its members dropped, and the name with this object's reference given up.
  r_type_destroy : RType → Call (RType × Option RString)
  unfolding destroy_extension unref_name
  r_type_destroy rt = do
    x ← destroy_extension rt.id rt.extension
    ok (record rt { type = 0; extension = x }, unref_name rt.name)

  unfoldable pub r_type_delete : RType → Call Slice
  unfolding r_type_destroy r_type_free
  r_type_delete rt = do (destroyed, name) ← r_type_destroy rt; r_type_free destroyed

  unfoldable pub r_type_ref : RType → RType
  r_type_ref rt = record rt { refcnt = G.atomic_int_inc rt.refcnt }

  -- What is left: the object with one reference less, or the struct that was given back.
  pub data Released : Type 0 where
    kept : RType → Released
    freed : Slice → Released

  unfoldable pub r_type_unref : RType → Call Released
  unfolding r_type_delete
  r_type_unref rt =
      let (n, last) = G.atomic_int_dec_and_test rt.refcnt in
      let gone = r_type_delete rt >>= λ s. ok (freed s) in
      if last then gone else ok (kept (record rt { refcnt = n }))
