-- ===== src/Json/Fits.antt =====
-- When the debugger's answers and the memory of the process are those that a shape says.
use ruminate.Base.{ℕ, String, ◌≡◌, Bool, true, false, some, List, [], ◌∷◌, ◌==◌}
use ruminate.Base.Int.{ℤ}
use ruminate.Errors.{returned}
use ruminate.Backend.{TypePrx, TypeId}
use ruminate.RType.{RTypeId, RBuiltinTypeId, Extension, type_category}
use ruminate.RType.New.{start_extension}
use ruminate.World.{Addr, Memory, load, advance}
use ruminate.Json.{Env, skips_unknown}
use ruminate.Json.Shape.{
  Slot, Enumerator, Shape, Members, Elements, scalar, enumeration, struct, array, null_pointer,
  pointer, typedef, union, function, unknown, no_members, member, no_elements, element, is_value,
  number_at, enumerator_proxies, member_proxies, element_proxies,
}

module _ (E : Env) where
  open E use {backend}

  -- The debugger knows the type, by kind and name, and the address is not NULL.
  abbrev pub Typed : TypePrx → TypeId → Addr → Type 0
  Typed p t a =
      (backend.get_id p ≡ returned t)
      × ((n : String) × (backend.get_name p ≡ returned n))
      × ((a == 0) ≡ false)

  abbrev pub Reads : Enumerator → Memory → Addr → Bool → Type 0
  Reads e m a found =
      (v : ℤ) × (number_at E e.builtin m a ≡ some v)
      × (is_value e.is_signed v e.value ≡ found)
      × (start_extension e.kind ≡ Extension.builtin e.builtin)
      × (type_category e.kind ≡ RTypeId.builtin)
      × (backend.get_id e.type ≡ returned e.kind)
      × (backend.member_type e.proxy ≡ returned e.type)
      × (backend.is_signed e.type ≡ returned e.is_signed)
      × (backend.member_value_signed e.proxy ≡ returned e.value)

  abbrev pub AllMiss : List Enumerator → Memory → Addr → Type 0
  AllMiss [] m a = Unit
  AllMiss (e ∷ es) m a = Reads e m a false × AllMiss es m a

  abbrev pub Placed : Slot → Type 0
  Placed slot =
      (backend.member_type slot.proxy ≡ returned slot.type)
      × (backend.member_offset slot.proxy ≡ returned slot.offset)

  module _ (flags : ℕ) where
    -- The debugger's answers and the memory are those that the shape says.
    abbrev mutual
      pub Fits : Shape → TypePrx → Memory → Addr → Type 0
      Fits (scalar t b) p m a =
          Typed p t a
          × (start_extension t ≡ Extension.builtin b)
          × (type_category t ≡ RTypeId.builtin)
          × (b ≡ RBuiltinTypeId.void → skips_unknown flags ≡ true)
      Fits (enumeration before e after) p m a =
          Typed p TypeId.enum a
          × (backend.get_members p ≡ returned (enumerator_proxies before (e.proxy ∷ after)))
          × AllMiss before m a
          × Reads e m a true
      Fits (struct ms) p m a =
          Typed p TypeId.structure a
          × (backend.get_members p ≡ returned (member_proxies ms))
          × FitsMembers ms m a
      Fits (array es) p m a =
          Typed p TypeId.array a
          × ((r : ℕ) × (backend.begin_get_members p E.tid ≡ returned r)
              × (backend.end_get_members p r ≡ returned (element_proxies es)))
          × FitsElements es m a
      Fits null_pointer p m a = Typed p TypeId.pointer a × ((load 8 m a == 0) ≡ true)
      Fits (pointer q s) p m a =
          Typed p TypeId.pointer a
          × ((load 8 m a == 0) ≡ false)
          × (backend.get_pointee_type p ≡ returned q)
          × Fits s q m (load 8 m a)
      Fits (typedef q s) p m a =
          Typed p TypeId.typedef a × (backend.get_canonical_type p ≡ returned q) × Fits s q m a
      Fits union p m a = Typed p TypeId.union a × (skips_unknown flags ≡ true)
      Fits function p m a = Typed p TypeId.function a × (skips_unknown flags ≡ true)
      Fits unknown p m a = Typed p TypeId.unknown a

      pub FitsMembers : Members → Memory → Addr → Type 0
      FitsMembers no_members m a = Unit
      FitsMembers (member slot s ms) m a =
          Placed slot
          × (backend.member_name slot.proxy ≡ returned slot.name)
          × ((b : Bool) × (backend.member_is_bitfield slot.proxy ≡ returned b))
          × Fits s slot.type m (advance a slot.offset)
          × FitsMembers ms m a

      pub FitsElements : Elements → Memory → Addr → Type 0
      FitsElements no_elements m a = Unit
      FitsElements (element slot s es) m a =
          Placed slot × Fits s slot.type m (advance a slot.offset) × FitsElements es m a
