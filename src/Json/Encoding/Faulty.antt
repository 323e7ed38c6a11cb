-- ===== src/Json/Encoding/Faulty.antt =====
-- A struct for which the debugger fails, in a member of it or of a struct in it: what it answers
-- util/ruminate-jansson/serialize.c until then.
use Prim.Native.Nat.{max}
use ruminate.Base.{ℕ, suc, ◌≡◌, Bool, List, ◌∷◌}
use ruminate.Errors.{GError, returned, raised, gxx_call}
use ruminate.Backend.{TypePrx, TypeMemberPrx, TypeId}
use ruminate.World.{Addr, Memory, advance}
use ruminate.Json.{Env}
use ruminate.Json.Shape.{
  Slot, Members, member, no_members, Cost, cost, add_cost, height_members, members_cost,
}
use ruminate.Json.Fits.{Typed, Placed, FitsMembers}

-- The question about a member that the debugger fails to answer.
pub data Question : Type 0 where
  bitfield place type : Question

-- The members of a struct before the one that fails, that one, and the proxies behind it: it fails
-- itself, or in its value, which is a struct.
pub data Fault : Type 0 where
  unanswered : Members → Slot → Question → List TypeMemberPrx → Fault
  inside : Members → Slot → Fault → List TypeMemberPrx → Fault

abbrev pub before : Members → List TypeMemberPrx → List TypeMemberPrx
before no_members rest = rest
before (member slot s ms) rest = slot.proxy ∷ before ms rest

abbrev pub depth_of : Fault → ℕ
depth_of (unanswered ms slot q rest) = suc (height_members ms)
depth_of (inside ms slot f rest) = suc (max (height_members ms) (depth_of f))

module _ (E : Env) where
  open E use {glib, backend, jansson}
  open jansson use {Json}

  -- The references that are left taken: those of the members before.
  abbrev pub lost : Fault → Memory → Addr → Cost
  lost (unanswered ms slot q rest) m a = add_cost (members_cost E ms m a) (cost 0 0 0)
  lost (inside ms slot f rest) m a =
      add_cost (members_cost E ms m a) (lost f m (advance a slot.offset))

  abbrev pub IsBitfield : Slot → Type 0
  IsBitfield slot = (b : Bool) × (backend.member_is_bitfield slot.proxy ≡ returned b)

  -- What the debugger answers of the member up to the question that it fails.
  abbrev pub Unanswered : Question → Slot → GError → Type 0
  Unanswered bitfield slot e = gxx_call (backend.member_is_bitfield slot.proxy) ≡ raised e
  Unanswered place slot e =
      IsBitfield slot × (gxx_call (backend.member_offset slot.proxy) ≡ raised e)
  Unanswered type slot e =
      IsBitfield slot
      × (backend.member_offset slot.proxy ≡ returned slot.offset)
      × (gxx_call (backend.member_type slot.proxy) ≡ raised e)

  -- The debugger answers as the members before say, and fails as the fault says.
  abbrev pub Faulty : ℕ → Fault → GError → TypePrx → Memory → Addr → Type 0
  Faulty flags (unanswered ms slot q rest) e p m a =
      Typed E p TypeId.structure a
      × (backend.get_members p ≡ returned (before ms (slot.proxy ∷ rest)))
      × FitsMembers E flags ms m a
      × Unanswered q slot e
  Faulty flags (inside ms slot f rest) e p m a =
      Typed E p TypeId.structure a
      × (backend.get_members p ≡ returned (before ms (slot.proxy ∷ rest)))
      × FitsMembers E flags ms m a
      × Placed E slot
      × IsBitfield slot
      × Faulty flags f e slot.type m (advance a slot.offset)

  pub Faulty-Typed :
      (flags : ℕ) (f : Fault) (e : GError) (p : TypePrx) (m : Memory) (a : Addr)
      → Faulty flags f e p m a
      → Typed E p TypeId.structure a
  Faulty-Typed flags (unanswered ms slot q rest) e p m a faulty = faulty.0
  Faulty-Typed flags (inside ms slot f rest) e p m a faulty = faulty.0
