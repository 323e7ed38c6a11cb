-- ===== src/Tests/Sample.antt =====
-- The struct sample of Tests/Process.antt as a shape, and that the process holds one.
use ruminate.Base.{ℕ, String, refl, true, false, [], ◌∷◌}
use ruminate.Base.Int.{ℤ, pos}
use ruminate.Backend.{TypePrx, TypeMemberPrx, TypeId}
use ruminate.RType.{RBuiltinTypeId, type_category}
use ruminate.Json.Serialize.{serializer_for, hook_serializer}
use ruminate.World.{load, advance}
use ruminate.Json.Shape.{
  number_at, Slot, Enumerator, Shape, Members, scalar, enumeration, struct, array, pointer, typedef,
  no_members, member, no_elements, element,
}
use ruminate.Json.Fits.{Fits}
use ruminate.Json.Encoding.Step.{NoSerializers}
use ruminate.Tests.Process.{process, flags_state, cells}

abbrev pub slot : TypeMemberPrx → TypePrx → String → ℤ → Slot
slot m t n o = record { proxy = m; type = t; name = n; offset = o }

abbrev pub enumerator : TypeMemberPrx → ℤ → Enumerator
enumerator m v = record {
  proxy = m;
  type = 2;
  kind = TypeId.int;
  builtin = RBuiltinTypeId.int;
  is_signed = true;
  value = v;
}

abbrev pub sample_members : Members
sample_members =
    member (slot 10 9 "count" (pos 0)) (typedef 2 (scalar TypeId.int RBuiltinTypeId.int)) (
      member (slot 11 3 "level" (pos 4))
        (enumeration (enumerator 20 (pos 0) ∷ []) (enumerator 21 (pos 1)) [])
        (member (slot 12 4 "tag" (pos 8))
          (array (
            element (slot 30 5 "" (pos 0)) (scalar TypeId.char RBuiltinTypeId.char) (
              element (slot 31 5 "" (pos 1)) (scalar TypeId.char RBuiltinTypeId.char) no_elements)))
          (member (slot 13 6 "next" (pos 16)) (pointer 2 (scalar TypeId.int RBuiltinTypeId.int)) (
            member (slot 14 8 "nothing" (pos 24)) (scalar TypeId.void RBuiltinTypeId.void)
              no_members))))

abbrev pub sample : Shape
sample = struct sample_members

pub sample-Fits : Fits process 4 sample 1 cells 0x1000
unfolding load advance number_at type_category
sample-Fits = (
  (refl, ("sample", refl), refl),
  refl,
  (
    (refl, refl),
    refl,
    (false, refl),
    ((refl, ("count_t", refl), refl), refl, ((refl, ("int", refl), refl), refl, refl, λ e. refl)),
    (
      (refl, refl),
      refl,
      (false, refl),
      (
        (refl, ("level", refl), refl),
        refl,
        ((pos 1, refl, refl, refl, refl, refl, refl, refl, refl), tt),
        (pos 1, refl, refl, refl, refl, refl, refl, refl, refl),
      ),
      (
        (refl, refl),
        refl,
        (false, refl),
        (
          (refl, ("char [2]", refl), refl),
          (0, refl, refl),
          (
            (refl, refl),
            ((refl, ("char", refl), refl), refl, refl, λ e. refl),
            ((refl, refl), ((refl, ("char", refl), refl), refl, refl, λ e. refl), tt),
          ),
        ),
        (
          (refl, refl),
          refl,
          (false, refl),
          (
            (refl, ("int *", refl), refl),
            refl,
            refl,
            ((refl, ("int", refl), refl), refl, refl, λ e. refl),
          ),
          (
            (refl, refl),
            refl,
            (false, refl),
            ((refl, ("void", refl), refl), refl, refl, λ e. refl),
            tt,
          ),
        ),
      ),
    ),
  ),
)

pub flags_state-NoSerializers : (n : ℕ) → NoSerializers process (flags_state n)
unfolding serializer_for hook_serializer
flags_state-NoSerializers n q = refl
