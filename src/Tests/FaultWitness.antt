-- ===== src/Tests/FaultWitness.antt =====
-- The theorem on a struct that the debugger fails for at a concrete input: the struct sample, of whose
-- third member the debugger does not give the type.
use ruminate.Base.{◌≡◌, refl, true, false, none, some, [], ◌∷◌, arith}
use ruminate.Base.Int.{pos}
use ruminate.Errors.{GError, RuminateError, ruminate_error, returned, ice_exception, gxx_call}
use ruminate.Backend.{TypeId, Backend}
use ruminate.RType.{RBuiltinTypeId, type_category}
use ruminate.RType.New.{new_object}
use ruminate.World.{done, advance}
use ruminate.Json.{Env, JsonState}
use ruminate.Json.Shape.{
  number_at, Members, scalar, enumeration, typedef, no_members, member, spend, height_members,
  height,
}
use ruminate.Json.Serialize.{serialize_value, serializer_for, hook_serializer}
use ruminate.Json.Encoding.Faults.{serialize_value-Faulty}
use ruminate.Json.Encoding.Faulty.{Question, Fault, lost, Faulty}
use ruminate.Json.Encoding.Step.{NoSerializers}
use ruminate.Tests.Process.{debugger, process, pick, cells, start}
use ruminate.Tests.Sample.{slot, enumerator}
use ruminate.World.{load}

abbrev failing_debugger : Backend
failing_debugger = record debugger {
  member_type =
      pick ((10, returned 9) ∷ (11, returned 3) ∷ (20, returned 2) ∷ (21, returned 2) ∷ [])
        (ice_exception "connection lost");
}

abbrev failing_process : Env
failing_process = record process { backend = failing_debugger }

abbrev failing_state : JsonState failing_process
failing_state = record { handlers = []; refcnt = 1; flags = 0 }

abbrev connection_lost : GError
connection_lost = ruminate_error RuminateError.ice "connection lost"

abbrev two_members : Members
two_members =
    member (slot 10 9 "count" (pos 0)) (typedef 2 (scalar TypeId.int RBuiltinTypeId.int)) (
      member (slot 11 3 "level" (pos 4))
        (enumeration (enumerator 20 (pos 0) ∷ []) (enumerator 21 (pos 1)) []) no_members)

abbrev third_type : Fault
third_type = Fault.unanswered two_members (slot 12 4 "tag" (pos 8)) Question.type (13 ∷ 14 ∷ [])

failing-NoSerializers : NoSerializers failing_process failing_state
unfolding serializer_for hook_serializer
failing-NoSerializers q = refl

third_type-Faulty : Faulty failing_process 0 third_type connection_lost 1 cells 0x1000
unfolding load advance number_at type_category gxx_call
third_type-Faulty = (
  (refl, ("sample", refl), refl),
  refl,
  (
    (refl, refl),
    refl,
    (false, refl),
    ((refl, ("count_t", refl), refl), refl, ((refl, ("int", refl), refl), refl, refl, λ e. cc)),
    (
      (refl, refl),
      refl,
      (false, refl),
      (
        (refl, ("level", refl), refl),
        refl,
        ((pos 1, refl, refl, refl, refl, refl, refl, refl, refl), tt),
        (pos 1, refl, refl, refl, refl, refl, refl, refl, refl),
      ),
      tt,
    ),
  ),
  ((false, refl), refl, refl),
)

serialize_value-Faulty_example :
    serialize_value failing_process 9 failing_state
      (new_object 1 TypeId.structure 1 none)
      0x1000
      true
      start
    ≡ done none (some connection_lost) (spend (lost failing_process third_type cells 0x1000) start)
unfolding height_members height
serialize_value-Faulty_example =
    serialize_value-Faulty failing_process failing_state failing-NoSerializers third_type 9
      connection_lost 1 1 none 0x1000 start (omega arith) third_type-Faulty
