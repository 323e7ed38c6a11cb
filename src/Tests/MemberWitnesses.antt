-- ===== src/Tests/MemberWitnesses.antt =====
-- The theorems on members and on the debugger's port at concrete inputs.
use ruminate.Base.{
  ℕ, String, ◌≡◌, refl, false, none, some, List, [], ◌∷◌, arith, ◌==◌, if◌then◌else◌,
}
use ruminate.Base.Int.{pos}
use ruminate.Errors.{ok, ◌>>=◌}
use ruminate.Backend.{TypeId}
use ruminate.RString.{c_str}
use ruminate.RType.{RType}
use ruminate.RType.New.{new_object}
use ruminate.Member.{RTypeMember, r_type_member_new}
use ruminate.Member.Alloc.{
  IsContainer, freed, r_type_member_alloc, r_type_member_unref,
  r_type_member_unref-r_type_member_new,
}
use ruminate.Member.ByName.{r_aggregate_type_member_by_name}
use ruminate.Member.ByName.Finds.{NamedMember, Answered, proxy_of, member_by_name-first_named}
use ruminate.Port.{
  Read, got, port, out_of_fuel, read_rounds, read_rounds-joined, read_rounds-closed,
}
use ruminate.Tests.Quarks.{counters}
use ruminate.Tests.Process.{debugger}

abbrev named : ℕ → String → NamedMember
named m n = record { proxy = m; name = n }

abbrev sample_names : List NamedMember
sample_names =
    named 10 "count" ∷ named 11 "level" ∷ named 12 "tag" ∷ named 13 "next" ∷ named 14 "nothing" ∷ []

sample_names-Answered : Answered debugger sample_names
sample_names-Answered = (
  refl,
  (false, refl),
  (refl, (false, refl), (refl, (false, refl), (refl, (false, refl), (refl, (false, refl), tt)))),
)

member_by_name-first_named_example :
    (r_aggregate_type_member_by_name counters debugger (new_object 1 TypeId.structure 1 none) "tag"
      >>= λ o. ok (proxy_of o))
    ≡ ok (some 12)
unfolding c_str
member_by_name-first_named_example =
    member_by_name-first_named counters debugger 1 1 none sample_names "tag" refl
      sample_names-Answered

abbrev sample_object : RType
sample_object = new_object 1 TypeId.structure 1 none

sample-IsContainer : IsContainer sample_object.type_id
unfolding new_object
sample-IsContainer = IsContainer.structure

r_type_member_unref-r_type_member_new_example :
    (x : RTypeMember) × (r_type_member_new debugger 10 sample_object ≡ ok x)
    × (r_type_member_unref counters x ≡ (
        r_type_member_alloc sample_object.type_id >>= λ s.
        ok (freed s (record { name = none; type = none }))))
r_type_member_unref-r_type_member_new_example =
    r_type_member_unref-r_type_member_new counters debugger 10 false sample_object
      sample-IsContainer refl

-- The port 0x1f90 in two pieces, and a pipe that is closed after the first.
abbrev two_reads : ℕ → ℕ → Read
two_reads call count = if call == 0 then got (0x90 ∷ []) else got (0x1f ∷ 0 ∷ 0 ∷ [])

abbrev no_text : ℕ → String
no_text errno = ""

read_rounds-joined_example : read_rounds no_text two_reads 2 0 [] ≡ port (pos 8080)
read_rounds-joined_example =
    read_rounds-joined no_text two_reads ((0x90 ∷ []) ∷ (0x1f ∷ 0 ∷ 0 ∷ []) ∷ []) 0 [] (omega arith)
      (
        refl,
        omega arith,
        omega arith,
        omega arith,
        (refl, omega arith, omega arith, omega arith, refl),
      )

read_rounds-closed_example :
    read_rounds no_text (λ call count. got []) 1000 1 (0x90 ∷ []) ≡ out_of_fuel
read_rounds-closed_example =
    read_rounds-closed no_text (λ call count. got []) 1000 1 (0x90 ∷ []) (omega arith) (omega arith)
      (λ j h. refl)
