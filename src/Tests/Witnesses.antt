-- ===== src/Tests/Witnesses.antt =====
-- The theorems at concrete inputs: GLib, debugger and process of the other test modules.
use ruminate.Base.{◌≡◌, ◌≤◌, refl, true, none, some, arith}
use ruminate.Errors.{ok, ◌>>=◌, gxx_call}
use ruminate.Backend.{TypeId}
use ruminate.RType.{RType, r_type_new, r_type_alloc}
use ruminate.RType.New.{new_object, IsNew, r_type_new-IsNew}
use ruminate.RType.Alloc.{freed, r_type_unref}
use ruminate.RType.Lifetime.{r_type_unref-alloc}
use ruminate.RType.Query.{r_type_name, r_type_size, init_members, init_array_members}
use ruminate.RType.Query.Caches.{asked_size, text_of}
use ruminate.RType.Query.Caches.Asked.{Asked, name, members, here, next, Listed, r_type-answers}
use ruminate.World.{done}
use ruminate.Json.{json_state_new}
use ruminate.Json.State.{hold, release, release_one, release-hold}
use ruminate.Json.Serialize.{serialize_value}
use ruminate.Json.Shape.{spend, height, encode, cost_of}
use ruminate.Json.Encoding.{serialize_value-encode}
use ruminate.Tests.Quarks.{counters}
use ruminate.Tests.Process.{debugger, process, flags_state, cells, start}
use ruminate.Tests.Sample.{sample, sample-Fits, flags_state-NoSerializers}

height-sample : height sample ≤ 9
unfolding height
height-sample = omega arith

serialize_value-encode_example :
    serialize_value process 9
      (flags_state 4)
      (new_object 1 TypeId.structure 1 none)
      0x1000
      true
      start
    ≡ done
        (encode process sample cells 0x1000)
        none
        (spend (cost_of process sample cells 0x1000) start)
serialize_value-encode_example =
    serialize_value-encode process (flags_state 4) (flags_state-NoSerializers 4) sample 9 1 1 none
      0x1000 start height-sample sample-Fits

r_type_new-IsNew_example : (rt : RType) × (r_type_new debugger 4 ≡ ok rt) × IsNew 4 TypeId.array rt
r_type_new-IsNew_example = r_type_new-IsNew debugger 4 TypeId.array refl

r_type_unref-alloc_example :
    r_type_unref counters (new_object 3 TypeId.enum 1 none)
    ≡ (r_type_alloc TypeId.enum >>= λ s. ok (freed s))
r_type_unref-alloc_example =
    r_type_unref-alloc counters 3 1 none TypeId.enum (omega arith) (omega arith)

-- The struct sample, asked for its name and its members.
abbrev asked_sample : RType
asked_sample =
    (init_members debugger
      (r_type_name counters debugger (new_object 1 TypeId.structure 1 none)).0).0

asked_sample-Asked : Asked counters debugger 1 (new_object 1 TypeId.structure 1 none) asked_sample
asked_sample-Asked = next (next here name) members

r_type-answers_example :
    (text_of (r_type_name counters debugger asked_sample).1 ≡ gxx_call (debugger.get_name 1))
    × ((r_type_size debugger asked_sample).1 ≡ asked_size debugger 1 1)
    × Listed counters debugger 1 1 asked_sample.extension
        (init_members debugger asked_sample).1
        (init_array_members debugger 1 asked_sample).1
r_type-answers_example = r_type-answers counters debugger 1 1 TypeId.structure 1 asked_sample-Asked

release-hold_example :
    (release process 2 (some (hold process 2 (json_state_new process)))
      ≡ some (json_state_new process))
    × (release_one process (release process 2 (some (hold process 2 (json_state_new process))))
        ≡ none)
release-hold_example = release-hold process 2 (omega arith)
