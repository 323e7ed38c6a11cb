-- ===== src/Tests/MemoryWitnesses.antt =====
-- The theorems on strings, on zeroed memory, on enums that are read and on the pending question at
-- concrete inputs.
use ruminate.Base.{inr, arith, ◌+◌, ◌^◌, ◌≡◌, refl, none, some}
use ruminate.Base.Int.{pos}
use ruminate.Errors.{RuminateError, ruminate_error, other_exception, gxx_call}
use ruminate.Backend.{TypeId, Backend}
use ruminate.RType.New.{new_object}
use ruminate.Json.Deserialize.Values.{json_deserialize_enum}
use ruminate.Json.Deserialize.Overrun.{with_number, json_deserialize_enum-eight_bytes}
use ruminate.Tests.Document.{Document}
use ruminate.RMemory.{with_arp, ruminate_get_type_by_variable_name, r_mem_calloc}
use ruminate.RMemory.Fresh.{Serves, made}
use ruminate.RMemory.Pending.{ruminate_get_type-pending}
use ruminate.RMemory.Zeroed.{r_mem_calloc-zeroed}
use ruminate.World.{World, done, assertion_failed, load}
use ruminate.Tests.Process.{debugger, process, start}

-- One int is asked for 2 ^ 62 + 1 times: the product is 4 modulo 2 ^ 64.
overflowing_Serves : Serves debugger 1 process.malloc TypeId.int 4 start
overflowing_Serves = record {
  idle = refl;
  arp = 1;
  begun = refl;
  pointer = 6;
  ended = refl;
  is_pointer = refl;
  type = 2;
  pointee = refl;
  is_type = refl;
  size = pos 4;
  sized = refl;
  fits = refl;
  room = refl;
  not_null = refl;
}

r_mem_calloc-zeroed_example :
    (v : World) × (r_mem_calloc process.malloc debugger 1 TypeId.int 4 (2 ^ 62 + 1) start
      ≡ done 0x9000 none v)
    × (v ≡ record (made debugger 1 process.malloc TypeId.int 4 start overflowing_Serves) {
      memory = v.memory;
    })
    × (v.memory 0x9003 ≡ 0)
r_mem_calloc-zeroed_example =
    r_mem_calloc-zeroed debugger 1 process.malloc TypeId.int 4 (2 ^ 62 + 1) start overflowing_Serves
      0x9003

-- A debugger that throws in the second half.
abbrev throwing : Backend
throwing = record debugger { end_get_type_by_variable_name = λ arp place. other_exception }

ruminate_get_type-pending_example :
    (ruminate_get_type_by_variable_name process.malloc throwing 1 "_expr" TypeId.int start
      ≡ done none
          (some (ruminate_error RuminateError.unspec "Unspecified error"))
          (with_arp 1 start))
    × (ruminate_get_type_by_variable_name process.malloc debugger 1 "_expr" TypeId.long
          (with_arp 1 start)
        ≡ assertion_failed)
unfolding gxx_call
ruminate_get_type-pending_example =
    ruminate_get_type-pending process.malloc throwing debugger 1 1 "_expr" "_expr" TypeId.int
      TypeId.long start 1 (ruminate_error RuminateError.unspec "Unspecified error") refl refl refl
      refl

json_deserialize_enum-eight_bytes_example :
    let json = some (Document.integer (pos 1)) in
    (json_deserialize_enum process (new_object 3 TypeId.enum 1 none) json start
      ≡ done 0x9000 none (with_number process 3 1 none (pos 4) start json))
    × (load 8 (with_number process 3 1 none (pos 4) start json).memory 0x9000 ≡ 1)
    × ((with_number process 3 1 none (pos 4) start json).memory 0x9008 ≡ start.memory 0x9008)
json_deserialize_enum-eight_bytes_example =
    json_deserialize_enum-eight_bytes process 3 1 none (pos 4) start
      (some (Document.integer (pos 1))) 0x9008 refl refl refl (inr (omega arith))
