-- ===== src/Tests/ArrayWitness.antt =====
-- The theorem on arrays that are read and written again at a concrete input: int numbers[2].
use ruminate.Base.{ℕ, ◌≡◌, refl, true, none, some, List, [], ◌∷◌, arith, inl, inr}
use ruminate.Base.Int.{ℤ, pos, negsuc}
use ruminate.Errors.{returned}
use ruminate.Backend.{TypeMemberPrx, TypeId, Backend}
use ruminate.RType.New.{new_object}
use ruminate.RMemory.Fresh.{Serves}
use ruminate.World.{World, done, advance}
use ruminate.Json.{Env, JsonState}
use ruminate.Json.Shape.{array, spend, cost_of}
use ruminate.Json.Serialize.{serialize_value, serializer_for, hook_serializer}
use ruminate.Json.Encoding.Step.{NoSerializers}
use ruminate.Json.Deserialize.{deserialize_value, deserializer_for, hook_deserializer}
use ruminate.Json.Deserialize.Array.{json_deserialize_array}
use ruminate.Json.Deserialize.ArrayTrip.{
  ArrayTold, array_heap, array_read, elements_of, json_deserialize_array-serialize_value,
}
use ruminate.Json.Deserialize.Fields.{Field}
use ruminate.Json.Deserialize.Items.{ToldItem}
use ruminate.Json.Deserialize.RoundTrip.{NoDeserializers}
use ruminate.Json.Deserialize.Scalar.{IsInteger}
use ruminate.Json.Deserialize.Stored.{Separate}
use ruminate.Tests.Document.{Document, Items}
use ruminate.Tests.Process.{debugger, process, pick, start}
use ruminate.Tests.Sample.{slot}

abbrev numbers_debugger : Backend
numbers_debugger = record debugger {
  get_name = pick ((4, returned "int [2]") ∷ []) (returned "int");
  get_size = pick ((4, returned (pos 8)) ∷ []) (returned (pos 4));
  member_type = λ m. returned 2;
  member_offset = pick ((30, returned (pos 0)) ∷ []) (returned (pos 4));
}

abbrev numbers_process : Env
numbers_process = record process { backend = numbers_debugger }

abbrev numbers_state : JsonState numbers_process
numbers_state = record { handlers = []; refcnt = 1; flags = 0 }

abbrev element_at : TypeMemberPrx → ℤ → ℕ → Field
element_at m o v = record { slot = slot m 2 "" o; kind = TypeId.int; bytes = 4; number = v }

abbrev two_numbers : List Field
two_numbers = element_at 30 (pos 0) 7 ∷ element_at 31 (pos 4) 0xfffffffe ∷ []

-- The numbers 7 and -2.
abbrev numbers_json : Document
numbers_json = Document.array (
    Items.item (Document.integer (pos 7)) (Items.item (Document.integer (negsuc 1)) Items.no_items))

-- The state with the array's block.
abbrev numbers_start : World
numbers_start = record start {
  heap = array_heap numbers_process numbers_state 4 1 none (pos 8) start two_numbers;
}

numbers_Serves : Serves numbers_debugger 1 numbers_process.malloc TypeId.int 4 numbers_start
unfolding new_object
numbers_Serves = record {
  idle = refl;
  arp = 1;
  begun = refl;
  pointer = 6;
  ended = refl;
  is_pointer = refl;
  type = 2;
  pointee = refl;
  is_type = refl;
  size = pos 4;
  sized = refl;
  fits = refl;
  room = refl;
  not_null = refl;
}

first-ToldItem : ToldItem numbers_process numbers_state (element_at 30 (pos 0) 7) numbers_start
first-ToldItem = record {
  is = IsInteger.int;
  small = omega arith;
  type = refl;
  offset = refl;
  id = refl;
  type_name = "int";
  named = refl;
  sized = refl;
  serves = numbers_Serves;
}

second-ToldItem :
    ToldItem numbers_process numbers_state (element_at 31 (pos 4) 0xfffffffe) numbers_start
second-ToldItem = record {
  is = IsInteger.int;
  small = omega arith;
  type = refl;
  offset = refl;
  id = refl;
  type_name = "int";
  named = refl;
  sized = refl;
  serves = numbers_Serves;
}

numbers-ArrayTold : ArrayTold numbers_process numbers_state 4 1 none (pos 8) start two_numbers
numbers-ArrayTold = record {
  idle = refl;
  id = refl;
  type_name = "int [2]";
  named = refl;
  sized = refl;
  result = 0;
  begun = refl;
  ended = refl;
  large = refl;
  room = refl;
  not_null = refl;
}

numbers-NoSerializers : NoSerializers numbers_process numbers_state
unfolding serializer_for hook_serializer
numbers-NoSerializers q = refl

numbers-NoDeserializers : NoDeserializers numbers_process numbers_state
unfolding deserializer_for hook_deserializer
numbers-NoDeserializers q = refl

numbers-Separate : Separate numbers_process numbers_state numbers_start.heap 0x9000 two_numbers
unfolding new_object advance
numbers-Separate = (
  inr (omega arith),
  refl,
  (inl (omega arith), inl (omega arith), tt),
  (inr (omega arith), refl, tt, tt),
)

json_deserialize_array-serialize_value_example :
    let w' = array_read numbers_process numbers_state 4 1 none (pos 8) start two_numbers in
    (json_deserialize_array numbers_process
        (deserialize_value numbers_process 1 numbers_state true)
        (new_object 4 TypeId.array 1 none)
        (some numbers_json)
        start
      ≡ done 0x9000 none w')
    × (serialize_value numbers_process 2 numbers_state
          (new_object 4 TypeId.array 1 none)
          0x9000
          true
          w'
        ≡ done
            (some numbers_json)
            none
            (spend (cost_of numbers_process (array (elements_of two_numbers)) w'.memory 0x9000) w'))
json_deserialize_array-serialize_value_example =
    json_deserialize_array-serialize_value numbers_process numbers_state 4 1 none (pos 8) start
      two_numbers 0 2 numbers_start numbers_json numbers-NoSerializers numbers-NoDeserializers
      numbers-ArrayTold refl (first-ToldItem, (second-ToldItem, tt)) (refl, (refl, tt))
      numbers-Separate (omega arith)
