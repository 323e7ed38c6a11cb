-- ===== src/Tests/StructWitness.antt =====
-- The theorem on structs that are read and written again at a concrete input:
--
--   struct pair { int a; int b; };
use text.Mathlib.Text.{◌==◌ as str_eq}
use text.Mathlib.TextEquality.{eq_iff}
use ruminate.Base.{
  ℕ, String, ◌≡◌, ◌≢◌, refl, true, false, none, some, List, [], ◌∷◌, arith, inl, inr,
}
use ruminate.Base.Int.{ℤ, pos, negsuc}
use ruminate.Errors.{returned}
use ruminate.Backend.{TypeMemberPrx, TypeId, Backend}
use ruminate.RString.{c_str}
use ruminate.RType.New.{new_object}
use ruminate.RMemory.Fresh.{Serves}
use ruminate.World.{World, done, advance}
use ruminate.Json.{Env, JsonState}
use ruminate.Json.Shape.{struct, spend, cost_of}
use ruminate.Json.Serialize.{serialize_value, serializer_for, hook_serializer}
use ruminate.Json.Encoding.Object.{AllDistinct}
use ruminate.Json.Encoding.Step.{NoSerializers}
use ruminate.Json.Deserialize.{deserialize_value, deserializer_for, hook_deserializer}
use ruminate.Json.Deserialize.Fields.{Field, Told}
use ruminate.Json.Deserialize.Members.{struct_heap, struct_read, Holds}
use ruminate.Json.Deserialize.RoundTrip.{NoDeserializers}
use ruminate.Json.Deserialize.Scalar.{IsInteger}
use ruminate.Json.Deserialize.Stored.{members_of, In, Separate}
use ruminate.Json.Deserialize.Struct.{json_deserialize_struct}
use ruminate.Json.Deserialize.StructTrip.{StructTold, json_deserialize_struct-serialize_value}
use ruminate.Tests.Document.{Document, Fields}
use ruminate.Tests.Process.{debugger, process, pick, start}
use ruminate.Tests.Sample.{slot}

abbrev pair_debugger : Backend
pair_debugger = record debugger {
  get_name = pick ((1, returned "pair") ∷ []) (returned "int");
  get_size = pick ((1, returned (pos 8)) ∷ []) (returned (pos 4));
  get_members = λ p. returned (40 ∷ 41 ∷ []);
  member_type = λ m. returned 2;
  member_name = pick ((40, returned "a") ∷ []) (returned "b");
  member_offset = pick ((40, returned (pos 0)) ∷ []) (returned (pos 4));
}

abbrev pair_process : Env
pair_process = record process { backend = pair_debugger }

abbrev pair_state : JsonState pair_process
pair_state = record { handlers = []; refcnt = 1; flags = 0 }

abbrev pair_fields : List Field
pair_fields =
    record { slot = slot 40 2 "a" (pos 0); kind = TypeId.int; bytes = 4; number = 7 }
    ∷ record { slot = slot 41 2 "b" (pos 4); kind = TypeId.int; bytes = 4; number = 0xfffffffe }
    ∷ []

-- The numbers 7 and -2.
abbrev pair_json : Document
pair_json = Document.object (
    Fields.field "b" (Document.integer (negsuc 1))
      (Fields.field "a" (Document.integer (pos 7)) Fields.no_fields))

-- The state with the struct's block.
abbrev pair_start : World
pair_start = record start {
  heap = struct_heap pair_process pair_state 1 1 none (pos 8) start pair_fields;
}

int_Serves : Serves pair_debugger 1 pair_process.malloc TypeId.int 4 pair_start
unfolding new_object
int_Serves = record {
  idle = refl;
  arp = 1;
  begun = refl;
  pointer = 6;
  ended = refl;
  is_pointer = refl;
  type = 2;
  pointee = refl;
  is_type = refl;
  size = pos 4;
  sized = refl;
  fits = refl;
  room = refl;
  not_null = refl;
}

abbrev int_field : TypeMemberPrx → String → ℤ → ℕ → Field
int_field m n o v = record { slot = slot m 2 n o; kind = TypeId.int; bytes = 4; number = v }

a-Told : Told pair_process pair_state (int_field 40 "a" (pos 0) 7) pair_start
a-Told = record {
  is = IsInteger.int;
  small = omega arith;
  type = refl;
  offset = refl;
  name = refl;
  bitfield = false;
  is_bitfield = refl;
  id = refl;
  type_name = "int";
  named = refl;
  sized = refl;
  serves = int_Serves;
}

b-Told : Told pair_process pair_state (int_field 41 "b" (pos 4) 0xfffffffe) pair_start
b-Told = record {
  is = IsInteger.int;
  small = omega arith;
  type = refl;
  offset = refl;
  name = refl;
  bitfield = false;
  is_bitfield = refl;
  id = refl;
  type_name = "int";
  named = refl;
  sized = refl;
  serves = int_Serves;
}

pair-StructTold : StructTold pair_process pair_state 1 1 none (pos 8) start pair_fields
pair-StructTold = record {
  idle = refl;
  id = refl;
  type_name = "pair";
  named = refl;
  sized = refl;
  members = refl;
  room = refl;
  not_null = refl;
}

pair-NoSerializers : NoSerializers pair_process pair_state
unfolding serializer_for hook_serializer
pair-NoSerializers q = refl

pair-NoDeserializers : NoDeserializers pair_process pair_state
unfolding deserializer_for hook_deserializer
pair-NoDeserializers q = refl

differ : (a b : String) → str_eq a b ≡ false → a ≢ b
differ a b h e = let same : str_eq a b ≡ true = (eq_iff a b).1 e in cc

pair-AllDistinct : AllDistinct pair_process (members_of pair_fields)
unfolding c_str
pair-AllDistinct = ((differ _ _ refl, tt), (tt, tt))

pair-Holds : Holds pair_process pair_state pair_json pair_fields
unfolding c_str
pair-Holds = (refl, (refl, tt))

pair-Separate : Separate pair_process pair_state pair_start.heap 0x9000 pair_fields
unfolding new_object advance
pair-Separate = (
  inr (omega arith),
  refl,
  (inl (omega arith), inl (omega arith), tt),
  (inr (omega arith), refl, tt, tt),
)

json_deserialize_struct-serialize_value_example :
    let w' = struct_read pair_process pair_state 1 1 none (pos 8) start pair_fields in
    (json_deserialize_struct pair_process
        (deserialize_value pair_process 1 pair_state true)
        (new_object 1 TypeId.structure 1 none)
        (some pair_json)
        start
      ≡ done 0x9000 none w')
    × (obj' : Document) × (serialize_value pair_process 2 pair_state
          (new_object 1 TypeId.structure 1 none)
          0x9000
          true
          w'
        ≡ done
            (some obj')
            none
            (spend (cost_of pair_process (struct (members_of pair_fields)) w'.memory 0x9000) w'))
    × (pair_process.jansson.object_get obj' "b" ≡ some (Document.integer (negsuc 1)))
unfolding c_str
json_deserialize_struct-serialize_value_example =
    json_deserialize_struct-serialize_value pair_process pair_state 1 1 none (pos 8) start
      pair_fields 0 2 pair_start pair_json (int_field 41 "b" (pos 4) 0xfffffffe) pair-NoSerializers
      pair-NoDeserializers pair-StructTold refl (a-Told, (b-Told, tt)) pair-Holds pair-Separate
      pair-AllDistinct (In.later In.first) (omega arith)
