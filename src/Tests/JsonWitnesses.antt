-- ===== src/Tests/JsonWitnesses.antt =====
-- The theorems on hooks, on json_serialize and on the deserializer at concrete inputs.
use text.Mathlib.Text.{◌==◌ as str_eq}
use text.Mathlib.TextEquality.{eq_iff}
use ruminate.Base.{
  if◌then◌else◌, ltb, ◌-◌, ◌^◌, Option, ℕ, String, ◌≡◌, ◌≤◌, ◌*◌, refl, ◌≢◌, true, false, none,
  some, [], ◌∷◌, arith,
}
use ruminate.Base.Int.{pos, to_signed, to_unsigned}
use ruminate.Errors.{ok, gxx_call}
use ruminate.Backend.{TypeId}
use ruminate.RString.{RString, c_str, r_string_ref, r_string_new_cxx, r_string_quark}
use ruminate.RType.{RTypeId, RType, RBuiltinTypeId, type_category}
use ruminate.RType.New.{new_object}
use ruminate.RType.Query.{r_type_name}
use ruminate.RMemory.{r_memory_new, r_mem_unref, r_mem_malloc}
use ruminate.RMemory.Fresh.{Serves, made, r_mem_malloc-made}
use ruminate.RMemory.Count.{r_mem_unref-r_memory_new}
use ruminate.World.{segfault, World, done, assertion_failed, take_json, load, advance}
use ruminate.Json.{JsonState, JsonSerializeCont}
use ruminate.Json.Serialize.{serialize_value, serializer_for, hook_serializer, json_serialize}
use ruminate.Json.Serialize.Results.{
  switched, IsSkipped, serialize_value-hook, serialize_value-skipped,
}
use ruminate.Json.Serialize.Values.{int_at}
use ruminate.Json.Shape.{
  Shape, scalar, enumeration, key_of, spend, add_cost, cost, height, encode, cost_of, has_member,
}
use ruminate.Json.Fits.{Fits}
use ruminate.Json.Encoding.Object.{Has, AllDistinct, serialize_value-member}
use ruminate.Json.Encoding.Whole.{
  json_serialize-stateless, json_serialize-encode, json_serialize-invertable,
}
use ruminate.Json.Deserialize.{deserialize_value, deserializer_for, hook_deserializer}
use ruminate.Json.Deserialize.Scalar.{IsInteger, filled}
use ruminate.Json.Deserialize.RoundTrip.{NoDeserializers, deserialize_value-serialize_value}
use ruminate.Json.Deserialize.Null.{with_null, deserialize_value-null}
use ruminate.Json.Deserialize.Refused.{IsRefused, deserialize_value-refused}
use ruminate.Tests.Document.{Document}
use ruminate.Tests.Quarks.{counters}
use ruminate.Tests.Process.{debugger, process, flags_state, cells, start}
use ruminate.Tests.Sample.{
  slot, enumerator, sample_members, sample, sample-Fits, flags_state-NoSerializers,
}

abbrev int_object : RType
int_object = new_object 2 TypeId.int 1 none

-- A hook of the type int that writes null.
abbrev write_null : JsonSerializeCont Document → JsonSerializeCont Document
write_null cont rt a w = done (some Document.null) none w

abbrev hooked : JsonState process
hooked = record {
  handlers =
      (
        counters.quark_from_string "int",
        some (record { serializer = some write_null; deserializer = none }),
      )
      ∷ [];
  refcnt = 1;
  flags = 0;
}

abbrev int_text : RString
int_text = r_string_ref counters (r_string_new_cxx "int")

int_text-name :
    r_type_name counters debugger int_object
    ≡ (new_object 2 TypeId.int 1 (some int_text), ok int_text)
unfolding r_type_name new_object gxx_call
int_text-name = refl

hooked-found :
    serializer_for process hooked true (r_string_quark counters int_text).1 ≡ some write_null
unfolding serializer_for hook_serializer r_string_quark r_string_ref r_string_new_cxx
hooked-found = refl

int_known : int_object.id ≢ RTypeId.unknown
unfolding new_object type_category
int_known e = cc

serialize_value-hook_example :
    (serialize_value process 3 hooked int_object 0x1000 true start
      ≡ done (some Document.null) none start)
    × (serialize_value process 3 hooked int_object 0x1000 false start
        ≡ switched process hooked 2 int_object
            (new_object 2 TypeId.int 1 (some int_text))
            0x1000
            start)
serialize_value-hook_example =
    serialize_value-hook process hooked 2 int_object (new_object 2 TypeId.int 1 (some int_text))
      int_text 0x1000 start int_known refl int_text-name write_null (some Document.null) none start
      hooked-found refl

serialize_value-skipped_example :
    serialize_value process 1 (flags_state 0) (new_object 8 TypeId.void 1 none) 0x1000 true start
    ≡ assertion_failed
serialize_value-skipped_example =
    serialize_value-skipped process (flags_state 0) (flags_state-NoSerializers 0) TypeId.void 0 8 1
      none 0x1000 start IsSkipped.void (refl, ("void", refl), refl)

abbrev int_shape : Shape
int_shape = scalar TypeId.int RBuiltinTypeId.int

int_shape-Fits : (flags : ℕ) → Fits process flags int_shape 2 cells 0x1000
unfolding type_category
int_shape-Fits flags = ((refl, ("int", refl), refl), refl, refl, λ e. cc)

int_shape-height : height int_shape ≤ 1
unfolding height
int_shape-height = omega arith

json_serialize-stateless_example :
    json_serialize process 1 none int_object 0x1000 start
    ≡ done
        (encode process int_shape cells 0x1000, none)
        none
        (spend (cost_of process int_shape cells 0x1000) start)
json_serialize-stateless_example =
    json_serialize-stateless process int_shape 1 2 1 none 0x1000 start int_shape-height
      (int_shape-Fits 0)

json_serialize-encode_example :
    json_serialize process 1 (some (flags_state 4)) int_object 0x1000 start
    ≡ done
        (encode process int_shape cells 0x1000, some (flags_state 4))
        none
        (spend (cost_of process int_shape cells 0x1000) start)
json_serialize-encode_example =
    json_serialize-encode process (flags_state 4) (flags_state-NoSerializers 4) int_shape 1 2 1 none
      0x1000 start refl int_shape-height (int_shape-Fits 4)

int_shape-encode : encode process int_shape cells 0x1000 ≡ some (Document.integer (pos 7))
unfolding encode int_at load
int_shape-encode = refl

json_serialize-invertable_example :
    (obj : Document) × (json_serialize process 1 (some (flags_state 2)) int_object 0x1000 start
      ≡ done
          (some obj, some (flags_state 2))
          none
          (spend (add_cost (cost_of process int_shape cells 0x1000) (cost 0 0 2)) start))
    × (process.jansson.object_get obj "type" ≡ some (Document.string (c_str "int")))
    × (process.jansson.object_get obj "value" ≡ some (Document.integer (pos 7)))
json_serialize-invertable_example =
    json_serialize-invertable process (flags_state 2) (flags_state-NoSerializers 2) int_shape 1 2 1
      "int" (Document.integer (pos 7)) 0x1000 start refl int_shape-height (int_shape-Fits 2) refl
      int_shape-encode

int_Serves : Serves debugger 1 process.malloc TypeId.int 4 start
int_Serves = record {
  idle = refl;
  arp = 1;
  begun = refl;
  pointer = 6;
  ended = refl;
  is_pointer = refl;
  type = 2;
  pointee = refl;
  is_type = refl;
  size = pos 4;
  sized = refl;
  fits = refl;
  room = refl;
  not_null = refl;
}

r_mem_malloc-made_example :
    r_mem_malloc process.malloc debugger 1 TypeId.int 4 start
    ≡ done 0x9000 none (made debugger 1 process.malloc TypeId.int 4 start int_Serves)
r_mem_malloc-made_example =
    r_mem_malloc-made debugger 1 process.malloc TypeId.int 4 start int_Serves

flags_state-NoDeserializers : (n : ℕ) → NoDeserializers process (flags_state n)
unfolding deserializer_for hook_deserializer
flags_state-NoDeserializers n q = refl

deserialize_value-serialize_value_example :
    (deserialize_value process 1
        (flags_state 0)
        true
        int_object
        (some (Document.integer (to_signed (8 * 4) 77)))
        start
      ≡ done 0x9000 none
          (filled process TypeId.int 4 start int_Serves (to_unsigned 64 (to_signed (8 * 4) 77))))
    × (serialize_value process 1
          (flags_state 0)
          int_object
          0x9000
          true
          (filled process TypeId.int 4 start int_Serves (to_unsigned 64 (to_signed (8 * 4) 77)))
        ≡ done (some (Document.integer (to_signed (8 * 4) 77))) none (
            take_json (
              filled process TypeId.int 4 start int_Serves
                (to_unsigned 64 (to_signed (8 * 4) 77)))))
deserialize_value-serialize_value_example =
    deserialize_value-serialize_value process (flags_state 0) (flags_state-NoSerializers 0)
      (flags_state-NoDeserializers 0) TypeId.int 4 77 IsInteger.int (omega arith) 2 1 none 0 0 start
      int_Serves (refl, ("int", refl), refl)

deserialize_value-refused_example :
    deserialize_value process 1
      (flags_state 0)
      true
      (new_object 9 TypeId.typedef 1 none)
      (some (Document.integer (pos 77)))
      start
    ≡ assertion_failed
deserialize_value-refused_example =
    deserialize_value-refused process (flags_state 0) (flags_state-NoDeserializers 0) TypeId.typedef
      0 9 1 none "count_t" (some (Document.integer (pos 77))) start IsRefused.typedef refl

r_mem_unref-r_memory_new_example :
    (v : World) × (r_memory_new process.malloc int_object 4 start
      ≡ (if ltb 4 (2 ^ 64 - 24) then done 0x9000 none v else segfault))
    × (r_mem_unref counters 0x9000 v ≡ done tt none start)
r_mem_unref-r_memory_new_example =
    r_mem_unref-r_memory_new counters process.malloc int_object 4 start (omega arith)

abbrev level : Shape
level = enumeration (enumerator 20 (pos 0) ∷ []) (enumerator 21 (pos 1)) []

differ : (a b : String) → str_eq a b ≡ false → a ≢ b
differ a b h e = let same : str_eq a b ≡ true = (eq_iff a b).1 e in cc

sample-AllDistinct : AllDistinct process sample_members
unfolding c_str
sample-AllDistinct = (
  (differ _ _ refl, (differ _ _ refl, (differ _ _ refl, (differ _ _ refl, tt)))),
  (
    (differ _ _ refl, (differ _ _ refl, (differ _ _ refl, tt))),
    ((differ _ _ refl, (differ _ _ refl, tt)), ((differ _ _ refl, tt), (tt, tt))),
  ),
)

sample-has_member : has_member process sample_members cells 0x1000 ≡ true
unfolding has_member advance
sample-has_member = refl

sample-height : height sample ≤ 9
unfolding height
sample-height = omega arith

serialize_value-member_example :
    (obj : Document) × (serialize_value process 9
        (flags_state 4)
        (new_object 1 TypeId.structure 1 none)
        0x1000
        true
        start
      ≡ done (some obj) none (spend (cost_of process sample cells 0x1000) start))
    × (process.jansson.object_get obj (key_of process (slot 11 3 "level" (pos 4)))
        ≡ encode process level cells (advance 0x1000 (pos 4)))
serialize_value-member_example =
    serialize_value-member process (flags_state 4) (flags_state-NoSerializers 4) sample_members
      (slot 11 3 "level" (pos 4)) level 9 1 1 none 0x1000 start sample-height sample-Fits
      (Has.there Has.here) sample-AllDistinct sample-has_member

deserialize_value-null_example :
    (q : Option RString) × (deserialize_value process 1
        (flags_state 0)
        true
        (new_object 6 TypeId.pointer 1 none)
        (some Document.null)
        start
      ≡ done 0x9000 none (with_null process (flags_state 0) 6 1 (pos 4) start q))
    × (serialize_value process 1
          (flags_state 0)
          (new_object 6 TypeId.pointer 1 none)
          0x9000
          true
          (with_null process (flags_state 0) 6 1 (pos 4) start q)
        ≡ done
            (some Document.null)
            none
            (take_json (with_null process (flags_state 0) 6 1 (pos 4) start q)))
deserialize_value-null_example =
    deserialize_value-null process (flags_state 0) 6 1 (pos 4) start (flags_state-NoSerializers 0)
      (flags_state-NoDeserializers 0) none 0 0 refl refl (refl, ("int *", refl), refl)
