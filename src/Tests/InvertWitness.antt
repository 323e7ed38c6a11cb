-- ===== src/Tests/InvertWitness.antt =====
-- The theorem on a value that says its own type at a concrete input: the int at 0x2000, which is -2.
use ruminate.Base.{◌≡◌, ◌+◌, refl, none, some, []}
use ruminate.Base.Int.{pos}
use ruminate.Backend.{TypeId}
use ruminate.RType.New.{new_object}
use ruminate.RMemory.Fresh.{Serves}
use ruminate.World.{World, done, load}
use ruminate.Json.{JsonState}
use ruminate.Json.Shape.{spend, cost}
use ruminate.Json.Serialize.{json_serialize, serializer_for, hook_serializer}
use ruminate.Json.Encoding.Step.{NoSerializers}
use ruminate.Json.Deserialize.{json_deserialize, deserializer_for, hook_deserializer}
use ruminate.Json.Deserialize.Invert.{json_deserialize-json_serialize}
use ruminate.Json.Deserialize.RoundTrip.{NoDeserializers}
use ruminate.Json.Deserialize.Scalar.{IsInteger}
use ruminate.Tests.Document.{Document}
use ruminate.Tests.Process.{debugger, process, start}
use ruminate.RString.{c_str}

abbrev invertable_state : JsonState process
invertable_state = record { handlers = []; refcnt = 1; flags = 2 }

int_at_start : Serves debugger 1 process.malloc TypeId.int 4 start
unfolding new_object
int_at_start = record {
  idle = refl;
  arp = 1;
  begun = refl;
  pointer = 6;
  ended = refl;
  is_pointer = refl;
  type = 2;
  pointee = refl;
  is_type = refl;
  size = pos 4;
  sized = refl;
  fits = refl;
  room = refl;
  not_null = refl;
}

invertable-NoSerializers : NoSerializers process invertable_state
unfolding serializer_for hook_serializer
invertable-NoSerializers q = refl

invertable-NoDeserializers : NoDeserializers process invertable_state
unfolding deserializer_for hook_deserializer
invertable-NoDeserializers q = refl

json_deserialize-json_serialize_example :
    (obj : Document) × (v : World) × (json_serialize process 1
        (some invertable_state)
        (new_object 2 TypeId.int 1 none)
        0x2000
        start
      ≡ done (some obj, some invertable_state) none (spend (cost 0 0 3) start))
    × (json_deserialize process 1 (some invertable_state) (some obj) (spend (cost 0 0 3) start)
        ≡ done (0x9000, some invertable_state) none v)
    × (load 4 v.memory 0x9000 ≡ load 4 start.memory 0x2000)
    × (v.types ≡ start.types + 2)
unfolding c_str
json_deserialize-json_serialize_example =
    json_deserialize-json_serialize process invertable_state invertable-NoSerializers
      invertable-NoDeserializers TypeId.int 4 0 0 1 2 [] "int" 0x2000 start refl IsInteger.int refl
      refl refl tt refl int_at_start
