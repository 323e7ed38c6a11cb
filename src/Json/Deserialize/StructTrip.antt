-- ===== src/Json/Deserialize/StructTrip.antt =====
-- Structs of integers through util/ruminate-jansson/deserialize.c and back through serialize.c.
use ruminate.Base.{
  ℕ, suc, ◌≤◌, ◌≡◌, ◌∙◌, String, true, false, Option, none, some, List, ◌==◌, arith,
}
use ruminate.Base.Int.{ℤ, to_unsigned}
use ruminate.Errors.{returned}
use ruminate.Backend.{TypePrx, TypeId}
use ruminate.RString.{RString}
use ruminate.RMemory.{has_room}
use ruminate.RType.New.{new_object}
use ruminate.World.{World, done}
use ruminate.Json.{Env}
use ruminate.Json.Fits.{Fits}
use ruminate.Json.Shape.{struct, key_of, spend, cost_of, height}
use ruminate.Json.Serialize.{serialize_value}
use ruminate.Json.Serialize.Values.{State}
use ruminate.Json.Encoding.Object.{AllDistinct, serialize_value-member}
use ruminate.Json.Encoding.Step.{NoSerializers}
use ruminate.Json.Deserialize.{deserialize_value}
use ruminate.Json.Deserialize.Fields.{Field, value_of}
use ruminate.Json.Deserialize.Members.{
  proxies, Holds, AllTold, struct_place, struct_heap, struct_read, json_deserialize_struct-fields,
}
use ruminate.Json.Deserialize.RoundTrip.{NoDeserializers}
use ruminate.Json.Deserialize.Stored.{
  members_of, AllTold-AllIntegers, In, In-Has, Separate, members_of-proxies, members_of-height,
  read_fields-AllStored, members_of-FitsMembers, encode-In, has_member-In,
}
use ruminate.Json.Deserialize.Struct.{json_deserialize_struct}

module _ (E : Env) (js : State E) (p : TypePrx) (r : ℕ) (name : Option RString) (size : ℤ)
    (w : World) (fs : List Field) where
  open E use {backend, jansson}
  open jansson use {Json}

  -- The debugger's answers for the struct, and that it can be allocated.
  pub record StructTold : Type 0 where
    pub idle : w.arp ≡ 0
    pub id : backend.get_id p ≡ returned TypeId.structure
    pub type_name : String
    pub named : backend.get_name p ≡ returned type_name
    pub sized : backend.get_size p ≡ returned size
    pub members : backend.get_members p ≡ returned (proxies fs)
    pub room : has_room (to_unsigned 64 size) ≡ true
    pub not_null : (struct_place E js p r name size w fs == 0) ≡ false

  -- Where no hook has a serializer or a deserializer, for a struct whose members are of integer types,
  -- that the debugger describes and for which allocation is served, at places apart from each other and
  -- from the blocks that the members are read to: from a JSON object that has, under each member's name,
  -- a JSON integer in the range of its type, json_deserialize_struct makes a new block and sets no error;
  -- and _json_serialize of that block gives an object that has the same integer under each of the names,
  -- where these are distinct.
  pub json_deserialize_struct-serialize_value :
      (d depth : ℕ) (v : World) (obj : Json) (f : Field)
      → NoSerializers E js
      → NoDeserializers E js
      → (told : StructTold) → struct_heap E js p r name size w fs ≡ v.heap
      → AllTold E js v fs
      → Holds E js obj fs
      → Separate E js
          (struct_heap E js p r name size w fs)
          (struct_place E js p r name size w fs)
          fs
      → AllDistinct E (members_of fs)
      → In f fs
      → 2 ≤ depth
      → let a = struct_place E js p r name size w fs in
        let w' = struct_read E js p r name size w fs in
        (json_deserialize_struct E
            (deserialize_value E (suc d) js true)
            (new_object p TypeId.structure r name)
            (some obj)
            w
          ≡ done a none w')
        × (obj' : Json) × (serialize_value E depth js
              (new_object p TypeId.structure r name)
              a
              true
              w'
            ≡ done (some obj') none (spend (cost_of E (struct (members_of fs)) w'.memory a) w'))
        × (jansson.object_get obj' (key_of E f.slot) ≡ some (jansson.integer (value_of f)))
  unfolding height
  json_deserialize_struct-serialize_value d depth v obj f no_ser no_des told heap all_told holds
        separate distinct has deep =
      let a = struct_place E js p r name size w fs in
      let h = struct_heap E js p r name size w fs in
      let w' = struct_read E js p r name size w fs in
      let integers = AllTold-AllIntegers E js v fs all_told in
      let stored = read_fields-AllStored E js h a fs w.memory integers separate in
      let fits : Fits E js.flags (struct (members_of fs)) p w'.memory a = (
        (told.id, (told.type_name, told.named), told.not_null),
        rw (members_of-proxies fs) told.members,
        members_of-FitsMembers E js h a js.flags fs w'.memory v all_told separate,
      ) in
      let (obj', written, found) =
        serialize_value-member E js no_ser (members_of fs) f.slot _ depth p r name a w'
          (omega (arith, members_of-height fs)) fits (In-Has fs has) distinct
          (has_member-In E js h a fs w'.memory has integers stored) in
      (
        json_deserialize_struct-fields E js p r name size w fs d v obj no_des told.idle told.sized
            told.room told.not_null told.members heap all_told holds,
        obj',
        written,
        found ∙ encode-In E js h a fs w'.memory has integers stored,
      )
