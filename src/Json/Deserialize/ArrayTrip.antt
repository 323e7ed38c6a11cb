-- ===== src/Json/Deserialize/ArrayTrip.antt =====
-- Arrays of integers through util/ruminate-jansson/deserialize.c and back through serialize.c.
use ruminate.Base.{
  ℕ, suc, ◌*◌, ◌%◌, ◌^◌, ◌≤◌, ◌≡◌, ◌∙◌, refl, ap, String, true, false, Option, none, some, List, [],
  ◌∷◌, ◌==◌, length, leb, arith,
}
use ruminate.Base.Int.{ℤ, to_unsigned}
use ruminate.Errors.{returned, ok}
use ruminate.Backend.{TypePrx, TypeId}
use ruminate.RString.{RString}
use ruminate.RType.{RType}
use ruminate.RType.New.{new_object, with_elements, array_size-new_object}
use ruminate.RType.Query.{r_type_size}
use ruminate.RMemory.{has_room}
use ruminate.RMemory.Typed.{r_mem_malloc_sized_fn-same, r_mem_malloc_sized_fn-made}
use ruminate.World.{Addr, Memory, Block, World, done}
use ruminate.Json.{Env}
use ruminate.Json.Fits.{Fits, FitsElements}
use ruminate.Json.Shape.{
  Elements, no_elements, element, element_proxies, height, height_elements, encode, encode_elements,
  array, spend, cost_of, put_element,
}
use ruminate.Json.Encoding.{serialize_value-encode}
use ruminate.Json.Encoding.Step.{NoSerializers}
use ruminate.Json.Serialize.{serialize_value}
use ruminate.Json.Serialize.Values.{State}
use ruminate.Json.Deserialize.{deserialize_value}
use ruminate.Json.Deserialize.Array.{json_deserialize_array}
use ruminate.Json.Deserialize.Fields.{Field, value_of, at}
use ruminate.Json.Deserialize.Items.{AllItems, Lists, items_loop-deserialized}
use ruminate.Json.Deserialize.Members.{proxies, types_after, place, read_fields}
use ruminate.Json.Deserialize.RoundTrip.{NoDeserializers}
use ruminate.Json.Deserialize.Stored.{
  shape_of, AllIntegers, AllStored, Separate, read_fields-AllStored, scalar_json-number,
  integer-start, integer-category, not_void,
}

abbrev pub elements_of : List Field → Elements
elements_of [] = no_elements
elements_of (f ∷ fs) = element f.slot (shape_of f) (elements_of fs)

elements_of-proxies : (fs : List Field) → element_proxies (elements_of fs) ≡ proxies fs
elements_of-proxies [] = refl
elements_of-proxies (f ∷ fs) = ap (λ ms. f.slot.proxy ∷ ms) (elements_of-proxies fs)

elements_of-height : (fs : List Field) → height_elements (elements_of fs) ≤ 1
unfolding height_elements height
elements_of-height [] = omega arith
elements_of-height (f ∷ fs) = omega (arith, elements_of-height fs)

module _ (E : Env) (js : State E) where
  open E use {backend, jansson, malloc, tid}
  open jansson use {Json}

  -- The JSON array of the numbers, in their order, behind those of another.
  abbrev pub numbers : Json → List Field → Json
  numbers arr [] = arr
  numbers arr (f ∷ fs) = numbers (put_element E arr (some (jansson.integer (value_of f)))) fs

  AllItems-AllIntegers : (w : World) (fs : List Field) → AllItems E js w fs → AllIntegers fs
  AllItems-AllIntegers w [] told = tt
  AllItems-AllIntegers w (f ∷ fs) (told, others) =
      ((told.is, told.small), AllItems-AllIntegers w fs others)

  module _ (h : List Block) (st : Addr) where
    elements_of-FitsElements :
        (flags : ℕ) (fs : List Field) (m : Memory) (w : World)
        → AllItems E js w fs
        → Separate E js h st fs
        → FitsElements E flags (elements_of fs) m st
    elements_of-FitsElements flags [] m w told separate = tt
    elements_of-FitsElements flags (f ∷ fs) m w (told, others) (apart, address, clear, rest) = (
      (told.type, told.offset),
      (
        (told.id, (told.type_name, told.named), address),
        integer-start E js h st f.kind f.bytes told.is,
        integer-category E js h st f.kind f.bytes told.is,
        λ e. absurd (not_void E js h st f.kind f.bytes told.is e),
      ),
      elements_of-FitsElements flags fs m w others rest,
    )

    encode_elements-numbers :
        (fs : List Field) (m : Memory) (arr : Json)
        → AllIntegers fs
        → AllStored E js h st m fs
        → encode_elements E (elements_of fs) m st arr ≡ numbers arr fs
    unfolding encode
    encode_elements-numbers [] m arr integers stored = refl
    encode_elements-numbers (f ∷ fs) m arr ((is, small), others) (stored, rest) =
        rw (scalar_json-number E js h st f.kind f.bytes f.number m (place E js st f) is stored) (
          encode_elements-numbers fs m (put_element E arr (some (jansson.integer (value_of f))))
            others rest)

  module _ (p : TypePrx) (r : ℕ) (name : Option RString) (size : ℤ) (w : World)
      (fs : List Field) where
    -- The array's own block, whose size is the size of the array times the number of its elements.
    abbrev pub array_bytes : ℕ
    array_bytes = length (proxies fs) * to_unsigned 64 size % 2 ^ 64

    abbrev pub array_place : Addr
    array_place = malloc w.heap array_bytes

    -- The array's type when it has told its members and its size.
    abbrev known_array : RType
    known_array = record (with_elements backend p r name (proxies fs)) {
      size = some (to_unsigned 64 size);
    }

    abbrev array_block : Block
    array_block = record {
      data_address = array_place;
      type = known_array;
      refcnt = 1;
      size = array_bytes;
    }

    abbrev pub array_heap : List Block
    array_heap = array_block ∷ w.heap

    -- The state when the array is read.
    abbrev pub array_read : World
    array_read =
        at E js array_heap w (read_fields E js array_heap fs array_place w.memory)
          (types_after fs (suc w.types))

    -- The debugger's answers for the array, and that it can be allocated.
    pub record ArrayTold : Type 0 where
      pub idle : w.arp ≡ 0
      pub id : backend.get_id p ≡ returned TypeId.array
      pub type_name : String
      pub named : backend.get_name p ≡ returned type_name
      pub sized : backend.get_size p ≡ returned size
      pub result : ℕ
      pub begun : backend.begin_get_members p tid ≡ returned result
      pub ended : backend.end_get_members p result ≡ returned (proxies fs)
      pub large : leb (to_unsigned 64 size) array_bytes ≡ true
      pub room : has_room array_bytes ≡ true
      pub not_null : (array_place == 0) ≡ false

    module _ (told : ArrayTold) where
      size-told :
          r_type_size backend (with_elements backend p r name (proxies fs))
          ≡ (known_array, ok (to_unsigned 64 size))
      unfolding r_type_size new_object
      size-told = rw told.sized refl

      size-known : r_type_size backend known_array ≡ (known_array, ok (to_unsigned 64 size))
      unfolding r_type_size new_object
      size-known = refl

      json_deserialize_array-items :
          (d : ℕ) (v : World) (arr : Json)
          → NoDeserializers E js
          → array_heap ≡ v.heap
          → AllItems E js v fs
          → Lists E js arr 0 fs
          → json_deserialize_array E
              (deserialize_value E (suc d) js true)
              (new_object p TypeId.array r name)
              (some arr)
              w
            ≡ done array_place none array_read
      unfolding json_deserialize_array new_object
      json_deserialize_array-items d v arr quiet same_heap all_told lists =
          let loop =
            items_loop-deserialized E js array_heap w quiet v same_heap d known_array (proxies fs)
              refl refl arr array_place fs 0 (suc w.types) w.memory refl all_told lists in
          rw
            (array_size-new_object backend p r name tid told.result (proxies fs) told.begun
              told.ended)
            (rw size-told (
              rw
                (r_mem_malloc_sized_fn-made malloc backend known_array (to_unsigned 64 size)
                  array_bytes size-known w told.large told.room)
                (rw
                  (r_mem_malloc_sized_fn-same malloc backend known_array (to_unsigned 64 size)
                    array_bytes size-known)
                  (rw told.idle (rw loop refl)))))

    -- Where no hook has a serializer or a deserializer, for an array whose elements are of integer types,
    -- that the debugger describes and for which allocation is served, at places apart from each other and
    -- from the blocks that the elements are read to: from a JSON array that has, at each element's index,
    -- a JSON integer in the range of its type, json_deserialize_array makes a new block, sets no error and
    -- leaves one reference to a type taken for each element and one for the block; and _json_serialize of
    -- that block gives the JSON array of the same integers in the same order.
    pub json_deserialize_array-serialize_value :
        (d depth : ℕ) (v : World) (arr : Json)
        → NoSerializers E js
        → NoDeserializers E js
        → ArrayTold
        → array_heap ≡ v.heap
        → AllItems E js v fs
        → Lists E js arr 0 fs
        → Separate E js array_heap array_place fs
        → 2 ≤ depth
        → (json_deserialize_array E
              (deserialize_value E (suc d) js true)
              (new_object p TypeId.array r name)
              (some arr)
              w
            ≡ done array_place none array_read)
          × (serialize_value E depth js
                (new_object p TypeId.array r name)
                array_place
                true
                array_read
              ≡ done (some (numbers jansson.array fs)) none (
                  spend
                    (cost_of E (array (elements_of fs)) array_read.memory array_place)
                    array_read))
    unfolding height encode
    json_deserialize_array-serialize_value d depth v arr no_ser no_des told heap all_told lists
          separate deep =
        let w' = array_read in
        let integers = AllItems-AllIntegers v fs all_told in
        let stored =
          read_fields-AllStored E js array_heap array_place fs w.memory integers separate in
        let fits : Fits E js.flags (array (elements_of fs)) p w'.memory array_place = (
          (told.id, (told.type_name, told.named), told.not_null),
          (told.result, told.begun, rw (elements_of-proxies fs) told.ended),
          elements_of-FitsElements array_heap array_place js.flags fs w'.memory v all_told separate,
        ) in
        (
          json_deserialize_array-items told d v arr no_des heap all_told lists,
          serialize_value-encode E js no_ser (array (elements_of fs)) depth p r name array_place w'
                (omega (arith, elements_of-height fs)) fits
              ∙ ap
                  (λ j.
                    done (some j) none
                      (spend (cost_of E (array (elements_of fs)) w'.memory array_place) w'))
                  (encode_elements-numbers array_heap array_place fs w'.memory jansson.array
                    integers stored),
        )
