-- ===== src/Json/Deserialize/Members.antt =====
-- json_deserialize_struct of util/ruminate-jansson/deserialize.c for a struct of integers.
use ruminate.Base.{
  ℕ, suc, ◌+◌, ◌≡◌, refl, true, false, Option, none, some, List, [], ◌∷◌, ◌==◌, length, drop,
  drop-next,
}
use ruminate.Base.Int.{ℤ, to_unsigned}
use ruminate.Errors.{returned, ok}
use ruminate.Backend.{TypePrx, TypeMemberPrx, TypeId}
use ruminate.RString.{RString, r_string_bytes, r_string_ref, r_string_new_cxx}
use ruminate.RType.{RType, RAggregateTypeId, Extension}
use ruminate.RType.New.{new_object}
use ruminate.RType.Query.{r_aggregate_type_nmembers}
use ruminate.RMemory.{has_room}
use ruminate.RMemory.Typed.{sized, typed_block, r_mem_malloc_fn-made, r_mem_malloc_fn-sized}
use ruminate.Member.At.{aggregate_member_at-drop}
use ruminate.Member.New.{
  new_member-structure, r_type_member_offset-new_member, r_aggregate_member_name-told,
}
use ruminate.World.{Addr, Memory, Block, World, done, advance}
use ruminate.Json.{Env}
use ruminate.Json.Shape.{key_of}
use ruminate.Json.Serialize.Values.{State}
use ruminate.Json.Deserialize.{deserialize_value}
use ruminate.Json.Deserialize.Fields.{
  Field, value_of, Told, read_field, at, struct_member-deserialized,
}
use ruminate.Json.Deserialize.RoundTrip.{NoDeserializers}
use ruminate.Json.Deserialize.Struct.{
  object_member, struct_members_loop, fill_struct, json_deserialize_struct,
}

abbrev pub proxies : List Field → List TypeMemberPrx
proxies [] = []
proxies (f ∷ fs) = f.slot.proxy ∷ proxies fs

-- One reference to a type is left for each member.
abbrev pub types_after : List Field → ℕ → ℕ
types_after [] n = n
types_after (f ∷ fs) n = types_after fs (suc n)

module _ (E : Env) (js : State E) where
  open E use {glib, backend, jansson, malloc}
  open jansson use {Json}

  abbrev pub place : Addr → Field → Addr
  place st f = advance st f.slot.offset

  -- The memory when all members are read.
  abbrev pub read_fields : List Block → List Field → Addr → Memory → Memory
  read_fields h [] st m = m
  read_fields h (f ∷ fs) st m = read_fields h fs st (read_field E js h f (place st f) m)

  -- The object has each number under the member's name.
  abbrev pub Holds : Json → List Field → Type 0
  Holds obj [] = Unit
  Holds obj (f ∷ fs) =
      (jansson.object_get obj (key_of E f.slot) ≡ some (jansson.integer (value_of f)))
      × Holds obj fs

  abbrev pub AllTold : World → List Field → Type 0
  AllTold w [] = Unit
  AllTold w (f ∷ fs) = Told E js f w × AllTold w fs

  module _ (h : List Block) (w : World) (quiet : NoDeserializers E js) (d : ℕ) (rat : RType)
      (v : World) (same_heap : h ≡ v.heap) (all : List TypeMemberPrx)
      (structure : rat.type_id ≡ TypeId.structure)
      (cached : rat.extension ≡ Extension.aggregate RAggregateTypeId.struct (some all)) (obj : Json)
      (st : Addr) where
    abbrev state : Memory → ℕ → World
    state m n = at E js h w m n

    members_loop-deserialized :
        (fs : List Field) (i n : ℕ) (m : Memory)
        → drop i all ≡ proxies fs
        → AllTold v fs
        → Holds obj fs
        → struct_members_loop E
            (deserialize_value E (suc d) js true)
            (length (proxies fs))
            rat
            (some obj)
            st
            i
            (state m n)
          ≡ done true none (state (read_fields h fs st m) (types_after fs n))
    unfolding struct_members_loop object_member r_string_bytes r_string_ref r_string_new_cxx
    members_loop-deserialized [] i n m left told holds = refl
    members_loop-deserialized (f ∷ fs) i n m left (told, others) (has, rest) =
        let (k, made) =
          new_member-structure backend f.slot.proxy rat told.bitfield structure told.is_bitfield in
        let at_i = aggregate_member_at-drop backend rat all i left RAggregateTypeId.struct cached in
        let (x, named, unknown, same) =
          r_aggregate_member_name-told glib backend f.slot.proxy k f.slot.name told.name in
        let inner = record w { members = suc w.members; strings = suc w.strings } in
        let next =
          members_loop-deserialized fs (i + 1) (suc n) (read_field E js h f (place st f) m)
            (drop-next i all left) others rest in
        rw at_i (
          rw made (
            rw
              (r_type_member_offset-new_member backend f.slot.proxy (some k) f.slot.offset none
                told.offset)
              (rw named (
                rw has (
                  rw
                    (struct_member-deserialized E js h inner quiet f v told same_heap m d n x
                      (place st f) unknown same)
                    (rw at_i next))))))

  module _ (p : TypePrx) (r : ℕ) (name : Option RString) (size : ℤ) (w : World)
      (fs : List Field) where
    -- The struct's own block.
    abbrev pub struct_bytes : ℕ
    struct_bytes = to_unsigned 64 size

    abbrev pub struct_place : Addr
    struct_place = malloc w.heap struct_bytes

    abbrev pub struct_heap : List Block
    struct_heap = typed_block malloc p TypeId.structure r name size w ∷ w.heap

    -- The state when the struct is read.
    abbrev pub struct_read : World
    struct_read =
        at E js struct_heap w (read_fields struct_heap fs struct_place w.memory)
          (types_after fs (suc w.types))

    -- The struct's type when it has told its size, and when it has told its members.
    abbrev known_struct : RType
    known_struct = sized malloc p TypeId.structure r name size w

    abbrev known_members : RType
    known_members = record known_struct {
      extension = Extension.aggregate RAggregateTypeId.struct (some (proxies fs));
    }

    nmembers-sized :
        backend.get_members p ≡ returned (proxies fs)
        → r_aggregate_type_nmembers backend known_struct ≡ (known_members, ok (length (proxies fs)))
    unfolding r_aggregate_type_nmembers new_object
    nmembers-sized members = rw members refl

    pub json_deserialize_struct-fields :
        (d : ℕ) (v : World) (obj : Json)
        → NoDeserializers E js
        → w.arp ≡ 0
        → backend.get_size p ≡ returned size
        → has_room struct_bytes ≡ true
        → (struct_place == 0) ≡ false
        → backend.get_members p ≡ returned (proxies fs)
        → struct_heap ≡ v.heap
        → AllTold v fs
        → Holds obj fs
        → json_deserialize_struct E
            (deserialize_value E (suc d) js true)
            (new_object p TypeId.structure r name)
            (some obj)
            w
          ≡ done struct_place none struct_read
    unfolding json_deserialize_struct fill_struct new_object
    json_deserialize_struct-fields d v obj quiet idle told room address members same_heap all_told
          holds =
        let loop =
          members_loop-deserialized struct_heap w quiet d known_members v same_heap (proxies fs)
            refl refl obj struct_place fs 0 (suc w.types) w.memory refl all_told holds in
        rw (r_mem_malloc_fn-made malloc p TypeId.structure r name size w backend told room) (
          rw (r_mem_malloc_fn-sized malloc p TypeId.structure r name size w backend told)
            (rw (nmembers-sized members) (rw idle (rw loop refl))))
