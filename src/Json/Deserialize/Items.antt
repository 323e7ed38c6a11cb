-- ===== src/Json/Deserialize/Items.antt =====
-- json_deserialize_array of util/ruminate-jansson/deserialize.c for elements of an integer type.
use ruminate.Base.{
  ℕ, suc, ◌+◌, ◌^◌, ◌<◌, String, ◌≡◌, ◌∙◌, ◌≢◌, Option, true, false, refl, ap, some, none, List, [],
  ◌∷◌, length, drop, drop-next,
}
use ruminate.Base.Int.{pos, to_unsigned}
use ruminate.Errors.{returned, ok}
use ruminate.Backend.{TypeMemberPrx, TypeId}
use ruminate.RString.{RString, r_string_ref, r_string_new_cxx}
use ruminate.RType.{RType, RTypeId, Extension, type_category}
use ruminate.RType.New.{new_object}
use ruminate.RType.Query.{r_type_id, r_type_name, r_type_size, r_builtin_type_id}
use ruminate.RMemory.Count.{r_mem_unref-only}
use ruminate.RMemory.Fresh.{Serves, Serves-heap, sized_type}
use ruminate.Member.At.{array_member_at-drop}
use ruminate.Member.New.{
  new_member-array, r_type_member_type-new_member, r_type_member_offset-new_member,
}
use ruminate.World.{Addr, Memory, Block, World, done, take_member}
use ruminate.Json.{Env}
use ruminate.Json.Serialize.Values.{State}
use ruminate.Json.Deserialize.{deserialize_value, deserialize_step, switch_value}
use ruminate.Json.Deserialize.Array.{item_at, read_item, items_loop}
use ruminate.Json.Deserialize.Fields.{Field, value_of, spot, read_field, at, size_of_integer}
use ruminate.Json.Deserialize.Members.{proxies, types_after, place, read_fields}
use ruminate.Json.Deserialize.RoundTrip.{
  NoDeserializers, deserialize-named, integer-known, integer-read,
}
use ruminate.Json.Deserialize.Scalar.{IsInteger, filled, json_deserialize_builtin-integer}
use ruminate.Json.Deserialize.Values.{Deserializer, memcpy, json_deserialize_builtin}

module _ (E : Env) (js : State E) where
  open E use {glib, backend, jansson, tid, malloc}
  open jansson use {Json}

  -- What the debugger says of an element and its type, and that its value can be allocated.
  pub record ToldItem (f : Field) (w : World) : Type 0 where
    pub is : IsInteger f.kind f.bytes
    pub small : f.number < 256 ^ f.bytes
    pub type : backend.member_type f.slot.proxy ≡ returned f.slot.type
    pub offset : backend.member_offset f.slot.proxy ≡ returned f.slot.offset
    pub id : backend.get_id f.slot.type ≡ returned f.kind
    pub type_name : String
    pub named : backend.get_name f.slot.type ≡ returned type_name
    pub sized : backend.get_size f.slot.type ≡ returned (pos f.bytes)
    pub serves : Serves backend tid malloc f.kind f.bytes w

  abbrev pub AllItems : World → List Field → Type 0
  AllItems w [] = Unit
  AllItems w (f ∷ fs) = ToldItem f w × AllItems w fs

  -- The array has the numbers from an index on.
  abbrev pub Lists : Json → ℕ → List Field → Type 0
  Lists arr i [] = Unit
  Lists arr i (f ∷ fs) =
      (jansson.array_get arr i ≡ some (jansson.integer (value_of f))) × Lists arr (i + 1) fs

  -- The type of an element when it has told its size.
  abbrev sized_object : Field → RType
  sized_object f = record (new_object f.slot.type f.kind (glib.atomic_int_inc 1) none) {
    size = some f.bytes;
  }

  sized-name :
      (f : Field) (n : String)
      → backend.get_name f.slot.type ≡ returned n
      → let s = r_string_ref glib (r_string_new_cxx n) in
        r_type_name glib backend (sized_object f)
        ≡ (record (sized_object f) { name = some s }, ok s)
  unfolding r_type_name new_object
  sized-name f n named = rw named

  sized-category : (f : Field) → r_type_id (sized_object f) ≡ type_category f.kind
  unfolding r_type_id new_object
  sized-category f = refl

  -- The size that an object has told plays no part when an integer is read.
  sized-builtin :
      (f : Field) (s : RString) (json : Option Json) (w : World)
      → json_deserialize_builtin E (record (sized_object f) { name = some s }) json w
        ≡ json_deserialize_builtin E
            (new_object f.slot.type f.kind (glib.atomic_int_inc 1) (some s))
            json
            w
  unfolding json_deserialize_builtin r_builtin_type_id new_object
  sized-builtin f s json w = refl

  sized-read :
      (rec cont : Deserializer E) (f : Field) (n : String) (w : World)
      → NoDeserializers E js
      → IsInteger f.kind f.bytes
      → backend.get_name f.slot.type ≡ returned n
      → f.number < 256 ^ f.bytes
      → (s : Serves backend tid malloc f.kind f.bytes w)
      → deserialize_step E rec cont js true (sized_object f) (some (jansson.integer (value_of f))) w
        ≡ done
            (malloc w.heap f.bytes)
            none
            (filled E f.kind f.bytes w s (to_unsigned 64 (value_of f)))
  sized-read rec cont f n w quiet is named small s =
      let q = r_string_ref glib (r_string_new_cxx n) in
      let rt = record (sized_object f) { name = some q } in
      let j = some (jansson.integer (value_of f)) in
      let known : r_type_id (sized_object f) ≢ RTypeId.unknown =
        rw (sized-category f) (integer-known E js f.kind f.bytes is) in
      deserialize-named E js rec cont (sized_object f) rt q j w quiet known (sized-name f n named)
      ∙ (ap (λ i. switch_value E rec i rt j w) (sized-category f)
          ∙ (integer-read E js rec f.kind f.bytes rt j w is
              ∙ (sized-builtin f q j w
                  ∙ (json_deserialize_builtin-integer E js f.slot.type (glib.atomic_int_inc 1)
                      (some q) w f.kind f.bytes f.number is small s).0)))

  module _ (h : List Block) (w : World) (quiet : NoDeserializers E js) (v : World)
      (same_heap : h ≡ v.heap) where
    serves_at :
        (f : Field)
        → ToldItem f v
        → (x : World) (m : Memory) (n : ℕ)
        → Serves backend tid malloc f.kind f.bytes (at E js h x m n)
    serves_at f told x m n = Serves-heap (at E js h x m n) same_heap refl told.serves

    item-deserialized :
        (f : Field) (told : ToldItem f v) (d : ℕ) (x : World) (m : Memory) (n : ℕ)
        → deserialize_value E
            (suc d)
            js
            true
            (sized_object f)
            (some (jansson.integer (value_of f)))
            (at E js h x m n)
          ≡ done (spot E js h f) none (
              filled E f.kind f.bytes
                (at E js h x m n)
                (serves_at f told x m n)
                (to_unsigned 64 (value_of f)))
    unfolding deserialize_value
    item-deserialized f told d x m n =
        sized-read (deserialize_value E d js true) (deserialize_value E d js false) f told.type_name
          (at E js h x m n) quiet told.is told.named told.small (serves_at f told x m n)

    size-told :
        (f : Field)
        → ToldItem f v
        → r_type_size backend (new_object f.slot.type f.kind (glib.atomic_int_inc 1) none)
          ≡ (sized_object f, ok f.bytes)
    unfolding r_type_size new_object
    size-told f told = rw told.sized (rw (size_of_integer f.kind f.bytes told.is))

    -- The element is read, copied to its place and given back; its member and its type are too.
    item-read :
        (f : Field) (told : ToldItem f v) (d : ℕ) (x : World) (out : Addr) (m : Memory) (n : ℕ)
        → read_item E
            (deserialize_value E (suc d) js true)
            (sized_object f)
            (some (jansson.integer (value_of f)))
            out
            f.bytes
            (at E js h (take_member x) m (suc n))
          ≡ done tt none (at E js h x (read_field E js h f out m) (suc n))
    unfolding read_item memcpy
    item-read f told d x out m n =
        let typed =
          sized_type backend tid malloc f.kind f.bytes (at E js h (take_member x) m (suc n))
            (serves_at f told (take_member x) m (suc n)) in
        rw (item-deserialized f told d (take_member x) m (suc n)) (
          rw (serves_at f told (take_member x) m (suc n)).not_null (
            rw
              (r_mem_unref-only glib (spot E js h f) typed f.bytes h
                (at E js h (take_member x) (read_field E js h f out m) (suc (suc n))))
              refl))

    module _ (d : ℕ) (rat : RType) (all : List TypeMemberPrx)
        (is_array : rat.type_id ≡ TypeId.array)
        (cached : rat.extension ≡ Extension.array (some all)) (arr : Json) (st : Addr) where
      pub items_loop-deserialized :
          (fs : List Field) (i n : ℕ) (m : Memory)
          → drop i all ≡ proxies fs
          → AllItems v fs
          → Lists arr i fs
          → items_loop E
              (deserialize_value E (suc d) js true)
              (length (proxies fs))
              rat
              (some arr)
              st
              i
              (at E js h w m n)
            ≡ done tt none (at E js h w (read_fields E js h fs st m) (types_after fs n))
      unfolding items_loop item_at
      items_loop-deserialized [] i n m left told lists = refl
      items_loop-deserialized (f ∷ fs) i n m left (told, others) (has, rest) =
          let at_i = array_member_at-drop backend rat all i left tid cached in
          let rt = new_object f.slot.type f.kind (glib.atomic_int_inc 1) none in
          let next =
            items_loop-deserialized fs (i + 1) (suc n) (read_field E js h f (place E js st f) m)
              (drop-next i all left) others rest in
          rw at_i (
            rw (new_member-array backend f.slot.proxy rat is_array) (
              rw
                (r_type_member_type-new_member glib backend f.slot.proxy none f.slot.type f.kind
                  told.type told.id)
                (rw (size-told f told) (
                  rw
                    (r_type_member_offset-new_member backend f.slot.proxy none f.slot.offset
                      (some rt) told.offset)
                    (rw has (rw (item-read f told d w (place E js st f) m n) next))))))
