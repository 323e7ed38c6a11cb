-- ===== src/Json/Deserialize/Fields.antt =====
-- json_deserialize_struct_member of util/ruminate-jansson/deserialize.c for a member of an integer type.
use ruminate.Base.{
  ℕ, suc, ◌^◌, ◌<◌, ◌*◌, String, ◌≡◌, refl, ap, Bool, true, false, none, some, List,
}
use ruminate.Base.Int.{ℤ, pos, to_signed, to_unsigned}
use ruminate.Errors.{returned, ok}
use ruminate.Backend.{TypeId}
use ruminate.RType.New.{new_object}
use ruminate.RType.Query.{r_type_size}
use ruminate.RMemory.Count.{r_mem_unref-only}
use ruminate.RMemory.Fresh.{Serves, Serves-heap, sized_type}
use ruminate.Member.{RTypeMember}
use ruminate.Member.New.{r_type_member_type-unknown}
use ruminate.World.{Addr, Memory, Block, World, done, store, copy}
use ruminate.Json.{Env}
use ruminate.Json.Shape.{Slot}
use ruminate.Json.Serialize.Values.{State}
use ruminate.Json.Deserialize.{deserialize_value}
use ruminate.Json.Deserialize.RoundTrip.{
  NoDeserializers, deserialize-switch, integer-known, integer-read,
}
use ruminate.Json.Deserialize.Scalar.{IsInteger, filled, json_deserialize_builtin-integer}
use ruminate.Json.Deserialize.Struct.{json_deserialize_struct_member, place_value}
use ruminate.Json.Deserialize.Values.{Deserializer, memcpy}

-- A member of an integer type of so many bytes, and the number that it is to have.
pub record Field : Type 0 where
  pub slot : Slot
  pub kind : TypeId
  pub bytes : ℕ
  pub number : ℕ

abbrev pub value_of : Field → ℤ
value_of f = to_signed (8 * f.bytes) f.number

pub size_of_integer :
    (t : TypeId) (bytes : ℕ) → IsInteger t bytes → to_unsigned 64 (pos bytes) ≡ bytes
size_of_integer _ _ IsInteger.int = refl
size_of_integer _ _ IsInteger.long = refl
size_of_integer _ _ IsInteger.short = refl
size_of_integer _ _ IsInteger.char = refl

module _ (E : Env) (js : State E) where
  open E use {glib, backend, jansson, tid, malloc}
  open jansson use {Json}

  -- What the debugger says of the member and its type, and that its value can be allocated.
  pub record Told (f : Field) (w : World) : Type 0 where
    pub is : IsInteger f.kind f.bytes
    pub small : f.number < 256 ^ f.bytes
    pub type : backend.member_type f.slot.proxy ≡ returned f.slot.type
    pub offset : backend.member_offset f.slot.proxy ≡ returned f.slot.offset
    pub name : backend.member_name f.slot.proxy ≡ returned f.slot.name
    pub bitfield : Bool
    pub is_bitfield : backend.member_is_bitfield f.slot.proxy ≡ returned bitfield
    pub id : backend.get_id f.slot.type ≡ returned f.kind
    pub type_name : String
    pub named : backend.get_name f.slot.type ≡ returned type_name
    pub sized : backend.get_size f.slot.type ≡ returned (pos f.bytes)
    pub serves : Serves backend tid malloc f.kind f.bytes w

  -- The block that a member's value is read to, and the memory when it is copied to its place.
  abbrev pub spot : List Block → Field → Addr
  spot h f = malloc h f.bytes

  abbrev pub read_field : List Block → Field → Addr → Memory → Memory
  read_field h f out m =
      copy f.bytes out (spot h f) (store f.bytes (spot h f) (to_unsigned 64 (value_of f)) m)

  module _ (h : List Block) (w : World) where
    -- A state with this heap, and no question pending.
    abbrev pub at : Memory → ℕ → World
    at m types = record w { memory = m; types = types; heap = h; arp = 0 }

    module _ (quiet : NoDeserializers E js) (f : Field) (v : World) (told : Told f v)
        (same_heap : h ≡ v.heap) (m : Memory) where
      -- Reading the value takes two references to its type.
      serves_at : (n : ℕ) → Serves backend tid malloc f.kind f.bytes (at m n)
      serves_at n = Serves-heap (at m n) same_heap refl told.serves

      abbrev value_read : ℕ → World
      value_read n = filled E f.kind f.bytes (at m n) (serves_at n) (to_unsigned 64 (value_of f))

      integer-deserialized :
          (d n : ℕ)
          → deserialize_value E
              (suc d)
              js
              true
              (new_object f.slot.type f.kind (glib.atomic_int_inc 1) none)
              (some (jansson.integer (value_of f)))
              (at m n)
            ≡ done (spot h f) none (value_read n)
      unfolding deserialize_value
      integer-deserialized d n =
          let j = some (jansson.integer (value_of f)) in
          let r = glib.atomic_int_inc 1 in
          let rec : Deserializer E = deserialize_value E d js true in
          let (q, read) =
            deserialize-switch E js rec (deserialize_value E d js false) f.slot.type f.kind r none
              told.type_name j (at m n) quiet told.named
              (integer-known E js f.kind f.bytes told.is) in
          rw read (
            rw
              (integer-read E js rec f.kind f.bytes (new_object f.slot.type f.kind r (some q)) j
                (at m n) told.is)
              (json_deserialize_builtin-integer E js f.slot.type r (some q) (at m n) f.kind f.bytes
                f.number told.is told.small (serves_at n)).0)

      size-told :
          (r_type_size backend (new_object f.slot.type f.kind (glib.atomic_int_inc 1) none)).1
          ≡ ok f.bytes
      unfolding r_type_size new_object
      size-told = rw told.sized (ap ok (size_of_integer f.kind f.bytes told.is))

      -- The value is read, copied to its place and given back; one reference to its type stays taken.
      pub struct_member-deserialized :
          (d n : ℕ) (x : RTypeMember) (out : Addr)
          → x.type ≡ none
          → x.member ≡ f.slot.proxy
          → json_deserialize_struct_member E
              (deserialize_value E (suc d) js true)
              x
              (some (jansson.integer (value_of f)))
              out
              (at m n)
            ≡ done true none (at (read_field h f out m) (suc n))
      unfolding json_deserialize_struct_member place_value memcpy
      struct_member-deserialized d n x out unknown same =
          let type : backend.member_type x.member ≡ returned f.slot.type = rw same told.type in
          let typed =
            sized_type backend tid malloc f.kind f.bytes (at m (suc n)) (serves_at (suc n)) in
          rw (r_type_member_type-unknown glib backend x f.slot.type f.kind unknown type told.id) (
            rw (integer-deserialized d (suc n)) (
              rw size-told (
                rw (serves_at n).not_null (
                  rw
                    (r_mem_unref-only glib (spot h f) typed f.bytes h
                      (at (read_field h f out m) (suc (suc n))))
                    refl))))
