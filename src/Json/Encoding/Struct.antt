-- ===== src/Json/Encoding/Struct.antt =====
-- json_serialize_struct, where the calls of _json_serialize for its members do as they should.
use native.Mathlib.Nat.{add-suc}
use ruminate.Json.Encoding.Spending.{spend-zero, spend-spend, spend-take_json, spend-add_nothing}
use ruminate.Base.{
  ap, ℕ, ◌+◌, ◌≡◌, refl, inl, inr, Bool, true, false, Option, none, some, List, ◌||◌, length,
  Option-cases, Bool-cases, String, drop, drop-next,
}
use ruminate.Errors.{returned}
use ruminate.Backend.{TypePrx, TypeMemberPrx, TypeId}
use ruminate.RString.{RString, r_string_bytes, r_string_new_cxx, r_string_ref}
use ruminate.RType.{RType, RAggregateTypeId, Extension}
use ruminate.RType.New.{new_object, with_members, nmembers-new_object}
use ruminate.Member.{RAggregateMemberId}
use ruminate.Member.At.{aggregate_member_at-drop}
use ruminate.Member.New.{
  new_member, new_member-structure, r_type_member_type-new_member, r_type_member_offset-new_member,
  r_aggregate_member_name-new_member,
}
use ruminate.World.{Addr, Memory, World, done, take_type, take_member, take_json, advance}
use ruminate.Json.{Env}
use ruminate.Json.Serialize.Values.{Serializer}
use ruminate.Json.Serialize.Struct.{
  json_serialize_struct_member, struct_loop, json_serialize_struct,
}
use ruminate.Json.Shape.{
  Slot, Shape, Members, member, no_members, member_proxies, kind_of, spend, encode, encode_members,
  has_member, cost_of, members_cost, key_of, put_member, is_some,
}
use ruminate.Json.Fits.{Fits, FitsMembers}

module _ (E : Env) where
  open E use {glib, backend, jansson}
  open jansson use {Json}

  -- `rec` serializes every value of this shape as it should.
  abbrev pub Handles : ℕ → Serializer E → Shape → Type 0
  Handles flags rec s =
      (p : TypePrx) (r : ℕ) (name : Option RString) (a : Addr) (w : World)
      → Fits E flags s p w.memory a
      → rec (new_object p (kind_of s) r name) a w
        ≡ done (encode E s w.memory a) none (spend (cost_of E s w.memory a) w)

  module _ (flags : ℕ) (rec : Serializer E) where
    pub struct_member-encode :
        (slot : Slot) (s : Shape) (i : RAggregateMemberId) (obj : Json) (a : Addr) (w : World)
        → Handles flags rec s
        → jansson.IsObject obj
        → backend.member_type slot.proxy ≡ returned slot.type
        → backend.get_id slot.type ≡ returned (kind_of s)
        → backend.member_name slot.proxy ≡ returned slot.name
        → Fits E flags s slot.type w.memory a
        → json_serialize_struct_member E rec (new_member slot.proxy (some i) none) a obj w
          ≡ done
              (
                is_some E (encode E s w.memory a),
                put_member E obj (key_of E slot) (encode E s w.memory a),
              )
              none
              (spend (cost_of E s w.memory a) w)
    unfolding json_serialize_struct_member r_string_bytes r_string_ref r_string_new_cxx
    struct_member-encode slot s i obj a w handles is type id name fits =
        rw
          (r_type_member_type-new_member glib backend slot.proxy (some i) slot.type (kind_of s) type
            id)
          (rw (handles slot.type (glib.atomic_int_inc 1) none a (take_type w) fits)
            (elim (Option-cases (encode E s w.memory a)) [
              | inl skipped ↦ rw skipped (rw add-suc refl)
              | inr (j, found) ↦ rw found (
                  let (obj', stored, _) = jansson.object_set_succeeds obj j (key_of E slot) is in
                  rw (r_aggregate_member_name-new_member glib backend slot.proxy i slot.name _ name)
                    (rw stored (rw add-suc refl)))
            ]))

  -- The debugger's answer for the kind of a type is the shape's.
  pub get_id-Fits :
      (flags : ℕ) (s : Shape) (p : TypePrx) (m : Memory) (a : Addr)
      → Fits E flags s p m a
      → backend.get_id p ≡ returned (kind_of s)
  get_id-Fits flags Shape.unknown p m a fits = fits.0
  get_id-Fits flags (Shape.scalar t b) p m a fits = fits.0.0
  get_id-Fits flags _ p m a fits = fits.0.0

  pub put_member-IsObject :
      (obj : Json) (k : String) (v : Option Json)
      → jansson.IsObject obj
      → jansson.IsObject (put_member E obj k v)
  put_member-IsObject obj k none is = is
  put_member-IsObject obj k (some v) is =
      let (obj', stored, is') = jansson.object_set_succeeds obj v k is in rw stored is'

  or_assoc : (a b c : Bool) → ((a || b) || c) ≡ (a || (b || c))
  or_assoc true b c = refl
  or_assoc false b c = refl

  did_end : (b : Bool) → b ≡ (b || false)
  did_end true = refl
  did_end false = refl

  module _ (flags : ℕ) (rec : Serializer E) where
    abbrev pub HandlesMembers : Members → Type 0
    HandlesMembers no_members = Unit
    HandlesMembers (member slot s ms) = Handles flags rec s × HandlesMembers ms

    module _ (rat : RType) (all : List TypeMemberPrx) (structure : rat.type_id ≡ TypeId.structure)
        (cached : rat.extension ≡ Extension.aggregate RAggregateTypeId.struct (some all))
        (a : Addr) where
      struct_loop-encode :
          (ms : Members) (i : ℕ) (obj : Json) (did_insert : Bool) (w : World)
          → drop i all ≡ member_proxies ms
          → jansson.IsObject obj
          → HandlesMembers ms
          → FitsMembers E flags ms w.memory a
          → struct_loop E rec (length (member_proxies ms)) rat a i obj did_insert w
            ≡ done
                (some
                  (did_insert || has_member E ms w.memory a, encode_members E ms w.memory a obj))
                none
                (spend (members_cost E ms w.memory a) w)
      unfolding struct_loop encode cost_of
      struct_loop-encode no_members i obj did_insert w left is handles fits =
          rw (spend-zero w) (ap (λ b. done (some (b, obj)) none w) (did_end did_insert))
      struct_loop-encode (member slot s ms) i obj did_insert w left is (handle, handles)
            (placed, name, (b, bit), fits, rest) =
          let (k, made) = new_member-structure backend slot.proxy rat b structure bit in
          let at = aggregate_member_at-drop backend rat all i left RAggregateTypeId.struct cached in
          let one =
            struct_member-encode flags rec slot s k obj (advance a slot.offset) (take_member w)
              handle is placed.0
              (get_id-Fits flags s slot.type w.memory (advance a slot.offset) fits) name fits in
          let v = encode E s w.memory (advance a slot.offset) in
          let c = cost_of E s w.memory (advance a slot.offset) in
          let others =
            struct_loop-encode ms (i + 1) (put_member E obj (key_of E slot) v)
              (did_insert || is_some E v) (spend c w) (drop-next i all left)
              (put_member-IsObject obj (key_of E slot) v is) handles rest in
          rw at (
            rw made (
              rw
                (r_type_member_offset-new_member backend slot.proxy (some k) slot.offset none
                  placed.1)
                (rw one (
                  rw add-suc (
                    rw at (
                      rw others (
                        rw (
                          spend-spend c (members_cost E ms w.memory a) w,
                          or_assoc did_insert (is_some E v) (has_member E ms w.memory a),
                        ))))))))

    -- A struct becomes the object of its members, or NULL if none of them has any JSON.
    pub struct-encode :
        (ms : Members) (p : TypePrx) (r : ℕ) (name : Option RString) (a : Addr) (w : World)
        → HandlesMembers ms
        → Fits E flags (Shape.struct ms) p w.memory a
        → json_serialize_struct E rec (new_object p TypeId.structure r name) a w
          ≡ done
              (encode E (Shape.struct ms) w.memory a)
              none
              (spend (cost_of E (Shape.struct ms) w.memory a) w)
    unfolding json_serialize_struct encode cost_of new_object
    struct-encode ms p r name a w handles (typed, members, fits) =
        let all = member_proxies ms in
        let rat = with_members backend p r name TypeId.structure RAggregateTypeId.struct all in
        let c = members_cost E ms w.memory a in
        rw
          (nmembers-new_object backend p r name TypeId.structure RAggregateTypeId.struct all refl
            members)
          (rw
            (struct_loop-encode rat all refl refl a ms 0 jansson.object false (take_json w) refl
              jansson.object-IsObject handles fits)
            (elim (Bool-cases (has_member E ms w.memory a)) [
              | inl full ↦ rw full (
                  ap (λ u. done (some (encode_members E ms w.memory a jansson.object)) none u)
                    (spend-take_json c w))
              | inr empty ↦
                  rw empty (rw add-suc (ap (λ u. done none none u) (spend-add_nothing c w)))
            ]))
