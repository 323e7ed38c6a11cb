-- ===== src/Json/Encoding/Rounds.antt =====
-- The rounds of json_serialize_struct of util/ruminate-jansson/serialize.c up to the one that fails.
use native.Mathlib.Nat.{add-suc}
use ruminate.Base.{
  ℕ, suc, ◌+◌, ◌≡◌, ◌∙◌, refl, sym, ap, Bool, false, Option, none, some, List, ◌∷◌, ◌||◌, length,
  drop, drop-next,
}
use ruminate.Errors.{GError, returned}
use ruminate.Backend.{TypePrx, TypeMemberPrx, TypeId}
use ruminate.RString.{RString}
use ruminate.RType.{RType, RAggregateTypeId, Extension}
use ruminate.RType.New.{new_object, with_members, nmembers-new_object}
use ruminate.Member.At.{aggregate_member_at-drop}
use ruminate.Member.New.{
  new_member-structure, r_type_member_new-raised, r_type_member_type-raised,
  r_type_member_type-new_member, r_type_member_offset-new_member, r_type_member_offset-raised,
}
use ruminate.World.{Addr, Memory, World, Run, done, take_json, take_member, take_type, advance}
use ruminate.Json.{Env}
use ruminate.Json.Serialize.Values.{Serializer}
use ruminate.Json.Serialize.Struct.{
  json_serialize_struct_member, struct_loop, json_serialize_struct,
}
use ruminate.Json.Shape.{
  Slot, Members, member, no_members, Cost, cost, add_cost, spend, encode, members_cost, cost_of,
  key_of, put_member, is_some,
}
use ruminate.Json.Fits.{Placed, FitsMembers}
use ruminate.Json.Encoding.Spending.{spend-zero, spend-spend, spend-between}
use ruminate.Json.Encoding.Struct.{
  HandlesMembers, struct_member-encode, put_member-IsObject, get_id-Fits,
}
use ruminate.Json.Encoding.Faulty.{Question, bitfield, place, type, before, IsBitfield, Unanswered}

module _ (E : Env) where
  open E use {glib, backend, jansson}
  open jansson use {Json}

  module _ (flags : ℕ) (rec : Serializer E) (rat : RType) (all : List TypeMemberPrx)
      (structure : rat.type_id ≡ TypeId.structure)
      (cached : rat.extension ≡ Extension.aggregate RAggregateTypeId.struct (some all)) (a : Addr)
      (slot : Slot) (rest : List TypeMemberPrx) (e : GError) (m : Memory) (c : Cost) where
    -- The round for the member that fails.
    abbrev LastRound : Type 0
    LastRound =
        (i : ℕ) (obj : Json) (did_insert : Bool) (w : World)
        → w.memory ≡ m
        → drop i all ≡ slot.proxy ∷ rest
        → struct_loop E rec (suc (length rest)) rat a i obj did_insert w
          ≡ done none (some e) (spend c w)

    struct_loop-until :
        LastRound
        → (ms : Members) (i : ℕ) (obj : Json) (did_insert : Bool) (w : World) → w.memory ≡ m
        → drop i all ≡ before ms (slot.proxy ∷ rest)
        → jansson.IsObject obj
        → HandlesMembers E flags rec ms
        → FitsMembers E flags ms w.memory a
        → struct_loop E rec (length (before ms (slot.proxy ∷ rest))) rat a i obj did_insert w
          ≡ done none (some e) (spend (add_cost (members_cost E ms w.memory a) c) w)
    unfolding struct_loop cost_of
    struct_loop-until last no_members i obj did_insert w same left is handles fits =
        last i obj did_insert w same left
        ∙ ap (λ u. done none (some e) (spend c u)) (sym (spend-zero w))
        ∙ ap (λ u. done none (some e) u) (spend-spend (cost 0 0 0) c w)
    struct_loop-until last (member next s ms) i obj did_insert w same left is (handle, handles)
          (placed, name, (b, bit), fits, more) =
        let (k, made) = new_member-structure backend next.proxy rat b structure bit in
        let at_i = aggregate_member_at-drop backend rat all i left RAggregateTypeId.struct cached in
        let here = advance a next.offset in
        let one =
          struct_member-encode E flags rec next s k obj here (take_member w) handle is placed.0
            (get_id-Fits E flags s next.type w.memory here fits) name fits in
        let v = encode E s w.memory here in
        let d = cost_of E s w.memory here in
        let others =
          struct_loop-until last ms (i + 1) (put_member E obj (key_of E next) v)
            (did_insert || is_some E v) (spend d w) same (drop-next i all left)
            (put_member-IsObject E obj (key_of E next) v is) handles more in
        rw at_i (
          rw made (
            rw
              (r_type_member_offset-new_member backend next.proxy (some k) next.offset none
                placed.1)
              (rw one (
                rw add-suc (
                  rw at_i (
                    rw others (
                      ap (λ u. done none (some e) u)
                        (spend-between d (members_cost E ms w.memory a) c w))))))))

  module _ (flags : ℕ) (rec : Serializer E) (rat : RType) (all : List TypeMemberPrx)
      (structure : rat.type_id ≡ TypeId.structure)
      (cached : rat.extension ≡ Extension.aggregate RAggregateTypeId.struct (some all)) (a : Addr)
      (slot : Slot) (rest : List TypeMemberPrx) (e : GError) (m : Memory) where
    abbrev Last : Cost → Type 0
    Last c = LastRound flags rec rat all structure cached a slot rest e m c

    nothing_more :
        (w : World)
        → ◌≡◌ {A = Run (Option (Bool × Json))}
            (done none (some e) w)
            (done none (some e) (spend (cost 0 0 0) w))
    nothing_more w = ap (λ u. done none (some e) u) (sym (spend-zero w))

    pub Unanswered-Last : (q : Question) → Unanswered E q slot e → Last (cost 0 0 0)
    unfolding struct_loop json_serialize_struct_member
    Unanswered-Last bitfield asked i obj did_insert w same left =
        rw (aggregate_member_at-drop backend rat all i left RAggregateTypeId.struct cached)
          (rw (r_type_member_new-raised backend slot.proxy rat e structure asked) (nothing_more w))
    Unanswered-Last place ((b, bit), asked) i obj did_insert w same left =
        let (k, made) = new_member-structure backend slot.proxy rat b structure bit in
        rw (aggregate_member_at-drop backend rat all i left RAggregateTypeId.struct cached) (
          rw made (
            rw (r_type_member_offset-raised backend slot.proxy (some k) e none asked)
              (nothing_more w)))
    Unanswered-Last type ((b, bit), offset, asked) i obj did_insert w same left =
        let (k, made) = new_member-structure backend slot.proxy rat b structure bit in
        rw (aggregate_member_at-drop backend rat all i left RAggregateTypeId.struct cached) (
          rw made (
            rw (r_type_member_offset-new_member backend slot.proxy (some k) slot.offset none offset)
              (rw (r_type_member_type-raised glib backend slot.proxy (some k) e asked)
                (nothing_more w))))

    -- `rec` fails for the member's value.
    pub inside-Last :
        (c : Cost)
        → Placed E slot
        → IsBitfield E slot
        → backend.get_id slot.type ≡ returned TypeId.structure
        → ((w : World)
            → w.memory ≡ m
            → rec
                (new_object slot.type TypeId.structure (glib.atomic_int_inc 1) none)
                (advance a slot.offset)
                w
              ≡ done none (some e) (spend c w))
        → Last c
    unfolding struct_loop json_serialize_struct_member
    inside-Last c placed (b, bit) id fails i obj did_insert w same left =
        let (k, made) = new_member-structure backend slot.proxy rat b structure bit in
        rw (aggregate_member_at-drop backend rat all i left RAggregateTypeId.struct cached) (
          rw made (
            rw
              (r_type_member_offset-new_member backend slot.proxy (some k) slot.offset none
                placed.1)
              (rw
                (r_type_member_type-new_member glib backend slot.proxy (some k) slot.type
                  TypeId.structure placed.0 id)
                (rw (fails (take_type (take_member w)) same) (rw add-suc (rw add-suc refl))))))

  module _ (flags : ℕ) (rec : Serializer E) (ms : Members) (slot : Slot) (rest : List TypeMemberPrx)
      (p : TypePrx) (r : ℕ) (name : Option RString) (a : Addr) (w : World) (e : GError)
      (c : Cost) where
    abbrev pub known_struct : RType
    known_struct =
        with_members backend p r name TypeId.structure RAggregateTypeId.struct
          (before ms (slot.proxy ∷ rest))

    pub known-structure : known_struct.type_id ≡ TypeId.structure
    unfolding new_object
    known-structure = refl

    -- The object is given back.
    pub struct-failed :
        Last flags rec known_struct
          (before ms (slot.proxy ∷ rest))
          known-structure
          refl
          a
          slot
          rest
          e
          w.memory
          c
        → backend.get_members p ≡ returned (before ms (slot.proxy ∷ rest))
        → HandlesMembers E flags rec ms
        → FitsMembers E flags ms w.memory a
        → json_serialize_struct E rec (new_object p TypeId.structure r name) a w
          ≡ done none (some e) (spend (add_cost (members_cost E ms w.memory a) c) w)
    unfolding json_serialize_struct new_object
    struct-failed last members handles fits =
        let all = before ms (slot.proxy ∷ rest) in
        rw
          (nmembers-new_object backend p r name TypeId.structure RAggregateTypeId.struct all refl
            members)
          (rw
            (struct_loop-until flags rec known_struct all known-structure refl a slot rest e
              w.memory c last ms 0 jansson.object false (take_json w) refl refl
              jansson.object-IsObject handles fits)
            (rw add-suc refl))
