-- ===== src/Json/Encoding/Object.antt =====
-- What json_serialize_struct of util/ruminate-jansson/serialize.c puts in its object, by key.
use ruminate.Base.{ℕ, ◌≤◌, String, ◌≡◌, refl, ◌≢◌, sym, true, Option, none, some}
use ruminate.Backend.{TypePrx, TypeId}
use ruminate.RString.{RString}
use ruminate.RType.New.{new_object}
use ruminate.World.{Addr, Memory, World, done, advance}
use ruminate.Json.{Env}
use ruminate.Json.Serialize.{serialize_value}
use ruminate.Json.Serialize.Values.{State}
use ruminate.Json.Shape.{
  Slot, Shape, Members, struct, no_members, member, spend, height, encode, encode_members,
  has_member, cost_of, key_of, put_member,
}
use ruminate.Json.Fits.{Fits}
use ruminate.Json.Encoding.Step.{NoSerializers}
use ruminate.Json.Encoding.{serialize_value-encode}
use ruminate.Json.Encoding.Struct.{put_member-IsObject}

-- A member of a struct.
pub data Has (slot : Slot) (s : Shape) : Members → Type 0 where
  here : {ms : Members} → Has slot s (member slot s ms)
  there : {other : Slot} {t : Shape} {ms : Members} → Has slot s ms → Has slot s (member other t ms)

module _ (E : Env) where
  open E use {jansson}
  open jansson use {Json}

  -- No member has this key; no two members have the same key.
  abbrev pub Absent : String → Members → Type 0
  Absent k no_members = Unit
  Absent k (member slot s ms) = (key_of E slot ≢ k) × Absent k ms

  abbrev pub AllDistinct : Members → Type 0
  AllDistinct no_members = Unit
  AllDistinct (member slot s ms) = Absent (key_of E slot) ms × AllDistinct ms

  put_member_self :
      (obj : Json) (k : String) (o : Option Json)
      → jansson.IsObject obj
      → jansson.object_get obj k ≡ none
      → jansson.object_get (put_member E obj k o) k ≡ o
  put_member_self obj k none is free = free
  put_member_self obj k (some v) is free =
      let (o, set, ok) = jansson.object_set_succeeds obj v k is in
      rw set (jansson.object_get-object_set_self obj v o k set)

  put_member_other :
      (obj : Json) (k j : String) (o : Option Json)
      → k ≢ j
      → jansson.IsObject obj
      → jansson.object_get (put_member E obj k o) j ≡ jansson.object_get obj j
  put_member_other obj k j none ne is = refl
  put_member_other obj k j (some v) ne is =
      let (o, set, ok) = jansson.object_set_succeeds obj v k is in
      rw set (jansson.object_get-object_set_ne obj v o k j ne set)

  module _ (m : Memory) (a : Addr) where
    Absent-get :
        (ms : Members) (k : String) (obj : Json)
        → Absent k ms
        → jansson.IsObject obj
        → jansson.object_get (encode_members E ms m a obj) k ≡ jansson.object_get obj k
    unfolding encode_members
    Absent-get no_members k obj away is = refl
    Absent-get (member slot s ms) k obj (ne, away) is =
        rw
          (Absent-get ms k _ away
            (put_member-IsObject E obj (key_of E slot) (encode E s m (advance a slot.offset)) is))
          (put_member_other obj (key_of E slot) k (encode E s m (advance a slot.offset)) ne is)

    Absent-Has :
        {slot : Slot} {s : Shape} (ms : Members) (k : String)
        → Absent k ms
        → Has slot s ms
        → k ≢ key_of E slot
    Absent-Has no_members k away has = elim has [ ]
    Absent-Has (member _ _ ms) k (ne, away) here = λ e. ne (sym e)
    Absent-Has (member _ _ ms) k (ne, away) (there has) = Absent-Has ms k away has

    -- Among members with distinct keys, the object has under each one's key that one's own JSON.
    get-encode_members :
        {slot : Slot} {s : Shape} (ms : Members) (obj : Json)
        → Has slot s ms
        → AllDistinct ms
        → jansson.IsObject obj
        → jansson.object_get obj (key_of E slot) ≡ none
        → jansson.object_get (encode_members E ms m a obj) (key_of E slot)
          ≡ encode E s m (advance a slot.offset)
    unfolding encode_members
    get-encode_members {slot} {s} (member _ _ ms) obj here (away, distinct) is free =
        rw
          (Absent-get ms (key_of E slot) _ away
            (put_member-IsObject E obj (key_of E slot) (encode E s m (advance a slot.offset)) is))
          (put_member_self obj (key_of E slot) (encode E s m (advance a slot.offset)) is free)
    get-encode_members {slot} {s} (member other t ms) obj (there has) (away, distinct) is free =
        let k = key_of E other in
        let o = encode E t m (advance a other.offset) in
        get-encode_members ms (put_member E obj k o) has distinct (put_member-IsObject E obj k o is)
          (rw (put_member_other obj k (key_of E slot) o (Absent-Has ms k away has) is) free)
    get-encode_members no_members obj has distinct is free = elim has [ ]

  module _ (js : State E) (no_hooks : NoSerializers E js) where
    -- A struct in memory whose members have distinct names, one at least with JSON of its own, becomes
    -- an object that has under each member's name the JSON of the value at that member's offset, and
    -- nothing under the name of a member that has none; under the conditions of serialize_value-encode.
    pub serialize_value-member :
        (ms : Members) (slot : Slot) (s : Shape) (depth : ℕ) (p : TypePrx) (r : ℕ)
        (name : Option RString) (a : Addr) (w : World)
        → height (struct ms) ≤ depth
        → Fits E js.flags (struct ms) p w.memory a
        → Has slot s ms
        → AllDistinct ms
        → has_member E ms w.memory a ≡ true
        → (obj : Json) × (serialize_value E depth js (new_object p TypeId.structure r name) a true w
            ≡ done (some obj) none (spend (cost_of E (struct ms) w.memory a) w))
          × (jansson.object_get obj (key_of E slot) ≡ encode E s w.memory (advance a slot.offset))
    unfolding encode
    serialize_value-member ms slot s depth p r name a w h fits has distinct any = (
      encode_members E ms w.memory a jansson.object,
      rw (serialize_value-encode E js no_hooks (struct ms) depth p r name a w h fits) (rw any refl),
      get-encode_members w.memory a ms jansson.object has distinct jansson.object-IsObject
          (jansson.object_get-object (key_of E slot)),
    )
