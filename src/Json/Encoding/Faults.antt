-- ===== src/Json/Encoding/Faults.antt =====
-- json_serialize_struct of util/ruminate-jansson/serialize.c on a struct for which the debugger fails,
-- in a member of it or of a struct in it.
use mathlib.Core.Path.{subst}
use ruminate.Base.{
  ℕ, zero, suc, ◌≤◌, ◌≡◌, ◌∙◌, refl, sym, ap, true, false, Option, none, some, ◌∷◌, arith,
}
use ruminate.Errors.{GError}
use ruminate.Backend.{TypePrx, TypeId}
use ruminate.RString.{RString}
use ruminate.RType.{type_category}
use ruminate.RType.New.{new_object}
use ruminate.World.{Addr, World, done, advance}
use ruminate.Json.{Env}
use ruminate.Json.Serialize.{serialize_value, switch_json, json_serialize_aggregate}
use ruminate.RType.Query.{r_aggregate_type_id}
use ruminate.Json.Serialize.Values.{State, Serializer}
use ruminate.Json.Serialize.Struct.{json_serialize_struct}
use ruminate.Json.Shape.{cost, spend}
use ruminate.Json.Fits.{Typed}
use ruminate.Json.Encoding.{call-Handles, members-Handles}
use ruminate.Json.Encoding.Step.{NoSerializers, step-new_object}
use ruminate.Json.Encoding.Faulty.{
  Fault, unanswered, inside, before, depth_of, lost, Faulty, Faulty-Typed,
}
use ruminate.Json.Encoding.Rounds.{
  Unanswered-Last, inside-Last, known_struct, known-structure, struct-failed,
}

module _ (E : Env) where
  open E use {glib, backend, jansson}
  open jansson use {Json}

  module _ (js : State E) (no_hooks : NoSerializers E js) where
    -- A struct is serialized by json_serialize_struct.
    struct-step :
        (depth : ℕ) (p : TypePrx) (r : ℕ) (name : Option RString) (a : Addr) (w : World)
        → Typed E p TypeId.structure a
        → (s : RString) × (serialize_value E
              (suc depth)
              js
              (new_object p TypeId.structure r name)
              a
              true
              w
            ≡ json_serialize_struct E
                (λ t v. serialize_value E depth js t v true)
                (new_object p TypeId.structure r (some s))
                a
                w)
    unfolding serialize_value switch_json json_serialize_aggregate r_aggregate_type_id type_category
        new_object
    struct-step depth p r name a w typed =
        step-new_object E p TypeId.structure r js no_hooks
          (λ t v. serialize_value E depth js t v true) (λ t v. serialize_value E depth js t v false)
          a name w typed (λ e. cc)

    -- Where no hook has a serializer, no struct is at NULL, and the debugger answers for a struct
    -- as its first members say and then fails a question about the next, whether it is a bitfield,
    -- its offset or its type, or fails such a question about a member of that member's own struct,
    -- at any depth, and every void, union or function in the members before may be skipped: with
    -- calls deep enough, _json_serialize returns NULL, sets the error that the failure gives, and
    -- leaves taken just the references that the members before the failing ones cost; the objects
    -- that it began, and its references to the failing members and to their types, are given back.
    pub serialize_value-Faulty :
        (f : Fault) (depth : ℕ) (e : GError) (p : TypePrx) (r : ℕ) (name : Option RString)
        (a : Addr) (w : World)
        → depth_of f ≤ depth
        → Faulty E js.flags f e p w.memory a
        → serialize_value E depth js (new_object p TypeId.structure r name) a true w
          ≡ done none (some e) (spend (lost E f w.memory a) w)
    serialize_value-Faulty (unanswered ms slot q rest) (suc depth) e p r name a w h
          (typed, members, fits, asked) =
        let rec : Serializer E = λ t v. serialize_value E depth js t v true in
        let (s, step) = struct-step depth p r name a w typed in
        let rat = known_struct E js.flags rec ms slot rest p r (some s) a w e (cost 0 0 0) in
        let shown = known-structure E js.flags rec ms slot rest p r (some s) a w e (cost 0 0 0) in
        step
        ∙ struct-failed E js.flags rec ms slot rest p r (some s) a w e (cost 0 0 0)
            (Unanswered-Last E js.flags rec rat (before ms (slot.proxy ∷ rest)) shown refl a slot
              rest e w.memory q asked)
            members
            (members-Handles E js no_hooks depth (call-Handles E js no_hooks depth) ms
              (omega arith))
            fits
    serialize_value-Faulty (inside ms slot f rest) (suc depth) e p r name a w h
          (typed, members, fits, placed, bit, faulty) =
        let rec : Serializer E = λ t v. serialize_value E depth js t v true in
        let (s, step) = struct-step depth p r name a w typed in
        let c = lost E f w.memory (advance a slot.offset) in
        let rat = known_struct E js.flags rec ms slot rest p r (some s) a w e c in
        let shown = known-structure E js.flags rec ms slot rest p r (some s) a w e c in
        let inner_typed =
          Faulty-Typed E js.flags f e slot.type w.memory (advance a slot.offset) faulty in
        step
        ∙ struct-failed E js.flags rec ms slot rest p r (some s) a w e c
            (inside-Last E js.flags rec rat (before ms (slot.proxy ∷ rest)) shown refl a slot rest e
              w.memory c placed bit inner_typed.0
              (λ v same.
                let there = advance a slot.offset in
                let same_fault =
                  subst (λ m. Faulty E js.flags f e slot.type m there) (sym same) faulty in
                serialize_value-Faulty f depth e slot.type (glib.atomic_int_inc 1) none there v
                  (omega arith) same_fault
                ∙ ap (λ m. done none (some e) (spend (lost E f m there) v)) same))
            members
            (members-Handles E js no_hooks depth (call-Handles E js no_hooks depth) ms
              (omega arith))
            fits
    serialize_value-Faulty (unanswered ms slot q rest) zero e p r name a w h faulty =
        absurd (omega arith)
    serialize_value-Faulty (inside ms slot f rest) zero e p r name a w h faulty =
        absurd (omega arith)
