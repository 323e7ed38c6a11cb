-- ===== src/Json/Encoding.antt =====
-- What util/ruminate-jansson/serialize.c makes of a value in memory: the whole of _json_serialize.
pub mod Spending
pub mod Step
pub mod Scalar
pub mod Struct
pub mod Array
pub mod Enum
pub mod Value
pub mod Object
pub mod Whole
pub mod Faulty
pub mod Rounds
pub mod Faults
use ruminate.Base.{ℕ, zero, suc, ◌≤◌, ◌<◌, ◌≡◌, Bool, true, false, Option, none, arith}
use ruminate.Backend.{TypePrx}
use ruminate.RString.{RString}
use ruminate.RType.New.{new_object}
use ruminate.World.{Addr, World, done}
use ruminate.Json.{Env}
use ruminate.Json.Serialize.{serialize_value}
use ruminate.Json.Serialize.Values.{State, Serializer}
use ruminate.Json.Shape.{
  Shape, Members, Elements, scalar, enumeration, struct, array, null_pointer, pointer, typedef,
  union, function, unknown, no_members, member, no_elements, element, kind_of, spend, height,
  height_members, height_elements, encode, cost_of,
}
use ruminate.Json.Fits.{Fits}
use Step.{NoSerializers}
use Struct.{Handles, HandlesMembers}
use Array.{HandlesElements}
use Value.{HandlesParts, step-encode}

module _ (E : Env) (js : State E) (no_hooks : NoSerializers E js) where
  abbrev call : ℕ → Serializer E
  call depth rt value = serialize_value E depth js rt value true

  next-Handles :
      (s : Shape) (depth : ℕ)
      → HandlesParts E js (call depth) s
      → Handles E js.flags (call (suc depth)) s
  unfolding serialize_value
  next-Handles s depth parts p r name a w fits =
      step-encode E js (call depth) (λ t v. serialize_value E depth js t v false) no_hooks s p r
        name a w parts fits

  height_pos : (s : Shape) → 0 < height s
  unfolding height
  height_pos (scalar t b) = omega arith
  height_pos _ = omega arith

  module _ (depth : ℕ)
      (calls : (s : Shape) → height s ≤ depth → Handles E js.flags (call depth) s) where
    members-Handles :
        (ms : Members) → height_members ms ≤ depth → HandlesMembers E js.flags (call depth) ms
    unfolding height
    members-Handles no_members h = tt
    members-Handles (member slot s ms) h = (calls s (omega arith), members-Handles ms (omega arith))

    elements-Handles :
        (es : Elements) → height_elements es ≤ depth → HandlesElements E js.flags (call depth) es
    unfolding height
    elements-Handles no_elements h = tt
    elements-Handles (element slot s es) h =
        (calls s (omega arith), elements-Handles es (omega arith))

    parts-Handles : (s : Shape) → height s ≤ suc depth → HandlesParts E js (call depth) s
    unfolding height
    parts-Handles (struct ms) h = members-Handles ms (omega arith)
    parts-Handles (array es) h = elements-Handles es (omega arith)
    parts-Handles (pointer q s) h = calls s (omega arith)
    parts-Handles (typedef q s) h = calls s (omega arith)
    parts-Handles _ h = tt

  call-Handles : (depth : ℕ) (s : Shape) → height s ≤ depth → Handles E js.flags (call depth) s
  call-Handles zero s h = absurd (omega (arith, height_pos s))
  call-Handles (suc depth) s h = next-Handles s depth (parts-Handles depth (call-Handles depth) s h)

  -- For a value in memory of a known shape, described by the debugger as that shape says, where no
  -- hook has a serializer and every void, union or function in it may be skipped: with calls as deep
  -- as the shape is high, _json_serialize returns exactly the shape's JSON, or NULL if it has none, sets
  -- no error, writes no memory, gives back every string, and leaves taken exactly the references that
  -- the shape's cost counts.
  pub serialize_value-encode :
      (s : Shape) (depth : ℕ) (p : TypePrx) (r : ℕ) (name : Option RString) (a : Addr) (w : World)
      → height s ≤ depth
      → Fits E js.flags s p w.memory a
      → serialize_value E depth js (new_object p (kind_of s) r name) a true w
        ≡ done (encode E s w.memory a) none (spend (cost_of E s w.memory a) w)
  serialize_value-encode s depth p r name a w h fits = call-Handles depth s h p r name a w fits
