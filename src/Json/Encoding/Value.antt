-- ===== src/Json/Encoding/Value.antt =====
-- _json_serialize on a value whose shape is known: one call, over the calls that it makes.
use native.Mathlib.Nat.{add-suc}
use ruminate.Base.{ℕ, ◌≡◌, refl, ap, sym, ◌≢◌, true, Option, none, some}
use ruminate.Backend.{TypePrx, TypeId}
use ruminate.RString.{RString}
use ruminate.RType.{RTypeId, RBuiltinTypeId, type_category}
use ruminate.RType.New.{new_object, pointee-new_object, canonical-new_object}
use ruminate.RType.Query.{r_type_id, r_aggregate_type_id}
use ruminate.World.{Addr, Memory, World, done, take_type, load}
use ruminate.Json.{Env}
use ruminate.Json.Serialize.{json_serialize_aggregate, switch_json, serialize_step}
use ruminate.Json.Serialize.Values.{State, Serializer}
use ruminate.Json.Shape.{
  Shape, scalar, enumeration, struct, array, null_pointer, pointer, typedef, union, function,
  unknown, kind_of, spend, encode, cost_of,
}
use ruminate.Json.Fits.{Typed, Fits}
use ruminate.Json.Encoding.Spending.{spend-zero, spend-new_json}
use ruminate.Json.Encoding.Step.{NoSerializers, step-new_object}
use ruminate.Json.Encoding.Scalar.{skip-skips, scalar-encode}
use ruminate.Json.Encoding.Struct.{Handles, HandlesMembers, get_id-Fits, struct-encode}
use ruminate.Json.Encoding.Array.{HandlesElements, array-encode}
use ruminate.Json.Encoding.Enum.{enum-encode}

module _ (E : Env) (js : State E) (rec : Serializer E) where
  open E use {backend, jansson}
  open jansson use {Json}

  -- `rec` serializes the parts of a shape as it should.
  abbrev pub HandlesParts : Shape → Type 0
  HandlesParts (struct ms) = HandlesMembers E js.flags rec ms
  HandlesParts (array es) = HandlesElements E js.flags rec es
  HandlesParts (pointer q s) = Handles E js.flags rec s
  HandlesParts (typedef q s) = Handles E js.flags rec s
  HandlesParts _ = Unit

  -- What the switch does for a shape is what it should.
  abbrev SwitchEncodes : Shape → TypePrx → ℕ → Option RString → Addr → World → Type 0
  SwitchEncodes s p r name a w =
      switch_json E rec js (type_category (kind_of s)) (new_object p (kind_of s) r name) a w
      ≡ done (encode E s w.memory a) none (spend (cost_of E s w.memory a) w)

  switch-scalar :
      (t : TypeId) (b : RBuiltinTypeId) (p : TypePrx) (r : ℕ) (name : Option RString) (a : Addr)
      (w : World)
      → Fits E js.flags (scalar t b) p w.memory a
      → SwitchEncodes (scalar t b) p r name a w
  unfolding switch_json encode cost_of
  switch-scalar t b p r name a w (typed, start, category, void) =
      rw category (scalar-encode E js t b p r name a w start void)

  switch-encode :
      (s : Shape) (p : TypePrx) (r : ℕ) (name : Option RString) (a : Addr) (w : World)
      → s ≢ unknown
      → HandlesParts s
      → Fits E js.flags s p w.memory a
      → SwitchEncodes s p r name a w
  unfolding switch_json encode cost_of json_serialize_aggregate r_aggregate_type_id type_category
      new_object
  switch-encode (scalar t b) p r name a w known parts fits = switch-scalar t b p r name a w fits
  switch-encode (enumeration before e after) p r name a w known parts fits =
      enum-encode E js.flags js before e after p r name a w fits
  switch-encode (struct ms) p r name a w known parts fits =
      struct-encode E js.flags rec ms p r name a w parts fits
  switch-encode (array es) p r name a w known parts fits =
      array-encode E js.flags rec es p r name a w parts fits
  switch-encode null_pointer p r name a w known parts (typed, is_null) =
      rw is_null (ap (λ u. done (some jansson.null) none u) (spend-new_json w))
  switch-encode (pointer q s) p r name a w known parts (typed, not_null, pointee, fits) =
      let id = get_id-Fits E js.flags s q w.memory (load 8 w.memory a) fits in
      rw not_null (
        rw (pointee-new_object backend p q r name (kind_of s) TypeId.pointer pointee id)
          (rw (parts q 1 none (load 8 w.memory a) (take_type w) fits) (rw add-suc refl)))
  switch-encode (typedef q s) p r name a w known parts (typed, canonical, fits) =
      let id = get_id-Fits E js.flags s q w.memory a fits in
      rw (canonical-new_object backend p q r name (kind_of s) TypeId.typedef canonical id)
        (rw (parts q 1 none a (take_type w) fits) (rw add-suc refl))
  switch-encode union p r name a w known parts (typed, skips) = skip-skips E js w skips
  switch-encode function p r name a w known parts (typed, skips) = skip-skips E js w skips
  switch-encode unknown p r name a w known parts fits = absurd (known refl)

  unknown-encode :
      (cont : Serializer E) (p : TypePrx) (r : ℕ) (name : Option RString) (a : Addr) (w : World)
      → serialize_step E rec cont js (new_object p TypeId.unknown r name) a true w
        ≡ done none none w
  unfolding serialize_step r_type_id new_object
  unknown-encode cont p r name a w = refl

  module _ (cont : Serializer E) (no_hooks : NoSerializers E js) where
    step-known :
        (s : Shape) (p : TypePrx) (r : ℕ) (name : Option RString) (a : Addr) (w : World)
        → s ≢ unknown
        → type_category (kind_of s) ≢ RTypeId.unknown
        → HandlesParts s
        → Typed E p (kind_of s) a
        → Fits E js.flags s p w.memory a
        → serialize_step E rec cont js (new_object p (kind_of s) r name) a true w
          ≡ done (encode E s w.memory a) none (spend (cost_of E s w.memory a) w)
    step-known s p r name a w known category parts typed fits =
        let (q, same) =
          step-new_object E p (kind_of s) r js no_hooks rec cont a name w typed category in
        rw same (switch-encode s p r (some q) a w known parts fits)

    category-known :
        (s : Shape) (p : TypePrx) (m : Memory) (a : Addr)
        → s ≢ unknown
        → Fits E js.flags s p m a
        → (type_category (kind_of s) ≢ RTypeId.unknown) × Typed E p (kind_of s) a
    unfolding type_category
    category-known unknown p m a known fits = absurd (known refl)
    category-known (scalar t b) p m a known (typed, start, category, void) = (λ e. cc, typed)
    category-known _ p m a known fits = (λ e. cc, fits.0)

    step-checked :
        (s : Shape) (p : TypePrx) (r : ℕ) (name : Option RString) (a : Addr) (w : World)
        → s ≢ unknown
        → HandlesParts s
        → Fits E js.flags s p w.memory a
        → serialize_step E rec cont js (new_object p (kind_of s) r name) a true w
          ≡ done (encode E s w.memory a) none (spend (cost_of E s w.memory a) w)
    step-checked s p r name a w known parts fits =
        let (category, typed) = category-known s p w.memory a known fits in
        step-known s p r name a w known category parts typed fits

    -- One call of _json_serialize, over calls for the parts that do as they should.
    pub step-encode :
        (s : Shape) (p : TypePrx) (r : ℕ) (name : Option RString) (a : Addr) (w : World)
        → HandlesParts s
        → Fits E js.flags s p w.memory a
        → serialize_step E rec cont js (new_object p (kind_of s) r name) a true w
          ≡ done (encode E s w.memory a) none (spend (cost_of E s w.memory a) w)
    unfolding encode cost_of
    step-encode unknown p r name a w parts fits =
        rw (unknown-encode cont p r name a w) (ap (λ u. done none none u) (sym (spend-zero w)))
    step-encode s p r name a w parts fits = step-checked s p r name a w (λ e. cc) parts fits
