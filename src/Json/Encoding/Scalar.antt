-- ===== src/Json/Encoding/Scalar.antt =====
-- json_serialize_builtin, and the kinds of types that are skipped.
use ruminate.Base.{ℕ, ◌≡◌, refl, ap, sym, true, Option, none, some}
use ruminate.Backend.{TypePrx, TypeId}
use ruminate.RString.{RString}
use ruminate.RType.{RBuiltinTypeId, Extension}
use ruminate.RType.New.{new_object, start_extension}
use ruminate.RType.Query.{r_builtin_type_id}
use ruminate.World.{Addr, World, done, load}
use ruminate.Json.{Env, skips_unknown}
use ruminate.Json.Serialize.Values.{
  State, new_json?, builtin_json, skip_or_abort, json_serialize_builtin,
}
use ruminate.Json.Shape.{cost, spend, scalar_json, count_json}
use ruminate.Json.Encoding.Spending.{spend-zero, spend-new_json}

module _ (E : Env) (js : State E) where
  open E use {jansson}
  open jansson use {Json}

  pub skip-skips :
      (w : World)
      → skips_unknown js.flags ≡ true
      → skip_or_abort E {A = Json} js w ≡ done none none (spend (cost 0 0 0) w)
  unfolding skip_or_abort
  skip-skips w h = rw h (ap (λ u. done none none u) (sym (spend-zero w)))

  made-json :
      (v : Option Json) (w : World)
      → new_json? E v w ≡ done v none (spend (cost 0 0 (count_json E v)) w)
  unfolding new_json?
  made-json none w = ap (λ u. done none none u) (sym (spend-zero w))
  made-json (some j) w = ap (λ u. done (some j) none u) (spend-new_json w)

  builtin-scalar :
      (b : RBuiltinTypeId) (a : Addr) (w : World)
      → (b ≡ RBuiltinTypeId.void → skips_unknown js.flags ≡ true)
      → builtin_json E js b a w
        ≡ done
            (scalar_json E b w.memory a)
            none
            (spend (cost 0 0 (count_json E (scalar_json E b w.memory a))) w)
  unfolding builtin_json
  builtin-scalar RBuiltinTypeId.double a w h = made-json (jansson.real (load 8 w.memory a)) w
  builtin-scalar RBuiltinTypeId.void a w h = skip-skips w (h refl)
  builtin-scalar RBuiltinTypeId.unknown a w h = ap (λ u. done none none u) (sym (spend-zero w))
  builtin-scalar b a w h = ap (λ u. done (scalar_json E b w.memory a) none u) (spend-new_json w)

  -- A builtin type becomes the number, real or Boolean in memory; void is skipped.
  pub scalar-encode :
      (t : TypeId) (b : RBuiltinTypeId) (p : TypePrx) (r : ℕ) (name : Option RString) (a : Addr)
      (w : World)
      → start_extension t ≡ Extension.builtin b
      → (b ≡ RBuiltinTypeId.void → skips_unknown js.flags ≡ true)
      → json_serialize_builtin E js (new_object p t r name) a w
        ≡ done
            (scalar_json E b w.memory a)
            none
            (spend (cost 0 0 (count_json E (scalar_json E b w.memory a))) w)
  unfolding json_serialize_builtin r_builtin_type_id new_object
  scalar-encode t b p r name a w start void = rw start (builtin-scalar b a w void)
