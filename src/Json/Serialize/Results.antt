-- ===== src/Json/Serialize/Results.antt =====
-- How _json_serialize of util/ruminate-jansson/serialize.c goes on from a hook, and what it makes of
-- the kinds that JSON has nothing for.
use ruminate.Base.{
  ℕ, suc, ◌≡◌, refl, sym, ◌∙◌, ap, ◌≢◌, inl, inr, true, false, Option, none, some, ◌==◌,
  if◌then◌else◌, Bool-cases,
}
use ruminate.Errors.{GError, Call, ok}
use ruminate.Backend.{TypePrx, TypeId}
use ruminate.RString.{RString, r_string_quark}
use ruminate.RType.{RTypeId, RType, type_category}
use ruminate.RType.New.{new_object}
use ruminate.RType.Query.{r_type_id, r_type_name, r_builtin_type_id, r_aggregate_type_id}
use ruminate.World.{
  Addr, World, Run, done, attempt, modify, drop_string, take_string, use_null, ◌>>◌,
  assertion_failed, with_error, segfault, out_of_fuel, Cmd, and_then, pure, ◌>>=◌,
}
use ruminate.Json.{Env, JsonSerializeCont, skips_unknown}
use ruminate.Json.Fits.{Typed}
use ruminate.Json.Serialize.{
  named_json, hook_or_switch, run_hook, serializer_for, switch_json, serialize_step,
  serialize_value, json_serialize_aggregate, aggregate_json,
}
use ruminate.Json.Serialize.Checks.{checked-named, step-switch}
use ruminate.Json.Serialize.Values.{
  State, Serializer, skip_or_abort, json_serialize_builtin, builtin_json,
}
use ruminate.Json.Encoding.Step.{NoSerializers, step-new_object}

module _ (E : Env) (js : State E) where
  open E use {glib, backend, jansson}
  open jansson use {Json}

  -- _json_serialize past the hooks, and its switch, for a type and an address.
  abbrev pub past_hooks : ℕ → Serializer E
  past_hooks depth rt a = serialize_value E depth js rt a false

  abbrev pub switched : ℕ → RType → RType → Addr → World → Run (Option Json)
  switched depth rt rt' a =
      switch_json E (λ t v. serialize_value E depth js t v true) js rt.id rt' a

  module _ (depth : ℕ) (rt rt' : RType) (s : RString) (a : Addr) (w : World)
      (known : rt.id ≢ RTypeId.unknown) (address : (a == 0) ≡ false)
      (named : r_type_name glib backend rt ≡ (rt', ok s)) where
    past_hooks-switch : serialize_value E (suc depth) js rt a false w ≡ switched depth rt rt' a w
    unfolding serialize_value serializer_for
    past_hooks-switch =
        step-switch E (λ t v. serialize_value E depth js t v true) (past_hooks depth) js rt a false
          w known address named refl

    to_hook :
        (f : JsonSerializeCont Json → JsonSerializeCont Json)
        → serializer_for E js true (r_string_quark glib s).1 ≡ some f
        → serialize_value E (suc depth) js rt a true w
          ≡ hook_or_switch E
              (λ t v. serialize_value E depth js t v true)
              (past_hooks depth)
              js
              rt.id
              rt'
              a
              true
              (r_string_quark glib s).1
              w
    unfolding serialize_value serialize_step named_json r_type_id
    to_hook f found =
        let rec : Serializer E = λ t v. serialize_value E depth js t v true in
        rw (checked-named E rec (past_hooks depth) js rt a rt.id true known address) (
          ap
            (λ (x : RType × Call RString).
              attempt x.1
                (λ u. do
                  modify take_string
                  drop_string
                  hook_or_switch E rec (past_hooks depth) js rt.id x.0 a true
                      (r_string_quark glib u).1)
                (λ e. use_null) w)
            named)

    set_error :
        (e : Option GError) (j : Json) (u : World)
        → with_error e (done (some j) none u) ≡ done (some j) e u
    set_error none j u = refl
    set_error (some e) j u = refl

    -- What becomes of the value that a serializer returned.
    abbrev pub after_hook : Option Json → Option GError → World → Run (Option Json)
    after_hook (some j) e w' = done (some j) e w'
    after_hook none e w' = with_error e (switched depth rt rt' a w')

    -- For a type whose name has a hook with a serializer, the serializer is called with a continuation
    -- that goes past the hooks. What it returns is the result, with the error it set; if it returns
    -- NULL, the type is serialized as if it had no hook, and an error it set stays. Past the hooks the
    -- serializer is not called. This is for a type of a known kind whose name the debugger gives, and
    -- an address that is not NULL.
    pub serialize_value-hook :
        (f : JsonSerializeCont Json → JsonSerializeCont Json) (ret : Option Json)
        (e : Option GError) (w' : World)
        → serializer_for E js true (r_string_quark glib s).1 ≡ some f
        → f (past_hooks depth) rt' a w ≡ done ret e w'
        → (serialize_value E (suc depth) js rt a true w ≡ after_hook ret e w')
          × (serialize_value E (suc depth) js rt a false w ≡ switched depth rt rt' a w)
    unfolding hook_or_switch run_hook
    serialize_value-hook f (some j) e w' found r =
        (rw (to_hook f found) (rw (found, r) (set_error e j w')), past_hooks-switch)
    serialize_value-hook f none e w' found r =
        (rw (to_hook f found) (rw (found, r) refl), past_hooks-switch)

  then_same :
      (m : Run (Option Json)) (k l : Option Json → Cmd (Option Json))
      → ((x : Option Json) (u : World) → k x u ≡ l x u)
      → and_then m k ≡ and_then m l
  then_same (done x e u) k l same = ap (with_error e) (same x u)
  then_same assertion_failed k l same = refl
  then_same segfault k l same = refl
  then_same out_of_fuel k l same = refl

  module _ (depth : ℕ) (rt rt' : RType) (a : Addr) where
    -- What becomes of a value that a serializer returned: NULL goes on past the hooks.
    abbrev pub or_past : Option Json → Cmd (Option Json)
    or_past (some j) = pure (some j)
    or_past none = past_hooks (suc depth) rt a

    -- What is left to do where the serializer of the type's name, if any, is known.
    abbrev pub hooked : Option (JsonSerializeCont Json → JsonSerializeCont Json) → Cmd (Option Json)
    hooked none = past_hooks (suc depth) rt a
    hooked (some f) = f (past_hooks depth) rt' a >>= or_past

  module _ (depth : ℕ) (rt rt' : RType) (s : RString) (a : Addr) (known : rt.id ≢ RTypeId.unknown)
      (address : (a == 0) ≡ false) (named : r_type_name glib backend rt ≡ (rt', ok s)) where
    -- The same as the code has it.
    abbrev go_on : Option Json → Cmd (Option Json)
    go_on (some j) = pure (some j)
    go_on none = switched depth rt rt' a

    go_on-or_past : (ret : Option Json) (u : World) → go_on ret u ≡ or_past depth rt rt' a ret u
    go_on-or_past (some j) u = refl
    go_on-or_past none u = sym (past_hooks-switch depth rt rt' s a u known address named)

    pub serialize_value-hooked :
        (o : Option (JsonSerializeCont Json → JsonSerializeCont Json)) (w : World)
        → serializer_for E js true (r_string_quark glib s).1 ≡ o
        → serialize_value E (suc depth) js rt a true w ≡ hooked depth rt rt' a o w
    unfolding hook_or_switch run_hook serialize_value
    serialize_value-hooked none w found =
        step-switch E (λ t v. serialize_value E depth js t v true) (past_hooks depth) js rt a true w
          known address named found
        ∙ sym (past_hooks-switch depth rt rt' s a w known address named)
    serialize_value-hooked (some f) w found =
        to_hook depth rt rt' s a w known address named f found
        ∙ (rw found
            (then_same (f (past_hooks depth) rt' a w) go_on (or_past depth rt rt' a) go_on-or_past))

  -- The kinds of type that _json_serialize leaves out.
  pub data IsSkipped : TypeId → Type 0 where
    void : IsSkipped TypeId.void
    union : IsSkipped TypeId.union
    function : IsSkipped TypeId.function

  skipped-known : (t : TypeId) → IsSkipped t → type_category t ≢ RTypeId.unknown
  unfolding type_category
  skipped-known _ void e = cc
  skipped-known _ union e = cc
  skipped-known _ function e = cc

  skip-if :
      (w : World)
      → skip_or_abort E {A = Json} js w
        ≡ (if skips_unknown js.flags then done none none w else assertion_failed)
  unfolding skip_or_abort
  skip-if w = elim (Bool-cases (skips_unknown js.flags)) [ inl y ↦ rw y refl | inr n ↦ rw n refl ]

  switch-skipped :
      (rec : Serializer E) (p : TypePrx) (r : ℕ) (name : Option RString) (a : Addr) (w : World)
      (t : TypeId)
      → IsSkipped t
      → switch_json E rec js (type_category t) (new_object p t r name) a w
        ≡ (if skips_unknown js.flags then done none none w else assertion_failed)
  unfolding switch_json type_category new_object json_serialize_builtin r_builtin_type_id
      builtin_json json_serialize_aggregate aggregate_json r_aggregate_type_id
  switch-skipped rec p r name a w _ void = skip-if w
  switch-skipped rec p r name a w _ union = skip-if w
  switch-skipped rec p r name a w _ function = skip-if w

  -- For a value of a void, union or function type, whose kind and name the debugger gives, at an
  -- address that is not NULL, where no hook has a serializer, the result is NULL with no error and
  -- nothing taken if the state has JSON_FLAG_SKIP_UNKNOWN, and else an assertion fails.
  pub serialize_value-skipped :
      NoSerializers E js
      → (t : TypeId) (depth : ℕ) (p : TypePrx) (r : ℕ) (name : Option RString) (a : Addr)
        (w : World)
      → IsSkipped t
      → Typed E p t a
      → serialize_value E (suc depth) js (new_object p t r name) a true w
        ≡ (if skips_unknown js.flags then done none none w else assertion_failed)
  unfolding serialize_value
  serialize_value-skipped quiet t depth p r name a w skipped typed =
      let (s, same) =
        step-new_object E p t r js quiet (λ u v. serialize_value E depth js u v true)
          (past_hooks depth) a name w typed (skipped-known t skipped) in
      rw same
        (switch-skipped (λ u v. serialize_value E depth js u v true) p r (some s) a w t skipped)
