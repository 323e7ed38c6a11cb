-- ===== src/Json/State.antt =====
-- The JsonState of util/ruminate-jansson/json_state.c: its references and its hooks.
use ruminate.Base.{
  ℕ, zero, suc, ◌+◌, ◌-◌, ◌^◌, ◌<◌, ◌≡◌, refl, false, Option, none, some, arith, ◌==◌,
}
use ruminate.Json.{Env, json_state_new, json_state_ref, json_state_unref}
use ruminate.Json.Serialize.Values.{State}

module _ (E : Env) where
  open E use {glib, jansson, datalist}

  -- A state with so many references more, and what is left of a state after so many are given back.
  abbrev pub hold : ℕ → State E → State E
  hold zero js = js
  hold (suc n) js = hold n (json_state_ref E js)

  abbrev pub release_one : Option (State E) → Option (State E)
  release_one none = none
  release_one (some js) = json_state_unref E js

  abbrev pub release : ℕ → Option (State E) → Option (State E)
  release zero js = js
  release (suc n) js = release n (release_one js)

  abbrev with_count : ℕ → State E → State E
  with_count n js = record js { refcnt = n }

  hold-count :
      (n c : ℕ) (js : State E) → n + c < 2 ^ 31 → hold n (with_count c js) ≡ with_count (n + c) js
  unfolding json_state_ref
  hold-count zero c js h = let e : 0 + c ≡ c = omega arith in rw e
  hold-count (suc n) c js h =
      let e : suc n + c ≡ n + (c + 1) = omega arith in
      rw (glib.inc_adds c (omega arith)) (rw (hold-count n (c + 1) js (omega arith)) (rw e))

  unref-count :
      (m : ℕ) (js : State E)
      → 0 < m
      → suc m < 2 ^ 31
      → json_state_unref E (with_count (suc m) js) ≡ some (with_count m js)
  unfolding json_state_unref
  unref-count m js h k =
      let less : suc m - 1 ≡ m = omega arith in
      let more : (m == 0) ≡ false = ground arith in
      rw (glib.dec_subtracts (suc m) (omega arith) k) (rw less (rw more refl))

  release-count :
      (n c : ℕ) (js : State E)
      → n + suc c < 2 ^ 31
      → release n (some (with_count (n + suc c) js)) ≡ some (with_count (suc c) js)
  release-count zero c js h = let e : 0 + suc c ≡ suc c = omega arith in rw e
  release-count (suc n) c js h =
      let e : suc n + suc c ≡ suc (n + suc c) = omega arith in
      rw e (
        rw (unref-count (n + suc c) js (omega arith) (omega arith))
          (release-count n c js (omega arith)))

  last_unref : (js : State E) → json_state_unref E (with_count 1 js) ≡ none
  unfolding json_state_unref
  last_unref js = rw (glib.dec_subtracts 1 (omega arith) (omega arith))

  -- A new state that is referenced `n` times more, fewer than 2 ^ 31 - 1, is as it was made after `n`
  -- references are given back, and is freed by the one after these, not before.
  pub release-hold :
      (n : ℕ)
      → n + 1 < 2 ^ 31
      → (release n (some (hold n (json_state_new E))) ≡ some (json_state_new E))
        × (release_one (release n (some (hold n (json_state_new E)))) ≡ none)
  unfolding json_state_new
  release-hold n h =
      let js = with_count 1 (json_state_new E) in
      let up : hold n js ≡ with_count (n + 1) js = hold-count n 1 js h in
      let down : release n (some (hold n js)) ≡ some js = rw up (release-count n 0 js h) in
      (down, rw down (last_unref js))
