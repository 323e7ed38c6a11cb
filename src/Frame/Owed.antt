-- ===== src/Frame/Owed.antt =====
-- Whose the references are that the questions of src/frame.cpp hand out.
use ruminate.Base.{
  ℕ, zero, suc, ◌+◌, ◌-◌, ◌^◌, ◌<◌, ◌≡◌, ◌∙◌, refl, ap, false, Option, none, some, arith, ◌==◌,
}
use ruminate.Glib.{Glib}
use ruminate.Errors.{returned, Call, ok, crashed, ◌>>=◌}
use ruminate.Backend.{TypeId, Frame, Backend}
use ruminate.RString.{RString, r_string_new_cxx, r_string_ref, r_string_unref}
use ruminate.RType.{RType, r_type_alloc}
use ruminate.RType.Alloc.{Released, kept, freed, r_type_ref, r_type_unref}
use ruminate.RType.Lifetime.{r_type_unref-alloc}
use ruminate.RType.New.{new_object, r_type_new-new_object}
use ruminate.Frame.{
  RFrame, r_frame_new, FrameLeft, unref_frame_name, r_frame_unref, remember, r_frame_function_name,
  r_frame_function_type, frame_type_of, first_frame_type,
}

module _ (G : Glib) (f : Frame) where
  -- The frame after so many questions for its name.
  abbrev pub named : ℕ → RFrame
  named zero = r_frame_new f
  named (suc n) = (r_frame_function_name G (named n)).0

  abbrev name_with : ℕ → RString
  name_with n = record (r_string_new_cxx f.function_name) { refcnt = n }

  -- What the callers have of the name.
  abbrev pub callers_name : ℕ → Option RString
  callers_name zero = none
  callers_name (suc n) = some (name_with (suc n))

  abbrev own_name : ℕ → Option RString
  own_name zero = none
  own_name (suc n) = some (name_with (suc (suc n)))

  abbrev with_name : Option RString → RFrame
  with_name o = record (r_frame_new f) { function_name = o }

  asks_again :
      (n : ℕ)
      → n + 2 < 2 ^ 31
      → (r_frame_function_name G (with_name (own_name n))).0 ≡ with_name (own_name (suc n))
  unfolding r_frame_function_name remember r_string_ref r_string_new_cxx r_frame_new
  asks_again zero h = rw (G.inc_adds 1 (omega arith)) refl
  asks_again (suc n) h =
      let one_more : suc (suc n) + 1 ≡ suc (suc (suc n)) = omega arith in
      rw (G.inc_adds (suc (suc n)) (omega arith)) (rw one_more refl)

  named-with_name : (n : ℕ) → n + 1 < 2 ^ 31 → named n ≡ with_name (own_name n)
  unfolding r_frame_new
  named-with_name zero h = refl
  named-with_name (suc n) h =
      ap (λ (rf : RFrame). (r_frame_function_name G rf).0) (named-with_name n (omega arith))
      ∙ asks_again n (omega arith)

  name_left : (n : ℕ) → n + 1 < 2 ^ 31 → unref_frame_name G (own_name n) ≡ callers_name n
  unfolding unref_frame_name r_string_unref r_string_new_cxx
  name_left zero h = refl
  name_left (suc n) h =
      let less : suc (suc n) - 1 ≡ suc n = omega arith in
      let more : (suc n == 0) ≡ false = ground arith in
      rw (G.dec_subtracts (suc (suc n)) (omega arith) (omega arith)) (rw less (rw more refl))

  -- A new frame that has been asked for its function's name `n` times, and then is given back, is freed;
  -- the name lives on with the `n` references of the callers, and is freed with the frame if there are
  -- none. This is for fewer than 2 ^ 31 - 1 times.
  pub r_frame_unref-named :
      (n : ℕ)
      → n + 1 < 2 ^ 31
      → r_frame_unref G (named n)
        ≡ FrameLeft.freed (record {
          function_type = none;
          function_name = callers_name n;
          module_name = none;
          compile_unit_name = none;
        })
  unfolding r_frame_unref unref_frame_name r_frame_new
  r_frame_unref-named n h =
      rw (named-with_name n h)
        (rw (G.dec_subtracts 1 (omega arith) (omega arith)) (rw (name_left n h) refl))

module _ (G : Glib) (B : Backend) (f : Frame) (t : TypeId) where
  -- The frame after so many questions for its type.
  abbrev pub typed : ℕ → RFrame
  typed zero = r_frame_new f
  typed (suc n) = (r_frame_function_type G B (typed n)).0

  abbrev pub type_with : ℕ → RType
  type_with n = new_object f.function_type t n none

  -- References given back one after the other; what is freed has none.
  abbrev pub unref_kept : Released G → Call (Released G)
  unref_kept (kept rt) = r_type_unref G rt
  unref_kept (freed s) = crashed

  abbrev pub unref_type : ℕ → RType → Call (Released G)
  unref_type zero rt = ok (kept rt)
  unref_type (suc n) rt = unref_type n rt >>= unref_kept

  abbrev with_type : RType → RFrame
  with_type rt = record (r_frame_new f) { function_type = some rt }

  first_question :
      B.get_id f.function_type ≡ returned t
      → (r_frame_function_type G B (r_frame_new f)).0 ≡ with_type (type_with 1)
  unfolding r_frame_function_type frame_type_of first_frame_type r_frame_new
  first_question known = rw (r_type_new-new_object B f.function_type t known) refl

  next_question :
      (n : ℕ)
      → n + 1 < 2 ^ 31
      → (r_frame_function_type G B (with_type (type_with n))).0 ≡ with_type (type_with (n + 1))
  unfolding r_frame_function_type frame_type_of r_type_ref new_object
  next_question n h = rw (G.inc_adds n h) refl

  typed-with_type :
      B.get_id f.function_type ≡ returned t
      → (n : ℕ) → n + 1 < 2 ^ 31
      → typed (suc n) ≡ with_type (type_with (n + 1))
  typed-with_type known zero h = first_question known
  typed-with_type known (suc n) h =
      let more : n + 1 + 1 ≡ suc n + 1 = omega arith in
      ap (λ (rf : RFrame). (r_frame_function_type G B rf).0) (typed-with_type known n (omega arith))
      ∙ (next_question (n + 1) (omega arith) ∙ ap (λ k. with_type (type_with k)) more)

  unref_type-kept :
      (n m : ℕ)
      → 0 < m
      → n + m < 2 ^ 31
      → unref_type n (type_with (n + m)) ≡ ok (kept (type_with m))
  unfolding new_object
  unref_type-kept zero m h k = let e : 0 + m ≡ m = omega arith in rw e refl
  unref_type-kept (suc n) m h k =
      let e : suc n + m ≡ n + (m + 1) = omega arith in
      let more : (m + 1 - 1 == 0) ≡ false = ground arith in
      let less : m + 1 - 1 ≡ m = omega arith in
      rw e (
        rw (unref_type-kept n (m + 1) (omega arith) (omega arith)) (
          r_type_unref-alloc G f.function_type (m + 1) none t (omega arith) (omega arith)
          ∙ rw more (rw less refl)))

  -- Where the debugger answers for the type of a frame's function: after `n + 1` questions for it, fewer
  -- than 2 ^ 31 - 1, the type has `n + 1` references, the callers' alone. When they have given these
  -- back, the type is freed, and the frame still points at it.
  pub unref_type-typed :
      (n : ℕ)
      → n + 1 < 2 ^ 31
      → B.get_id f.function_type ≡ returned t
      → ((typed (suc n)).function_type ≡ some (type_with (n + 1)))
        × (unref_type (suc n) (type_with (n + 1)) ≡ (r_type_alloc t >>= λ s. ok (freed s)))
  unref_type-typed n h known = (
    ap (λ (rf : RFrame). rf.function_type) (typed-with_type known n h),
    rw (unref_type-kept n 1 (omega arith) h)
        (r_type_unref-alloc G f.function_type 1 none t (omega arith) (omega arith)),
  )
