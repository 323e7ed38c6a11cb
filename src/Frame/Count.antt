-- ===== src/Frame/Count.antt =====
-- The references of the frames of src/frame.cpp, of their list, and of what they remember.
use ruminate.Base.{
  ℕ, zero, suc, ◌-◌, ◌^◌, ◌<◌, ◌≡◌, refl, Option, none, some, List, [], ◌∷◌, arith, ◌==◌,
  if◌then◌else◌, length, get_elem?, map,
}
use ruminate.Glib.{Glib}
use ruminate.Errors.{Call, ok}
use ruminate.Backend.{Frame, FrameList}
use ruminate.RString.{RString, r_string_unref}
use ruminate.Frame.{
  RFrame, RFrameList, r_frame_new, new_frames, r_frame_list_new, r_frame_list_size, in_array,
  r_frame_list_at, FrameLeft, ListLeft, unref_frame_name, r_frame_unref, unref_frames,
  r_frame_list_unref,
}

-- The copy of a remote frame, or of what is not there.
abbrev pub copy_of : Option Frame → Call RFrame
copy_of none = in_array none
copy_of (some f) = ok (r_frame_new f)

new_frames-at :
    (fl : FrameList) (i : ℕ) → in_array (get_elem? (new_frames fl) i) ≡ copy_of (get_elem? fl i)
unfolding new_frames
new_frames-at [] i = refl
new_frames-at (f ∷ fl) zero = refl
new_frames-at (f ∷ fl) (suc i) = new_frames-at fl i

-- The list that is made of a remote one has its size, and a new copy of each of its frames at the same
-- place; a place past the end is not in the array.
pub r_frame_list_at-r_frame_list_new :
    (fl : FrameList) (i : ℕ)
    → (r_frame_list_size (r_frame_list_new fl) ≡ length fl)
      × (r_frame_list_at (r_frame_list_new fl) i ≡ copy_of (get_elem? fl i))
unfolding r_frame_list_size r_frame_list_at r_frame_list_new
r_frame_list_at-r_frame_list_new fl i = (refl, new_frames-at fl i)

-- Counts that the laws of the atomic operations hold for.
abbrev pub IsLive : ℕ → Type 0
IsLive n = (0 < n) × (n < 2 ^ 31)

abbrev NameLive : Option RString → Type 0
NameLive none = Unit
NameLive (some s) = IsLive s.refcnt

abbrev pub FrameLive : RFrame → Type 0
FrameLive f =
    IsLive f.refcnt
    × NameLive f.function_name
    × NameLive f.module_name
    × NameLive f.compile_unit_name

abbrev pub FramesLive : List RFrame → Type 0
FramesLive [] = Unit
FramesLive (f ∷ fs) = FrameLive f × FramesLive fs

-- A name with one reference less.
abbrev pub less_one : Option RString → Option RString
less_one none = none
less_one (some s) = if s.refcnt == 1 then none else some (record s { refcnt = s.refcnt - 1 })

-- A frame that had one reference is gone, and its names have one less; another one is kept.
abbrev pub left : RFrame → FrameLeft
left f =
    if f.refcnt == 1
    then FrameLeft.freed (record {
      function_type = f.function_type;
      function_name = less_one f.function_name;
      module_name = less_one f.module_name;
      compile_unit_name = less_one f.compile_unit_name;
    })
    else FrameLeft.kept (record f { refcnt = f.refcnt - 1 })

last_one : (n : ℕ) → 0 < n → ((n - 1) == 0) ≡ (n == 1)
last_one n h = ground arith

module _ (G : Glib) where
  unref_frame_name-less_one : (o : Option RString) → NameLive o → unref_frame_name G o ≡ less_one o
  unfolding unref_frame_name r_string_unref
  unref_frame_name-less_one none h = refl
  unref_frame_name-less_one (some s) (low, high) =
      rw (G.dec_subtracts s.refcnt low high) (rw (last_one s.refcnt low) refl)

  r_frame_unref-left : (f : RFrame) → FrameLive f → r_frame_unref G f ≡ left f
  unfolding r_frame_unref
  r_frame_unref-left f ((low, high), a, b, c) = rw (G.dec_subtracts f.refcnt low high) (
      rw (last_one f.refcnt low) (
        rw (unref_frame_name-less_one f.function_name a) (
          rw (unref_frame_name-less_one f.module_name b)
            (rw (unref_frame_name-less_one f.compile_unit_name c) refl))))

  unref_frames-left :
      (fs : List RFrame) → FramesLive fs → unref_frames G (length fs) fs ≡ ok (map left fs)
  unfolding unref_frames
  unref_frames-left [] h = refl
  unref_frames-left (f ∷ fs) (live, rest) =
      rw (unref_frames-left fs rest) (rw (r_frame_unref-left f live) refl)

  -- Where the list's count is the number of its frames, and all counts are between 1 and 2 ^ 31: giving
  -- back a reference to the list keeps the list with one less, and giving back the last one gives back
  -- each frame once. A frame that someone else has a reference to is kept, with one less; the others are
  -- freed, and of their names those are kept that someone else has a reference to, with one less.
  pub r_frame_list_unref-left :
      (list : RFrameList)
      → list.nframes ≡ length list.frames
      → IsLive list.refcnt
      → FramesLive list.frames
      → r_frame_list_unref G list ≡ (
          if list.refcnt == 1
          then ok (ListLeft.freed (map left list.frames))
          else ok (ListLeft.kept (record list { refcnt = list.refcnt - 1 })))
  unfolding r_frame_list_unref
  r_frame_list_unref-left list whole (low, high) live =
      rw (G.dec_subtracts list.refcnt low high)
        (rw (last_one list.refcnt low) (rw whole (rw (unref_frames-left list.frames live) refl)))
