-- ===== src/Frame.antt =====
-- src/frame.cpp: the copies of the frames of a call stack, and what they answer.
--
-- A list holds its frames, and a frame its names, as records. What a frame or a list that is given back
-- leaves behind is written out: the objects that it pointed at, where other references keep them.

pub mod Asked
pub mod Count
pub mod Owed
use ruminate.Base.{
  ℕ, zero, suc, ◌-◌, String, Option, none, some, List, [], ◌∷◌, length, get_elem?, if◌then◌else◌,
}
use ruminate.Base.Int.{to_unsigned}
use ruminate.Glib.{Glib}
use ruminate.Errors.{Call, ok, raised, aborted, crashed, ◌>>=◌}
use ruminate.Backend.{Frame, FrameList, Backend}
use ruminate.RString.{RString, r_string_new_cxx, r_string_ref, r_string_unref}
use ruminate.RType.{RType, r_type_new}
use ruminate.RType.Alloc.{r_type_ref}

-- The type and the names are none while they are NULL.
pub record RFrame : Type 0 where
  pub function_type : Option RType
  pub frame : Frame
  pub refcnt : ℕ
  pub function_name : Option RString
  pub module_name : Option RString
  pub compile_unit_name : Option RString

pub record RFrameList : Type 0 where
  pub frames : List RFrame
  pub nframes : ℕ
  pub refcnt : ℕ

unfoldable pub r_frame_new : Frame → RFrame
r_frame_new frame = record {
  function_type = none;
  frame = frame;
  refcnt = 1;
  function_name = none;
  module_name = none;
  compile_unit_name = none;
}

-- The loop of r_frame_list_new. r_frame_new never returns NULL, so the way out of it is not taken.
unfoldable pub new_frames : FrameList → List RFrame
new_frames [] = []
new_frames (f ∷ fs) = r_frame_new f ∷ new_frames fs

unfoldable pub r_frame_list_new : FrameList → RFrameList
r_frame_list_new list = record { frames = new_frames list; nframes = length list; refcnt = 1 }

unfoldable pub r_frame_list_size : RFrameList → ℕ
r_frame_list_size list = list.nframes

-- An element of the array that is there.
abbrev pub in_array : Option RFrame → Call RFrame
in_array none = crashed
in_array (some f) = ok f

unfoldable pub r_frame_list_at : RFrameList → ℕ → Call RFrame
r_frame_list_at list i = in_array (get_elem? list.frames i)

unfoldable pub r_frame_line : RFrame → ℕ
r_frame_line rf = to_unsigned 64 rf.frame.line

-- What a freed frame pointed at.
pub record Remains : Type 0 where
  pub function_type : Option RType
  pub function_name : Option RString
  pub module_name : Option RString
  pub compile_unit_name : Option RString

pub data FrameLeft : Type 0 where
  kept : RFrame → FrameLeft
  freed : Remains → FrameLeft

pub data ListLeft : Type 0 where
  kept : RFrameList → ListLeft
  freed : List FrameLeft → ListLeft

module _ (G : Glib) where
  unfoldable pub r_frame_ref : RFrame → RFrame
  r_frame_ref frame = record frame { refcnt = G.atomic_int_inc frame.refcnt }

  unfoldable pub unref_frame_name : Option RString → Option RString
  unref_frame_name none = none
  unref_frame_name (some s) = r_string_unref G s

  unfoldable pub r_frame_unref : RFrame → FrameLeft
  r_frame_unref frame =
      let (n, last) = G.atomic_int_dec_and_test frame.refcnt in
      if last
      then FrameLeft.freed (record {
        function_type = frame.function_type;
        function_name = unref_frame_name frame.function_name;
        module_name = unref_frame_name frame.module_name;
        compile_unit_name = unref_frame_name frame.compile_unit_name;
      })
      else FrameLeft.kept (record frame { refcnt = n })

  -- The loop of r_frame_list_unref, over so many elements of the array.
  unfoldable pub unref_frames : ℕ → List RFrame → Call (List FrameLeft)
  unref_frames zero fs = ok []
  unref_frames (suc n) [] = crashed
  unref_frames (suc n) (f ∷ fs) =
      let rest = unref_frames n fs in do left ← rest; ok (r_frame_unref f ∷ left)

  unfoldable pub r_frame_list_ref : RFrameList → RFrameList
  r_frame_list_ref list = record list { refcnt = G.atomic_int_inc list.refcnt }

  unfoldable pub r_frame_list_unref : RFrameList → Call ListLeft
  r_frame_list_unref list =
      let (n, last) = G.atomic_int_dec_and_test list.refcnt in
      let gone = unref_frames list.nframes list.frames in
      if last
      then (gone >>= λ left. ok (ListLeft.freed left))
      else ok (ListLeft.kept (record list { refcnt = n }))

  -- A name, made of the remote one the first time.
  unfoldable pub remember : Option RString → String → RString
  remember none init = r_string_ref G (r_string_new_cxx init)
  remember (some s) init = r_string_ref G s

  unfoldable pub r_frame_function_name : RFrame → RFrame × RString
  r_frame_function_name rf =
      let s = remember rf.function_name rf.frame.function_name in
      (record rf { function_name = some s }, s)

  unfoldable pub r_frame_module_name : RFrame → RFrame × RString
  r_frame_module_name rf =
      let s = remember rf.module_name rf.frame.module_name in
      (record rf { module_name = some s }, s)

  unfoldable pub r_frame_compile_unit_name : RFrame → RFrame × RString
  r_frame_compile_unit_name rf =
      let s = remember rf.compile_unit_name rf.frame.compile_unit_name in
      (record rf { compile_unit_name = some s }, s)

  module _ (B : Backend) where
    first_frame_type : RFrame → Call RType → RFrame × Call RType
    first_frame_type rf (ok t) = (record rf { function_type = some t }, ok t)
    first_frame_type rf (raised e) = (record rf { function_type = none }, raised e)
    first_frame_type rf aborted = (rf, aborted)
    first_frame_type rf crashed = (rf, crashed)

    frame_type_of : RFrame → Option RType → RFrame × Call RType
    unfolding first_frame_type
    frame_type_of rf (some t) =
        let t' = r_type_ref G t in (record rf { function_type = some t' }, ok t')
    frame_type_of rf none = first_frame_type rf (r_type_new B rf.frame.function_type)

    -- The reference that r_type_new makes is the caller's, and the frame's pointer has none.
    unfoldable pub r_frame_function_type : RFrame → RFrame × Call RType
    unfolding frame_type_of
    r_frame_function_type rf = frame_type_of rf rf.function_type
