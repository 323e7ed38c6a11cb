-- ===== src/Tests/FrameWitnesses.antt =====
-- The theorems on frames at concrete inputs.
use ruminate.Base.{◌≡◌, refl, none, some, [], ◌∷◌, arith}
use ruminate.Errors.{ok, ◌>>=◌}
use ruminate.Backend.{TypeId, FrameList}
use ruminate.RType.{r_type_alloc}
use ruminate.RType.Alloc.{freed}
use ruminate.Frame.{
  RFrame, RFrameList, r_frame_new, r_frame_list_new, r_frame_list_size, r_frame_list_at, FrameLeft,
  ListLeft, r_frame_unref, r_frame_list_unref, r_frame_function_name, r_frame_module_name,
  r_frame_compile_unit_name, r_frame_function_type, r_frame_line,
}
use ruminate.Frame.Asked.{Asked, function_name, function_type, here, next, Answers, r_frame-answers}
use ruminate.Frame.Count.{r_frame_list_at-r_frame_list_new, r_frame_list_unref-left}
use ruminate.Frame.Owed.{
  named, callers_name, typed, type_with, unref_type, r_frame_unref-named, unref_type-typed,
}
use ruminate.Tests.Quarks.{counters}
use ruminate.Tests.Process.{main_frame, start_frame, debugger}

abbrev stack : FrameList
stack = main_frame ∷ start_frame ∷ []

-- main, asked for its name and its type.
abbrev asked_main : RFrame
asked_main =
    (r_frame_function_type counters debugger
      (r_frame_function_name counters (r_frame_new main_frame)).0).0

asked_main-Asked : Asked counters debugger (r_frame_new main_frame) asked_main
asked_main-Asked = next (next here function_name) function_type

r_frame-answers_example :
    ((r_frame_function_name counters asked_main).1.gstr ≡ "main")
    × ((r_frame_module_name counters asked_main).1.gstr ≡ "sample")
    × ((r_frame_compile_unit_name counters asked_main).1.gstr ≡ "sample.c")
    × (r_frame_line asked_main ≡ 12)
    × Answers counters debugger 7 (r_frame_function_type counters debugger asked_main).1
r_frame-answers_example = r_frame-answers counters debugger main_frame asked_main-Asked

r_frame_list_at-r_frame_list_new_example :
    (r_frame_list_size (r_frame_list_new stack) ≡ 2)
    × (r_frame_list_at (r_frame_list_new stack) 1 ≡ ok (r_frame_new start_frame))
r_frame_list_at-r_frame_list_new_example = r_frame_list_at-r_frame_list_new stack 1

-- A list whose first frame has a reference of someone else's.
abbrev shared_list : RFrameList
shared_list = record {
  frames = record (r_frame_new main_frame) { refcnt = 2 } ∷ r_frame_new start_frame ∷ [];
  nframes = 2;
  refcnt = 1;
}

r_frame_list_unref-left_example :
    r_frame_list_unref counters shared_list
    ≡ ok (
        ListLeft.freed (
          FrameLeft.kept (r_frame_new main_frame)
          ∷ FrameLeft.freed (record {
            function_type = none;
            function_name = none;
            module_name = none;
            compile_unit_name = none;
          })
          ∷ []))
unfolding r_frame_new
r_frame_list_unref-left_example =
    r_frame_list_unref-left counters shared_list refl (omega arith, omega arith)
      (((omega arith, omega arith), tt, tt, tt), (((omega arith, omega arith), tt, tt, tt), tt))

r_frame_unref-named_example :
    r_frame_unref counters (named counters main_frame 2)
    ≡ FrameLeft.freed (record {
      function_type = none;
      function_name = callers_name counters main_frame 2;
      module_name = none;
      compile_unit_name = none;
    })
r_frame_unref-named_example = r_frame_unref-named counters main_frame 2 (omega arith)

unref_type-typed_example :
    ((typed counters debugger main_frame TypeId.function 1).function_type
      ≡ some (type_with counters debugger main_frame TypeId.function 1))
    × (unref_type counters debugger main_frame TypeId.function 1
          (type_with counters debugger main_frame TypeId.function 1)
        ≡ (r_type_alloc TypeId.function >>= λ s. ok (freed s)))
unref_type-typed_example =
    unref_type-typed counters debugger main_frame TypeId.function 0 (omega arith) refl
