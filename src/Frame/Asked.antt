-- ===== src/Frame/Asked.antt =====
-- The questions put to a frame of src/frame.cpp, in any order, and what they answer.
use ruminate.Base.{◌≡◌, ◌∙◌, refl, sym, ap, Option, none, some, String}
use ruminate.Base.Int.{to_unsigned}
use ruminate.Glib.{Glib}
use ruminate.Errors.{
  GError, Reply, returned, ice_exception, std_exception, other_exception, Call, ok, raised, aborted,
  crashed, gxx_call,
}
use ruminate.Backend.{TypePrx, TypeId, Frame, Backend}
use ruminate.RString.{RString, r_string_new_cxx, r_string_ref}
use ruminate.RType.{RType, r_type_new}
use ruminate.RType.Alloc.{r_type_ref}
use ruminate.RType.New.{new_object, r_type_new-new_object, r_type_new-raised}
use ruminate.Frame.{
  RFrame, r_frame_new, r_frame_ref, remember, r_frame_function_name, r_frame_module_name,
  r_frame_compile_unit_name, r_frame_function_type, first_frame_type, frame_type_of, r_frame_line,
}

module _ (G : Glib) (B : Backend) where
  -- One question, or one more reference.
  pub data Asks (rf : RFrame) : RFrame → Type 0 where
    function_name : Asks rf (r_frame_function_name G rf).0
    module_name : Asks rf (r_frame_module_name G rf).0
    compile_unit_name : Asks rf (r_frame_compile_unit_name G rf).0
    function_type : Asks rf (r_frame_function_type G B rf).0
    ref : Asks rf (r_frame_ref G rf)

  pub data Asked (first : RFrame) : RFrame → Type 0 where
    here : Asked first first
    next : {rf rf' : RFrame} → Asked first rf → Asks rf rf' → Asked first rf'

  -- A remembered name has this text, and a remembered or returned type is that of this proxy.
  abbrev Says : String → Option RString → Type 0
  Says text none = Unit
  Says text (some s) = s.gstr ≡ text

  abbrev Stands : TypePrx → Option RType → Type 0
  Stands p none = Unit
  Stands p (some t) = t.type ≡ p

  abbrev pub Answers : TypePrx → Call RType → Type 0
  Answers p (ok t) = t.type ≡ p
  Answers p (raised e) = r_type_new B p ≡ raised e
  Answers p aborted = r_type_new B p ≡ aborted
  Answers p crashed = r_type_new B p ≡ crashed

  abbrev IsCopy : Frame → RFrame → Type 0
  IsCopy f rf =
      (rf.frame ≡ f)
      × Says f.function_name rf.function_name
      × Says f.module_name rf.module_name
      × Says f.compile_unit_name rf.compile_unit_name
      × Stands f.function_type rf.function_type

  remember-Says :
      (o : Option RString) (init text : String)
      → init ≡ text
      → Says text o
      → (remember G o init).gstr ≡ text
  unfolding remember r_string_ref r_string_new_cxx
  remember-Says none init text e h = e
  remember-Says (some s) init text e h = h

  not_made :
      (p : TypePrx) (r : Reply TypeId) (e : GError) (t : RType)
      → B.get_id p ≡ r
      → gxx_call r ≡ raised e
      → r_type_new B p ≡ ok t
      → t.type ≡ p
  not_made p r e t h k made =
      let unmade : raised e ≡ ok t = sym (r_type_new-raised B p e (ap gxx_call h ∙ k)) ∙ made in cc

  new_by_id :
      (p : TypePrx) (r : Reply TypeId) (t : RType)
      → B.get_id p ≡ r
      → r_type_new B p ≡ ok t
      → t.type ≡ p
  unfolding new_object gxx_call
  new_by_id p (returned id) t h made =
      let object : ok (new_object p id 1 none) ≡ ok t =
        sym (r_type_new-new_object B p id h) ∙ made in
      cc
  new_by_id p (ice_exception text) t h made = not_made p (ice_exception text) _ t h refl made
  new_by_id p (std_exception text) t h made = not_made p (std_exception text) _ t h refl made
  new_by_id p other_exception t h made = not_made p other_exception _ t h refl made

  -- What a frame with the other fields of `rf` answers and is left as.
  abbrev Answered : Frame → RFrame × Call RType → Type 0
  Answered f (rf, answer) = Answers f.function_type answer × IsCopy f rf

  first_frame_type-Answered :
      (f : Frame) (rf : RFrame) (c : Call RType)
      → r_type_new B f.function_type ≡ c
      → rf.function_type ≡ none
      → IsCopy f rf
      → Answered f (first_frame_type G B rf c)
  unfolding first_frame_type
  first_frame_type-Answered f rf (ok t) h n (same, a, b, c, d) =
      let type : t.type ≡ f.function_type = new_by_id _ _ t refl h in (type, (same, a, b, c, type))
  first_frame_type-Answered f rf (raised e) h n (same, a, b, c, d) = (h, (same, a, b, c, tt))
  first_frame_type-Answered f rf aborted h n copy = (h, copy)
  first_frame_type-Answered f rf crashed h n copy = (h, copy)

  frame_type_of-Answered :
      (f : Frame) (rf : RFrame) (o : Option RType)
      → rf.function_type ≡ o
      → Stands f.function_type o
      → IsCopy f rf
      → Answered f (frame_type_of G B rf o)
  unfolding frame_type_of r_type_ref
  frame_type_of-Answered f rf (some t) h type (same, a, b, c, d) = (type, (same, a, b, c, type))
  frame_type_of-Answered f rf none h type (same, a, b, c, d) =
      first_frame_type-Answered f rf (r_type_new B rf.frame.function_type)
        (ap (λ (g : Frame). r_type_new B g.function_type) (sym same)) h (same, a, b, c, d)

  type-Answered :
      (f : Frame) (rf : RFrame) → IsCopy f rf → Answered f (r_frame_function_type G B rf)
  unfolding r_frame_function_type
  type-Answered f rf (same, a, b, c, d) =
      frame_type_of-Answered f rf rf.function_type refl d (same, a, b, c, d)

  module _ (f : Frame) (rf : RFrame) (copy : IsCopy f rf) where
    function_name-Says : (r_frame_function_name G rf).1.gstr ≡ f.function_name
    unfolding r_frame_function_name
    function_name-Says =
        remember-Says rf.function_name rf.frame.function_name f.function_name
          (ap (λ (g : Frame). g.function_name) copy.0) copy.1

    module_name-Says : (r_frame_module_name G rf).1.gstr ≡ f.module_name
    unfolding r_frame_module_name
    module_name-Says =
        remember-Says rf.module_name rf.frame.module_name f.module_name
          (ap (λ (g : Frame). g.module_name) copy.0) copy.2

    compile_unit_name-Says : (r_frame_compile_unit_name G rf).1.gstr ≡ f.compile_unit_name
    unfolding r_frame_compile_unit_name
    compile_unit_name-Says =
        remember-Says rf.compile_unit_name rf.frame.compile_unit_name f.compile_unit_name
          (ap (λ (g : Frame). g.compile_unit_name) copy.0) copy.3

  Asks-IsCopy : (f : Frame) {rf rf' : RFrame} → Asks rf rf' → IsCopy f rf → IsCopy f rf'
  unfolding r_frame_function_name r_frame_module_name r_frame_compile_unit_name r_frame_ref
  Asks-IsCopy f {rf} function_name (same, a, b, c, d) =
      (same, function_name-Says f rf (same, a, b, c, d), b, c, d)
  Asks-IsCopy f {rf} module_name (same, a, b, c, d) =
      (same, a, module_name-Says f rf (same, a, b, c, d), c, d)
  Asks-IsCopy f {rf} compile_unit_name (same, a, b, c, d) =
      (same, a, b, compile_unit_name-Says f rf (same, a, b, c, d), d)
  Asks-IsCopy f {rf} function_type copy = (type-Answered f rf copy).1
  Asks-IsCopy f ref copy = copy

  Asked-IsCopy : (f : Frame) {rf : RFrame} → Asked (r_frame_new f) rf → IsCopy f rf
  unfolding r_frame_new
  Asked-IsCopy f here = (refl, tt, tt, tt, tt)
  Asked-IsCopy f (next r q) = Asks-IsCopy f q (Asked-IsCopy f r)

  -- A frame that is made of a remote one answers with what that one says, whatever it has been asked
  -- before and in whatever order: its three names, its line as an unsigned number, and its type, which is
  -- the remote type, or what r_type_new ends in for that.
  pub r_frame-answers :
      (f : Frame) {rf : RFrame}
      → Asked (r_frame_new f) rf
      → ((r_frame_function_name G rf).1.gstr ≡ f.function_name)
        × ((r_frame_module_name G rf).1.gstr ≡ f.module_name)
        × ((r_frame_compile_unit_name G rf).1.gstr ≡ f.compile_unit_name)
        × (r_frame_line rf ≡ to_unsigned 64 f.line)
        × Answers f.function_type (r_frame_function_type G B rf).1
  unfolding r_frame_line
  r_frame-answers f {rf} r =
      let copy = Asked-IsCopy f r in
      (
        function_name-Says f rf copy,
        module_name-Says f rf copy,
        compile_unit_name-Says f rf copy,
        ap (λ (g : Frame). to_unsigned 64 g.line) copy.0,
        (type-Answered f rf copy).0,
      )
