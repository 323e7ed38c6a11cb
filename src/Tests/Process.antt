-- ===== src/Tests/Process.antt =====
-- A process to test with: a debugger that knows a few types, GLib over text, and a memory.
--
--   enum level { LOW, HIGH };
--   struct sample { int count; enum level level; char tag[2]; int *next; void nothing; };
use ruminate.Base.{
  ℕ, ◌+◌, refl, true, false, Option, none, some, List, [], ◌∷◌, ◌==◌, if◌then◌else◌,
}
use ruminate.Base.Int.{pos, negsuc}
use ruminate.Errors.{returned, other_exception}
use ruminate.Backend.{TypeId, Frame, Backend}
use ruminate.RType.New.{new_object}
use ruminate.Tests.Quarks.{counters}
use ruminate.World.{Addr, Run, Memory, Block, World}
use ruminate.Json.{JsonHook, Datalist, Env, JsonState}
use ruminate.Json.Serialize.{serialize_value}
use ruminate.Tests.Document.{Document, documents}

abbrev pub pick {ℓ} : {A : Type ℓ} → List (ℕ × A) → A → ℕ → A
pick [] d n = d
pick ((k, a) ∷ r) d n = if k == n then a else pick r d n

-- The stack: main, called by _start.
abbrev pub main_frame : Frame
main_frame = record {
  function_name = "main";
  module_name = "sample";
  compile_unit_name = "sample.c";
  function_type = 7;
  line = pos 12;
}

abbrev pub start_frame : Frame
start_frame = record main_frame { function_name = "_start"; line = negsuc 0 }

abbrev pub debugger : Backend
debugger = record {
  get_id =
      pick
        ((1, returned TypeId.structure)
          ∷ (2, returned TypeId.int)
          ∷ (3, returned TypeId.enum)
          ∷ (4, returned TypeId.array)
          ∷ (5, returned TypeId.char)
          ∷ (6, returned TypeId.pointer)
          ∷ (7, returned TypeId.function)
          ∷ (8, returned TypeId.void)
          ∷ (9, returned TypeId.typedef)
          ∷ [])
        other_exception;
  get_name =
      pick
        ((1, returned "sample")
          ∷ (2, returned "int")
          ∷ (3, returned "level")
          ∷ (4, returned "char [2]")
          ∷ (5, returned "char")
          ∷ (6, returned "int *")
          ∷ (8, returned "void")
          ∷ (9, returned "count_t")
          ∷ [])
        other_exception;
  get_size = λ p. returned (pos 4);
  get_pointee_type = pick ((6, returned 2) ∷ []) other_exception;
  get_pointer_type = λ p. other_exception;
  get_canonical_type = pick ((9, returned 2) ∷ []) other_exception;
  get_return_type = λ p. other_exception;
  get_members =
      pick ((1, returned (10 ∷ 11 ∷ 12 ∷ 13 ∷ 14 ∷ [])) ∷ (3, returned (20 ∷ 21 ∷ [])) ∷ [])
        other_exception;
  begin_get_members = λ p tid. returned 0;
  end_get_members = pick ((4, λ r. returned (30 ∷ 31 ∷ [])) ∷ []) (λ r. other_exception);
  is_signed = λ p. returned true;
  is_unsigned = λ p. returned false;
  member_type =
      pick
        ((10, returned 9)
          ∷ (11, returned 3)
          ∷ (12, returned 4)
          ∷ (13, returned 6)
          ∷ (14, returned 8)
          ∷ (20, returned 2)
          ∷ (21, returned 2)
          ∷ (30, returned 5)
          ∷ (31, returned 5)
          ∷ [])
        other_exception;
  member_name =
      pick
        ((10, returned "count")
          ∷ (11, returned "level")
          ∷ (12, returned "tag")
          ∷ (13, returned "next")
          ∷ (14, returned "nothing")
          ∷ (20, returned "LOW")
          ∷ (21, returned "HIGH")
          ∷ [])
        other_exception;
  member_offset =
      pick
        ((10, returned (pos 0))
          ∷ (11, returned (pos 4))
          ∷ (12, returned (pos 8))
          ∷ (13, returned (pos 16))
          ∷ (14, returned (pos 24))
          ∷ (20, returned (pos 0))
          ∷ (21, returned (pos 0))
          ∷ (30, returned (pos 0))
          ∷ (31, returned (pos 1))
          ∷ [])
        other_exception;
  member_is_bitfield = λ m. returned false;
  member_value_signed = pick ((20, returned (pos 0)) ∷ (21, returned (pos 1)) ∷ []) other_exception;
  begin_get_type_by_variable_name = λ name tid. returned 1;
  end_get_type_by_variable_name = λ arp place. returned 6;
  get_types_by_name = λ name. returned (2 ∷ []);
  begin_get_backtrace = λ tid. returned 1;
  end_get_backtrace = λ arp. returned (main_frame ∷ start_frame ∷ []);
  get_function_name = λ addr. returned "main";
}

-- The hooks, newest first; the quark alone marks a removal.
abbrev Hooks : Type 0 → Type 0
Hooks H = List (ℕ × Option H)

abbrev find_hook : {H : Type 0} → Hooks H → ℕ → Option H
find_hook [] r = none
find_hook ((q, h) ∷ d) r = if q == r then h else find_hook d r

abbrev pub hooks : (H : Type 0) → Datalist H
hooks H = record {
  GData = Hooks H;
  init = [];
  id_get_data = find_hook;
  id_set_data = λ d q h. (q, some h) ∷ d;
  id_remove_data = λ d q. (q, none) ∷ d;
  get-init = λ q. refl;
  get-set = λ d q r h. refl;
  get-remove = λ d q r. refl;
}

-- The end of the newest block.
abbrev fresh_block : List Block → ℕ → Addr
fresh_block [] n = 0x9000
fresh_block (b ∷ r) n = b.data_address + b.size + 24

abbrev pub process : Env
process = record {
  glib = counters;
  backend = debugger;
  jansson = documents;
  datalist = hooks (JsonHook Document);
  tid = 1;
  double_to_int = λ bits. pos 0;
  malloc = fresh_block;
}

abbrev pub flags_state : ℕ → JsonState process
flags_state n = record { handlers = []; refcnt = 1; flags = n }

-- At 0x1000 the struct sample { 7, HIGH, "ok", 0x2000 }, at 0x2000 the int -2.
abbrev pub cells : Memory
cells =
    pick
      ((0x1000, 7)
        ∷ (0x1004, 1)
        ∷ (0x1008, 111)
        ∷ (0x1009, 107)
        ∷ (0x1011, 0x20)
        ∷ (0x2000, 254)
        ∷ (0x2001, 255)
        ∷ (0x2002, 255)
        ∷ (0x2003, 255)
        ∷ [])
      0

abbrev pub start : World
start = record {
  memory = cells;
  types = 0;
  members = 0;
  strings = 0;
  jsons = 0;
  heap = [];
  arp = 0;
}

run_sample : ℕ → Run (Option Document)
unfolding serialize_value new_object
run_sample flags =
    serialize_value process 9 (flags_state flags) (new_object 1 TypeId.structure 1 none) 0x1000 true
      start

sample4 : Run (Option Document)
unfolding run_sample
sample4 = run_sample 4
