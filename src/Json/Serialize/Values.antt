-- ===== src/Json/Serialize/Values.antt =====
-- json_serialize_builtin of util/ruminate-jansson/serialize.c, and what the other functions share. A
-- result of NULL is none; an error that is set is in the run.
use ruminate.Base.{ℕ, ◌*◌, Bool, true, false, not, Option, none, some, ◌==◌, if◌then◌else◌}
use ruminate.Base.Int.{ℤ, to_signed}
use ruminate.RType.{RBuiltinTypeId, RType}
use ruminate.RType.Query.{r_builtin_type_id}
use ruminate.World.{
  Addr, Memory, Cmd, pure, fail, modify, assert_false, ◌>>◌, attempt, take_json, load,
}
use ruminate.Json.{Env, JsonState, skips_unknown}

-- `*((int *) value)` and the like, for a signed type of so many bytes.
unfoldable pub int_at : ℕ → Memory → Addr → ℤ
unfolding load
int_at bytes m a = to_signed (8 * bytes) (load bytes m a)

unfoldable pub bool_at : Memory → Addr → Bool
unfolding load
bool_at m a = not (load 1 m a == 0)

abbrev pub bool_to_int : Bool → ℤ
bool_to_int true = ℤ.pos 1
bool_to_int false = ℤ.pos 0

module _ (E : Env) where
  open E use {glib, backend, jansson, datalist, tid, double_to_int}
  open jansson use {Json}

  abbrev pub State : Type 0
  State = JsonState E

  abbrev pub Serializer : Type 0
  Serializer = RType → Addr → Cmd (Option Json)

  -- A new reference to a value.
  abbrev pub new_json : Json → Cmd (Option Json)
  new_json j = do modify take_json; pure (some j)

  unfoldable pub new_json? : Option Json → Cmd (Option Json)
  new_json? none = pure none
  new_json? (some j) = new_json j

  -- A kind of type that cannot be serialized: NULL, or the end of the program.
  unfoldable pub skip_or_abort : {A : Type 0} → State → Cmd (Option A)
  skip_or_abort js = if skips_unknown js.flags then pure none else assert_false

  unfoldable pub builtin_json : State → RBuiltinTypeId → Addr → Cmd (Option Json)
  unfolding new_json?
  builtin_json js RBuiltinTypeId.int value w =
      new_json (jansson.integer (int_at 4 w.memory value)) w
  builtin_json js RBuiltinTypeId.long value w =
      new_json (jansson.integer (int_at 8 w.memory value)) w
  builtin_json js RBuiltinTypeId.short value w =
      new_json (jansson.integer (int_at 2 w.memory value)) w
  builtin_json js RBuiltinTypeId.char value w =
      new_json (jansson.integer (int_at 1 w.memory value)) w
  builtin_json js RBuiltinTypeId.double value w = new_json? (jansson.real (load 8 w.memory value)) w
  builtin_json js RBuiltinTypeId.bool value w =
      new_json (jansson.boolean (bool_at w.memory value)) w
  builtin_json js RBuiltinTypeId.void value w = skip_or_abort js w
  builtin_json js RBuiltinTypeId.unknown value w = pure none w

  unfoldable pub json_serialize_builtin : State → RType → Addr → Cmd (Option Json)
  json_serialize_builtin js rbt value =
      attempt (r_builtin_type_id rbt) (λ id. builtin_json js id value) (λ e. fail e none)
