-- ===== src/Json/Deserialize/Values.antt =====
-- json_deserialize_builtin and json_deserialize_enum of util/ruminate-jansson/deserialize.c, and what
-- the other functions share. NULL is the address 0; an error that is set is in the run.
use ruminate.Base.{ℕ, Bool, true, false, Option, ◌==◌, if◌then◌else◌}
use ruminate.Base.Int.{to_unsigned}
use ruminate.Backend.{TypeId}
use ruminate.RType.{RBuiltinTypeId, RType}
use ruminate.RType.Query.{r_builtin_type_id}
use ruminate.RMemory.{r_mem_malloc, r_mem_malloc_fn}
use ruminate.World.{
  Addr, Cmd, pure, fail, modify, assert_false, use_null, ◌>>=◌, ◌>>◌, attempt, store, copy,
}
use ruminate.Json.{Env}

-- `*((int *) p) = v` and the like, of so many bytes, and memcpy, neither of which may be given NULL.
unfoldable pub write_value : ℕ → Addr → ℕ → Cmd (Unit {0})
write_value bytes p v =
    if p == 0 then use_null else modify (λ w. record w { memory = store bytes p v w.memory })

unfoldable pub memcpy : Addr → Addr → ℕ → Cmd (Unit {0})
memcpy to from n =
    if from == 0 then use_null else modify (λ w. record w { memory = copy n to from w.memory })

abbrev pub bool_bit : Bool → ℕ
bool_bit true = 1
bool_bit false = 0

module _ (E : Env) where
  open E use {backend, jansson, tid, malloc}
  open jansson use {Json}

  abbrev pub Deserializer : Type 0
  Deserializer = RType → Option Json → Cmd Addr

  -- A value of the C type, allocated and set, or NULL where the allocation gives that.
  unfoldable pub set_new : TypeId → ℕ → ℕ → Cmd Addr
  set_new type bytes v = do
    val ← r_mem_malloc malloc backend tid type bytes
    if val == 0 then pure 0 else (do write_value bytes val v; pure val)

  unfoldable pub builtin_value : RBuiltinTypeId → Option Json → Cmd Addr
  builtin_value RBuiltinTypeId.int json =
      set_new TypeId.int 4 (to_unsigned 64 (jansson.integer_value json))
  builtin_value RBuiltinTypeId.long json =
      set_new TypeId.long 8 (to_unsigned 64 (jansson.integer_value json))
  builtin_value RBuiltinTypeId.short json =
      set_new TypeId.short 2 (to_unsigned 64 (jansson.integer_value json))
  builtin_value RBuiltinTypeId.char json =
      set_new TypeId.char 1 (to_unsigned 64 (jansson.integer_value json))
  builtin_value RBuiltinTypeId.double json = set_new TypeId.double 8 (jansson.real_value json)
  builtin_value RBuiltinTypeId.bool json = set_new TypeId.bool 1 (bool_bit (jansson.is_true json))
  builtin_value RBuiltinTypeId.void json = assert_false
  builtin_value RBuiltinTypeId.unknown json = pure 0

  unfoldable pub json_deserialize_builtin : Deserializer
  json_deserialize_builtin rbt json =
      attempt (r_builtin_type_id rbt) (λ id. builtin_value id json) (λ e. fail e 0)

  -- An uintmax_t is stored, whatever the size of the enum.
  unfoldable pub json_deserialize_enum : Deserializer
  json_deserialize_enum rat value = do
    enm ← (r_mem_malloc_fn malloc backend rat).1
    if enm == 0
        then pure 0
        else (do write_value 8 enm (to_unsigned 64 (jansson.integer_value value)); pure enm)
