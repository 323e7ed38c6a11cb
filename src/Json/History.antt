-- ===== src/Json/History.antt =====
-- A JsonState of util/ruminate-jansson/json_state.c after any sequence of calls, and what serialize.c
-- and deserialize.c find in it. A caller gets the GQuark of a type's name by g_quark_from_string.
use text.Mathlib.Text.{◌==◌ as str_eq}
use ruminate.Base.{ℕ, String, Option, none, some, List, [], ◌∷◌, ◌==◌, if◌then◌else◌}
use ruminate.Backend.{TypePrx, TypeId}
use ruminate.RString.{r_string_ref, r_string_new_cxx}
use ruminate.RType.{RType}
use ruminate.RType.New.{new_object}
use ruminate.World.{World}
use ruminate.Json.{
  JsonHook, JsonSerializeCont, JsonDeserializeCont, Env, json_state_new, json_state_ref,
  json_state_set_flags, json_state_add_hook, json_state_remove_hook,
}
use ruminate.Json.Serialize.Values.{State}

-- A call, with the name of the type of a hook.
pub data Change (Hook : Type 0) : Type 0 where
  added : String → Hook → Change Hook
  removed : String → Change Hook
  flagged : ℕ → Change Hook
  referenced : Change Hook

module _ {Hook : Type 0} where
  -- The hook of a name after the calls, the newest first.
  abbrev pub latest : List (Change Hook) → String → Option Hook
  latest [] name = none
  latest (added n h ∷ before) name = if str_eq n name then some h else latest before name
  latest (removed n ∷ before) name = if str_eq n name then none else latest before name
  latest (flagged f ∷ before) name = latest before name
  latest (referenced ∷ before) name = latest before name

  abbrev pub latest_flags : List (Change Hook) → ℕ
  latest_flags [] = 0
  latest_flags (added n h ∷ before) = latest_flags before
  latest_flags (removed n ∷ before) = latest_flags before
  latest_flags (flagged f ∷ before) = f
  latest_flags (referenced ∷ before) = latest_flags before

module _ (E : Env) where
  open E use {glib, backend, jansson, datalist}
  open jansson use {Json}

  abbrev pub Hook : Type 0
  Hook = JsonHook Json

  abbrev pub changed : State E → Change Hook → State E
  changed js (added n h) = json_state_add_hook E js (glib.quark_from_string n) h
  changed js (removed n) = json_state_remove_hook E js (glib.quark_from_string n)
  changed js (flagged f) = json_state_set_flags E js f
  changed js referenced = json_state_ref E js

  abbrev pub state_after : List (Change Hook) → State E
  state_after [] = json_state_new E
  state_after (c ∷ before) = changed (state_after before) c

  abbrev pub serializer_of : Option Hook → Option (JsonSerializeCont Json → JsonSerializeCont Json)
  serializer_of none = none
  serializer_of (some h) = h.serializer

  abbrev pub deserializer_of :
      Option Hook → Option (JsonDeserializeCont Json → JsonDeserializeCont Json)
  deserializer_of none = none
  deserializer_of (some h) = h.deserializer

  -- The type's object when it has told its name.
  abbrev pub told : TypePrx → TypeId → ℕ → String → RType
  told p t r n = new_object p t r (some (r_string_ref glib (r_string_new_cxx n)))
