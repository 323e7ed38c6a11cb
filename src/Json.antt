-- ===== src/Json.antt =====
-- util/ruminate-jansson/: the JsonState of json_state.c and ruminate-jansson.h, and what the
-- serializer and the deserializer are given.
pub mod Serialize
pub mod Deserialize
pub mod Shape
pub mod Fits
pub mod State
pub mod Encoding
pub mod History
use ruminate.Base.{ℕ, ◌/◌, ◌%◌, ◌^◌, ◌≡◌, Bool, Option, none, some, List, ◌==◌, if◌then◌else◌}
use ruminate.Base.Int.{ℤ}
use ruminate.Glib.{Glib}
use ruminate.Backend.{Backend}
use ruminate.RType.{RType}
use ruminate.Jansson.{Jansson}
use ruminate.World.{Addr, Block, Cmd}

-- JsonSerializeCont, JsonDeserializeCont, JsonSerializer and JsonDeserializer. The state and the data
-- pointer that a hook is also given are its own to capture; NULL is none, or the address 0.
module _ (Json : Type 0) where
  abbrev pub JsonSerializeCont : Type 0
  JsonSerializeCont = RType → Addr → Cmd (Option Json)

  abbrev pub JsonDeserializeCont : Type 0
  JsonDeserializeCont = RType → Option Json → Cmd Addr

  pub record JsonHook : Type 0 where
    pub serializer : Option (JsonSerializeCont → JsonSerializeCont)
    pub deserializer : Option (JsonDeserializeCont → JsonDeserializeCont)

-- GLib's keyed data lists, with what GLib documents of them.
pub record Datalist (H : Type 0) : Type 1 where
  pub GData : Type 0
  pub init : GData
  pub id_get_data : GData → ℕ → Option H
  pub id_set_data : GData → ℕ → H → GData
  pub id_remove_data : GData → ℕ → GData
  pub get-init : (q : ℕ) → id_get_data init q ≡ none
  pub get-set :
      (d : GData) (q r : ℕ) (h : H)
      → id_get_data (id_set_data d q h) r ≡ (if q == r then some h else id_get_data d r)
  pub get-remove :
      (d : GData) (q r : ℕ)
      → id_get_data (id_remove_data d q) r ≡ (if q == r then none else id_get_data d r)

-- All that the code runs on: GLib, the debugger, jansson, the calling thread, the conversion of the
-- double with a bit pattern to json_int_t, and the address of the data of a new RMemory of so many
-- bytes beside those that are there.
pub record Env : Type 1 where
  pub glib : Glib
  pub backend : Backend
  pub jansson : Jansson
  pub datalist : Datalist (JsonHook jansson.Json)
  pub tid : ℕ
  pub double_to_int : ℕ → ℤ
  pub malloc : List Block → ℕ → Addr

-- JSON_FLAG_INVERTABLE is 1 << 1 and JSON_FLAG_SKIP_UNKNOWN is 1 << 2.
abbrev pub has_flag : ℕ → ℕ → Bool
has_flag flags bit = flags / 2 ^ bit % 2 == 1

abbrev pub is_invertable : ℕ → Bool
is_invertable flags = has_flag flags 1

abbrev pub skips_unknown : ℕ → Bool
skips_unknown flags = has_flag flags 2

module _ (E : Env) where
  open E use {datalist, glib}

  pub record JsonState : Type 0 where
    pub handlers : datalist.GData
    pub refcnt : ℕ
    pub flags : ℕ

  pub json_state_new : JsonState
  json_state_new = record { handlers = datalist.init; refcnt = 1; flags = 0 }

  pub json_state_set_flags : JsonState → ℕ → JsonState
  json_state_set_flags js jf = record js { flags = jf }

  pub json_state_get_flags : JsonState → ℕ
  json_state_get_flags js = js.flags

  pub json_state_ref : JsonState → JsonState
  json_state_ref js = record js { refcnt = glib.atomic_int_inc js.refcnt }

  -- `none` is a freed state, with its handlers cleared.
  pub json_state_unref : JsonState → Option JsonState
  json_state_unref js =
      let (n, last) = glib.atomic_int_dec_and_test js.refcnt in
      if last then none else some (record js { refcnt = n })

  pub json_state_add_hook : JsonState → ℕ → JsonHook E.jansson.Json → JsonState
  json_state_add_hook js id ser = record js { handlers = datalist.id_set_data js.handlers id ser }

  pub json_state_remove_hook : JsonState → ℕ → JsonState
  json_state_remove_hook js id = record js { handlers = datalist.id_remove_data js.handlers id }
