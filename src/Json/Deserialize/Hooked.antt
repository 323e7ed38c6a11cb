-- ===== src/Json/Deserialize/Hooked.antt =====
-- How _json_deserialize of util/ruminate-jansson/deserialize.c goes on from a hook.
use ruminate.Base.{ℕ, suc, ◌≡◌, refl, ◌≢◌, ◌∙◌, sym, Bool, true, false, Option, none, some}
use ruminate.Errors.{ok}
use ruminate.RString.{RString, r_string_quark}
use ruminate.RType.{RTypeId, RType}
use ruminate.RType.Query.{r_type_id, r_type_name}
use ruminate.World.{Addr, World, Cmd}
use ruminate.Json.{Env, JsonDeserializeCont}
use ruminate.Json.Serialize.Values.{State}
use ruminate.Json.Deserialize.{deserializer_for, hooked_value, deserialize_step, deserialize_value}
use ruminate.Json.Deserialize.RoundTrip.{known-named, named-hooked}
use ruminate.Json.Deserialize.Values.{Deserializer}

module _ (E : Env) (js : State E) (depth : ℕ) (rt rt' : RType) (json : Option E.jansson.Json) where
  open E use {glib, backend, jansson}
  open jansson use {Json}

  -- What is left to do where the deserializer of the type's name, if any, is known.
  abbrev pub hooked_read : Option (JsonDeserializeCont Json → JsonDeserializeCont Json) → Cmd Addr
  hooked_read none = deserialize_value E (suc depth) js false rt json
  hooked_read (some f) = f (deserialize_value E depth js false) rt' json

  module _ (s : RString) (known : r_type_id rt ≢ RTypeId.unknown)
      (named : r_type_name glib backend rt ≡ (rt', ok s)) where
    by_hook :
        (do_hook : Bool) (w : World)
        → deserialize_value E (suc depth) js do_hook rt json w
          ≡ hooked_value E
              (deserializer_for E js do_hook (r_string_quark glib s).1)
              (deserialize_value E depth js true)
              (deserialize_value E depth js false)
              (r_type_id rt)
              rt'
              json
              w
    unfolding deserialize_value deserialize_step
    by_hook do_hook w =
        let rec : Deserializer E = deserialize_value E depth js true in
        let cont : Deserializer E = deserialize_value E depth js false in
        known-named E js rec cont do_hook (r_type_id rt) rt json w known
        ∙ named-hooked E js rec cont do_hook (r_type_id rt) rt rt' s json w named

    pub deserialize_value-hooked :
        (o : Option (JsonDeserializeCont Json → JsonDeserializeCont Json)) (w : World)
        → deserializer_for E js true (r_string_quark glib s).1 ≡ o
        → deserialize_value E (suc depth) js true rt json w ≡ hooked_read o w
    unfolding hooked_value deserializer_for
    deserialize_value-hooked none w found = by_hook true w ∙ (rw found (sym (by_hook false w)))
    deserialize_value-hooked (some f) w found = by_hook true w ∙ (rw found refl)
