-- ===== src/Json/Serialize/Checks.antt =====
-- The checks at the head of _json_serialize, for a known kind of type and an address.
use ruminate.Base.{◌≡◌, refl, ◌≢◌, Bool, false, none, ◌==◌}
use ruminate.Errors.{ok}
use ruminate.RString.{RString, r_string_quark}
use ruminate.RType.{RTypeId, RType}
use ruminate.RType.Query.{r_type_id, r_type_name}
use ruminate.World.{Addr, World}
use ruminate.Json.{Env}
use ruminate.Json.Serialize.{named_json, checked_json, serializer_for, switch_json, serialize_step}
use ruminate.Json.Serialize.Values.{State, Serializer}

module _ (E : Env) (rec cont : Serializer E) (js : State E) (rt : RType) (a : Addr) where
  open E use {glib, backend}

  pub checked-named :
      (id : RTypeId) (do_hook : Bool)
      → id ≢ RTypeId.unknown
      → (a == 0) ≡ false
      → checked_json E rec cont js id rt a do_hook ≡ named_json E rec cont js id rt a do_hook
  unfolding checked_json
  checked-named RTypeId.unknown do_hook ne h = absurd (ne refl)
  checked-named _ do_hook ne h = rw h

  -- With no hook for the type, what is left is the switch.
  named-switch :
      {rt' : RType} {s : RString} (id : RTypeId) (do_hook : Bool) (w : World)
      → r_type_name glib backend rt ≡ (rt', ok s)
      → serializer_for E js do_hook (r_string_quark glib s).1 ≡ none
      → named_json E rec cont js id rt a do_hook w ≡ switch_json E rec js id rt' a w
  unfolding named_json
  named-switch id do_hook w name quiet = rw (name, quiet) (rw name refl)

  pub step-switch :
      {rt' : RType} {s : RString} (do_hook : Bool) (w : World)
      → rt.id ≢ RTypeId.unknown
      → (a == 0) ≡ false
      → r_type_name glib backend rt ≡ (rt', ok s)
      → serializer_for E js do_hook (r_string_quark glib s).1 ≡ none
      → serialize_step E rec cont js rt a do_hook w ≡ switch_json E rec js rt.id rt' a w
  unfolding serialize_step r_type_id switch_json
  step-switch do_hook w known address name quiet =
      rw (checked-named rt.id do_hook known address) (named-switch rt.id do_hook w name quiet)
