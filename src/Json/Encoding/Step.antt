-- ===== src/Json/Encoding/Step.antt =====
-- _json_serialize up to its switch, for a type whose name has no hook.
use ruminate.Base.{ℕ, String, ◌≡◌, refl, ◌≢◌, true, Option, none, some}
use ruminate.Errors.{returned, ok}
use ruminate.Backend.{TypePrx, TypeId}
use ruminate.RString.{RString, r_string_ref, r_string_new_cxx}
use ruminate.RType.{RTypeId, type_category}
use ruminate.RType.New.{new_object}
use ruminate.RType.Query.{r_type_name}
use ruminate.World.{Addr, World}
use ruminate.Json.{Env}
use ruminate.Json.Serialize.{serializer_for, switch_json, serialize_step}
use ruminate.Json.Serialize.Checks.{step-switch}
use ruminate.Json.Serialize.Values.{State, Serializer}
use ruminate.Json.Fits.{Typed}

module _ (E : Env) where
  open E use {glib, backend}

  -- No hook of this state has a serializer.
  abbrev pub NoSerializers : State E → Type 0
  NoSerializers js = (q : ℕ) → serializer_for E js true q ≡ none

  module _ (p : TypePrx) (t : TypeId) (r : ℕ) where
    -- The name that a new object gives, and the object that remembers it.
    pub r_type_name-new_object :
        (n : String) (name : Option RString)
        → backend.get_name p ≡ returned n
        → (s : RString) × (r_type_name glib backend (new_object p t r name)
            ≡ (new_object p t r (some s), ok s))
    unfolding r_type_name new_object
    r_type_name-new_object n none h = (r_string_ref glib (r_string_new_cxx n), rw h)
    r_type_name-new_object n (some s) h = (r_string_ref glib s, refl)

    module _ (js : State E) (no_hooks : NoSerializers js) (rec cont : Serializer E) (a : Addr) where
      -- A new object is serialized by the switch, on the kind of its type.
      pub step-new_object :
          (name : Option RString) (w : World)
          → Typed E p t a
          → type_category t ≢ RTypeId.unknown
          → (s : RString) × (serialize_step E rec cont js (new_object p t r name) a true w
              ≡ switch_json E rec js (type_category t) (new_object p t r (some s)) a w)
      unfolding new_object
      step-new_object name w (id, (n, named), address) known =
          let (s, answer) = r_type_name-new_object n name named in
          (
            s,
            step-switch E rec cont js (new_object p t r name) a true w known address answer
                (no_hooks _),
          )
