-- ===== src/Json/Deserialize/Refused.antt =====
-- The kinds of type that util/ruminate-jansson/deserialize.c cannot read.
use ruminate.Base.{ℕ, suc, String, ◌≡◌, refl, ◌≢◌, true, false, Option, some}
use ruminate.Errors.{returned}
use ruminate.Backend.{TypePrx, TypeId}
use ruminate.RString.{RString}
use ruminate.RType.{RTypeId, type_category}
use ruminate.RType.New.{new_object}
use ruminate.RType.Query.{r_builtin_type_id, r_aggregate_type_id}
use ruminate.World.{World, assertion_failed}
use ruminate.Json.{Env}
use ruminate.Json.Serialize.Values.{State}
use ruminate.Json.Deserialize.{
  switch_value, json_deserialize_aggregate, aggregate_value, deserialize_value,
}
use ruminate.Json.Deserialize.RoundTrip.{NoDeserializers, deserialize-switch}
use ruminate.Json.Deserialize.Values.{Deserializer, builtin_value, json_deserialize_builtin}

pub data IsRefused : TypeId → Type 0 where
  void : IsRefused TypeId.void
  union : IsRefused TypeId.union
  function : IsRefused TypeId.function
  typedef : IsRefused TypeId.typedef

module _ (E : Env) (js : State E) where
  open E use {backend, jansson}
  open jansson use {Json}

  refused-known : (t : TypeId) → IsRefused t → type_category t ≢ RTypeId.unknown
  unfolding type_category
  refused-known _ void e = cc
  refused-known _ union e = cc
  refused-known _ function e = cc
  refused-known _ typedef e = cc

  refused-switch :
      (rec : Deserializer E) (p : TypePrx) (r : ℕ) (name : Option RString) (json : Option Json)
      (w : World) (t : TypeId)
      → IsRefused t
      → switch_value E rec (type_category t) (new_object p t r name) json w ≡ assertion_failed
  unfolding switch_value type_category new_object json_deserialize_builtin r_builtin_type_id
      builtin_value json_deserialize_aggregate aggregate_value r_aggregate_type_id
  refused-switch rec p r name json w _ void = refl
  refused-switch rec p r name json w _ union = refl
  refused-switch rec p r name json w _ function = refl
  refused-switch rec p r name json w _ typedef = refl

  -- A void, union or function type, and a typedef too, is read from no JSON: where no hook has a
  -- deserializer and the debugger gives the type's name, an assertion fails.
  pub deserialize_value-refused :
      NoDeserializers E js
      → (t : TypeId) (d : ℕ) (p : TypePrx) (r : ℕ) (name : Option RString) (n : String)
        (json : Option Json) (w : World)
      → IsRefused t
      → backend.get_name p ≡ returned n
      → deserialize_value E (suc d) js true (new_object p t r name) json w ≡ assertion_failed
  unfolding deserialize_value
  deserialize_value-refused quiet t d p r name n json w refused named =
      let rec : Deserializer E = deserialize_value E d js true in
      let (s, same) =
        deserialize-switch E js rec (deserialize_value E d js false) p t r name n json w quiet named
          (refused-known t refused) in
      rw same (refused-switch rec p r (some s) json w t refused)
