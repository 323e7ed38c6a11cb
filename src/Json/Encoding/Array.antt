-- ===== src/Json/Encoding/Array.antt =====
-- json_serialize_array, where the calls of _json_serialize for its elements do as they should.
use native.Mathlib.Nat.{add-suc}
use ruminate.Base.{ℕ, ◌+◌, ◌≡◌, refl, ap, Option, none, some, List, length, drop, drop-next}
use ruminate.Backend.{TypePrx, TypeMemberPrx, TypeId}
use ruminate.RString.{RString}
use ruminate.RType.{RType, Extension}
use ruminate.RType.New.{new_object, with_elements, array_size-new_object}
use ruminate.Member.At.{array_member_at-drop}
use ruminate.Member.New.{
  new_member-array, r_type_member_type-new_member, r_type_member_offset-new_member, member_object,
}
use ruminate.World.{Addr, World, done, take_type, take_member, take_json, advance}
use ruminate.Json.{Env}
use ruminate.Json.Serialize.Values.{Serializer}
use ruminate.Json.Serialize.Array.{add_element, array_loop, json_serialize_array}
use ruminate.Json.Shape.{
  Shape, Elements, element, no_elements, element_proxies, kind_of, Cost, with_null, spend, encode,
  encode_elements, cost_of, elements_cost, put_element,
}
use ruminate.Json.Fits.{Fits, FitsElements}
use ruminate.Json.Encoding.Spending.{spend-zero, spend-spend, spend-take_json, take_json-spend}
use ruminate.Json.Encoding.Struct.{Handles, get_id-Fits}

module _ (E : Env) where
  open E use {glib, backend, jansson, tid}
  open jansson use {Json}

  put_element-IsArray :
      (arr : Json) (v : Option Json) → jansson.IsArray arr → jansson.IsArray (put_element E arr v)
  put_element-IsArray arr none is =
      let (arr', appended, is') = jansson.array_append_succeeds arr jansson.null is in
      rw appended is'
  put_element-IsArray arr (some v) is =
      let (arr', appended, is') = jansson.array_append_succeeds arr v is in rw appended is'

  add_element-put :
      (arr : Json) (v : Option Json) (c : Cost) (w : World)
      → jansson.IsArray arr
      → add_element E arr v none (spend c (take_type (take_member w)))
        ≡ done (some (put_element E arr v)) none (spend (with_null E c v) w)
  unfolding add_element
  add_element-put arr none c w is =
      let (arr', appended, _) = jansson.array_append_succeeds arr jansson.null is in
      rw appended
        (rw add-suc (rw add-suc (ap (λ u. done (some arr') none u) (take_json-spend c w))))
  add_element-put arr (some v) c w is =
      let (arr', appended, _) = jansson.array_append_succeeds arr v is in
      rw appended (rw add-suc (rw add-suc refl))

  module _ (flags : ℕ) (rec : Serializer E) where
    abbrev pub HandlesElements : Elements → Type 0
    HandlesElements no_elements = Unit
    HandlesElements (element slot s es) = Handles E flags rec s × HandlesElements es

    module _ (rat : RType) (all : List TypeMemberPrx) (is_array : rat.type_id ≡ TypeId.array)
        (cached : rat.extension ≡ Extension.array (some all)) (a : Addr) where
      array_loop-encode :
          (es : Elements) (i : ℕ) (arr : Json) (w : World)
          → drop i all ≡ element_proxies es
          → jansson.IsArray arr
          → HandlesElements es
          → FitsElements E flags es w.memory a
          → array_loop E rec (length (element_proxies es)) rat a i arr w
            ≡ done
                (some (encode_elements E es w.memory a arr))
                none
                (spend (elements_cost E es w.memory a) w)
      unfolding array_loop encode cost_of
      array_loop-encode no_elements i arr w left is handles fits = rw (spend-zero w)
      array_loop-encode (element slot s es) i arr w left is (handle, handles) (placed, fits, rest) =
          let at = array_member_at-drop backend rat all i left tid cached in
          let here = advance a slot.offset in
          let rt = member_object glib slot.type (kind_of s) in
          let v = encode E s w.memory here in
          let c = with_null E (cost_of E s w.memory here) v in
          let others =
            array_loop-encode es (i + 1) (put_element E arr v) (spend c w) (drop-next i all left)
              (put_element-IsArray arr v is) handles rest in
          rw at (
            rw (new_member-array backend slot.proxy rat is_array) (
              rw
                (r_type_member_type-new_member glib backend slot.proxy none slot.type (kind_of s)
                  placed.0 (get_id-Fits E flags s slot.type w.memory here fits))
                (rw
                  (r_type_member_offset-new_member backend slot.proxy none slot.offset (some rt)
                    placed.1)
                  (rw
                    (handle slot.type (glib.atomic_int_inc 1) none here (take_type (take_member w))
                      fits)
                    (rw (add_element-put arr v (cost_of E s w.memory here) w is) (
                      rw at (rw others (rw (spend-spend c (elements_cost E es w.memory a) w)))))))))

    -- An array becomes the array of its elements, with null for each that has no JSON.
    pub array-encode :
        (es : Elements) (p : TypePrx) (r : ℕ) (name : Option RString) (a : Addr) (w : World)
        → HandlesElements es
        → Fits E flags (Shape.array es) p w.memory a
        → json_serialize_array E rec (new_object p TypeId.array r name) a w
          ≡ done
              (encode E (Shape.array es) w.memory a)
              none
              (spend (cost_of E (Shape.array es) w.memory a) w)
    unfolding json_serialize_array encode cost_of new_object
    array-encode es p r name a w handles (typed, (result, start, finish), fits) =
        let all = element_proxies es in
        rw (array_size-new_object backend p r name tid result all start finish) (
          rw
            (array_loop-encode (with_elements backend p r name all) all refl refl a es 0
              jansson.array (take_json w) refl jansson.array-IsArray handles fits)
            (ap (λ u. done (some (encode_elements E es w.memory a jansson.array)) none u)
              (spend-take_json (elements_cost E es w.memory a) w)))
