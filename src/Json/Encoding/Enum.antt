-- ===== src/Json/Encoding/Enum.antt =====
-- json_serialize_enum on a value that is one of the enumerators.
use ruminate.Base.{
  ℕ, suc, ◌+◌, ◌≡◌, refl, ap, ◌∙◌, Bool-cases, inl, inr, ◌==◌, Bool, true, false, Option, none,
  some, List, [], ◌∷◌, length, drop, drop-next,
}
use ruminate.Base.Int.{ℤ}
use ruminate.Errors.{returned, ok}
use ruminate.Backend.{TypePrx, TypeMemberPrx, TypeId}
use ruminate.RString.{RString}
use ruminate.RType.{RType, RTypeId, RBuiltinTypeId, RAggregateTypeId, Extension, type_category}
use ruminate.RType.New.{new_object, start_extension, with_members, nmembers-new_object}
use ruminate.RType.Query.{r_builtin_type_id, r_builtin_type_is_signed}
use ruminate.Member.At.{aggregate_member_at-drop}
use ruminate.Member.New.{new_member-enum, r_type_member_type-new_member, member_object}
use ruminate.Member.Value.{known_enumerator, value_signed-known, value_unsigned-known}
use ruminate.World.{Addr, World, Memory, done, take_type, take_member, load}
use ruminate.Json.{Env}
use ruminate.Json.Serialize.Values.{State, int_at, bool_at}
use ruminate.Json.Serialize.Enum.{
  enum_value_at, vals_are_equal, try_enumerator, enum_loop, json_serialize_enum,
}
use ruminate.Json.Encoding.Spending.{spend-hit, spend-miss, take_json-spend_enum}
use ruminate.Json.Shape.{
  Enumerator, Shape, number_at, enumerator_proxies, cost, spend, is_value, encode, cost_of,
}
use ruminate.Json.Fits.{Reads, AllMiss, Fits}

module _ (E : Env) where
  open E use {glib, backend, jansson}

  -- What the code reads is the number.
  enum_value_at-number_at :
      (b : RBuiltinTypeId) (m : Memory) (a : Addr) → enum_value_at E b m a ≡ number_at E b m a
  unfolding enum_value_at number_at int_at bool_at
  enum_value_at-number_at RBuiltinTypeId.bool m a = elim (Bool-cases (load 1 m a == 0)) [
    | inl nul ↦ rw nul refl
    | inr other ↦ rw other refl
  ]
  enum_value_at-number_at _ m a = refl

  module _ (m : TypeMemberPrx) (p : TypePrx) (t : TypeId) (x v : ℤ)
      (builtin : type_category t ≡ RTypeId.builtin)
      (value : backend.member_value_signed m ≡ returned x) (w : World) where
    equal-known :
        (s : Bool)
        → backend.is_signed p ≡ returned s
        → vals_are_equal E (known_enumerator glib backend m p t) s v w
          ≡ done (some (is_value s v x)) none (take_type w)
    unfolding vals_are_equal
    equal-known true sign = rw (value_signed-known glib backend m p t builtin x value sign)
    equal-known false sign = rw (value_unsigned-known glib backend m p t builtin x value sign)

    module _ (js : State E) (s : Bool) (sign : backend.is_signed p ≡ returned s) where
      is_signed-known : r_builtin_type_is_signed backend (member_object glib p t) ≡ ok s
      unfolding r_builtin_type_is_signed new_object
      is_signed-known = rw sign

      try-known :
          (b : RBuiltinTypeId) (mem : Memory) (a : Addr)
          → enum_value_at E b mem a ≡ some v
          → try_enumerator E js
              (known_enumerator glib backend m p t)
              (member_object glib p t)
              b
              (some v)
              w
            ≡ done (some (v, is_value s v x)) none (take_type w)
      unfolding try_enumerator enum_value_at
      try-known RBuiltinTypeId.void mem a h = cc
      try-known RBuiltinTypeId.unknown mem a h = cc
      try-known _ mem a h = rw is_signed-known (rw (equal-known s sign))

  module _ (js : State E) (rat : RType) (all : List TypeMemberPrx)
      (enum : rat.type_id ≡ TypeId.enum)
      (cached : rat.extension ≡ Extension.aggregate RAggregateTypeId.enum (some all))
      (a : Addr) where
    builtin_id-known :
        (p : TypePrx) (t : TypeId) (b : RBuiltinTypeId)
        → start_extension t ≡ Extension.builtin b
        → r_builtin_type_id (member_object glib p t) ≡ ok b
    unfolding r_builtin_type_id new_object
    builtin_id-known p t b h = rw h

    enum_loop-hit :
        (e : Enumerator) (rounds i : ℕ) (rest : List TypeMemberPrx) (w : World)
        → drop i all ≡ e.proxy ∷ rest
        → (found : Reads E e w.memory a true)
        → enum_loop E js (suc rounds) rat a i w
          ≡ done (some found.0) none (take_type (take_type (take_member w)))
    unfolding enum_loop
    enum_loop-hit e rounds i rest w left (v, read, same, start, builtin, id, type, sign, value) =
        let at = aggregate_member_at-drop backend rat all i left RAggregateTypeId.enum cached in
        let stored = enum_value_at-number_at e.builtin w.memory a ∙ read in
        rw at (
          rw (new_member-enum backend e.proxy rat enum) (
            rw (r_type_member_type-new_member glib backend e.proxy _ e.type e.kind type id) (
              rw (builtin_id-known e.type e.kind e.builtin start) (
                rw stored (
                  rw
                    (try-known e.proxy e.type e.kind e.value v builtin value
                      (take_type (take_member w)) js e.is_signed sign e.builtin w.memory a stored)
                    (rw same))))))

    enum_loop-miss :
        (e : Enumerator) (rounds i : ℕ) (rest : List TypeMemberPrx) (w : World)
        → drop i all ≡ e.proxy ∷ rest
        → Reads E e w.memory a false
        → enum_loop E js (suc rounds) rat a i w ≡ enum_loop E js rounds rat a (i + 1) (take_type w)
    unfolding enum_loop
    enum_loop-miss e rounds i rest w left (v, read, same, start, builtin, id, type, sign, value) =
        let at = aggregate_member_at-drop backend rat all i left RAggregateTypeId.enum cached in
        let stored = enum_value_at-number_at e.builtin w.memory a ∙ read in
        rw at (
          rw (new_member-enum backend e.proxy rat enum) (
            rw (r_type_member_type-new_member glib backend e.proxy _ e.type e.kind type id) (
              rw (builtin_id-known e.type e.kind e.builtin start) (
                rw stored (
                  rw
                    (try-known e.proxy e.type e.kind e.value v builtin value
                      (take_type (take_member w)) js e.is_signed sign e.builtin w.memory a stored)
                    (rw same (rw at refl)))))))

    enum_loop-encode :
        (before : List Enumerator) (e : Enumerator) (after : List TypeMemberPrx) (i : ℕ) (w : World)
        → drop i all ≡ enumerator_proxies before (e.proxy ∷ after)
        → AllMiss E before w.memory a
        → (found : Reads E e w.memory a true)
        → enum_loop E js (length (enumerator_proxies before (e.proxy ∷ after))) rat a i w
          ≡ done (some found.0) none (spend (cost (length before + 2) 1 0) w)
    enum_loop-encode [] e after i w left misses found =
        rw (enum_loop-hit e (length after) i after w left found)
          (ap (λ u. done (some found.0) none u) (spend-hit w))
    enum_loop-encode (x ∷ before) e after i w left (miss, misses) found =
        rw (enum_loop-miss x _ i (enumerator_proxies before (e.proxy ∷ after)) w left miss) (
          rw
            (enum_loop-encode before e after (i + 1) (take_type w) (drop-next i all left) misses
              found)
            (ap (λ u. done (some found.0) none u) (spend-miss (length before) w)))

  -- An enumeration becomes the integer in memory. For each enumerator that is looked at a reference to
  -- its type is left taken, and for the one that matches one more and a reference to the member.
  pub enum-encode :
      (flags : ℕ) (js : State E) (before : List Enumerator) (e : Enumerator)
      (after : List TypeMemberPrx) (p : TypePrx) (r : ℕ) (name : Option RString) (a : Addr)
      (w : World)
      → Fits E flags (Shape.enumeration before e after) p w.memory a
      → json_serialize_enum E js (new_object p TypeId.enum r name) a w
        ≡ done
            (encode E (Shape.enumeration before e after) w.memory a)
            none
            (spend (cost_of E (Shape.enumeration before e after) w.memory a) w)
  unfolding json_serialize_enum encode cost_of new_object
  enum-encode flags js before e after p r name a w (typed, members, misses, found) =
      let all = enumerator_proxies before (e.proxy ∷ after) in
      let rat = with_members backend p r name TypeId.enum RAggregateTypeId.enum all in
      rw (nmembers-new_object backend p r name TypeId.enum RAggregateTypeId.enum all refl members) (
        rw (enum_loop-encode js rat all refl refl a before e after 0 w refl misses found) (
          rw (found.1) (
            ap (λ u. done (some (jansson.integer found.0)) none u)
              (take_json-spend_enum (length before + 2) w))))
