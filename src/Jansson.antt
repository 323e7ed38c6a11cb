-- ===== src/Jansson.antt =====
-- The JSON library jansson, as a parameter, with what it documents of the calls that are used. A
-- value is what a json_t points to; its reference count is in the state (World.antt). `real` takes the
-- bit pattern of a double, and gives NULL for one that JSON cannot express.
use ruminate.Base.{ℕ, ◌<◌, ◌^◌, String, Bool, true, Option, none, some, ◌≡◌, ◌≢◌}
use ruminate.Base.Int.{ℤ, to_signed}
use ruminate.RString.{c_str}

pub record Jansson : Type 1 where
  pub Json : Type 0
  pub null : Json
  pub integer : ℤ → Json
  pub real : ℕ → Option Json
  pub boolean : Bool → Json
  pub string : String → Json
  pub object : Json
  pub object_set : Json → String → Json → Option Json
  pub object_get : Json → String → Option Json
  pub array : Json
  pub array_append : Json → Json → Option Json
  pub array_get : Json → ℕ → Option Json
  pub array_size : Json → ℕ
  pub IsObject : Json → Type 0
  pub IsArray : Json → Type 0
  pub object-IsObject : IsObject object
  pub array-IsArray : IsArray array
  pub object_get-object : (k : String) → object_get object k ≡ none
  pub object_set_succeeds :
      (o v : Json) (k : String)
      → IsObject o
      → (o' : Json) × (object_set o k v ≡ some o') × IsObject o'
  pub object_get-object_set_self :
      (o v o' : Json) (k : String) → object_set o k v ≡ some o' → object_get o' k ≡ some v
  pub object_get-object_set_ne :
      (o v o' : Json) (k j : String)
      → k ≢ j
      → object_set o k v ≡ some o'
      → object_get o' j ≡ object_get o j
  pub array_append_succeeds :
      (a v : Json) → IsArray a → (a' : Json) × (array_append a v ≡ some a') × IsArray a'
  -- The readers that are given any json_t *, NULL too, and answer 0 or false for one of another kind.
  -- A json_int_t has 64 bits.
  pub integer_value : Option Json → ℤ
  pub real_value : Option Json → ℕ
  pub is_true : Option Json → Bool
  pub is_null : Option Json → Bool
  pub string_value : Option Json → Option String
  pub integer_value-integer :
      (n : ℕ) → n < 2 ^ 64 → integer_value (some (integer (to_signed 64 n))) ≡ to_signed 64 n
  pub real_value-real : (n : ℕ) (j : Json) → real n ≡ some j → real_value (some j) ≡ n
  pub is_true-boolean : (b : Bool) → is_true (some (boolean b)) ≡ b
  pub is_null-null : is_null (some null) ≡ true
  -- The text of a C string.
  pub string_value-string : (s : String) → string_value (some (string (c_str s))) ≡ some (c_str s)
