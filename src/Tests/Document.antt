-- ===== src/Tests/Document.antt =====
-- A jansson to test with: JSON documents as trees.
use text.Mathlib.Text.{◌==◌ as str_eq}
use text.Mathlib.TextEquality.{eq_iff}
use mathlib.Core.Path.{subst}
use mathlib.Core.Option.{some-injective}
use ruminate.Base.{
  true, false, ℕ, zero, suc, String, ◌≡◌, refl, ◌≢◌, Bool, Option, none, some, arith, if◌then◌else◌,
}
use ruminate.Base.Int.{ℤ}
use ruminate.Jansson.{Jansson}

mutual
  pub data Document : Type 0 where
    null : Document
    integer : ℤ → Document
    real : ℕ → Document
    boolean : Bool → Document
    string : String → Document
    array : Items → Document
    object : Fields → Document

  pub data Items : Type 0 where
    no_items : Items
    item : Document → Items → Items

  pub data Fields : Type 0 where
    no_fields : Fields
    field : String → Document → Fields → Fields

abbrev field_get : Fields → String → Option Document
field_get no_fields k = none
field_get (field j v fs) k = if str_eq j k then some v else field_get fs k

abbrev field_set : Fields → String → Document → Fields
field_set no_fields k v = field k v no_fields
field_set (field j w fs) k v = if str_eq j k then field k v fs else field j w (field_set fs k v)

field_get-field_set_self :
    (fs : Fields) (k : String) (v : Document) → field_get (field_set fs k v) k ≡ some v
field_get-field_set_self no_fields k v = ground (arith, eq_iff k k)
field_get-field_set_self (field j w fs) k v =
    ground (arith, eq_iff k k, eq_iff j k, field_get-field_set_self fs k v)

field_get-field_set_ne :
    (fs : Fields) (k j : String) (v : Document)
    → k ≢ j
    → field_get (field_set fs k v) j ≡ field_get fs j
field_get-field_set_ne no_fields k j v ne = ground (arith, eq_iff k j)
field_get-field_set_ne (field i w fs) k j v ne =
    ground (arith, eq_iff k j, eq_iff i k, eq_iff i j, field_get-field_set_ne fs k j v ne)

abbrev document_set : Document → String → Document → Option Document
document_set (object fs) k v = some (object (field_set fs k v))
document_set _ k v = none

abbrev document_get : Document → String → Option Document
document_get (object fs) k = field_get fs k
document_get _ k = none

abbrev item_append : Items → Document → Items
item_append no_items v = item v no_items
item_append (item d xs) v = item d (item_append xs v)

abbrev document_append : Document → Document → Option Document
document_append (array xs) v = some (array (item_append xs v))
document_append _ v = none

abbrev item_get : Items → ℕ → Option Document
item_get no_items i = none
item_get (item d xs) zero = some d
item_get (item d xs) (suc i) = item_get xs i

abbrev document_item : Document → ℕ → Option Document
document_item (array xs) i = item_get xs i
document_item _ i = none

abbrev item_count : Items → ℕ
item_count no_items = 0
item_count (item d xs) = suc (item_count xs)

abbrev document_size : Document → ℕ
document_size (array xs) = item_count xs
document_size _ = 0

abbrev IsObjectDocument : Document → Type 0
IsObjectDocument (object fs) = Unit
IsObjectDocument _ = ⊥

abbrev IsArrayDocument : Document → Type 0
IsArrayDocument (array xs) = Unit
IsArrayDocument _ = ⊥

pub set_succeeds :
    (o v : Document) (k : String)
    → IsObjectDocument o
    → (o' : Document) × (document_set o k v ≡ some o') × IsObjectDocument o'
set_succeeds (object fs) v k h = (object (field_set fs k v), refl, tt)
set_succeeds null v k h = absurd h
set_succeeds (integer n) v k h = absurd h
set_succeeds (real n) v k h = absurd h
set_succeeds (boolean b) v k h = absurd h
set_succeeds (string s) v k h = absurd h
set_succeeds (array xs) v k h = absurd h

pub append_succeeds :
    (a v : Document)
    → IsArrayDocument a
    → (a' : Document) × (document_append a v ≡ some a') × IsArrayDocument a'
append_succeeds (array xs) v h = (array (item_append xs v), refl, tt)
append_succeeds null v h = absurd h
append_succeeds (integer n) v h = absurd h
append_succeeds (real n) v h = absurd h
append_succeeds (boolean b) v h = absurd h
append_succeeds (string s) v h = absurd h
append_succeeds (object fs) v h = absurd h

pub get-set_self :
    (o v o' : Document) (k : String) → document_set o k v ≡ some o' → document_get o' k ≡ some v
get-set_self (object fs) v o' k e =
    subst (λ d. document_get d k ≡ some v) (some-injective _ _ e) (field_get-field_set_self fs k v)
get-set_self null v o' k e = cc
get-set_self _ v o' k e = cc

pub get-set_ne :
    (o v o' : Document) (k j : String)
    → k ≢ j
    → document_set o k v ≡ some o'
    → document_get o' j ≡ document_get o j
get-set_ne (object fs) v o' k j ne e =
    subst (λ d. document_get d j ≡ field_get fs j) (some-injective _ _ e)
      (field_get-field_set_ne fs k j v ne)
get-set_ne null v o' k j ne e = cc
get-set_ne _ v o' k j ne e = cc

abbrev document_integer : Option Document → ℤ
document_integer (some (integer v)) = v
document_integer _ = ℤ.pos 0

abbrev document_real : Option Document → ℕ
document_real (some (real n)) = n
document_real _ = 0

abbrev document_true : Option Document → Bool
document_true (some (boolean b)) = b
document_true _ = false

abbrev document_null : Option Document → Bool
document_null (some null) = true
document_null _ = false

abbrev document_text : Option Document → Option String
document_text (some (string s)) = some s
document_text _ = none

pub real_value-real : (n : ℕ) (j : Document) → some (real n) ≡ some j → document_real (some j) ≡ n
real_value-real n j e = subst (λ d. document_real (some d) ≡ n) (some-injective _ _ e) refl

abbrev pub documents : Jansson
documents = record {
  Json = Document;
  null = null;
  integer = integer;
  real = λ bits. some (real bits);
  boolean = boolean;
  string = string;
  object = object no_fields;
  object_set = document_set;
  object_get = document_get;
  array = array no_items;
  array_append = document_append;
  array_get = document_item;
  array_size = document_size;
  IsObject = IsObjectDocument;
  IsArray = IsArrayDocument;
  object-IsObject = tt;
  array-IsArray = tt;
  object_get-object = λ k. refl;
  object_set_succeeds = set_succeeds;
  object_get-object_set_self = get-set_self;
  object_get-object_set_ne = get-set_ne;
  array_append_succeeds = append_succeeds;
  integer_value = document_integer;
  real_value = document_real;
  is_true = document_true;
  is_null = document_null;
  string_value = document_text;
  integer_value-integer = λ n h. refl;
  real_value-real = real_value-real;
  is_true-boolean = λ b. refl;
  is_null-null = refl;
  string_value-string = λ s. refl;
}
