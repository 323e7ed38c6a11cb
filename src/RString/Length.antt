-- ===== src/RString/Length.antt =====
-- The ways to make a string of src/string.cpp.
use Prim.Native.Char.{code}
use ruminate.Base.{
  ◌^◌, ◌≤◌, ◌<◌, String, ◌≡◌, refl, ap, none, some, ◌==◌, arith, Bool-cases, inl, inr, size, front,
}
use ruminate.Errors.{ok}
use ruminate.Glib.{Glib}
use ruminate.RString.{
  RString, r_string_new_cxx, c_str, r_string_bytes, r_string_new_len, r_string_new, r_string_length,
}

front-size : (s : String) → front (size s) s ≡ s
unfolding front size
front-size String.[] = refl
front-size (String.◌∷◌ c s) = ap (String.◌∷◌ c) (front-size s)

front-c_str : (s : String) → front (size (c_str s)) s ≡ c_str s
unfolding front size c_str
front-c_str String.[] = refl
front-c_str (String.◌∷◌ c s) = elim (Bool-cases (code c == 0)) [
  | inl nul ↦ rw nul refl
  | inr other ↦ rw other (ap (String.◌∷◌ c) (front-c_str s))
]

c_str-c_str : (s : String) → c_str (c_str s) ≡ c_str s
unfolding c_str
c_str-c_str String.[] = refl
c_str-c_str (String.◌∷◌ c s) = elim (Bool-cases (code c == 0)) [
  | inl nul ↦ rw nul refl
  | inr other ↦ rw other (rw other (ap (String.◌∷◌ c) (c_str-c_str s)))
]

size-c_str : (s : String) → size (c_str s) ≤ size s
unfolding size c_str
size-c_str String.[] = omega arith
size-c_str (String.◌∷◌ c s) = elim (Bool-cases (code c == 0)) [
  | inl nul ↦ rw nul (omega arith)
  | inr other ↦ rw other (omega (arith, size-c_str s))
]

-- r_string_new_cxx gives r_string_new_len the bytes and the size of its std::string, and that copies
-- them all: a std::string has fewer than 2 ^ 63 bytes.
r_string_new_len-r_string_new_cxx :
    (G : Glib) (s : String) → size s < 2 ^ 63 → r_string_new_len G s (size s) ≡ r_string_new_cxx s
unfolding r_string_new_len r_string_new_cxx
r_string_new_len-r_string_new_cxx G s h =
    rw (G.new_len-front s (size s) (omega arith) h) (rw (front-size s) refl)

-- A C string is copied up to its NUL, and has the bytes that the std::string has.
r_string_new-c_str :
    (G : Glib) (s : String)
    → size s < 2 ^ 63
    → (rs : RString) × (r_string_new G (some s) ≡ ok rs)
      × (r_string_length rs ≡ size (c_str s))
      × (r_string_bytes rs ≡ r_string_bytes (r_string_new_cxx s))
unfolding r_string_new_len r_string_new_cxx r_string_length r_string_new r_string_bytes
r_string_new-c_str G s h =
    let fits : size (c_str s) ≤ size s = size-c_str s in
    let shorter : size (c_str s) < 2 ^ 63 = omega arith in
    (
      record { gstr = c_str s; quark = none; refcnt = 1 },
      rw (G.new_len-front s (size (c_str s)) fits shorter) (rw (front-c_str s) refl),
      refl,
      c_str-c_str s,
    )
