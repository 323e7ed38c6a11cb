-- ===== src/Tests/Quarks.antt =====
-- A GLib to test with: a quark is the number whose digits are the characters of the text.
use Prim.Native.Char.{Char, char, code, IsScalar}
use text.Mathlib.TextEquality.{Char-path}
use ruminate.Base.{front, ℕ, ◌+◌, ◌-◌, ◌*◌, ◌^◌, ◌<◌, String, ◌≡◌, refl, arith, ◌==◌}
use ruminate.Glib.{Glib}

abbrev quark_of : String → ℕ
quark_of String.[] = 0
quark_of (String.◌∷◌ c s) = 1 + code c + 2 ^ 21 * quark_of s

IsScalar-lt : (n : ℕ) → IsScalar n → n < 2 ^ 21
IsScalar-lt n h = ground arith

code-lt : (c : Char) → code c < 2 ^ 21
code-lt (char n h) = IsScalar-lt n h

pub quark_of-injective : (s t : String) → quark_of s ≡ quark_of t → s ≡ t
quark_of-injective String.[] String.[] h = refl
quark_of-injective String.[] (String.◌∷◌ d t) h = absurd (omega arith)
quark_of-injective (String.◌∷◌ c s) String.[] h = absurd (omega arith)
quark_of-injective (String.◌∷◌ c s) (String.◌∷◌ d t) h =
    let heads : code c ≡ code d = omega (arith, code-lt c, code-lt d) in
    let tails : quark_of s ≡ quark_of t = omega (arith, code-lt c, code-lt d) in
    λ i. String.◌∷◌ (Char-path c d heads i) (quark_of-injective s t tails i)

abbrev pub counters : Glib
counters = record {
  quark_from_string = quark_of;
  atomic_int_inc = λ n. n + 1;
  atomic_int_dec_and_test = λ n. (n - 1, (n - 1) == 0);
  string_new_len = λ s n. front n s;
  new_len-front = λ s n h k. refl;
  quark_injective = quark_of-injective;
  inc_adds = λ n h. refl;
  dec_subtracts = λ n p h. refl;
}
