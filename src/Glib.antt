-- ===== src/Glib.antt =====
-- What the library uses of GLib, as parameters: quarks and the atomic counters behind the reference
-- counts (a gint, here its bit pattern of 32 bits), with what GLib documents of them.
pub mod Quarks
use ruminate.Base.{ℕ, ◌+◌, ◌-◌, ◌^◌, ◌<◌, ◌≤◌, size, front, String, ◌≡◌, Bool, ◌==◌}

pub record Glib : Type 0 where
  pub quark_from_string : String → ℕ
  pub atomic_int_inc : ℕ → ℕ
  -- The new count, and whether it is zero.
  pub atomic_int_dec_and_test : ℕ → ℕ × Bool
  -- g_string_new_len, whose length is that of the C string where it is negative as a gssize.
  pub string_new_len : String → (len : ℕ) → String
  pub new_len-front :
      (s : String) (len : ℕ) → len ≤ size s → len < 2 ^ 63 → string_new_len s len ≡ front len s
  -- Two strings have the same quark only if they are the same string.
  pub quark_injective : (s t : String) → quark_from_string s ≡ quark_from_string t → s ≡ t
  pub inc_adds : (n : ℕ) → n + 1 < 2 ^ 31 → atomic_int_inc n ≡ n + 1
  pub dec_subtracts :
      (n : ℕ) → 0 < n → n < 2 ^ 31 → atomic_int_dec_and_test n ≡ (n - 1, (n - 1) == 0)
