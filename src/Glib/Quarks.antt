-- ===== src/Glib/Quarks.antt =====
-- Quarks of texts: GLib gives the same to equal texts only.
use text.Mathlib.Text.{◌==◌ as str_eq}
use text.Mathlib.TextEquality.{eq_iff}
use ruminate.Base.{String, ◌≡◌, ap, true, false, Bool-cases, inl, inr, ◌==◌, ==_iff}
use ruminate.Glib.{Glib}

module _ (G : Glib) where
  other_quark :
      (s t : String) → str_eq s t ≡ false → (G.quark_from_string s == G.quark_from_string t) ≡ false
  other_quark s t ne = elim (Bool-cases (G.quark_from_string s == G.quark_from_string t)) [
    | inl y ↦
        let same : s ≡ t =
          G.quark_injective s t ((==_iff (G.quark_from_string s) (G.quark_from_string t)).0 y) in
        let eq : str_eq s t ≡ true = (eq_iff s t).1 same in cc
    | inr n ↦ n
  ]

  pub quark-str_eq : (s t : String) → (G.quark_from_string s == G.quark_from_string t) ≡ str_eq s t
  quark-str_eq s t = elim (Bool-cases (str_eq s t)) [
    | inl y ↦ rw y (
        (==_iff (G.quark_from_string s) (G.quark_from_string t)).1
          (ap G.quark_from_string ((eq_iff s t).0 y)))
    | inr ne ↦ rw ne (other_quark s t ne)
  ]
