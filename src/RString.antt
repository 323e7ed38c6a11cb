-- ===== src/RString.antt =====
-- src/string.cpp: reference counted strings, which remember the quark of their text. A text stands for
-- the bytes of a C string or a std::string, a character for each byte.
pub mod Length
use Prim.Native.Char.{code}
use ruminate.Base.{ℕ, String, size, ◌==◌, Option, none, some, if◌then◌else◌}
use ruminate.Errors.{Call, ok, crashed}
use ruminate.Glib.{Glib}

-- `quark` is none until it is initialised.
pub record RString : Type 0 where
  pub gstr : String
  pub quark : Option ℕ
  pub refcnt : ℕ

-- r_string_new_len of all the bytes of a std::string (RString/Length): they are fewer than 2 ^ 63, and
-- g_string_new_len copies them.
unfoldable pub r_string_new_cxx : String → RString
r_string_new_cxx init = record { gstr = init; quark = none; refcnt = 1 }

-- What a C string keeps of a text: all before the first NUL.
unfoldable pub c_str : String → String
c_str String.[] = ""
c_str (String.◌∷◌ c s) = if code c == 0 then "" else String.◌∷◌ c (c_str s)

unfoldable pub r_string_bytes : RString → String
unfolding c_str
r_string_bytes rs = c_str rs.gstr

-- In bytes.
unfoldable pub r_string_length : RString → ℕ
r_string_length rs = size rs.gstr

module _ (G : Glib) where
  unfoldable pub r_string_new_len : String → ℕ → RString
  r_string_new_len init len = record { gstr = G.string_new_len init len; quark = none; refcnt = 1 }

  -- strlen may not be given NULL.
  unfoldable pub r_string_new : Option String → Call RString
  r_string_new none = crashed
  r_string_new (some init) = ok (r_string_new_len init (size (c_str init)))

  unfoldable pub r_string_ref : RString → RString
  r_string_ref rs = record rs { refcnt = G.atomic_int_inc rs.refcnt }

  -- `none` is a freed string.
  unfoldable pub r_string_unref : RString → Option RString
  r_string_unref rs =
      let (n, last) = G.atomic_int_dec_and_test rs.refcnt in
      if last then none else some (record rs { refcnt = n })

  remember_quark : RString → Option ℕ → RString × ℕ
  unfolding c_str
  remember_quark rs (some q) = (rs, q)
  remember_quark rs none =
      let q = G.quark_from_string (c_str rs.gstr) in (record rs { quark = some q }, q)

  unfoldable pub r_string_quark : RString → RString × ℕ
  unfolding remember_quark
  r_string_quark rs = remember_quark rs rs.quark
