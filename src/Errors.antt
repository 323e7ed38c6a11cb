-- ===== src/Errors.antt =====
-- include/ruminate/errors.h, src/errors.c, src/common.cpp and the macro gxx_call of
-- include/private/common.h: how a failure of a call is reported.
use Prim.Native.String.{◌++◌}
use ruminate.Base.{ℕ, String, Option, none, some}

-- The enumeration RuminateError.
pub data RuminateError : Type 0 where
  sb_invalid lldb_error range no_primitive_type invalid_type incomplete_type : RuminateError
  ice stdlib short_read no_prgname unimplemented unspec : RuminateError

-- The value of each enumerator.
abbrev pub error_code : RuminateError → ℕ
error_code RuminateError.sb_invalid = 0
error_code RuminateError.lldb_error = 1
error_code RuminateError.range = 2
error_code RuminateError.no_primitive_type = 3
error_code RuminateError.invalid_type = 4
error_code RuminateError.incomplete_type = 5
error_code RuminateError.ice = 6
error_code RuminateError.stdlib = 7
error_code RuminateError.short_read = 8
error_code RuminateError.no_prgname = 9
error_code RuminateError.unimplemented = 10
error_code RuminateError.unspec = 11

-- A GError. The domain is the text of its quark.
pub record GError : Type 0 where
  pub domain : String
  pub code : ℕ
  pub message : String

abbrev pub ruminate_errno_quark : String
ruminate_errno_quark = "ruminate-errno-quark"

abbrev pub ruminate_error_quark : String
ruminate_error_quark = "ruminate-error-quark"

abbrev pub ruminate_error : RuminateError → String → GError
ruminate_error e m = record { domain = ruminate_error_quark; code = error_code e; message = m }

-- `strerror` is GLib's g_strerror.
unfoldable pub r_perror :
    (strerror : ℕ → String) → (saved_errno : ℕ) → (prefix : Option String) → GError
r_perror strerror saved_errno none = record {
  domain = ruminate_errno_quark;
  code = saved_errno;
  message = strerror saved_errno;
}
r_perror strerror saved_errno (some prefix) = record {
  domain = ruminate_errno_quark;
  code = saved_errno;
  message = prefix ++ ": " ++ strerror saved_errno;
}

abbrev pub unimplemented_error : GError
unimplemented_error = ruminate_error RuminateError.unimplemented "Operation not supported"

-- What a remote call gives: a value, or a C++ exception with its text.
pub data Reply (A : Type 0) : Type 0 where
  returned : A → Reply A
  ice_exception std_exception : String → Reply A
  other_exception : Reply A

-- The outcome of a C function that reports through a GError **: `ok` returns a value and sets no
-- error, `raised` returns NULL, 0 or false and sets the error. An `aborted` run met a g_assert or a
-- g_assert_not_reached, or let an exception out of a function that is noexcept; a `crashed` one read through NULL or through a handle of another type.
pub data Call (A : Type 0) : Type 0 where
  ok : A → Call A
  raised : GError → Call A
  aborted crashed : Call A

infixl 5 ◌>>=◌ ◌>>◌
abbrev pub ◌>>=◌ : {A B : Type 0} → Call A → (A → Call B) → Call B
ok a >>= f = f a
raised e >>= f = raised e
aborted >>= f = aborted
crashed >>= f = crashed

abbrev pub ◌>>◌ : {A B : Type 0} → Call A → Call B → Call B
m >> k = m >>= λ _. k

unfoldable pub gxx_call : {A : Type 0} → Reply A → Call A
gxx_call (returned a) = ok a
gxx_call (ice_exception text) = raised (ruminate_error RuminateError.ice text)
gxx_call (std_exception text) = raised (ruminate_error RuminateError.stdlib text)
gxx_call other_exception = raised (ruminate_error RuminateError.unspec "Unspecified error")
