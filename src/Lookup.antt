-- ===== src/Lookup.antt =====
-- The questions of src/ruminate.cpp for types and functions by their names and addresses, and for the
-- call stack.
use ruminate.Base.{ℕ, String, Option, none, some, List, [], ◌∷◌}
use ruminate.Base.Int.{to_signed}
use ruminate.Errors.{Reply, returned, Call, ok, aborted, crashed, ◌>>=◌, gxx_call}
use ruminate.Frame.{RFrameList, r_frame_list_new}
use ruminate.Process.{Ruminate, Host, through}
use ruminate.RString.{RString, r_string_new_cxx}
use ruminate.Backend.{TypePrx, FrameList, Backend}
use ruminate.RType.{RType, r_type_new}

module _ (B : Backend) where
  -- An error gives back the types that were made before it.
  unfoldable pub types_of : List TypePrx → Call (List RType)
  types_of [] = ok []
  types_of (t ∷ ts) =
      let rest = types_of ts in do type ← r_type_new B t; types ← rest; ok (type ∷ types)

  -- The name is made a std::string, which may not be of NULL.
  unfoldable pub ruminate_get_types_by_name : Option String → Call (List RType)
  ruminate_get_types_by_name none = crashed
  ruminate_get_types_by_name (some name) = gxx_call (B.get_types_by_name name) >>= types_of

-- The second half is called without gxx_call, and an exception ends a function that is noexcept.
unfoldable pub end_backtrace : Reply FrameList → Call RFrameList
end_backtrace (returned fl) = ok (r_frame_list_new fl)
end_backtrace _ = aborted

-- The questions go through `ruminate` and its debugger, each of which may be NULL.
module _ (null_handle : String) (h : Host) where
  unfoldable pub remote_call : {A : Type 0} → Option Ruminate → (Backend → Reply A) → Call A
  remote_call none f = crashed
  remote_call (some r) f = gxx_call (through null_handle r.debugger f)

  unfoldable pub ruminate_get_function_name : (addr : ℕ) → Call RString
  unfolding remote_call
  ruminate_get_function_name addr = do
    name ← remote_call h.ruminate (λ B. B.get_function_name (to_signed 64 addr))
    ok (r_string_new_cxx name)

  unfoldable pub end_through : Option Ruminate → (arp : ℕ) → Call RFrameList
  unfolding end_backtrace
  end_through none arp = crashed
  end_through (some r) arp =
      end_backtrace (through null_handle r.debugger (λ B. B.end_get_backtrace arp))

  unfoldable pub ruminate_backtrace : (tid : ℕ) → Call RFrameList
  unfolding remote_call end_through
  ruminate_backtrace tid = do
    arp ← remote_call h.ruminate (λ B. B.begin_get_backtrace tid)
    end_through h.ruminate arp
