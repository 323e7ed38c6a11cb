-- ===== src/Process/Ask.antt =====
-- The questions of src/ruminate.cpp after ruminate_init, where it has failed and where it has not.
use mathlib.Core.Path.{subst}
use ruminate.Base.{ℕ, String, ◌≡◌, refl, ap, true, false, Option, none, some, length, get_elem?}
use ruminate.Base.Int.{ℤ, to_signed}
use ruminate.Errors.{
  GError, RuminateError, ruminate_error, Reply, returned, ice_exception, std_exception,
  other_exception, Call, ok, raised, aborted, ◌>>=◌, gxx_call,
}
use ruminate.Backend.{FrameList, Backend}
use ruminate.Frame.{RFrameList, r_frame_list_size, r_frame_list_at}
use ruminate.Frame.Count.{copy_of, r_frame_list_at-r_frame_list_new}
use ruminate.Lookup.{
  remote_call, ruminate_get_function_name, end_backtrace, end_through, ruminate_backtrace,
}
use ruminate.Port.{read_child_port}
use ruminate.Process.{Ruminate, Services, Host, ended, unless_set, ruminate_init}
use ruminate.Process.Init.{
  read_result, IsStuck, IsConnected, Reports, connection, ruminate_init-connection, Reports-raised,
  Reports-ok,
}
use ruminate.RString.{r_string_new_cxx}

abbrev pub null_error : String → GError
null_error null_handle = ruminate_error RuminateError.ice null_handle

-- A library whose state is set is not set up again.
set-init :
    (a : Services) (prgname : Option String) (h : Host) (r : Ruminate)
    → h.ruminate ≡ some r
    → ruminate_init a prgname h ≡ ended true none h
unfolding ruminate_init unless_set
set-init a prgname h r is = ap (λ o. unless_set a o prgname h) is

-- The call stack for an answer of the debugger's second half.
abbrev pub Traces : Reply FrameList → ℕ → Call RFrameList → Type 0
Traces (returned fl) i (ok list) =
    (r_frame_list_size list ≡ length fl) × (r_frame_list_at list i ≡ copy_of (get_elem? fl i))
Traces (returned fl) i _ = ⊥
Traces _ i c = c ≡ aborted

end-Traces : (r : Reply FrameList) (i : ℕ) → Traces r i (end_backtrace r)
unfolding end_backtrace
end-Traces (returned fl) i = r_frame_list_at-r_frame_list_new fl i
end-Traces (ice_exception text) i = refl
end-Traces (std_exception text) i = refl
end-Traces other_exception i = refl

module _ (null_handle : String) (h : Host) where
  stuck-get_function_name :
      (addr : ℕ)
      → IsStuck h
      → ruminate_get_function_name null_handle h addr ≡ raised (null_error null_handle)
  unfolding ruminate_get_function_name remote_call gxx_call
  stuck-get_function_name addr (r, is, no_debugger) = rw is (rw no_debugger refl)

  connected-get_function_name :
      (addr : ℕ) (d : Backend)
      → IsConnected h (some d)
      → ruminate_get_function_name null_handle h addr ≡ (
          gxx_call (d.get_function_name (to_signed 64 addr)) >>= λ name. ok (r_string_new_cxx name))
  unfolding ruminate_get_function_name remote_call
  connected-get_function_name addr d (r, is, debugger) = rw is (rw debugger refl)

  -- Where the library is connected and the debugger has begun with a backtrace: if it gives a stack in
  -- the end, ruminate_backtrace returns a list of that size, with a new copy of each frame at its place
  -- and nothing past the end; if it throws an exception instead, the program is ended.
  pub ruminate_backtrace-Traces :
      (d : Backend) (tid arp i : ℕ)
      → IsConnected h (some d)
      → d.begin_get_backtrace tid ≡ returned arp
      → Traces (d.end_get_backtrace arp) i (ruminate_backtrace null_handle h tid)
  unfolding ruminate_backtrace remote_call gxx_call end_through
  ruminate_backtrace-Traces d tid arp i (r, is, debugger) begun =
      rw is (rw debugger (rw begun (end-Traces (d.end_get_backtrace arp) i)))

module _ (a later : Services) (prgname again : Option String) (q : Call ℤ) (h : Host)
    (unset : h.ruminate ≡ none)
    (reads : read_result (read_child_port a.strerror a.read a.rounds) ≡ some q)
    (null_handle : String) (addr : ℕ) where
  -- Where the library is not set up, the reading of the port ends, and a step of the connection fails:
  -- ruminate_init returns false with that error. From then on ruminate_init returns true, whatever it is
  -- given, and does nothing, while the name of a function is answered with the error of a handle that is
  -- NULL.
  pub ruminate_init-failed :
      (e : GError)
      → connection a prgname q ≡ raised e
      → (stuck : Host) × (ruminate_init a prgname h ≡ ended false (some e) stuck)
        × (ruminate_init later again stuck ≡ ended true none stuck)
        × (ruminate_get_function_name null_handle stuck addr ≡ raised (null_error null_handle))
  ruminate_init-failed e fails =
      let (stuck, is, r) = Reports-raised (ruminate_init a prgname h) e (
        subst (Reports (ruminate_init a prgname h)) fails
          (ruminate_init-connection a prgname q h unset reads)) in
      (
        stuck,
        is,
        set-init later again stuck r.0 r.1,
        stuck-get_function_name null_handle stuck addr r,
      )

  -- Where the library is not set up, the reading of the port ends, and no step of the connection
  -- fails, the last one giving a debugger that is not NULL: ruminate_init returns true and sets no
  -- error. From then on ruminate_init does nothing, and the name of a function is what that
  -- debugger answers for the address as a signed number, or its error.
  pub ruminate_init-connected :
      (d : Backend)
      → connection a prgname q ≡ ok (some d)
      → (connected : Host) × (ruminate_init a prgname h ≡ ended true none connected)
        × (ruminate_init later again connected ≡ ended true none connected)
        × (ruminate_get_function_name null_handle connected addr ≡ (
            gxx_call (d.get_function_name (to_signed 64 addr)) >>= λ name.
            ok (r_string_new_cxx name)))
  ruminate_init-connected d succeeds =
      let (connected, is, r) = Reports-ok (ruminate_init a prgname h) (some d) (
        subst (Reports (ruminate_init a prgname h)) succeeds
          (ruminate_init-connection a prgname q h unset reads)) in
      (
        connected,
        is,
        set-init later again connected r.0 r.1,
        connected-get_function_name null_handle connected addr d r,
      )
