-- ===== src/Process.antt =====
-- src/ruminate.cpp: ruminate_init and ruminate_destroy, which start the debugger and end it, with
-- include/private/ruminate.h.
--
-- What the system, GLib and Ice answer during one call is a record, Services or Closing; what the
-- library holds of the process is the Host.

pub mod Init
pub mod Owns
pub mod Ask
pub mod Close
use Prim.Native.String.{◌++◌}
use ruminate.Base.{
  ℕ, zero, suc, ◌+◌, String, Bool, true, false, Option, none, some, List, [], ◌∷◌, ◌==◌,
  if◌then◌else◌,
}
use ruminate.Base.Int.{ℤ, to_signed}
use ruminate.Errors.{
  GError, RuminateError, ruminate_error, Reply, returned, ice_exception, Call, ok, raised, aborted,
  crashed, gxx_call,
}
use ruminate.Backend.{Backend}
use ruminate.Port.{Read, PortRun, read_child_port}

-- Handles of Ice and numbers of the system.
abbrev pub Communicator : Type 0
Communicator = ℕ

abbrev pub DebuggerFactory : Type 0
DebuggerFactory = ℕ

-- The handles are none while they are NULL; child_pid is 0 until a child is started. The answer that is
-- waited for, arp, stands in the state of World.antt.
pub record Ruminate : Type 0 where
  pub communicator : Option Communicator
  pub factory : Option DebuggerFactory
  pub debugger : Option Backend
  pub child_pid : ℕ

-- DebuggerFactoryOptions of ice/debugger_factory.ice.
pub record DebuggerFactoryOptions : Type 0 where
  pub exename : String
  pub pid : ℤ
  pub breakpoint_address : ℤ

-- g_spawn_async_with_pipes: the child with the pipe from it.
pub data Spawned : Type 0 where
  spawned : (child_pid child_stdout : ℕ) → Spawned
  not_spawned : GError → Spawned

pub record Services : Type 0 where
  pub controller_path : String
  pub getenv : String → Option String
  pub get_prgname : Option String
  pub getpid : ℤ
  -- The address of ruminate_hit_breakpoint.
  pub hit_breakpoint : ℕ
  pub spawn : (argv : List String) → Spawned
  pub strerror : ℕ → String
  -- The results of read(2), and the number of rounds that read_child_port is followed for.
  pub read : (call count : ℕ) → Read
  pub rounds : ℕ
  pub initialize : (argv : List String) → (properties : List (String × String)) → Reply Communicator
  -- stringToProxy and checkedCast.
  pub connect : Communicator → String → Reply (Option DebuggerFactory)
  pub printf_d : ℤ → String
  pub create : DebuggerFactory → DebuggerFactoryOptions → Reply (Option Backend)
  -- The text of the exception that a call through a handle that is NULL throws.
  pub null_handle : String

pub record Closing : Type 0 where
  pub shutdown : DebuggerFactory → Reply (Unit {0})
  pub destroy : Communicator → Reply (Unit {0})
  -- Whether waitpid comes back, with the child or with an error.
  pub waitpid_returns : Bool
  pub closed_null : String

-- The static pointer, none while it is NULL; the children that have been started and that waitpid has not
-- come back for, the pipes from them that are open, the communicators that are not destroyed, and the handlers that atexit
-- has been given.
pub record Host : Type 0 where
  pub ruminate : Option Ruminate
  pub children : List ℕ
  pub pipes : List ℕ
  pub communicators : List Communicator
  pub exit_handlers : ℕ

-- A call returns a boolean, with an error that it has set or none, or fails an assertion, or waits for
-- ever, or is not followed to its end.
pub data Ended : Type 0 where
  ended : Bool → Option GError → Host → Ended
  assertion_failed blocked out_of_fuel : Ended

-- A method called through a handle.
abbrev pub through : {A B : Type 0} → String → Option A → (A → Reply B) → Reply B
through null_handle none f = ice_exception null_handle
through null_handle (some a) f = f a

abbrev pub remove_first : ℕ → List ℕ → List ℕ
remove_first n [] = []
remove_first n (m ∷ ms) = if m == n then ms else m ∷ remove_first n ms

abbrev pub blank : Ruminate
blank = record { communicator = none; factory = none; debugger = none; child_pid = 0 }

abbrev pub set_ruminate : Ruminate → Host → Host
set_ruminate r h = record h { ruminate = some r }

abbrev pub no_prgname_error : GError
no_prgname_error = ruminate_error RuminateError.no_prgname "Unable to determine executable name"

abbrev pub or_else : Option String → Option String → Option String
or_else none d = d
or_else (some s) d = some s

module _ (a : Services) where
  chosen_path : Option String → String
  chosen_path none = a.controller_path
  chosen_path (some path) = path

  -- The static function of that name; what follows it is below.
  unfoldable pub fork_child : Spawned
  unfolding chosen_path
  fork_child = a.spawn (chosen_path (a.getenv "RUMINATE_DEBUGGER_CONTROLLER") ∷ [])

  unfoldable pub setup_ice : String → Reply Communicator
  setup_ice prgname = a.initialize (prgname ∷ []) (("Ice.ACM.Client", "0") ∷ [])

  unfoldable pub create_factory : Communicator → ℤ → Reply (Option DebuggerFactory)
  create_factory c port =
      a.connect c ("DebuggerFactory:default -h 127.0.0.1 -p " ++ a.printf_d port)

  unfoldable pub create_debugger : String → Option DebuggerFactory → Call (Option Backend)
  create_debugger prgname factory = gxx_call (
      through a.null_handle factory (λ f. a.create f (record {
        exename = prgname;
        pid = a.getpid;
        breakpoint_address = to_signed 64 a.hit_breakpoint;
      })))

  -- ruminate_init from each of its steps on.
  pub with_debugger : Call (Option Backend) → Ruminate → Host → Ended
  with_debugger (ok d) r h =
      ended true none (record (set_ruminate (record r { debugger = d }) h) {
        exit_handlers = h.exit_handlers + 1;
      })
  with_debugger (raised e) r h = ended false (some e) (set_ruminate r h)
  with_debugger _ r h = assertion_failed

  pub with_factory : String → Call (Option DebuggerFactory) → Ruminate → Host → Ended
  unfolding with_debugger
  with_factory prgname (ok f) r h =
      with_debugger (create_debugger prgname f) (record r { factory = f }) h
  with_factory prgname (raised e) r h = ended false (some e) (set_ruminate r h)
  with_factory prgname _ r h = assertion_failed

  pub with_ice : String → ℤ → Call Communicator → Ruminate → Host → Ended
  unfolding with_factory
  with_ice prgname port (ok c) r h =
      with_factory prgname (gxx_call (create_factory c port)) (record r { communicator = some c })
        (record h { communicators = c ∷ h.communicators })
  with_ice prgname port (raised e) r h = ended false (some e) (set_ruminate r h)
  with_ice prgname port _ r h = assertion_failed

  -- read_child_port closes the pipe where it returns the port.
  pub with_port : String → PortRun → (child_stdout : ℕ) → Ruminate → Host → Ended
  unfolding with_ice
  with_port prgname (PortRun.port n) child_stdout r h =
      with_ice prgname n (gxx_call (setup_ice prgname)) r
        (record h { pipes = remove_first child_stdout h.pipes })
  with_port prgname (PortRun.raised e) child_stdout r h = ended false (some e) (set_ruminate r h)
  with_port prgname PortRun.assertion_failed child_stdout r h = Ended.assertion_failed
  with_port prgname PortRun.out_of_fuel child_stdout r h = Ended.out_of_fuel

  pub with_child : String → Spawned → Host → Ended
  unfolding with_port
  with_child prgname (spawned pid child_stdout) h =
      with_port prgname (read_child_port a.strerror a.read a.rounds) child_stdout
        (record blank { child_pid = pid })
        (record h { children = pid ∷ h.children; pipes = child_stdout ∷ h.pipes })
  with_child prgname (not_spawned e) h = ended false (some e) (set_ruminate blank h)

  pub with_prgname : Option String → Host → Ended
  unfolding with_child
  with_prgname none h = ended false (some no_prgname_error) (set_ruminate blank h)
  with_prgname (some prgname) h = with_child prgname fork_child h

  pub unless_set : Option Ruminate → Option String → Host → Ended
  unfolding with_prgname
  unless_set (some r) prgname h = ended true none h
  unless_set none prgname h = with_prgname (or_else prgname a.get_prgname) h

  unfoldable pub ruminate_init : (prgname : Option String) → Host → Ended
  unfolding unless_set
  ruminate_init prgname h = unless_set h.ruminate prgname h

-- The error that is set first stays.
abbrev pub error_of : {A : Type 0} → Call A → Option GError
error_of (raised e) = some e
error_of _ = none

abbrev pub first_error : Option GError → Option GError → Option GError
first_error none e = e
first_error (some d) e = some d

-- The communicators that are left.
abbrev pub after_destroy :
    Option Communicator → Call (Unit {0}) → List Communicator → List Communicator
after_destroy (some c) (ok u) cs = remove_first c cs
after_destroy _ _ cs = cs

-- waitpid of 0 is for any child.
abbrev pub reap : ℕ → List ℕ → List ℕ
reap zero [] = []
reap zero (p ∷ ps) = ps
reap (suc n) ps = remove_first (suc n) ps

module _ (c : Closing) where
  pub close_down : Option Ruminate → Host → Ended
  close_down none h = ended true none h
  close_down (some r) h =
      let stopped = gxx_call (through c.closed_null r.factory c.shutdown) in
      let destroyed = gxx_call (through c.closed_null r.communicator c.destroy) in
      if c.waitpid_returns
      then ended true (first_error (error_of stopped) (error_of destroyed)) (record h {
        ruminate = none;
        children = reap r.child_pid h.children;
        communicators = after_destroy r.communicator destroyed h.communicators;
      })
      else blocked

  -- It returns true whatever it has met. ruminate_destroy_atexit is this call.
  unfoldable pub ruminate_destroy : Host → Ended
  unfolding close_down
  ruminate_destroy h = close_down h.ruminate h
