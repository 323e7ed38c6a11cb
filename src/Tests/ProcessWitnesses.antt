-- ===== src/Tests/ProcessWitnesses.antt =====
-- The theorems on the start and the end of the debugger at concrete inputs.
use ruminate.Base.{
  ℕ, ◌+◌, ◌≡◌, refl, ap, true, false, none, some, [], ◌∷◌, arith, ◌==◌, if◌then◌else◌,
}
use ruminate.Base.Int.{pos, to_signed}
use ruminate.Errors.{
  GError, RuminateError, returned, other_exception, ok, raised, ◌>>=◌, gxx_call, r_perror,
  ruminate_error,
}
use ruminate.Lookup.{ruminate_get_function_name, ruminate_backtrace}
use ruminate.Port.{Read, got, failed, read_rounds, read_child_port}
use ruminate.Process.{
  Services, Closing, Spawned, spawned, Host, ended, fork_child, setup_ice, create_factory,
  create_debugger, ruminate_init, ruminate_destroy,
}
use ruminate.Process.Ask.{
  null_error, Traces, ruminate_backtrace-Traces, ruminate_init-failed, ruminate_init-connected,
}
use ruminate.Process.Close.{
  Forks, Starts, init-Starts, started_host, ruminate_destroy-ruminate_init, ruminate_destroy-leaks,
}
use ruminate.Process.Init.{Reports, connection, ruminate_init-connection}
use ruminate.Process.Owns.{
  SpawnsChildren, child_known, init, Reached, here, next, Reached-one_child,
}
use ruminate.RString.{r_string_new_cxx}
use ruminate.Tests.Process.{main_frame, start_frame, debugger}

-- The port 0x1f90 in two pieces.
abbrev pieces : ℕ → ℕ → Read
pieces call count = if call == 0 then got (0x90 ∷ []) else got (0x1f ∷ 0 ∷ 0 ∷ [])

abbrev working : Services
working = record {
  controller_path = "/usr/libexec/ruminate-dbgsvr";
  getenv = λ name. none;
  get_prgname = some "sample";
  getpid = pos 40;
  hit_breakpoint = 0x4000;
  spawn = λ argv. spawned 41 5;
  strerror = λ errno. "error";
  read = pieces;
  rounds = 2;
  initialize = λ argv properties. returned 3;
  connect = λ c proxy. returned (some 4);
  printf_d = λ n. "8080";
  create = λ f opts. returned (some debugger);
  null_handle = "null";
}

-- Without a factory, and with a pipe that cannot be read.
abbrev unconnected : Services
unconnected = record working { connect = λ c proxy. other_exception }

abbrev unread : Services
unread = record working { read = λ call count. failed 5 }

abbrev closing : Closing
closing = record {
  shutdown = λ f. returned tt;
  destroy = λ c. returned tt;
  waitpid_returns = true;
  closed_null = "null";
}

abbrev fresh : Host
fresh = record { ruminate = none; children = []; pipes = []; communicators = []; exit_handlers = 0 }

unspecified : GError
unspecified = ruminate_error RuminateError.unspec "Unspecified error"

ruminate_init-connection_example :
    Reports (ruminate_init working none fresh) (connection working none (ok (pos 8080)))
unfolding read_child_port read_rounds
ruminate_init-connection_example =
    ruminate_init-connection working none (ok (pos 8080)) fresh refl refl

ruminate_init-failed_example :
    (stuck : Host) × (ruminate_init unconnected none fresh ≡ ended false (some unspecified) stuck)
    × (ruminate_init working none stuck ≡ ended true none stuck)
    × (ruminate_get_function_name "null" stuck 0x4000 ≡ raised (null_error "null"))
unfolding read_child_port read_rounds connection unspecified fork_child setup_ice create_factory
    gxx_call
ruminate_init-failed_example =
    ruminate_init-failed unconnected working none none (ok (pos 8080)) fresh refl refl "null" 0x4000
      unspecified refl

ruminate_init-connected_example :
    (connected : Host) × (ruminate_init working none fresh ≡ ended true none connected)
    × (ruminate_init working none connected ≡ ended true none connected)
    × (ruminate_get_function_name "null" connected 0x4000 ≡ (
        gxx_call (debugger.get_function_name (to_signed 64 0x4000)) >>= λ name.
        ok (r_string_new_cxx name)))
unfolding read_child_port read_rounds connection fork_child setup_ice create_factory create_debugger
    gxx_call
ruminate_init-connected_example =
    ruminate_init-connected working working none none (ok (pos 8080)) fresh refl refl "null" 0x4000
      debugger refl

working-Forks : Forks working none
unfolding fork_child
working-Forks = record {
  name = "sample";
  named = refl;
  child_pid = 41;
  real_pid = omega arith;
  pipe = 5;
  forked = refl;
}

working-Starts : Starts working none
unfolding working-Forks read_child_port read_rounds setup_ice create_factory create_debugger
    gxx_call
working-Starts = record {
  forks = working-Forks;
  port = pos 8080;
  told = refl;
  communicator = 3;
  initialized = refl;
  factory = 4;
  connected = refl;
  debugger = debugger;
  created = refl;
}

ruminate_destroy-ruminate_init_example :
    (up down : Host) × (ruminate_init working none fresh ≡ ended true none up)
    × (ruminate_destroy closing up ≡ ended true none down)
    × (down ≡ record fresh { exit_handlers = fresh.exit_handlers + 1 })
    × (ruminate_destroy closing down ≡ ended true none down)
ruminate_destroy-ruminate_init_example =
    ruminate_destroy-ruminate_init working none fresh refl working-Starts closing closing refl refl
      refl

unread-Forks : Forks unread none
unfolding fork_child
unread-Forks = record {
  name = "sample";
  named = refl;
  child_pid = 41;
  real_pid = omega arith;
  pipe = 5;
  forked = refl;
}

read_error : GError
read_error = r_perror (λ errno. "error") 5 (some "read")

ruminate_destroy-leaks_example :
    (broken : Host) × (ruminate_init unread none fresh ≡ ended false (some read_error) broken)
    × (ruminate_destroy closing broken
        ≡ ended true (some (null_error "null")) (record fresh { pipes = 5 ∷ [] }))
unfolding unread-Forks read_child_port read_rounds read_error
ruminate_destroy-leaks_example =
    ruminate_destroy-leaks unread none fresh refl unread-Forks closing read_error refl refl

working-SpawnsChildren : SpawnsChildren working
working-SpawnsChildren argv pid pipe e = let is : 41 ≡ pid = ap pid_of e in omega (arith, is)
  where
    pid_of : Spawned → ℕ
    pid_of (spawned pid pipe) = pid
    pid_of _ = 0

-- Started, and ended.
abbrev running : Host
running = started_host working none fresh refl working-Starts

running-Reached : Reached fresh running
running-Reached = next here (
    init working none true none working-SpawnsChildren
      (init-Starts working none fresh refl working-Starts))

Reached-one_child_example : running.children ≡ child_known running.ruminate
Reached-one_child_example = Reached-one_child refl refl running-Reached

connected_host : Host
connected_host = record fresh {
  ruminate =
      some
        (record { communicator = none; factory = none; debugger = some debugger; child_pid = 41 });
}

ruminate_backtrace-Traces_example :
    Traces (returned (main_frame ∷ start_frame ∷ [])) 1 (ruminate_backtrace "null" connected_host 1)
unfolding connected_host
ruminate_backtrace-Traces_example =
    ruminate_backtrace-Traces "null" connected_host debugger 1 1 1 (_, refl, refl) refl
