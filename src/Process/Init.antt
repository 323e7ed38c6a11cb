-- ===== src/Process/Init.antt =====
-- ruminate_init of src/ruminate.cpp against the steps that it takes, and what it does after a failure.
use mathlib.Core.Path.{subst}
use ruminate.Base.{ℕ, String, ◌≡◌, refl, sym, true, false, Option, none, some}
use ruminate.Base.Int.{ℤ}
use ruminate.Errors.{GError, Call, ok, raised, aborted, crashed, ◌>>=◌, ◌>>◌, gxx_call}
use ruminate.Backend.{Backend}
use ruminate.Port.{PortRun, read_child_port}
use ruminate.Process.{
  Ruminate, Spawned, spawned, not_spawned, Services, Host, Ended, ended, no_prgname_error, or_else,
  fork_child, setup_ice, create_factory, create_debugger, with_debugger, with_factory, with_ice,
  with_port, with_child, with_prgname, unless_set, ruminate_init,
}

-- What read_child_port comes to, if it does.
abbrev pub read_result : PortRun → Option (Call ℤ)
read_result (PortRun.port n) = some (ok n)
read_result (PortRun.raised e) = some (raised e)
read_result PortRun.assertion_failed = some aborted
read_result PortRun.out_of_fuel = none

-- A failure leaves the library with its state set and without a debugger.
abbrev pub IsStuck : Host → Type 0
IsStuck h = (r : Ruminate) × (h.ruminate ≡ some r) × (r.debugger ≡ none)

abbrev pub IsConnected : Host → Option Backend → Type 0
IsConnected h d = (r : Ruminate) × (h.ruminate ≡ some r) × (r.debugger ≡ d)

-- The boolean and the error that a call reports, as the outcome of its steps.
abbrev pub Reports : Ended → Call (Option Backend) → Type 0
Reports (ended b e h) (ok d) = (b ≡ true) × (e ≡ none) × IsConnected h d
Reports (ended b e h) (raised f) = (b ≡ false) × (e ≡ some f) × IsStuck h
Reports Ended.assertion_failed aborted = Unit
Reports Ended.assertion_failed crashed = Unit
Reports _ _ = ⊥

module _ (a : Services) (prgname : Option String) where
  known_name : Option String → Call String
  known_name none = raised no_prgname_error
  known_name (some name) = ok name

  started : Spawned → Call (Unit {0})
  started (spawned pid child_stdout) = ok tt
  started (not_spawned e) = raised e

  abbrev from_factory : String → Option ℕ → Call (Option Backend)
  from_factory name f = create_debugger a name f

  abbrev from_ice : String → ℤ → ℕ → Call (Option Backend)
  from_ice name n c = gxx_call (create_factory a c n) >>= from_factory name

  abbrev from_port : String → ℤ → Call (Option Backend)
  from_port name n = gxx_call (setup_ice a name) >>= from_ice name n

  -- The steps in their order: the first failure is the outcome. `port` is what the reading comes to.
  unfoldable pub connection : (port : Call ℤ) → Call (Option Backend)
  unfolding known_name started
  connection port = do
    name ← known_name (or_else prgname a.get_prgname)
    started (fork_child a)
    port >>= from_port name

  debugger-Reports :
      (c : Call (Option Backend)) (r : Ruminate) (h : Host)
      → r.debugger ≡ none
      → Reports (with_debugger a c r h) c
  unfolding with_debugger
  debugger-Reports (ok d) r h n = (refl, refl, (_, refl, refl))
  debugger-Reports (raised e) r h n = (refl, refl, (_, refl, n))
  debugger-Reports aborted r h n = tt
  debugger-Reports crashed r h n = tt

  factory-Reports :
      (name : String) (c : Call (Option ℕ)) (r : Ruminate) (h : Host)
      → r.debugger ≡ none
      → Reports (with_factory a name c r h) (c >>= from_factory name)
  unfolding with_factory
  factory-Reports name (ok f) r h n = debugger-Reports (create_debugger a name f) _ h n
  factory-Reports name (raised e) r h n = (refl, refl, (_, refl, n))
  factory-Reports name aborted r h n = tt
  factory-Reports name crashed r h n = tt

  ice-Reports :
      (name : String) (port : ℤ) (c : Call ℕ) (r : Ruminate) (h : Host)
      → r.debugger ≡ none
      → Reports (with_ice a name port c r h) (c >>= from_ice name port)
  unfolding with_ice
  ice-Reports name port (ok c) r h n =
      factory-Reports name (gxx_call (create_factory a c port)) _ _ n
  ice-Reports name port (raised e) r h n = (refl, refl, (_, refl, n))
  ice-Reports name port aborted r h n = tt
  ice-Reports name port crashed r h n = tt

  port-Reports :
      (name : String) (run : PortRun) (q : Call ℤ) (pipe : ℕ) (r : Ruminate) (h : Host)
      → read_result run ≡ some q
      → r.debugger ≡ none
      → Reports (with_port a name run pipe r h) (q >>= from_port name)
  unfolding with_port
  port-Reports name (PortRun.port p) q pipe r h e n =
      let is : ok p ≡ q = cc in rw (sym is) (ice-Reports name p (gxx_call (setup_ice a name)) _ _ n)
  port-Reports name (PortRun.raised f) q pipe r h e n =
      let is : raised f ≡ q = cc in rw (sym is) (refl, refl, (_, refl, n))
  port-Reports name PortRun.assertion_failed q pipe r h e n =
      let is : aborted ≡ q = cc in rw (sym is) tt
  port-Reports name PortRun.out_of_fuel q pipe r h e n = cc

  child-Reports :
      (name : String) (s : Spawned) (q : Call ℤ) (h : Host)
      → read_result (read_child_port a.strerror a.read a.rounds) ≡ some q
      → Reports (with_child a name s h) (started s >> (q >>= from_port name))
  unfolding with_child started
  child-Reports name (spawned pid pipe) q h e =
      port-Reports name (read_child_port a.strerror a.read a.rounds) q pipe _ _ e refl
  child-Reports name (not_spawned f) q h e = (refl, refl, (_, refl, refl))

  prgname-Reports :
      (o : Option String) (q : Call ℤ) (h : Host)
      → read_result (read_child_port a.strerror a.read a.rounds) ≡ some q
      → Reports
          (with_prgname a o h)
          (known_name o >>= λ name. started (fork_child a) >> (q >>= from_port name))
  unfolding with_prgname known_name
  prgname-Reports none q h e = (refl, refl, (_, refl, refl))
  prgname-Reports (some name) q h e = child-Reports name (fork_child a) q h e

  -- Where the library is not set up and the reading of the port ends: ruminate_init does its steps
  -- in their order up to the first that fails. It returns true, with no error and with the debugger
  -- that the last one gives, which may be NULL, if none fails, and else false with the error of the
  -- first, and it leaves its state set, without a debugger.
  pub ruminate_init-connection :
      (q : Call ℤ) (h : Host)
      → h.ruminate ≡ none
      → read_result (read_child_port a.strerror a.read a.rounds) ≡ some q
      → Reports (ruminate_init a prgname h) (connection q)
  unfolding ruminate_init unless_set connection
  ruminate_init-connection q h unset e =
      subst (λ o. Reports (unless_set a o prgname h) (connection q)) (sym unset)
        (prgname-Reports (or_else prgname a.get_prgname) q h e)

-- What a report of a failure, or of success, says.
pub Reports-raised :
    (x : Ended) (e : GError)
    → Reports x (raised e)
    → (h : Host) × (x ≡ ended false (some e) h) × IsStuck h
Reports-raised (ended b o h) e (is_false, is_error, stuck) =
    (h, rw is_false (rw is_error refl), stuck)
Reports-raised Ended.assertion_failed e r = elim r [ ]
Reports-raised Ended.blocked e r = elim r [ ]
Reports-raised Ended.out_of_fuel e r = elim r [ ]

pub Reports-ok :
    (x : Ended) (d : Option Backend)
    → Reports x (ok d)
    → (h : Host) × (x ≡ ended true none h) × IsConnected h d
Reports-ok (ended b o h) d (is_true, no_error, connected) =
    (h, rw is_true (rw no_error refl), connected)
Reports-ok Ended.assertion_failed d r = elim r [ ]
Reports-ok Ended.blocked d r = elim r [ ]
Reports-ok Ended.out_of_fuel d r = elim r [ ]
