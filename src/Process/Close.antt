-- ===== src/Process/Close.antt =====
-- ruminate_destroy of src/ruminate.cpp after ruminate_init.
use ruminate.Base.{
  ℕ, zero, suc, ◌+◌, ◌<◌, String, ◌≡◌, refl, sym, ap, ◌∙◌, true, false, Option, none, some, List,
  ◌∷◌, arith,
}
use ruminate.Base.Int.{ℤ}
use ruminate.Errors.{GError, returned, ok, gxx_call}
use ruminate.Backend.{Backend}
use ruminate.Port.{PortRun, read_child_port}
use ruminate.Process.{
  Ruminate, spawned, Services, Closing, Host, ended, or_else, blank, set_ruminate, remove_first,
  fork_child, setup_ice, create_factory, create_debugger, with_debugger, with_factory, with_ice,
  with_port, with_child, with_prgname, unless_set, ruminate_init, reap, close_down,
  ruminate_destroy,
}
use ruminate.Process.Ask.{null_error}

remove_first-new : (n : ℕ) (ns : List ℕ) → remove_first n (n ∷ ns) ≡ ns
remove_first-new n ns = ground arith

reap-new : (n : ℕ) (ns : List ℕ) → 0 < n → reap n (n ∷ ns) ≡ ns
reap-new zero ns h = absurd (omega arith)
reap-new (suc n) ns h = remove_first-new (suc n) ns

-- A child is started for the program's name.
pub record Forks (a : Services) (prgname : Option String) : Type 0 where
  pub name : String
  pub named : or_else prgname a.get_prgname ≡ some name
  pub child_pid : ℕ
  pub real_pid : 0 < child_pid
  pub pipe : ℕ
  pub forked : fork_child a ≡ spawned child_pid pipe

-- Each step of ruminate_init answers.
pub record Starts (a : Services) (prgname : Option String) : Type 0 where
  pub forks : Forks a prgname
  pub port : ℤ
  pub told : read_child_port a.strerror a.read a.rounds ≡ PortRun.port port
  pub communicator : ℕ
  pub initialized : setup_ice a forks.name ≡ returned communicator
  pub factory : ℕ
  pub connected : create_factory a communicator port ≡ returned (some factory)
  pub debugger : Backend
  pub created : create_debugger a forks.name (some factory) ≡ ok (some debugger)

module _ (a : Services) (prgname : Option String) (h : Host) (unset : h.ruminate ≡ none) where
  abbrev forked_host : Forks a prgname → Host
  forked_host s = record h { children = s.child_pid ∷ h.children; pipes = s.pipe ∷ h.pipes }

  init-forked :
      (s : Forks a prgname)
      → ruminate_init a prgname h
        ≡ with_port a s.name
            (read_child_port a.strerror a.read a.rounds)
            s.pipe
            (record blank { child_pid = s.child_pid })
            (forked_host s)
  unfolding ruminate_init unless_set with_prgname with_child
  init-forked s = ap (λ o. unless_set a o prgname h) unset ∙ rw s.named (rw s.forked refl)

  module _ (s : Starts a prgname) where
    abbrev pub started : Ruminate
    started = record {
      communicator = some s.communicator;
      factory = some s.factory;
      debugger = some s.debugger;
      child_pid = s.forks.child_pid;
    }

    abbrev pub started_host : Host
    started_host = record h {
      ruminate = some started;
      children = s.forks.child_pid ∷ h.children;
      communicators = s.communicator ∷ h.communicators;
      exit_handlers = h.exit_handlers + 1;
    }

    pub init-Starts : ruminate_init a prgname h ≡ ended true none started_host
    unfolding with_port with_ice with_factory with_debugger gxx_call
    init-Starts =
        init-forked s.forks
        ∙ rw s.told (
            rw s.initialized (
              rw s.connected (
                rw s.created (
                  ap (λ ps. ended true none (record started_host { pipes = ps }))
                    (remove_first-new s.forks.pipe h.pipes)))))

  -- Where the library is not set up and every step of ruminate_init answers, the last one with a
  -- debugger that is not NULL, it is set up; when the debugger's factory and the communicator end
  -- without an exception then, and waitpid comes back, ruminate_destroy leaves all as it was
  -- before, but for the handler that atexit was given, and once more does nothing.
  pub ruminate_destroy-ruminate_init :
      (s : Starts a prgname) (c later : Closing)
      → c.waitpid_returns ≡ true
      → c.shutdown s.factory ≡ returned tt
      → c.destroy s.communicator ≡ returned tt
      → (up down : Host) × (ruminate_init a prgname h ≡ ended true none up)
        × (ruminate_destroy c up ≡ ended true none down)
        × (down ≡ record h { exit_handlers = h.exit_handlers + 1 })
        × (ruminate_destroy later down ≡ ended true none down)
  unfolding ruminate_destroy close_down gxx_call
  ruminate_destroy-ruminate_init s c later ends shut destroyed = (
    started_host s,
    record h { ruminate = none; exit_handlers = h.exit_handlers + 1 },
    init-Starts s,
    rw ends (
        rw shut (
          rw destroyed (
            rw (reap-new s.forks.child_pid h.children s.forks.real_pid)
              (rw (remove_first-new s.communicator h.communicators) refl)))),
    ap (λ o. record h { ruminate = o; exit_handlers = h.exit_handlers + 1 }) (sym unset),
    refl,
  )

  -- Where the library is not set up, a child is started and the reading of its port fails:
  -- ruminate_init returns false with that error; ruminate_destroy, when waitpid comes back for the
  -- child, returns true with the error of a handle that is NULL, and leaves all as it was before
  -- but for the pipe from the child, which stays open.
  pub ruminate_destroy-leaks :
      (s : Forks a prgname) (c : Closing) (e : GError)
      → read_child_port a.strerror a.read a.rounds ≡ PortRun.raised e
      → c.waitpid_returns ≡ true
      → (failed : Host) × (ruminate_init a prgname h ≡ ended false (some e) failed)
        × (ruminate_destroy c failed
            ≡ ended true (some (null_error c.closed_null)) (record h { pipes = s.pipe ∷ h.pipes }))
  unfolding ruminate_destroy close_down gxx_call with_port
  ruminate_destroy-leaks s c e fails ends = (
    set_ruminate (record blank { child_pid = s.child_pid }) (forked_host s),
    init-forked s ∙ rw fails refl,
    rw ends (
        rw (reap-new s.child_pid h.children s.real_pid) (
          ap
            (λ o.
              ended true (some (null_error c.closed_null))
                (record h { ruminate = o; pipes = s.pipe ∷ h.pipes }))
            (sym unset))),
  )
