-- ===== src/Process/Owns.antt =====
-- The children, pipes and communicators that ruminate_init and ruminate_destroy of src/ruminate.cpp hold.
use mathlib.Core.Path.{subst}
use ruminate.Base.{
  ℕ, zero, suc, ◌<◌, String, ◌≡◌, refl, sym, ap, ◌∙◌, Bool, true, Option, none, some, List, [], ◌∷◌,
  arith, ◌==◌, Bool-cases, inl, inr,
}
use ruminate.Base.Int.{ℤ}
use ruminate.Errors.{GError, Call, ok, raised, aborted, crashed, gxx_call}
use ruminate.Backend.{Backend}
use ruminate.Port.{PortRun, read_child_port}
use ruminate.Process.{
  Ruminate, Spawned, spawned, not_spawned, Services, Closing, Host, Ended, ended, or_else,
  remove_first, fork_child, setup_ice, create_factory, create_debugger, with_debugger, with_factory,
  with_ice, with_port, with_child, with_prgname, unless_set, ruminate_init, reap, close_down,
  ruminate_destroy,
}

-- g_spawn_async_with_pipes gives the process id of a child, which is not 0.
abbrev pub SpawnsChildren : Services → Type 0
SpawnsChildren a = (argv : List String) (pid pipe : ℕ) → a.spawn argv ≡ spawned pid pipe → 0 < pid

-- The child that the library's state knows of.
abbrev pub child_of : ℕ → List ℕ
child_of zero = []
child_of (suc n) = suc n ∷ []

abbrev pub child_known : Option Ruminate → List ℕ
child_known none = []
child_known (some r) = child_of r.child_pid

-- A call of the library that returns.
pub data Acts (h h' : Host) : Type 0 where
  init :
      (a : Services) (prgname : Option String) (b : Bool) (e : Option GError)
      → SpawnsChildren a
      → ruminate_init a prgname h ≡ ended b e h'
      → Acts h h'
  destroy :
      (c : Closing) (b : Bool) (e : Option GError) → ruminate_destroy c h ≡ ended b e h' → Acts h h'

pub data Reached (first : Host) : Host → Type 0 where
  here : Reached first first
  next : {h h' : Host} → Reached first h → Acts h h' → Reached first h'

abbrev pub KnowsChildren : Host → Type 0
KnowsChildren h = h.children ≡ child_known h.ruminate

abbrev Leaves : Ended → Type 0
Leaves (ended b e h) = KnowsChildren h
Leaves _ = Unit

module _ (a : Services) where
  debugger-Leaves :
      (c : Call (Option Backend)) (r : Ruminate) (h : Host)
      → h.children ≡ child_of r.child_pid
      → Leaves (with_debugger a c r h)
  unfolding with_debugger
  debugger-Leaves (ok d) r h k = k
  debugger-Leaves (raised e) r h k = k
  debugger-Leaves aborted r h k = tt
  debugger-Leaves crashed r h k = tt

  factory-Leaves :
      (name : String) (c : Call (Option ℕ)) (r : Ruminate) (h : Host)
      → h.children ≡ child_of r.child_pid
      → Leaves (with_factory a name c r h)
  unfolding with_factory
  factory-Leaves name (ok f) r h k =
      debugger-Leaves (create_debugger a name f) (record r { factory = f }) h k
  factory-Leaves name (raised e) r h k = k
  factory-Leaves name aborted r h k = tt
  factory-Leaves name crashed r h k = tt

  ice-Leaves :
      (name : String) (port : ℤ) (c : Call ℕ) (r : Ruminate) (h : Host)
      → h.children ≡ child_of r.child_pid
      → Leaves (with_ice a name port c r h)
  unfolding with_ice
  ice-Leaves name port (ok c) r h k =
      factory-Leaves name (gxx_call (create_factory a c port)) (record r { communicator = some c })
        (record h { communicators = c ∷ h.communicators }) k
  ice-Leaves name port (raised e) r h k = k
  ice-Leaves name port aborted r h k = tt
  ice-Leaves name port crashed r h k = tt

  port-Leaves :
      (name : String) (run : PortRun) (pipe : ℕ) (r : Ruminate) (h : Host)
      → h.children ≡ child_of r.child_pid
      → Leaves (with_port a name run pipe r h)
  unfolding with_port
  port-Leaves name (PortRun.port p) pipe r h k =
      ice-Leaves name p (gxx_call (setup_ice a name)) r
        (record h { pipes = remove_first pipe h.pipes }) k
  port-Leaves name (PortRun.raised f) pipe r h k = k
  port-Leaves name PortRun.assertion_failed pipe r h k = tt
  port-Leaves name PortRun.out_of_fuel pipe r h k = tt

  child-Leaves :
      (name : String) (s : Spawned) (h : Host)
      → ((pid pipe : ℕ) → s ≡ spawned pid pipe → 0 < pid)
      → h.children ≡ []
      → Leaves (with_child a name s h)
  unfolding with_child
  child-Leaves name (spawned zero pipe) h real k =
      let impossible = real zero pipe refl in absurd (omega arith)
  child-Leaves name (spawned (suc n) pipe) h real k =
      port-Leaves name (read_child_port a.strerror a.read a.rounds) pipe _
        (record h { children = suc n ∷ h.children; pipes = pipe ∷ h.pipes })
        (ap (λ ps. suc n ∷ ps) k)
  child-Leaves name (not_spawned e) h real k = k

  prgname-Leaves :
      (o : Option String) (h : Host)
      → SpawnsChildren a
      → h.children ≡ []
      → Leaves (with_prgname a o h)
  unfolding with_prgname fork_child
  prgname-Leaves none h real k = k
  prgname-Leaves (some name) h real k = child-Leaves name (fork_child a) h (real _) k

  init-Leaves :
      (o : Option Ruminate) (prgname : Option String) (h : Host)
      → SpawnsChildren a
      → h.ruminate ≡ o
      → KnowsChildren h
      → Leaves (unless_set a o prgname h)
  unfolding unless_set
  init-Leaves (some r) prgname h real is k = k
  init-Leaves none prgname h real is k =
      prgname-Leaves (or_else prgname a.get_prgname) h real (k ∙ ap child_known is)

same_pid : (n : ℕ) → (suc n == suc n) ≡ true
same_pid n = ground arith

reap-child_of : (n : ℕ) → reap n (child_of n) ≡ []
reap-child_of zero = refl
reap-child_of (suc n) = rw (same_pid n) refl

destroy-Leaves :
    (c : Closing) (o : Option Ruminate) (h : Host)
    → h.ruminate ≡ o
    → KnowsChildren h
    → Leaves (close_down c o h)
unfolding close_down
destroy-Leaves c none h is k = k
destroy-Leaves c (some r) h is k = elim (Bool-cases c.waitpid_returns) [
  | inl y ↦ rw y (ap (reap r.child_pid) (k ∙ ap child_known is) ∙ reap-child_of r.child_pid)
  | inr n ↦ rw n tt
]

Acts-KnowsChildren : {h h' : Host} → Acts h h' → KnowsChildren h → KnowsChildren h'
unfolding ruminate_init ruminate_destroy
Acts-KnowsChildren {h} (init a prgname b e real is) k =
    subst Leaves is (init-Leaves a h.ruminate prgname h real refl k)
Acts-KnowsChildren {h} (destroy c b e is) k = subst Leaves is (destroy-Leaves c h.ruminate h refl k)

Reached-KnowsChildren : {h h' : Host} → Reached h h' → KnowsChildren h → KnowsChildren h'
Reached-KnowsChildren here k = k
Reached-KnowsChildren (next r s) k = Acts-KnowsChildren s (Reached-KnowsChildren r k)

-- From a process that has started no debugger, calls of ruminate_init and ruminate_destroy in any
-- order, whatever fails in them, leave at most one child that waitpid has not come back for, the
-- one that the library's state knows of, and none if the state is NULL. This is for those calls
-- that return, where a child's process id is not 0.
pub Reached-one_child :
    {first h : Host}
    → first.ruminate ≡ none
    → first.children ≡ []
    → Reached first h
    → h.children ≡ child_known h.ruminate
Reached-one_child unset no_child r = Reached-KnowsChildren r (no_child ∙ ap child_known (sym unset))
