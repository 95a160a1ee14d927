-- ===== src/Startup/Started.antt =====
-- What `leda_run` has done when it begins to dispatch: every pending event has found a place.
use leda.Prelude.{
  ℕ, suc, Bool, ◌<◌, ◌≡◌, ◌≢◌, refl, subst, sym, ap, ◌∙◌, true, none, some, List, [], ◌∷◌, All,
  lt→ltb,
}
use leda.Prelude.Int.{ℤ, pos, negsuc, ◌≤ℤ◌}
use leda.Lua.{Marshal, Value, number}
use leda.Queue.Fifo
use leda.Event.{copy_each, extract_event}
use leda.Kernel.{Kernel}
use leda.Instance.{load_error, slot_at}
use leda.Instance.{init_slot, instance_init}
use leda.Instance.Limits.{instance_init-Pool}
use leda.Instance.Places.{Pool, Ensures, then-Ensures, imp-Ensures}
use leda.Instance.Places.Pool.{Never}
use leda.Instance.Places.Frame.{SameGraph, SameGraph-refl, SameGraph-trans}
use leda.Scheduler.{Platform, emmit}
use leda.Scheduler.Unbounded.{Unbounded, Unbounded-same, Placed, emmit_local-Placed}
use leda.Graph.{Graph, Ids, id_of}
use leda.Startup.{
  Pending, Controller, send_events, send_pending, leda_run, set_up, set_main_graph,
  leda_thread_init, event_init_t, succeeded,
}

-- Values that can be copied to an instance and taken off the stack as an event.
abbrev pub Sendable : Platform → List Value → Type 0
Sendable p values = (copy_each p.marshal values ≢ none) × (extract_event p.marshal values ≢ none)

-- Every event so far is placed, and the graph is the one of `k₀`.
abbrev pub Placing : Marshal → Kernel → Kernel → Type 0
Placing m k₀ k = SameGraph m k₀ k × Pool k []

-- A loop that has not met an error.
abbrev pub AllPlaced : Marshal → Kernel → Bool → Kernel → Type 0
AllPlaced m k₀ ok k = (ok ≡ true) × Placing m k₀ k

-- A stage has an id of the graph and is local, its chunk loads, and its pending events can be sent.
abbrev pub Deliverable : Platform → Kernel → Ids → Pending → Type 0
Deliverable p k₀ stagesid x =
    (events : List (List Value)) × (x.events ≡ some events)
    × ((s : ℕ) × (id_of stagesid (some (x.object)) ≡ pos s)
        × (s < k₀.n_s)
        × ((k₀.slots s).local ≡ true)
        × ((n : ℤ) → p.boot s n ≢ load_error)
        × All (Sendable p) events)

module _ (p : Platform) (k₀ : Kernel) (bounds : Unbounded k₀) where
  emmitted :
      (s : ℕ) (values : List Value) (k : Kernel)
      → s < k₀.n_s
      → (k₀.slots s).local ≡ true
      → ((n : ℤ) → p.boot s n ≢ load_error)
      → Sendable p values
      → Placing p.marshal k₀ k
      → Ensures
          (λ r k'. (succeeded r ≡ true) × Placing p.marshal k₀ k')
          Never
          (emmit p (number (pos s) ∷ number (negsuc 0) ∷ values) k)
  unfolding emmit slot_at
  emmitted s values k lt local loads (copies, extracts) (same, fits) =
      let (n_s, n_c, ready, shapes, net) = same in
      let within : s < k.n_s = subst (λ n. s < n) (sym n_s) lt in
      let is_local : (k.slots s).local ≡ true = (shapes s).0 ∙ local in
      rw (lt→ltb s k.n_s within, is_local)
        (imp-Ensures (λ r k'. SameGraph p.marshal later k' × Placed [] r k') _ Never _
          (emmit_local-Placed p (k.clock (k.reads)) s (negsuc 0) values later []
            (Unbounded-same p.marshal k₀ k same bounds) within tt loads copies extracts fits)
          (λ r k' (same', (sent, fits')).
            (ap succeeded sent, (SameGraph-trans p.marshal k₀ k k' same same', fits'))))
    where
      later : Kernel
      later = record k { reads = suc (k.reads) }

  sent_events :
      (s : ℕ) (events : List (List Value)) (k : Kernel)
      → s < k₀.n_s
      → (k₀.slots s).local ≡ true
      → ((n : ℤ) → p.boot s n ≢ load_error)
      → All (Sendable p) events
      → Placing p.marshal k₀ k
      → Ensures (AllPlaced p.marshal k₀) Never (send_events p (pos s) events k)
  unfolding send_events
  sent_events s [] k lt local loads sendable placing = (refl, placing)
  sent_events s (values ∷ more) k lt local loads (sendable, all) placing =
      then-Ensures (λ r k'. (succeeded r ≡ true) × Placing p.marshal k₀ k') Never
        (AllPlaced p.marshal k₀) _ _ (emmitted s values k lt local loads sendable placing)
        (λ r k' (sent, placing'). rw sent (sent_events s more k' lt local loads all placing'))

  sent_pending :
      (stagesid : Ids) (stages : List Pending) (k : Kernel)
      → All (Deliverable p k₀ stagesid) stages
      → Placing p.marshal k₀ k
      → Ensures (AllPlaced p.marshal k₀) Never (send_pending p stagesid stages k)
  unfolding send_pending
  sent_pending stagesid [] k deliverable placing = (refl, placing)
  sent_pending stagesid (x ∷ more) k ((events, are, (s, id, lt, local, loads, sendable)), all)
        placing =
      rw (are, id)
        (then-Ensures (AllPlaced p.marshal k₀) Never (AllPlaced p.marshal k₀) _ _
          (sent_events s events k lt local loads sendable placing)
          (λ ok k' (true_, placing'). rw true_ (sent_pending stagesid more k' all placing')))

-- What `leda_run` has set up before it sends anything.
pub set_up-Pool :
    (g : Graph) (maxpar : ℤ) (k : Kernel)
    → negsuc 0 ≤ℤ maxpar
    → k.waiting ≡ []
    → Pool (set_up g maxpar k) []
unfolding set_up event_init_t leda_thread_init set_main_graph
set_up-Pool g maxpar k le idle =
    instance_init-Pool maxpar (negsuc 0) (leda_thread_init (set_main_graph g k)) le idle

set_up-Unbounded : (g : Graph) (maxpar : ℤ) (k : Kernel) → Unbounded (set_up g maxpar k)
unfolding set_up event_init_t instance_init init_slot Fifo.set_capacity
set_up-Unbounded g maxpar k = (refl, (λ s. refl))

-- `leda_run`, where nothing is in the event loop yet, the number of instances is unlimited or not negative, the controller has an `init` function, and every pending event is for a local stage of the graph whose chunk loads and has values that can be copied and encoded, comes to its dispatch: each send of a pending event returns true, no error is raised, nothing sleeps or faults, the bounds and the graph are as they were set up, and every stage's tables fit.
pub leda_run-Placing :
    (p : Platform) (g : Graph) (stagesid : Ids) (c : Controller) (maxpar : ℤ)
    (stages : List Pending) (k : Kernel)
    → negsuc 0 ≤ℤ maxpar
    → k.waiting ≡ []
    → c.init ≡ true
    → All (Deliverable p (set_up g maxpar k) stagesid) stages
    → Ensures
        (AllPlaced p.marshal (set_up g maxpar k))
        Never
        (leda_run p g stagesid c maxpar stages k)
unfolding leda_run
leda_run-Placing p g stagesid c maxpar stages k le idle has_init deliverable =
    then-Ensures (AllPlaced p.marshal k₀) Never (AllPlaced p.marshal k₀) _ _
      (sent_pending p k₀ (set_up-Unbounded g maxpar k) stagesid stages k₀ deliverable
        (SameGraph-refl p.marshal k₀, set_up-Pool g maxpar k le idle))
      (λ ok k' (true_, placing). rw true_ (has_init, placing))
  where
    k₀ : Kernel
    k₀ = set_up g maxpar k
