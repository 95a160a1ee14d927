-- ===== src/Stats.antt =====
-- The counters of src/kernel/stats.c: one record of atomic counters for each stage and connector.
-- A call that activates an event of the kernel's event base leaves it in `raised`.
pub mod Mean
use leda.Prelude.{ℕ, Bool, true, false, List, [], ◌∷◌, ◌++◌, update, ltb, if◌then◌else◌}
use leda.Prelude.Int.{ℤ, pos, leb_ℤ}
use leda.Atomic.{Atomic, atomic_new, atomic_value, add_to, sub_from, store_in}

-- `struct __s_stats`
pub record StageStats : Type 0 where
  pub avg : Atomic
  pub n : Atomic
  pub executed : Atomic
  pub events : Atomic
  pub error : Atomic
  pub active : Atomic

-- `struct __c_stats`
pub record ConnectorStats : Type 0 where
  pub communication_time : Atomic
  pub n : Atomic
  pub events : Atomic

-- What an activated event carries: `struct kernel_event_t`, or the id of the stage in error.
pub data Raised : Type 0 where
  release_event : ℕ → ℤ → Raised
  event_event : ℕ → ℤ → ℕ → ℤ → ℤ → Raised
  error_event : ℕ → Raised

pub record Stats : Type 0 where
  pub nstages : ℕ
  pub nconnectors : ℕ
  pub sstats : ℕ → StageStats
  pub cstats : ℕ → ConnectorStats
  pub has_release_cb : Bool
  pub has_event_cb : Bool
  pub has_error_cb : Bool
  pub raised : List Raised

-- A change of one stage's counters.
abbrev pub on_stage : Stats → ℕ → (StageStats → StageStats) → Stats
on_stage t id f = record t { sstats = update (t.sstats) id (f (t.sstats id)) }

abbrev pub on_connector : Stats → ℕ → (ConnectorStats → ConnectorStats) → Stats
on_connector t id f = record t { cstats = update (t.cstats) id (f (t.cstats id)) }

abbrev pub raise_if : Bool → Raised → Stats → Stats
raise_if b e t = record t { raised = if b then t.raised ++ e ∷ [] else t.raised }

-- `stats_update_time`
unfoldable pub stats_update_time : ℕ → ℤ → Stats → Stats
stats_update_time id time t =
    raise_if t.has_release_cb (release_event id time)
      (on_stage t id (λ s. record s { avg = add_to s.avg time; n = add_to s.n (pos 1) }))

abbrev pub count_event : ℕ → ℤ → ℕ → ℤ → Stats → Stats
count_event id e c_id time t =
    on_connector (on_stage t id (λ s. record s { events = add_to s.events e })) c_id (λ c.
      record c {
        communication_time = add_to c.communication_time time;
        n = add_to c.n (pos 1);
        events = add_to c.events (pos 1);
      })

-- `stats_update_events`
unfoldable pub stats_update_events : ℕ → ℤ → ℕ → ℤ → Stats → Stats
stats_update_events id e c_id time t =
    let u = count_event id e c_id time t in
    raise_if u.has_event_cb
      (event_event id (atomic_value (u.sstats id).events) c_id (atomic_value (u.cstats c_id).n)
        time)
      u

-- `stats_update_error`
unfoldable pub stats_update_error : ℕ → ℤ → Stats → Stats
stats_update_error id e t =
    raise_if t.has_error_cb (error_event id)
      (on_stage t id (λ s. record s { error = add_to s.error e }))

-- `stats_active_instance`, the macro STATS_ACTIVE.
unfoldable pub stats_active_instance : ℕ → Stats → Stats
stats_active_instance id t =
    on_stage t id
      (λ s. record s { executed = add_to s.executed (pos 1); active = add_to s.active (pos 1) })

-- `stats_inactive_instance`, the macro STATS_INACTIVE.
unfoldable pub stats_inactive_instance : ℕ → Stats → Stats
stats_inactive_instance id t = on_stage t id (λ s. record s { active = sub_from s.active (pos 1) })

-- The loops run over the ids below the two counts.
abbrev pub below : {A : Type 0} → ℕ → (A → A) → (ℕ → A) → ℕ → A
below n f a id = if ltb id n then f (a id) else a id

-- `stats_latency_reset`
unfoldable pub stats_latency_reset : Stats → Stats
stats_latency_reset t = record t {
  sstats =
      below t.nstages (λ s. record s { avg = store_in s.avg (pos 0); n = store_in s.n (pos 0) })
        (t.sstats);
  cstats =
      below t.nconnectors
        (λ c. record c {
          communication_time = store_in c.communication_time (pos 0);
          n = store_in c.n (pos 0);
        })
        (t.cstats);
}

-- `stats_reset`: `active` is not reset.
unfoldable pub stats_reset : Stats → Stats
stats_reset t = record t {
  sstats =
      below t.nstages
        (λ s. record s {
          avg = store_in s.avg (pos 0);
          n = store_in s.n (pos 0);
          executed = store_in s.executed (pos 0);
          events = store_in s.events (pos 0);
          error = store_in s.error (pos 0);
        })
        (t.sstats);
  cstats =
      below t.nconnectors
        (λ c. record c {
          communication_time = store_in c.communication_time (pos 0);
          n = store_in c.n (pos 0);
          events = store_in c.events (pos 0);
        })
        (t.cstats);
}

-- `stats_init`: all counters new, at 0.
abbrev pub new_stage_stats : StageStats
new_stage_stats = record {
  avg = atomic_new (pos 0);
  n = atomic_new (pos 0);
  executed = atomic_new (pos 0);
  events = atomic_new (pos 0);
  error = atomic_new (pos 0);
  active = atomic_new (pos 0);
}

abbrev pub new_connector_stats : ConnectorStats
new_connector_stats = record {
  communication_time = atomic_new (pos 0);
  n = atomic_new (pos 0);
  events = atomic_new (pos 0);
}

unfoldable pub stats_init : ℕ → ℕ → Stats → Stats
stats_init ns nc t = record t {
  nstages = ns;
  nconnectors = nc;
  sstats = λ _. new_stage_stats;
  cstats = λ _. new_connector_stats;
}

-- `stats_free`: the arrays are gone, and no id is below the counts.
unfoldable pub stats_free : Stats → Stats
stats_free t = record t { nstages = 0; nconnectors = 0 }

-- The average that `stats_push` reports, in seconds: its numerator, and the count in its
-- denominator, `1000000*nn`.
abbrev pub at_least_one : ℤ → ℤ
at_least_one n = if leb_ℤ n (pos 0) then pos 1 else n

unfoldable pub stage_latency : StageStats → ℤ × ℤ
stage_latency s = (atomic_value s.avg, at_least_one (atomic_value s.n))

unfoldable pub connector_latency : ConnectorStats → ℤ × ℤ
connector_latency c = (atomic_value c.communication_time, at_least_one (atomic_value c.n))
