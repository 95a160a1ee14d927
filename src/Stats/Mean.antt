-- ===== src/Stats/Mean.antt =====
-- What the latencies of src/kernel/stats.c stand for.
use leda.Prelude.{ℕ, suc, ◌<◌, ◌≡◌, refl, ap, sym, ◌∙◌, List, [], ◌∷◌, length, lt→ltb, arith}
use leda.Prelude.Int.{ℤ, pos, ◌+ℤ◌, int_laws}
use leda.Atomic.{atomic_value, atomic_fetch_and_add, atomic_fetch_and_store}
use leda.Atomic.Sum.{sum_from}
use leda.Stats.{Stats, stats_update_time, stats_reset, stage_latency, at_least_one}

-- Releases of instances of one stage, with the time that each took.
abbrev pub update_times : ℕ → List ℤ → Stats → Stats
update_times id [] t = t
update_times id (time ∷ times) t = update_times id times (stats_update_time id time t)

update_time-counters :
    (id : ℕ) (time : ℤ) (t : Stats)
    → let s = (stats_update_time id time t).sstats id in
      (s.avg.i ≡ (t.sstats id).avg.i +ℤ time) × (s.n.i ≡ (t.sstats id).n.i +ℤ pos 1)
unfolding stats_update_time atomic_fetch_and_add
update_time-counters id time t = ground arith

update_times-counters :
    (id : ℕ) (times : List ℤ) (t : Stats)
    → let s = (update_times id times t).sstats id in
      (s.avg.i ≡ sum_from (t.sstats id).avg.i times)
      × (s.n.i ≡ (t.sstats id).n.i +ℤ pos (length times))
update_times-counters id [] t = (refl, sym (omega int_laws))
update_times-counters id (time ∷ times) t =
    let (a, n) = update_times-counters id times (stats_update_time id time t) in
    let (a', n') = update_time-counters id time t in
    (
      a ∙ ap (λ z. sum_from z times) a',
      n ∙ ap (λ z. z +ℤ pos (length times)) n' ∙ one_more (t.sstats id).n.i (length times),
    )
  where
    one_more : (z : ℤ) (k : ℕ) → z +ℤ pos 1 +ℤ pos k ≡ z +ℤ pos (suc k)
    one_more z k = omega int_laws

reset-counters :
    (id : ℕ) (t : Stats)
    → id < t.nstages
    → (((stats_reset t).sstats id).avg.i ≡ pos 0) × (((stats_reset t).sstats id).n.i ≡ pos 0)
unfolding stats_reset atomic_fetch_and_store
reset-counters id t lt = rw (lt→ltb id t.nstages lt) (refl, refl)

-- The latency that `stats_push` reports for a stage of the graph after `stats_reset` and some releases is their
-- mean: the sum of their times over their number, or over 1 if there was none.
pub latency-mean :
    (id : ℕ) (times : List ℤ) (t : Stats)
    → id < t.nstages
    → stage_latency ((update_times id times (stats_reset t)).sstats id)
      ≡ (sum_from (pos 0) times, at_least_one (pos (length times)))
unfolding stage_latency atomic_value
latency-mean id times t lt =
    let (a, n) = update_times-counters id times (stats_reset t) in
    let (a0, n0) = reset-counters id t lt in
    λ i. (
      (a ∙ ap (λ z. sum_from z times) a0) i,
      at_least_one ((n ∙ ap (λ z. z +ℤ pos (length times)) n0 ∙ from_zero (length times)) i),
    )
  where
    from_zero : (k : ℕ) → pos 0 +ℤ pos k ≡ pos k
    from_zero k = omega int_laws

-- `stats_reset` sets the counters of each stage of the graph to 0, but for the number of its active instances,
-- which it leaves as it is.
pub stats_reset_lem :
    (id : ℕ) (t : Stats)
    → id < t.nstages
    → let s = (stats_reset t).sstats id in
      (s.active ≡ (t.sstats id).active)
      × (s.avg.i ≡ pos 0)
      × (s.n.i ≡ pos 0)
      × (s.executed.i ≡ pos 0)
      × (s.events.i ≡ pos 0)
      × (s.error.i ≡ pos 0)
unfolding stats_reset atomic_fetch_and_store
stats_reset_lem id t lt = rw (lt→ltb id t.nstages lt) (refl, refl, refl, refl, refl, refl)
