-- ===== src/Instance/Races.antt =====
-- What two threads inside the calls of src/kernel/instance.c can do to one stage, as the sequence of
-- their steps: `instance_aquire` reads the number of instances and adds to it in two steps, and what
-- it returns may be out of date when `emmit` goes on.
use leda.Prelude.{ℕ, ◌≡◌, true, Bool, Option, none, [], ◌∷◌}
use leda.Prelude.Int.{ℤ, pos}
use leda.Lua.{Marshal}
use leda.Queue.Fifo
use leda.Queue.Fifo.{Fifo}
use leda.Event.{EventData}
use leda.Kernel.{Instance, Kernel, M, pure, ◌>>=◌, ◌>>◌}
use leda.Instance.{
  Boot, new_instance, instance_aquire, instance_release, instance_try_push_pending_event,
}
use leda.Instance.Places.{Pool}

-- A thread that has found the number below the limit goes on to create an instance.
abbrev create : (ℕ → ℤ → Boot) → ℕ → M (Option Instance)
create boot s k = new_instance boot s (k.slots s) k

-- Two threads that have both found a stage one below its limit.
abbrev pub both_create : (ℕ → ℤ → Boot) → ℕ → M (Option Instance)
both_create boot s = create boot s >>= λ i. create boot s

-- The number and the limit of a stage.
abbrev pub Counts : ℕ → ℕ → ℕ → Kernel → Type 0
Counts s n limit k =
    ((k.slots s).number_of_instances.i ≡ pos n) × ((k.slots s).recycle_queue_limit.i ≡ pos limit)

-- What the first thread found, and whether it could leave the event.
abbrev pub aquire_release_push :
    (ℕ → ℤ → Boot) → Marshal → Instance → EventData → M (Option Instance × Bool)
aquire_release_push boot m i e = do
  found ← instance_aquire boot i.stage
  instance_release m i
  sent ← instance_try_push_pending_event i.stage e
  pure (found, sent)

-- The thread found no instance and left the event, which now waits while an instance rests.
abbrev pub Stranded : Instance → EventData → Option Instance × Bool → Kernel → Type 0
Stranded i e (found, sent) k' =
    (found ≡ none)
    × (sent ≡ true)
    × ((k'.slots i.stage).recycle_queue.items ≡ record i { stack = [] } ∷ [])
    × ((k'.slots i.stage).event_queue.items ≡ e ∷ [])
