-- ===== src/Scheduler/Settled.antt =====
-- What the switch of `thread_resume_instance` does with the instance of a turn.
use leda.Prelude.{Option, List}
use leda.Kernel.{Instance, Kernel, Run, ok, blocked, fault}
use leda.Instance.Places.{Ensures}
use leda.Wait.Handed.{Full}
use leda.Scheduler.{Platform, Status}
use leda.Scheduler.Turns.{Left, Asleep}
use leda.Scheduler.Placed.{Placed}

-- The turn is over: the instance is where its status says, and the tables fit.
abbrev pub Settled :
    Platform → List Instance → Kernel → Instance → Status → Option Instance → Kernel → Type 0
Settled p held k i st r k' = Left held r k' × Placed p k i st r k'

-- The thread sleeps with an instance that it still holds, for a place in the full ready queue.
abbrev pub Waits : List Instance → Option Instance → Kernel → Type 0
Waits held i k = Asleep held i k × Full i k

-- Whatever else is known of the sleep.
pub waits-Asleep :
    {A : Type 0} (P : A → Kernel → Type 0) (held : List Instance) (r : Run A)
    → Ensures P (Waits held) r
    → Ensures P (Asleep held) r
waits-Asleep P held (ok a k) h = h
waits-Asleep P held (blocked i k) h = h.0
waits-Asleep P held fault h = h
