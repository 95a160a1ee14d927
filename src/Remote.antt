-- ===== src/Remote.antt =====
-- The choice of the process that gets a remote event, in `send_async_event` and `send_sync_event` of
-- src/kernel/event.c: the processes of the stage's cluster in turn. The read and the store of the
-- counter are two stays under its mutex; here no other send comes between them.
pub mod RoundRobin
pub mod Wire
pub mod Connection
pub mod Sending
pub mod Answers
pub mod Samples
mod Examples
use leda.Prelude.{ℕ, zero, suc, ◌%◌}
use leda.Prelude.Int.{ℤ, pos, ◌+ℤ◌}
use leda.Atomic.{Atomic, atomic_value, atomic_fetch_and_store}
use leda.Instance.{as_size}

-- `next_d`, an index into the processes of a cluster, and the counter afterwards.
pub next_destination : ℕ → Atomic → ℤ × Atomic
next_destination n_processes cur =
    atomic_fetch_and_store cur (pos (as_size (atomic_value cur +ℤ pos 1) % n_processes))

-- The counter after a number of sends.
pub after_sends : ℕ → ℕ → Atomic → Atomic
after_sends n_processes zero cur = cur
after_sends n_processes (suc k) cur = after_sends n_processes k (next_destination n_processes cur).1
