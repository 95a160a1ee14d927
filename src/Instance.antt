-- ===== src/Instance.antt =====
-- The pool of instances of src/kernel/instance.c. Each call is one step on the shared state; a stage
-- id is what the C code compares and indexes with, an `int` converted to `size_t`.
mod Api
unfoldable pub use Api.*
pub mod Places
pub mod Limits
pub mod Races
pub mod Samples
mod Examples
use leda.Prelude.{
  ℕ, suc, ◌-◌, ◌^◌, Bool, true, false, Option, none, some, List, [], ◌∷◌, ◌++◌, ltb, leb,
  if◌then◌else◌,
}
use leda.Prelude.Int.{ℤ, pos, negsuc, ◌-ℤ◌, eqb_ℤ}
use leda.Lua.{Value, nil, Marshal}
use leda.Queue.Fifo
use leda.Queue.Fifo.{Fifo}
use leda.Atomic.{atomic_new, atomic_value, add_to, sub_from}
use leda.Stats.{stats_active_instance, stats_inactive_instance, stats_update_time}
use leda.Event.{EventData, restore_event}
use leda.Kernel.{
  Instance, Slot, Kernel, Run, ok, blocked, fault, M, pure, ◌>>=◌, ◌>>◌, expect, and_then, now_secs,
  change_stats, put_slot,
}

-- An `int` as a `size_t`.
abbrev pub as_size : ℤ → ℕ
as_size (pos n) = n
as_size (negsuc n) = 2 ^ 64 - suc n

-- The entry of the four tables at a stage id, a fault if they have none.
unfoldable pub slot_at : ℕ → M Slot
slot_at s k = if ltb s k.n_s then ok (k.slots s) k else fault

abbrev pub set_slot : ℕ → Slot → M (Unit {0})
set_slot s slot k = ok tt (put_slot s slot k)

-- `push_ready_queue`, while no thread waits in `queue_pop` of the ready queue; Queue.queue_try_push has
-- what a push does while one waits. A full queue puts the thread to sleep in PUSH.
unfoldable pub push_ready_queue : Option Instance → M (Unit {0})
push_ready_queue i k = elim (Fifo.try_push k.ready_queue i) [
  | none ↦ blocked i k
  | some q ↦ ok tt (record k { ready_queue = q })
]

abbrev pub push_event : ℕ → Slot → Option (Fifo EventData) → M Bool
push_event dst slot none = pure false
push_event dst slot (some q) = set_slot dst (record slot { event_queue = q }) >> pure true

-- `instance_try_push_pending_event`
unfoldable pub instance_try_push_pending_event : ℕ → EventData → M Bool
instance_try_push_pending_event dst e = do
  slot ← slot_at dst
  push_event dst slot (Fifo.try_push slot.event_queue e)

-- `SUB(number_of_instances[i->stage],1)`
abbrev pub uncount : Slot → Slot
uncount slot = record slot { number_of_instances = sub_from slot.number_of_instances (pos 1) }

-- `instance_destroy`
unfoldable pub instance_destroy : Instance → M (Unit {0})
instance_destroy i = do
  slot ← slot_at i.stage
  set_slot i.stage (uncount slot)
  now ← now_secs
  change_stats (stats_update_time i.stage (now -ℤ i.init_time))

-- What building the Lua state of a new instance and running its chunk comes to: a handler, a chunk
-- that `luaL_loadbuffer` refuses, or an error in the stage's `init`.
pub data Boot : Type 0 where
  handler : Value → Boot
  load_error init_error : Boot

-- `calloc` with the fields that `instance_aquire` sets.
abbrev pub blank_instance : ℕ → ℤ → Value → Instance
blank_instance s number h = record {
  stack = [];
  handler = h;
  stage = s;
  args = 0;
  instance_number = number;
  init_time = pos 0;
  con_id = pos 0;
  packed_event = none;
  communication_time = pos 0;
  last_proc = 0;
}

abbrev pub stamp : Instance → M (Option Instance)
stamp i = now_secs >>= λ now. pure (some (record i { init_time = now }))

-- What follows the counting of a new instance of stage `s`.
abbrev pub finish_new : ℕ → ℤ → Boot → M (Option Instance)
finish_new s number load_error = pure none
finish_new s number init_error = instance_destroy (blank_instance s number nil) >> pure none
finish_new s number (handler h) = stamp (blank_instance s number h)

abbrev pub counted : Slot → Slot
counted slot = record slot { number_of_instances = add_to slot.number_of_instances (pos 1) }

-- The part of `instance_aquire` that creates an instance.
unfoldable pub new_instance : (ℕ → ℤ → Boot) → ℕ → Slot → M (Option Instance)
new_instance boot s slot = do
  change_stats (stats_active_instance s)
  set_slot s (counted slot)
  finish_new s (atomic_value (counted slot).number_of_instances)
      (boot s (atomic_value (counted slot).number_of_instances))

-- `READ(number_of_instances[s])==READ(recycle_queue_limits[s])`
unfoldable pub at_limit : Slot → Bool
at_limit slot =
    eqb_ℤ (atomic_value slot.number_of_instances) (atomic_value slot.recycle_queue_limit)

abbrev pub aquire_from :
    (ℕ → ℤ → Boot) → ℕ → Slot → Option (Instance × Fifo Instance) → M (Option Instance)
aquire_from boot s slot (some (i, q)) = do
  set_slot s (record slot { recycle_queue = q })
  now ← now_secs
  change_stats (stats_active_instance i.stage)
  pure (some (record i { init_time = now }))
aquire_from boot s slot none = if at_limit slot then pure none else new_instance boot s slot

-- `instance_aquire`; the id test lets `n_s` itself pass.
unfoldable pub instance_aquire : (ℕ → ℤ → Boot) → ℕ → M (Option Instance)
instance_aquire boot s k =
    if ltb k.n_s s
    then ok none k
    else and_then (slot_at s k) (λ slot. aquire_from boot s slot (Fifo.try_pop slot.recycle_queue))

abbrev pub recycle : Instance → Slot → Option (Fifo Instance) → M ℤ
recycle i slot none = instance_destroy i >> pure (negsuc 0)
recycle i slot (some q) = set_slot i.stage (record slot { recycle_queue = q }) >> pure (pos 0)

abbrev pub serve : Marshal → Instance → Slot → Option (EventData × Fifo EventData) → M ℤ
serve m i slot (some (e, q)) = do
  set_slot i.stage (record slot { event_queue = q })
  change_stats (stats_inactive_instance i.stage)
  change_stats (stats_active_instance i.stage)
  now ← now_secs
  (stack, args) ← expect (restore_event m (i.handler ∷ []) e)
  push_ready_queue (some (record i { stack = stack; args = args; init_time = now }))
  pure (pos 0)
serve m i slot none = do
  change_stats (stats_inactive_instance i.stage)
  recycle i slot (Fifo.try_push slot.recycle_queue i)

-- `instance_release`: the instance takes the next pending event of its stage, or rests in the
-- recycle queue, or is destroyed if that is full.
unfoldable pub instance_release : Marshal → Instance → M ℤ
instance_release m i = do
  now ← now_secs
  change_stats (stats_update_time i.stage (now -ℤ i.init_time))
  slot ← slot_at i.stage
  serve m (record i { stack = [] }) slot (Fifo.try_pop slot.event_queue)
