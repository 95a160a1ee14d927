-- ===== src/Instance/Api.antt =====
-- The calls of src/kernel/instance.c that set the queues up, change their limits, or hand an event
-- to a running stage. What a call returns to Lua is a list of values.
use leda.Prelude.{ℕ, Bool, true, false, Option, none, some, List, [], ◌∷◌, ltb, leb, if◌then◌else◌}
use leda.Prelude.Int.{ℤ, pos, negsuc, ltb_ℤ}
use leda.Lua.{Value, boolean, number, nil_and, to_integer, Marshal}
use leda.Queue.Fifo
use leda.Queue.Fifo.{Fifo}
use leda.Atomic.{atomic_new, store_in}
use leda.Event.{EventData, restored_values}
use leda.Kernel.{Slot, Kernel, ok, blocked, fault, M, pure, expect, and_then, put_slot}

-- `lua_isnumber`
abbrev pub is_number : Value → Bool
is_number (number n) = true
is_number _ = false

abbrev pub limited : ℤ → Slot → Slot
limited cap slot = record slot {
  recycle_queue = Fifo.set_capacity slot.recycle_queue cap;
  recycle_queue_limit = store_in slot.recycle_queue_limit cap;
}

-- The loop of `instance_init` at one stage: a serial stage has one instance at most.
unfoldable pub init_slot : ℤ → ℤ → Bool → Bool → Slot
init_slot recycle_limit pending_limit serial local = record {
  recycle_queue = Fifo.set_capacity Fifo.new (if serial then pos 1 else recycle_limit);
  event_queue = Fifo.set_capacity Fifo.new pending_limit;
  recycle_queue_limit = atomic_new (if serial then pos 1 else recycle_limit);
  number_of_instances = atomic_new (pos 0);
  serial = serial;
  local = local;
}

-- `instance_init`
unfoldable pub instance_init : ℤ → ℤ → Kernel → Kernel
instance_init recycle_limit pending_limit k = record k {
  ready_queue = Fifo.set_capacity Fifo.new (negsuc 0);
  slots = λ s. init_slot recycle_limit pending_limit (k.slots s).serial (k.slots s).local;
}

-- `instance_set_maxpar` with one argument: the limit of every stage that is not serial.
unfoldable pub set_maxpar_all : ℤ → Kernel → Kernel
set_maxpar_all cap k = record k {
  slots = λ s.
      if ltb s k.n_s
      then (if (k.slots s).serial then k.slots s else limited cap (k.slots s))
      else k.slots s;
}

-- `instance_set_maxpar` with a stage: the tests in their order.
unfoldable pub set_maxpar_of : ℤ → ℤ → Kernel → List Value × Kernel
set_maxpar_of (negsuc i) cap k =
    if ltb_ℤ cap (negsuc 0) then (nil_and "Invalid value", k) else (nil_and "Invalid stage id", k)
set_maxpar_of (pos i) cap k =
    if ltb_ℤ cap (negsuc 0)
    then (nil_and "Invalid value", k)
    else if leb k.n_s i
    then (nil_and "Invalid stage id", k)
    else if (k.slots i).serial
    then (nil_and "Cannot change maxpar of a serial stage", k)
    else (boolean true ∷ [], put_slot i (limited cap (k.slots i)) k)

-- `instance_set_maxpar`. The queues exist, so the test for "Queue error" never holds.
unfoldable pub instance_set_maxpar : Value → Value → Kernel → List Value × Kernel
instance_set_maxpar first second k =
    if is_number second
    then set_maxpar_of (to_integer first) (to_integer second) k
    else if ltb_ℤ (to_integer first) (negsuc 0)
    then (nil_and "Invalid value", k)
    else (boolean true ∷ [], set_maxpar_all (to_integer first) k)

unfoldable pub set_capacity_of : ℤ → ℤ → Kernel → List Value × Kernel
set_capacity_of (negsuc i) cap k =
    (boolean true ∷ [], record k { ready_queue = Fifo.set_capacity k.ready_queue cap })
set_capacity_of (pos i) cap k = if leb k.n_s i then (nil_and "Invalid stage id", k) else (
  boolean true ∷ [],
  put_slot i (record (k.slots i) { event_queue = Fifo.set_capacity (k.slots i).event_queue cap }) k,
)

-- `leda_set_capacity`: of the ready queue if the id is negative, else of a stage's event queue.
unfoldable pub leda_set_capacity : Value → Value → Kernel → List Value × Kernel
leda_set_capacity first second k = set_capacity_of (to_integer first) (to_integer second) k

-- `instance_peek_for_event`, called by a stage on its own queue.
unfoldable pub peek_from : Marshal → ℕ → Slot → Option (EventData × Fifo EventData) → M (List Value)
peek_from m s slot none k = ok (nil_and "No pending events available") k
peek_from m s slot (some (e, q)) k =
    and_then (expect (restored_values m e) (put_slot s (record slot { event_queue = q }) k)) pure

unfoldable pub instance_peek_for_event : Marshal → ℕ → M (List Value)
unfolding peek_from
instance_peek_for_event m s k =
    if ltb s k.n_s
    then peek_from m s (k.slots s) (Fifo.try_pop (k.slots s).event_queue) k
    else fault

-- `instance_wait_for_event`, called by a stage on its own queue: with no pending event it sleeps in `queue_pop`.
abbrev pub wait_from : Marshal → ℕ → Slot → Option (EventData × Fifo EventData) → M (List Value)
wait_from m s slot none k = blocked none k
wait_from m s slot (some (e, q)) k =
    and_then (expect (restored_values m e) (put_slot s (record slot { event_queue = q }) k)) pure

unfoldable pub instance_wait_for_event : Marshal → ℕ → M (List Value)
instance_wait_for_event m s k =
    if ltb s k.n_s
    then wait_from m s (k.slots s) (Fifo.try_pop (k.slots s).event_queue) k
    else fault
