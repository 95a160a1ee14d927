-- ===== src/Instance/Examples.antt =====
-- The theorems on src/kernel/instance.c for the sample graph.
use leda.Prelude.{◌≡◌, [], ◌∷◌, arith}
use leda.Prelude.Int.{pos, negsuc}
use leda.Queue.Fifo
use leda.Event.{EventData, unpacked, number_element}
use leda.Kernel.{Slot, Kernel, put_slot}
use leda.Lua.Samples.{by_number}
use leda.Instance.{instance_aquire, instance_release}
use leda.Instance.Places.{Pool, Ensures}
use leda.Instance.Places.Pool.{Aquired, Never, instance_aquire-Pool}
use leda.Instance.Places.Release.{Sleeps, instance_release-Pool}
use leda.Instance.Samples.{
  busy_slot, idle, runner, running, running-Pool, pending-Unpacks, boots, boots_load,
}

instance_release-Pool_example :
    Ensures
      (λ r k'. (r ≡ pos 0) × Pool k' [])
      (Sleeps [] 1)
      (instance_release by_number runner running)
instance_release-Pool_example =
    instance_release-Pool by_number running [] runner (omega arith) pending-Unpacks running-Pool

instance_aquire-Pool_example :
    Ensures (Aquired 1 (runner ∷ [])) Never (instance_aquire boots 1 running)
instance_aquire-Pool_example =
    instance_aquire-Pool boots running (runner ∷ []) 1 (omega arith) boots_load running-Pool

-- The stage has one instance, and its limit is two.
abbrev nearly_full : Kernel
nearly_full = put_slot 1 (record busy_slot { recycle_queue_limit = record { i = pos 2 } }) idle

-- The stage has one instance, which a thread runs, and no more are allowed.
abbrev full_slot : Slot
full_slot = record busy_slot {
  recycle_queue = record { items = []; capacity = pos 1 };
  event_queue = record { items = []; capacity = negsuc 0 };
  recycle_queue_limit = record { i = pos 1 };
}

abbrev full_stage : Kernel
full_stage = put_slot 1 full_slot idle

abbrev event : EventData
event = unpacked (number_element (pos 7) ∷ [])
