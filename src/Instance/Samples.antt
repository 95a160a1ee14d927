-- ===== src/Instance/Samples.antt =====
-- A graph of two stages, in which a thread runs an instance of stage 1 while an event waits for that
-- stage: for tests.
use leda.Prelude.{true, ℕ, refl, ◌≢◌, false, List, [], ◌∷◌, inl, inr, arith}
use leda.Prelude.Int.{ℤ, pos, negsuc}
use leda.Lua.{function}
use leda.Lua.Samples.{by_number}
use leda.Stats.{Stats, new_stage_stats, new_connector_stats}
use leda.Event.{
  EventData, unpacked, number_element, restored_values, restore_elements, restore_element,
}
use leda.Kernel.{Instance, Slot, Net, Kernel, put_slot}
use leda.Instance.{Boot, handler, load_error, blank_instance}
use leda.Instance.Places.{SlotOk, Pool}
use leda.Instance.Places.Pool.{put_slot-Pool, hold_other}
use leda.Instance.Places.Release.{Unpacks}

abbrev pub idle_slot : Slot
idle_slot = record {
  recycle_queue = record { items = []; capacity = pos 4 };
  event_queue = record { items = []; capacity = negsuc 0 };
  recycle_queue_limit = record { i = pos 4 };
  number_of_instances = record { i = pos 0 };
  serial = false;
  local = true;
}

abbrev pub no_stats : Stats
no_stats = record {
  nstages = 2;
  nconnectors = 1;
  sstats = λ _. new_stage_stats;
  cstats = λ _. new_connector_stats;
  has_release_cb = false;
  has_event_cb = false;
  has_error_cb = false;
  raised = [];
}

-- Both stages are in the first cluster, which has two processes.
abbrev pub idle_net : Net
idle_net = record {
  cluster = λ _. 0;
  processes = λ _. 0 ∷ 1 ∷ [];
  cur_process = λ _. record { i = pos 0 };
  sockets = λ _. record { items = []; capacity = pos 4 };
  closed = [];
  written = [];
}

abbrev pub idle : Kernel
idle = record {
  n_s = 2;
  n_c = 1;
  producer = λ _. 1;
  slots = λ _. idle_slot;
  ready_queue = record { items = []; capacity = negsuc 0 };
  waiting = [];
  stats = no_stats;
  pool_size = record { i = pos 1 };
  net = idle_net;
  clock = pos;
  reads = 0;
}

pub idle-Pool : Pool idle []
idle-Pool s = record {
  counted = refl;
  own = tt;
  within = inr (omega arith);
  same = refl;
  fair = inl refl;
}

abbrev pub runner : Instance
runner = blank_instance 1 (pos 1) (function 3)

abbrev pub pending : List EventData
pending = unpacked (number_element (pos 7) ∷ []) ∷ []

-- One instance exists, and an event is pending.
abbrev pub busy_slot : Slot
busy_slot = record idle_slot {
  event_queue = record { items = pending; capacity = negsuc 0 };
  number_of_instances = record { i = pos 1 };
}

abbrev pub running : Kernel
running = put_slot 1 busy_slot idle

pub busy-SlotOk : SlotOk 1 busy_slot 1
busy-SlotOk = record {
  counted = refl;
  own = tt;
  within = inr (omega arith);
  same = refl;
  fair = inl refl;
}

pub running-Pool : Pool running (runner ∷ [])
running-Pool =
    put_slot-Pool idle [] (runner ∷ []) 1 idle-Pool busy-SlotOk
      (λ j ne. hold_other idle [] runner 1 j refl ne)

pub pending-Unpacks : Unpacks by_number pending
unfolding restored_values restore_elements restore_element
pending-Unpacks = ((λ e. cc), tt)

abbrev pub boots : ℕ → ℤ → Boot
boots s n = handler (function s)

pub boots_load : (n : ℤ) → boots 1 n ≢ load_error
boots_load n e = cc
