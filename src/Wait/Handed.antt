-- ===== src/Wait/Handed.antt =====
-- Where an instance is after a call of src/kernel/event.c that it yielded to.
use leda.Prelude.{
  ℕ, zero, suc, ◌<◌, ◌≡◌, refl, Bool, true, false, Option, none, some, Option-cases, List, [], ◌∷◌,
  ◌++◌, inl, inr, arith,
}
use Prim.Native.String.{String}
use leda.Prelude.Int.{ℤ, pos, negsuc, eqb_ℤ}
use leda.Lua.{arg, nil_and, number_of}
use leda.Queue.Fifo
use leda.Kernel.{Instance, Wake, socket, timer, file, Kernel}
use leda.Instance.{push_ready_queue}
use leda.Instance.Places.{Ensures, imp-Ensures}
use leda.Wait.{reply, resume_with, modes, wait_io_args, event_wait_io}

-- A call falls asleep only where the ready queue is full.
abbrev pub Full : Option Instance → Kernel → Type 0
Full i k = Fifo.at_capacity k.ready_queue ≡ true

-- The instance is the last one of the ready queue; nothing else has moved.
abbrev pub Readied : Instance → Kernel → Kernel → Type 0
Readied i k k' =
    (k'.ready_queue.items ≡ k.ready_queue.items ++ some i ∷ [])
    × (k'.waiting ≡ k.waiting)
    × (k'.slots ≡ k.slots)

-- The instance is the last one of the event loop; nothing else has moved.
abbrev pub Parked : Instance → Wake → Kernel → Kernel → Type 0
Parked i w k k' =
    (k'.waiting ≡ k.waiting ++ (i, w) ∷ [])
    × (k'.ready_queue ≡ k.ready_queue)
    × (k'.slots ≡ k.slots)

-- The instance waits for what it asked for, or is ready with nil and a message.
abbrev pub Handed : Option Wake → Instance → Kernel → Kernel → Type 0
Handed none i k k' = (message : String) × Readied (reply i (nil_and message)) k k'
Handed (some w) i k k' = Parked i w k k'

pub push-Readied :
    (k : Kernel) (i : Instance)
    → Ensures (λ _ k'. Readied i k k') Full (push_ready_queue (some i) k)
unfolding push_ready_queue
push-Readied k i = elim (Option-cases (Fifo.try_push k.ready_queue (some i))) [
  | inl t ↦ rw (t, push_ready_queue) (Fifo.refused k.ready_queue (some i) t)
  | inr (q, t) ↦
      rw (t, push_ready_queue) (Fifo.try_push-items k.ready_queue q (some i) t, refl, refl)
]

refuse :
    (k : Kernel) (i : Instance) (message : String)
    → Ensures (λ _ k'. Handed none i k k') Full (resume_with i (nil_and message) k)
refuse k i message =
    imp-Ensures (λ _ k'. Readied (reply i (nil_and message)) k k') (λ _ k'. Handed none i k k') Full
      _ (push-Readied k (reply i (nil_and message))) (λ _ k' ready. (message, ready))

above : (n m : ℕ) → m < n → eqb_ℤ (pos n) (pos m) ≡ false
above n m lt = ground arith

below : (n m : ℕ) → eqb_ℤ (negsuc n) (pos m) ≡ false
below n m = ground arith

-- A descriptor and one of the modes 1 (read), 2 (write) and 3 (both).
abbrev pub asked_io : Option ℤ → Option ℤ → Option Wake
asked_io (some fd) (some (pos (suc zero))) = some (socket fd true false)
asked_io (some fd) (some (pos (suc (suc zero)))) = some (socket fd false true)
asked_io (some fd) (some (pos (suc (suc (suc zero))))) = some (socket fd true true)
asked_io a b = none

-- A time that is not negative, if the timer can be set.
abbrev pub asked_sleep : Bool → Option ℤ → Option Wake
asked_sleep added none = none
asked_sleep added (some (negsuc time)) = none
asked_sleep true (some (pos time)) = some (timer (pos time))
asked_sleep false (some (pos time)) = none

abbrev given : {A : Type 0} → Option A → Option Wake
given none = none
given (some a) = some file

-- The mode 1 (read) with a size, or 2 (write) with a string.
abbrev pub asked_file : Option ℤ → Option ℤ → Option (List ℕ) → Option Wake
asked_file (some (pos (suc zero))) size buffer = given size
asked_file (some (pos (suc (suc zero)))) size buffer = given buffer
asked_file a size buffer = none

-- `event_wait_io`, if its event can be registered, has the instance wait for just the descriptor and the modes that it yielded, or readies it with an error message if they are not in order.
pub event_wait_io-Handed :
    (k : Kernel) (i : Instance)
    → Ensures
        (λ _ k'. Handed (asked_io (number_of (arg 1 i.stack)) (number_of (arg 2 i.stack))) i k k')
        Full
        (event_wait_io true i k)
unfolding event_wait_io modes
event_wait_io-Handed k i = args (number_of (arg 1 i.stack)) (number_of (arg 2 i.stack))
  where
    args :
        (a b : Option ℤ)
        → Ensures (λ _ k'. Handed (asked_io a b) i k k') Full (wait_io_args true i a b k)
    args none none = refuse k i "Invalid argument"
    args none (some mode) = refuse k i "Invalid argument"
    args (some fd) none = refuse k i "Invalid argument"
    args (some fd) (some (negsuc n)) =
        rw (below n 1, below n 2, below n 3) (refuse k i "Invalid argument")
    args (some fd) (some (pos zero)) = refuse k i "Invalid argument"
    args (some fd) (some (pos (suc zero))) = (refl, refl, refl)
    args (some fd) (some (pos (suc (suc zero)))) = (refl, refl, refl)
    args (some fd) (some (pos (suc (suc (suc zero))))) = (refl, refl, refl)
    args (some fd) (some (pos (suc (suc (suc (suc n)))))) =
        rw
          (
            above (suc (suc (suc (suc n)))) 1 (omega arith),
            above (suc (suc (suc (suc n)))) 2 (omega arith),
            above (suc (suc (suc (suc n)))) 3 (omega arith),
          )
          (refuse k i "Invalid argument")
