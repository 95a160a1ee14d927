-- ===== src/Instance/Places/Slots.antt =====
-- What each change of one stage's tables does to their fit.
use leda.Prelude.{
  ℕ, suc, ◌≡◌, ap, ◌∙◌, false, none, some, List, [], ◌∷◌, ◌++◌, length-append, All, inl, inr, arith,
}
use leda.Prelude.Int.{pos, ◌+ℤ◌, ◌-ℤ◌}
use leda.Queue.Fifo
use leda.Queue.Fifo.{Fifo}
use leda.Atomic.{atomic_value, atomic_fetch_and_add}
use leda.Event.{EventData}
use leda.Kernel.{Instance, Slot}
use leda.Instance.{at_limit, counted, uncount}
use leda.Instance.Places.{SlotOk}

All-snoc :
    (s : ℕ) (xs : List Instance) (x : Instance)
    → All (λ i. i.stage ≡ s) xs
    → x.stage ≡ s
    → All (λ i. i.stage ≡ s) (xs ++ x ∷ [])
All-snoc s [] x ps p = (p, tt)
All-snoc s (y ∷ xs) x ps p = (ps.0, All-snoc s xs x ps.1 p)

module _ {s : ℕ} {slot : Slot} {n : ℕ} (h : SlotOk s slot n) where
  -- A recycled instance is one of the stage, and is busy from now on.
  pub recycled-SlotOk :
      {i : Instance} {q : Fifo Instance}
      → Fifo.try_pop slot.recycle_queue ≡ some (i, q)
      → (i.stage ≡ s) × SlotOk s (record slot { recycle_queue = q }) (suc n)
  unfolding Fifo.try_pop Fifo.pop_front
  recycled-SlotOk e = ground (arith)

  pub no_idle : Fifo.try_pop slot.recycle_queue ≡ none → slot.recycle_queue.items ≡ []
  unfolding Fifo.try_pop Fifo.pop_front
  no_idle e = ground arith

  pub counted-SlotOk : at_limit slot ≡ false → SlotOk s (counted slot) (suc n)
  unfolding at_limit atomic_value atomic_fetch_and_add ◌+ℤ◌
  counted-SlotOk e = ground arith

  pub pending-SlotOk :
      {q : Fifo EventData}
      → slot.recycle_queue.items ≡ []
      → SlotOk s (record slot { event_queue = q }) n
  pending-SlotOk e = record {
    counted = h.counted;
    own = h.own;
    within = h.within;
    same = h.same;
    fair = inl e;
  }

  pub served-SlotOk :
      {e : EventData} {q : Fifo EventData}
      → Fifo.try_pop slot.event_queue ≡ some (e, q)
      → SlotOk s (record slot { event_queue = q }) n
  unfolding Fifo.try_pop Fifo.pop_front
  served-SlotOk e = ground arith

module _ {s : ℕ} {slot : Slot} {n : ℕ} (h : SlotOk s slot (suc n)) where
  pub uncount-SlotOk : SlotOk s (uncount slot) n
  unfolding atomic_fetch_and_add ◌+ℤ◌ ◌-ℤ◌
  uncount-SlotOk = ground arith

  -- The recycle queue has room for a busy instance of the stage.
  pub recycle_room :
      (i : Instance)
      → Fifo.try_push slot.recycle_queue i
        ≡ some (record (slot.recycle_queue) { items = slot.recycle_queue.items ++ i ∷ [] })
  unfolding Fifo.try_push Fifo.at_capacity Fifo.size
  recycle_room i = ground arith

  pub rest-SlotOk :
      (i : Instance)
      → i.stage ≡ s
      → slot.event_queue.items ≡ []
      → SlotOk s
          (record slot {
            recycle_queue = record (slot.recycle_queue) {
              items = slot.recycle_queue.items ++ i ∷ [];
            };
          })
          n
  rest-SlotOk i own none_pending =
      let len = length-append slot.recycle_queue.items (i ∷ []) in
      record {
        counted = h.counted ∙ ap pos (omega (arith, len));
        own = All-snoc s slot.recycle_queue.items i h.own own;
        within = h.within;
        same = h.same;
        fair = inr none_pending;
      }
