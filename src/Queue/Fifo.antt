-- ===== src/Queue/Fifo.antt =====
-- What queue.h promises: a first-in first-out queue with an optional bound. A negative capacity
-- means no bound. The queues of instances and events are values of this type.
use leda.Prelude.{
  ◌≡◌, arith, Bool, true, false, ◌&&◌, Option, none, some, List, [], ◌∷◌, ◌++◌, length,
  if◌then◌else◌,
}
use leda.Prelude.Int.{ℤ, pos, negsuc, leb_ℤ, eqb_ℤ}

pub record Fifo {ℓ} (A : Type ℓ) : Type ℓ where
  pub items : List A
  pub capacity : ℤ

module _ {ℓ} {A : Type ℓ} where
  unfoldable pub new : Fifo A
  new = record { items = []; capacity = negsuc 0 }

  unfoldable pub set_capacity : Fifo A → ℤ → Fifo A
  set_capacity q capacity = record q { capacity = capacity }

  unfoldable pub size : Fifo A → ℤ
  size q = pos (length q.items)

  -- The source tests `size==capacity`, so a queue that is above its capacity is not full.
  unfoldable pub at_capacity : Fifo A → Bool
  at_capacity q = leb_ℤ (pos 0) q.capacity && eqb_ℤ (size q) q.capacity

  -- `none` when the queue is full.
  unfoldable pub try_push : Fifo A → A → Option (Fifo A)
  try_push q a = if at_capacity q then none else some (record q { items = q.items ++ (a ∷ []) })

  unfoldable pub pop_front : List A → ℤ → Option (A × Fifo A)
  pop_front [] capacity = none
  pop_front (a ∷ rest) capacity = some (a, record { items = rest; capacity = capacity })

  -- `none` when the queue is empty.
  unfoldable pub try_pop : Fifo A → Option (A × Fifo A)
  try_pop q = pop_front q.items q.capacity

  pub try_push-items :
      (q q' : Fifo A) (a : A) → try_push q a ≡ some q' → q'.items ≡ q.items ++ (a ∷ [])
  unfolding try_push
  try_push-items q q' a e = ground arith

  -- Only a full queue refuses.
  pub refused : (q : Fifo A) (a : A) → try_push q a ≡ none → at_capacity q ≡ true
  unfolding try_push
  refused q a e = ground arith

  pub taken : (q q' : Fifo A) (a : A) → try_push q a ≡ some q' → at_capacity q ≡ false
  unfolding try_push
  taken q q' a e = ground arith

  pub try_push-capacity :
      (q q' : Fifo A) (a : A) → try_push q a ≡ some q' → q'.capacity ≡ q.capacity
  unfolding try_push
  try_push-capacity q q' a e = ground arith

  -- A queue with no bound takes everything.
  pub try_push-unbounded :
      (q : Fifo A) (a : A)
      → q.capacity ≡ negsuc 0
      → try_push q a ≡ some (record q { items = q.items ++ (a ∷ []) })
  unfolding try_push at_capacity
  try_push-unbounded q a e = ground arith

  pub try_pop-none : (q : Fifo A) → try_pop q ≡ none → q.items ≡ []
  unfolding try_pop pop_front
  try_pop-none q e = ground arith

  pub try_pop-capacity :
      (q q' : Fifo A) (a : A) → try_pop q ≡ some (a, q') → q'.capacity ≡ q.capacity
  unfolding try_pop pop_front
  try_pop-capacity q q' a e = ground arith

  pub try_pop-some : (q q' : Fifo A) (a : A) → try_pop q ≡ some (a, q') → q.items ≡ a ∷ q'.items
  unfolding try_pop pop_front
  try_pop-some q q' a e = ground arith
