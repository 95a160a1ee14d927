-- ===== src/Remote/RoundRobin.antt =====
-- Remote events go to the processes of a cluster in turn.
use native.Mathlib.Nat.{suc-mod, mod-mod, mod-lt, mod-eq_of_lt}
use leda.Prelude.{ℕ, zero, suc, ◌+◌, ◌%◌, ◌<◌, ◌≡◌, ap, sym, ◌∙◌, subst, arith}
use leda.Prelude.Int.{pos, ◌+ℤ◌, pos-+ℤ-one}
use leda.Atomic.{Atomic, atomic_value, atomic_fetch_and_store}
use leda.Instance.{as_size}
use leda.Remote.{next_destination, after_sends}

mod_add : (a k n : ℕ) → (a % n + k) % n ≡ (a + k) % n
mod_add a zero n = ap (λ x. x % n) (omega arith) ∙ mod-mod a n ∙ ap (λ x. x % n) (omega arith)
mod_add a (suc k) n =
    ap (λ x. x % n) (omega arith)
    ∙ suc-mod (a % n + k) n
    ∙ ap (λ x. suc x % n) (mod_add a k n)
    ∙ sym (suc-mod (a + k) n)
    ∙ ap (λ x. x % n) (omega arith)

pub next-counter :
    (n c : ℕ) (cur : Atomic) → cur.i ≡ pos c → (next_destination n cur).1.i ≡ pos (suc c % n)
unfolding next_destination atomic_fetch_and_store atomic_value
next-counter n c cur e =
    ap (λ z. pos (as_size z % n)) (ap (λ z. z +ℤ pos 1) e ∙ pos-+ℤ-one c ∙ ap pos (omega arith))

-- From a counter that is an index of a cluster's processes, the send after k others goes to the k-th process from there, counted around the cluster, and that is a process of the cluster.
pub round_robin :
    (n c k : ℕ) (cur : Atomic)
    → c < n
    → cur.i ≡ pos c
    → ((next_destination n (after_sends n k cur)).0 ≡ pos ((c + k) % n)) × ((c + k) % n < n)
unfolding after_sends next_destination atomic_fetch_and_store
round_robin n c zero cur lt e = (
  e ∙ ap pos (sym (mod-eq_of_lt lt) ∙ ap (λ a. a % n) (omega arith)),
  mod-lt (c + 0) (omega arith),
)
round_robin n c (suc k) cur lt e =
    let (same, below) =
      round_robin n (suc c % n) k (next_destination n cur).1 (mod-lt (suc c) (omega arith))
        (next-counter n c cur e) in
    (same ∙ ap pos moved, subst (λ a. a < n) moved below)
  where
    moved : (suc c % n + k) % n ≡ (c + suc k) % n
    moved = mod_add (suc c) k n ∙ ap (λ a. a % n) (omega arith)
