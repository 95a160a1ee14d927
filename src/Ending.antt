-- ===== src/Ending.antt =====
-- The end of a run: `leda_event_end_t` of src/kernel/event.c, after its thread has been killed.
mod Examples
use leda.Prelude.{
  ℕ, zero, suc, ◌+◌, ◌<◌, ◌≡◌, refl, sym, ap, ◌∙◌, List, [], ◌∷◌, ◌++◌, ◌≤◌, ltb, if◌then◌else◌,
  update, update_self, update_ne, subst, ◌⊎◌, inl, inr, ◌==◌, Bool-cases, arith,
}
use leda.Prelude.Int.{ℤ, pos, negsuc, ltb_ℤ}
use leda.Queue.Fifo
use leda.Queue.Fifo.{Fifo}
use leda.Kernel.{Net}

-- `while(TRY_POP(sockets[i],sock)) close((int)sock)`, on the sockets that the pool holds: those that are closed.
unfoldable pub drain : List ℤ → List ℤ → List ℤ
drain [] closed = closed
drain (fd ∷ rest) closed = drain rest (closed ++ fd ∷ [])

-- One round of the loop over the processes: the pool is emptied.
abbrev pub end_pool : ℕ → Net → Net
end_pool d net = record net {
  closed = drain (net.sockets d).items net.closed;
  sockets = update (net.sockets) d (record (net.sockets d) { items = [] });
}

-- The loop from process `d` on, over `n` processes.
unfoldable pub end_pools : ℕ → ℕ → Net → Net
end_pools d zero net = net
end_pools d (suc n) net = end_pools (suc d) n (end_pool d net)

-- `leda_event_end_t`
unfoldable pub leda_event_end_t : ℕ → Net → Net
leda_event_end_t n_d net = end_pools 0 n_d net

-- The sockets in the pools of `n` processes from `d` on.
abbrev pub kept : Net → ℕ → ℕ → List ℤ
kept net d zero = []
kept net d (suc n) = (net.sockets d).items ++ kept net (suc d) n

append_assoc : (xs ys zs : List ℤ) → (xs ++ ys) ++ zs ≡ xs ++ (ys ++ zs)
append_assoc [] ys zs = refl
append_assoc (x ∷ xs) ys zs = ap (◌∷◌ x) (append_assoc xs ys zs)

append_none : (xs : List ℤ) → xs ++ [] ≡ xs
append_none [] = refl
append_none (x ∷ xs) = ap (◌∷◌ x) (append_none xs)

drain_lem : (fds closed : List ℤ) → drain fds closed ≡ closed ++ fds
unfolding drain
drain_lem [] closed = sym (append_none closed)
drain_lem (fd ∷ rest) closed =
    drain_lem rest (closed ++ fd ∷ []) ∙ append_assoc closed (fd ∷ []) rest

-- Emptying one pool leaves those after it.
kept-end_pool : (net : Net) (d j n : ℕ) → d < j → kept (end_pool d net) j n ≡ kept net j n
kept-end_pool net d j zero lt = refl
kept-end_pool net d j (suc n) lt =
    ap (λ q. q.items ++ kept (end_pool d net) (suc j) n)
      (update_ne (net.sockets) {i = d} {j = j} (record (net.sockets d) { items = [] })
        (λ e. omega (arith, e)))
    ∙ ap (λ fds. (net.sockets j).items ++ fds) (kept-end_pool net d (suc j) n (omega arith))

end_pools-closed : (n d : ℕ) (net : Net) → (end_pools d n net).closed ≡ net.closed ++ kept net d n
unfolding end_pools
end_pools-closed zero d net = sym (append_none net.closed)
end_pools-closed (suc n) d net =
    end_pools-closed n (suc d) (end_pool d net)
    ∙ ap (λ fds. fds ++ kept (end_pool d net) (suc d) n)
        (drain_lem (net.sockets d).items net.closed)
    ∙ append_assoc net.closed (net.sockets d).items _
    ∙ ap (λ fds. net.closed ++ ((net.sockets d).items ++ fds))
        (kept-end_pool net d (suc d) n (omega arith))

-- A pool that was emptied, or is before the loop, stays as it is.
end_pools-before : (n d j : ℕ) (net : Net) → j < d → (end_pools d n net).sockets j ≡ net.sockets j
unfolding end_pools
end_pools-before zero d j net lt = refl
end_pools-before (suc n) d j net lt =
    end_pools-before n (suc d) j (end_pool d net) (omega arith)
    ∙ update_ne (net.sockets) (record (net.sockets d) { items = [] }) (λ e. omega (arith, e))

first_or_later : (d j : ℕ) → d ≤ j → (d ≡ j) ⊎ (d < j)
first_or_later d j le = elim (Bool-cases (d == j)) [
  | inl e ↦ inl (ground arith)
  | inr e ↦ inr (ground arith)
]

end_pools-empty :
    (n d j : ℕ) (net : Net) → d ≤ j → j < d + n → ((end_pools d n net).sockets j).items ≡ []
unfolding end_pools
end_pools-empty zero d j net le lt = absurd (omega arith)
end_pools-empty (suc n) d j net le lt = elim (first_or_later d j le) [
  | inl e ↦
      ap (λ q. q.items)
        (end_pools-before n (suc d) j (end_pool d net) (omega (arith, e))
          ∙ subst (λ i. (end_pool d net).sockets i ≡ record (net.sockets d) { items = [] }) e
              (update_self (net.sockets) d (record (net.sockets d) { items = [] })))
  | inr later ↦ end_pools-empty n (suc d) j (end_pool d net) (omega (arith, later)) (omega arith)
]

-- At the end of a run every socket that the pools of the processes keep is closed, once, in the order in which they are kept, after those that were closed before, and every pool is empty.
pub leda_event_end_t-closed :
    (n_d : ℕ) (net : Net)
    → ((leda_event_end_t n_d net).closed ≡ net.closed ++ kept net 0 n_d)
      × ((d : ℕ) → d < n_d → ((leda_event_end_t n_d net).sockets d).items ≡ [])
unfolding leda_event_end_t
leda_event_end_t-closed n_d net = (
  end_pools-closed n_d 0 net,
  (λ d lt. end_pools-empty n_d 0 d net (omega arith) (omega (arith, lt))),
)
