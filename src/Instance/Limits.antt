-- ===== src/Instance/Limits.antt =====
-- The limits that src/kernel/instance.c sets for the stages.
use leda.Prelude.{
  ℕ, ◌≡◌, refl, ap, ◌∙◌, sym, Bool, true, false, Bool-cases, [], inl, inr, ◌⊎◌, leb, ltb, ◌==◌,
  arith,
}
use leda.Prelude.Int.{ℤ, pos, negsuc, ltb_ℤ, ◌≤ℤ◌}
use leda.Lua.{Value, to_integer}
use leda.Queue.Fifo
use leda.Atomic.{atomic_new}
use leda.Kernel.{Kernel}
use leda.Instance.{
  init_slot, instance_init, set_maxpar_all, set_maxpar_of, instance_set_maxpar, is_number,
}
use leda.Instance.Places.{SlotOk, Pool}

limit_fits : (limit : ℤ) → negsuc 0 ≤ℤ limit → (limit ≡ negsuc 0) ⊎ (pos 0 ≤ℤ limit)
limit_fits (pos n) le = inr (omega arith)
limit_fits (negsuc n) le = inl (ap negsuc (omega arith))

init-SlotOk :
    (s : ℕ) (recycle_limit pending_limit : ℤ) (serial local : Bool)
    → negsuc 0 ≤ℤ recycle_limit
    → SlotOk s (init_slot recycle_limit pending_limit serial local) 0
unfolding init_slot atomic_new Fifo.set_capacity Fifo.new
init-SlotOk s recycle_limit pending_limit true local le = record {
  counted = refl;
  own = tt;
  within = inr (omega arith);
  same = refl;
  fair = inl refl;
}
init-SlotOk s recycle_limit pending_limit false local le = record {
  counted = refl;
  own = tt;
  within = limit_fits recycle_limit le;
  same = refl;
  fair = inl refl;
}

-- After `instance_init` with a limit that is -1 or not negative, and nothing in the event loop, every stage's tables fit, with no instance anywhere.
pub instance_init-Pool :
    (recycle_limit pending_limit : ℤ) (k : Kernel)
    → negsuc 0 ≤ℤ recycle_limit
    → k.waiting ≡ []
    → Pool (instance_init recycle_limit pending_limit k) []
unfolding instance_init Fifo.set_capacity Fifo.new
instance_init-Pool recycle_limit pending_limit k le idle s =
    rw idle (init-SlotOk s recycle_limit pending_limit (k.slots s).serial (k.slots s).local le)

set_maxpar_of-serial :
    (i cap : ℤ) (k : Kernel) (s : ℕ)
    → (k.slots s).serial ≡ true
    → (set_maxpar_of i cap k).1.slots s ≡ k.slots s
unfolding set_maxpar_of
set_maxpar_of-serial (negsuc i) cap k s serial = elim (Bool-cases (ltb_ℤ cap (negsuc 0))) [
  | inl e ↦ rw e refl
  | inr e ↦ rw e refl
]
set_maxpar_of-serial (pos i) cap k s serial = elim (Bool-cases (ltb_ℤ cap (negsuc 0))) [
  | inl e ↦ rw e refl
  | inr e ↦ elim (Bool-cases (leb k.n_s i)) [
    | inl f ↦ rw (e, f) refl
    | inr f ↦ elim (Bool-cases (k.slots i).serial) [
      | inl g ↦ rw (e, f, g) refl
      | inr g ↦ elim (Bool-cases (i == s)) [
        | inl h ↦ cc (sym serial ∙ ap (λ j. (k.slots j).serial) (sym (same h)) ∙ g)
        | inr h ↦ rw (e, f, g, h) refl
      ]
    ]
  ]
]
  where
    same : {i s : ℕ} → (i == s) ≡ true → i ≡ s
    same h = ground arith

-- `instance_set_maxpar`, whatever its arguments, leaves the tables of a serial stage as they are: such a stage keeps its limit of one instance.
pub set_maxpar-serial :
    (first second : Value) (k : Kernel) (s : ℕ)
    → (k.slots s).serial ≡ true
    → (instance_set_maxpar first second k).1.slots s ≡ k.slots s
unfolding instance_set_maxpar set_maxpar_all
set_maxpar-serial first second k s serial = elim (Bool-cases (is_number second)) [
  | inl e ↦ rw e (set_maxpar_of-serial (to_integer first) (to_integer second) k s serial)
  | inr e ↦ elim (Bool-cases (ltb_ℤ (to_integer first) (negsuc 0))) [
    | inl f ↦ rw (e, f) refl
    | inr f ↦ elim (Bool-cases (ltb s k.n_s)) [
      | inl g ↦ rw (e, f, g, serial) refl
      | inr g ↦ rw (e, f, g) refl
    ]
  ]
]
