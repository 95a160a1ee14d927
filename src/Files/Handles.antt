-- ===== src/Files/Handles.antt =====
-- A file that travels from one Lua state to another has one handle at a time.
use leda.Prelude.{
  ℕ, suc, ◌<◌, ◌≤◌, ◌≡◌, ◌≢◌, refl, sym, ap, ◌∙◌, false, Bool-cases, ◌==◌, ◌⊎◌, some, inl, inr, [],
  ◌∷◌, update, update_self, update_ne, arith,
}
use leda.Lua.{userdata}
use leda.Files.{FileHandles, leda_wrap_io, leda_unwrap_io}

-- No file has two handles, and the handles that are not given out yet hold none.
abbrev pub OneHandle : FileHandles → Type 0
OneHandle s =
    ((h h' : ℕ) → s.file h ≢ 0 → s.file h ≡ s.file h' → h ≡ h')
    × ((h : ℕ) → s.next ≤ h → s.file h ≡ 0)

-- What a handle that is passed on comes to: a new handle of the same file, while the old one has none and
-- the others are as they were.
abbrev pub PassedOn : ℕ → FileHandles → FileHandles → Type 0
PassedOn h s s' =
    (s'.file s.next ≡ s.file h)
    × (s'.file h ≡ 0)
    × ((j : ℕ) → j ≢ h → j ≢ s.next → s'.file j ≡ s.file j)

abbrev after : ℕ → FileHandles → FileHandles
after h s = record { file = update (update (s.file) h 0) (s.next) (s.file h); next = suc (s.next) }

passed : (h : ℕ) (s : FileHandles) → h < s.next → PassedOn h s (after h s)
passed h s lt = (
  update_self (update (s.file) h 0) s.next (s.file h),
  update_ne (update (s.file) h 0) (s.file h) (λ e. omega (arith, e, lt)) ∙ update_self (s.file) h 0,
  (λ j ne ne'.
      update_ne (update (s.file) h 0) (s.file h) (λ e. ne' (sym e))
      ∙ update_ne (s.file) 0 (λ e. ne (sym e))),
)

-- A handle is the new one, the old one or another.
which : (h n j : ℕ) → (j ≡ n) ⊎ ((j ≡ h) ⊎ ((j ≢ h) × (j ≢ n)))
which h n j = elim (Bool-cases (j == n)) [
  | inl e ↦ inl (ground arith)
  | inr e ↦ elim (Bool-cases (j == h)) [
    | inl e' ↦ inr (inl (ground arith))
    | inr e' ↦ inr (inr ((λ q. ground arith), (λ q. ground arith)))
  ]
]

one_left :
    (h : ℕ) (s s' : FileHandles)
    → PassedOn h s s'
    → s'.next ≡ suc s.next
    → OneHandle s
    → h < s.next
    → OneHandle s'
one_left h s s' (new, old, others) next (one, free) lt = (single, unused)
  where
    single : (a b : ℕ) → s'.file a ≢ 0 → s'.file a ≡ s'.file b → a ≡ b
    single a b some_ same = elim (which h s.next a) [
      | inl at ↦ elim (which h s.next b) [
        | inl at' ↦ at ∙ sym at'
        | inr (inl at') ↦ absurd (some_ (same ∙ ap (s'.file) at' ∙ old))
        | inr (inr (ne, ne')) ↦ absurd (
            ne (
              sym (
                one h b (λ z. some_ (ap (s'.file) at ∙ new ∙ z))
                  (sym new ∙ ap (s'.file) (sym at) ∙ same ∙ others b ne ne'))))
      ]
      | inr (inl at) ↦ absurd (some_ (ap (s'.file) at ∙ old))
      | inr (inr (ne, ne')) ↦ elim (which h s.next b) [
        | inl at' ↦ absurd (
            ne (
              one a h (λ z. some_ (others a ne ne' ∙ z))
                (sym (others a ne ne') ∙ same ∙ ap (s'.file) at' ∙ new)))
        | inr (inl at') ↦ absurd (some_ (same ∙ ap (s'.file) at' ∙ old))
        | inr (inr (nb, nb')) ↦
            one a b (λ z. some_ (others a ne ne' ∙ z))
              (sym (others a ne ne') ∙ same ∙ others b nb nb')
      ]
    ]

    unused : (j : ℕ) → s'.next ≤ j → s'.file j ≡ 0
    unused j le =
        others j (λ e. omega (arith, e, le, next, lt)) (λ e. omega (arith, e, le, next))
        ∙ free j (omega (arith, le, next))

-- A file handle with a file that is wrapped in one Lua state and unwrapped in another comes out as a new handle of the same file: the old one holds no file any more, the others are as they were, and if no file had two handles before, none has after.
pub unwrap-wrap :
    (h : ℕ) (s : FileHandles)
    → h < s.next
    → s.file h ≢ 0
    → OneHandle s
    → (s' : FileHandles) × (leda_unwrap_io (leda_wrap_io h s).0 (leda_wrap_io h s).1
        ≡ some (userdata s.next ∷ [], s'))
      × PassedOn h s s'
      × OneHandle s'
unfolding leda_wrap_io leda_unwrap_io
unwrap-wrap h s lt some_ one = (
  after h s,
  rw not_null refl,
  passed h s lt,
  one_left h s (after h s) (passed h s lt) refl one lt,
)
  where
    not_null : (s.file h == 0) ≡ false
    not_null = elim (Bool-cases (s.file h == 0)) [
      | inl e ↦ absurd (some_ (ground arith))
      | inr e ↦ e
    ]
