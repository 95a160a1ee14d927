-- ===== src/Queue/Cells.antt =====
-- Linked cells on the heap of queue.c: which cells, in which order, hang on a pointer.
use leda.Prelude.{
  ℕ, suc, ◌≡◌, refl, ◌≢◌, sym, ap, ◌∙◌, Option, none, some, List, [], ◌∷◌, ◌++◌, length, All,
  update, update_self, update_ne,
}
use leda.Queue.{Element, Heap, new_element}

-- An address with the pointer stored there.
abbrev pub Cell : Type 0
Cell = ℕ × ℕ

abbrev pub first : List Cell → ℕ
first [] = 0
first ((a, v) ∷ cs) = a

abbrev pub last : ℕ → List Cell → ℕ
last a [] = a
last a ((b, v) ∷ cs) = last b cs

abbrev pub values : List Cell → List ℕ
values [] = []
values ((a, v) ∷ cs) = v ∷ values cs

abbrev pub Avoids : ℕ → List Cell → Type 0
Avoids a = All (λ c. c.0 ≢ a)

-- The cells are allocated, linked in this order, and their addresses are distinct.
abbrev pub Chain : Heap → List Cell → Type 0
Chain h [] = Unit
Chain h ((a, v) ∷ cs) =
    (a ≢ 0) × (h a ≡ some (record { ptr = v; next = first cs })) × Avoids a cs × Chain h cs

pub Avoids-of_free : (h : Heap) (el : ℕ) (cs : List Cell) → h el ≡ none → Chain h cs → Avoids el cs
Avoids-of_free h el [] free ch = tt
Avoids-of_free h el ((a, v) ∷ cs) free (nz, here, out, ch) =
    ((λ e. cc (ap h e)), Avoids-of_free h el cs free ch)

pub last-ne : (a b v : ℕ) (cs : List Cell) → Avoids a ((b, v) ∷ cs) → last b cs ≢ a
last-ne a b v [] out = out.0
last-ne a b v ((c, w) ∷ cs) out = last-ne a c w cs out.1

-- A write elsewhere leaves the cells as they were.
pub Chain-update :
    (h : Heap) (el : ℕ) (x : Option Element) (cs : List Cell)
    → Avoids el cs
    → Chain h cs
    → Chain (update h el x) cs
Chain-update h el x [] out ch = tt
Chain-update h el x ((a, v) ∷ cs) out (nz, here, apart, ch) =
    (nz, update_ne h x (λ e. out.0 (sym e)) ∙ here, apart, Chain-update h el x cs out.1 ch)

Avoids-snoc : (a el v : ℕ) (cs : List Cell) → el ≢ a → Avoids a cs → Avoids a (cs ++ (el, v) ∷ [])
Avoids-snoc a el v [] ne out = (ne, tt)
Avoids-snoc a el v ((b, w) ∷ cs) ne out = (out.0, Avoids-snoc a el v cs ne out.1)

-- Writing `el` into the last cell links the new cell behind it.
pub Chain-link :
    (h : Heap) (el v a w : ℕ) (cs : List Cell)
    → el ≢ 0
    → h el ≡ some (new_element v)
    → Avoids el ((a, w) ∷ cs)
    → Chain h ((a, w) ∷ cs)
    → (el' : Element) × (h (last a cs) ≡ some el')
      × Chain (update h (last a cs) (some (record el' { next = el }))) ((a, w) ∷ cs ++ (el, v) ∷ [])
Chain-link h el v a w [] nz new out (anz, here, apart, ch) = (
  record { ptr = w; next = 0 },
  here,
  (anz, update_self h a _, ((λ e. out.0 (sym e)), tt), (nz, (update_ne h _ out.0 ∙ new), tt, tt)),
)
Chain-link h el v a w ((b, u) ∷ cs) nz new out (anz, here, apart, ch) =
    let (el', found, linked) = Chain-link h el v b u cs nz new out.1 ch in
    (
      el',
      found,
      (
        anz,
        (update_ne h _ (last-ne a b u cs apart) ∙ here),
        Avoids-snoc a el v ((b, u) ∷ cs) (λ e. out.0 (sym e)) apart,
        linked,
      ),
    )

pub values-snoc : (cs : List Cell) (a v : ℕ) → values (cs ++ (a, v) ∷ []) ≡ values cs ++ v ∷ []
values-snoc [] a v = refl
values-snoc ((b, w) ∷ cs) a v = ap (◌∷◌ w) (values-snoc cs a v)

pub last-snoc : (a v b : ℕ) (cs : List Cell) → last b (cs ++ (a, v) ∷ []) ≡ a
last-snoc a v b [] = refl
last-snoc a v b ((c, w) ∷ cs) = last-snoc a v c cs

pub length-values : (cs : List Cell) → length (values cs) ≡ length cs
length-values [] = refl
length-values ((a, v) ∷ cs) = ap suc (length-values cs)
