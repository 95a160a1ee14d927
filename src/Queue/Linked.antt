-- ===== src/Queue/Linked.antt =====
-- What linking and unlinking a cell in queue.c does to the cells that hang on the queue.
use leda.Prelude.{
  ℕ, ◌≡◌, refl, ◌≢◌, sym, ap, subst, ◌∙◌, true, none, some, List, [], ◌∷◌, ◌++◌, update,
  update_self,
}
use leda.Prelude.Int.{pos, ◌+ℤ◌}
use leda.Queue.Cells.{Cell, first, last, Chain, Avoids-of_free, Chain-update, Chain-link, last-snoc}
use leda.Queue.{
  Element, Store, pop_signal, silent, empty_queue, done, new_element, push_first, push_last,
  unlink_head,
}

-- `tail` is only kept for a queue that holds something.
abbrev pub IsTail : List Cell → ℕ → Type 0
IsTail [] t = Unit
IsTail ((a, v) ∷ cs) t = t ≡ last a cs

-- The cells that hang on the queue.
pub record Linked (s : Store) (cs : List Cell) : Type 0 where
  pub head : s.queue.head ≡ first cs
  pub tail : IsTail cs s.queue.tail
  pub chain : Chain s.heap cs

pub push_first-Linked :
    (s : Store) (el v : ℕ)
    → el ≢ 0
    → (s' : Store) × (push_first el v s ≡ done true empty_queue s')
      × Linked s' ((el, v) ∷ [])
      × (s'.queue.size ≡ s.queue.size +ℤ pos 1)
      × (s'.queue.capacity ≡ s.queue.capacity)
unfolding push_first
push_first-Linked s el v nz = (
  _,
  refl,
  record { head = refl; tail = refl; chain = (nz, update_self s.heap el _, tt, tt) },
  refl,
  refl,
)

push_last-found :
    (s : Store) (el v : ℕ) {last' : Element}
    → update s.heap el (some (new_element v)) s.queue.tail ≡ some last'
    → push_last el v s
      ≡ done true silent (record {
        heap =
            update
              (update s.heap el (some (new_element v)))
              s.queue.tail
              (some (record last' { next = el }));
        queue = record (s.queue) { tail = el; size = s.queue.size +ℤ pos 1 };
      })
unfolding push_last
push_last-found s el v found = rw (found, push_last) refl

pub push_last-Linked :
    (s : Store) (el v a w : ℕ) (cs : List Cell)
    → el ≢ 0
    → s.heap el ≡ none
    → Linked s ((a, w) ∷ cs)
    → (s' : Store) × (push_last el v s ≡ done true silent s')
      × Linked s' ((a, w) ∷ cs ++ (el, v) ∷ [])
      × (s'.queue.size ≡ s.queue.size +ℤ pos 1)
      × (s'.queue.capacity ≡ s.queue.capacity)
push_last-Linked s el v a w cs nz free l =
    let h = update s.heap el (some (new_element v)) in
    let out = Avoids-of_free s.heap el ((a, w) ∷ cs) free l.chain in
    let (el', found, linked) =
      Chain-link h el v a w cs nz (update_self s.heap el _) out
        (Chain-update s.heap el _ ((a, w) ∷ cs) out l.chain) in
    (
      record {
        heap = update h s.queue.tail (some (record el' { next = el }));
        queue = record (s.queue) { tail = el; size = s.queue.size +ℤ pos 1 };
      },
      push_last-found s el v (ap h l.tail ∙ found),
      record {
        head = l.head;
        tail = sym (last-snoc el v a cs);
        chain =
            subst
              (λ t.
                Chain (update h t (some (record el' { next = el }))) ((a, w) ∷ cs ++ (el, v) ∷ []))
              (sym l.tail) linked;
      },
      refl,
      refl,
    )

unlink_head-found :
    (s : Store) {el : Element}
    → s.heap s.queue.head ≡ some el
    → unlink_head s
      ≡ done (some el.ptr) (pop_signal s.queue) (record {
        heap = update s.heap s.queue.head none;
        queue = record (s.queue) { head = el.next };
      })
unfolding unlink_head
unlink_head-found s found = rw (found, unlink_head) refl

IsTail-rest : (a v t : ℕ) (cs : List Cell) → IsTail ((a, v) ∷ cs) t → IsTail cs t
IsTail-rest a v t [] h = tt
IsTail-rest a v t ((b, w) ∷ cs) h = h

pub unlink_head-Linked :
    (s : Store) (a v : ℕ) (cs : List Cell)
    → Linked s ((a, v) ∷ cs)
    → (s' : Store) × (unlink_head s ≡ done (some v) (pop_signal s.queue) s')
      × Linked s' cs
      × (s'.queue.size ≡ s.queue.size)
      × (s'.queue.capacity ≡ s.queue.capacity)
unlink_head-Linked s a v cs l = (
  record { heap = update s.heap s.queue.head none; queue = record (s.queue) { head = first cs } },
  unlink_head-found s (ap s.heap l.head ∙ l.chain.1),
  record {
    head = refl;
    tail = IsTail-rest a v _ cs l.tail;
    chain =
        subst (λ t. Chain (update s.heap t none) cs) (sym l.head)
          (Chain-update s.heap a none cs l.chain.2 l.chain.3);
  },
  refl,
  refl,
)
