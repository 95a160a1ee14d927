-- ===== src/Files/Reads.antt =====
-- Reads one after the other bring the file, piece by piece.
use leda.Prelude.{
  ℕ, ◌+◌, ◌≤◌, ◌≡◌, refl, sym, ap, ◌∙◌, true, Option, none, some, List, [], ◌∷◌, ◌++◌, length,
  length-append, take, drop, drop_add, take-drop_add, update_self, arith,
}
use leda.Prelude.Int.{pos}
use leda.Kernel.{Instance}
use leda.Wait.{Completion, read_done, write_done}
use leda.Files.{OpenFile, pread, Iocb, asyio_prep_pread, aio_submit_read, finish_aio, read_result}

-- What the system puts into the buffer of a request.
abbrev pub Disk : Type 0
Disk = (ℕ → OpenFile) → Iocb → List ℕ

-- A read brings bytes of the request's file that stand from the request's offset on, as many as the
-- request asks for or fewer.
abbrev pub Preads : Disk → Type 0
Preads disk =
    (files : ℕ → OpenFile) (cb : Iocb)
    → cb.aio_lio_opcode ≡ pread
    → let got = disk files cb in
      (length got ≤ cb.aio_nbytes)
      × (got ≡ take (length got) (drop cb.aio_offset (files cb.aio_fildes).bytes))

abbrev pub bytes_of : Completion → List ℕ
bytes_of (read_done res bytes) = bytes
bytes_of (write_done res) = []

abbrev pub total : List ℕ → ℕ
total [] = 0
total (n ∷ ns) = n + total ns

take_add :
    (a b p : ℕ) (xs : List ℕ)
    → take a (drop p xs) ++ take b (drop (p + a) xs) ≡ take (a + b) (drop p xs)
take_add a b p xs =
    ap (λ ys. take a (drop p xs) ++ take b ys) (drop_add p a xs) ∙ take-drop_add a b (drop p xs)

-- A read moves the position past what it brought, and leaves the bytes of the file.
abbrev Moved : (ℕ → OpenFile) → ℕ → ℕ → (ℕ → OpenFile) → Type 0
Moved files fd n files' =
    ((files' fd).position ≡ (files fd).position + n) × ((files' fd).bytes ≡ (files fd).bytes)

module _ (disk : Disk) (fd : ℕ) (i : Instance) where
  abbrev pub finished : (ℕ → OpenFile) → Option Iocb → (ℕ → OpenFile) × Completion
  finished files none = (files, read_done (pos 0) [])
  finished files (some cb) = finish_aio cb (pos (length (disk files cb))) (disk files cb) files

  -- A request that is taken, and its completion.
  unfoldable pub read_once : ℕ → (ℕ → OpenFile) → (ℕ → OpenFile) × Completion
  read_once size files = finished files (aio_submit_read true files fd size i)

  -- The files after reads of these sizes, and all bytes that they brought.
  unfoldable pub read_all : List ℕ → (ℕ → OpenFile) → (ℕ → OpenFile) × List ℕ
  read_all [] files = (files, [])
  read_all (size ∷ sizes) files =
      let (files', c) = read_once size files in
      let (files'', more) = read_all sizes files' in (files'', bytes_of c ++ more)

  -- The bytes of one read stand in the file from its position on.
  abbrev Brings : ℕ → (ℕ → OpenFile) → (ℕ → OpenFile) × Completion → Type 0
  Brings size files (files', c) =
      Moved files fd (length (bytes_of c)) files'
      × (length (bytes_of c) ≤ size)
      × (bytes_of c ≡ take (length (bytes_of c)) (drop (files fd).position (files fd).bytes))

  read_once-Brings :
      Preads disk → (size : ℕ) (files : ℕ → OpenFile) → Brings size files (read_once size files)
  unfolding read_once aio_submit_read finish_aio asyio_prep_pread
  read_once-Brings preads size files = by (disk files cb) (preads files cb refl)
    where
      cb : Iocb
      cb = asyio_prep_pread fd size (files fd).position i

      by :
          (got : List ℕ)
          → (length got ≤ size)
            × (got ≡ take (length got) (drop (files fd).position (files fd).bytes))
          → Brings size files (read_result cb (pos (length got)) got files)
      by [] (fits, is) = ((omega arith, refl), fits, is)
      by (b ∷ bs) (fits, is) = (
        (ap (λ f. f.position) (update_self files fd _), ap (λ f. f.bytes) (update_self files fd _)),
        fits,
        is,
      )

  -- Reads of one instance, one after the other, from a file that nothing else moves: if the system answers every request to read with bytes of its file from its offset on, all reads together bring the part of the file from its position on, without a gap and without a byte twice, no more than they ask for, and the position is after it.
  pub read_all-consecutive :
      Preads disk
      → (sizes : List ℕ) (files : ℕ → OpenFile)
      → let bytes = (read_all sizes files).1 in
        (bytes ≡ take (length bytes) (drop (files fd).position (files fd).bytes))
        × (length bytes ≤ total sizes)
        × (((read_all sizes files).0 fd).position ≡ (files fd).position + length bytes)
  unfolding read_all
  read_all-consecutive preads [] files = (refl, omega arith, omega arith)
  read_all-consecutive preads (size ∷ sizes) files =
      let ((moved, same), fits, is) = read_once-Brings preads size files in
      let (next, within, position) = read_all-consecutive preads sizes (read_once size files).0 in
      let got = bytes_of (read_once size files).1 in
      let more = (read_all sizes (read_once size files).0).1 in
      let joined = length-append got more in
      (
        ap (λ xs. xs ++ more) is
            ∙ ap (λ xs. take (length got) (drop (files fd).position (files fd).bytes) ++ xs)
                (next
                  ∙ ap (λ n. take (length more) (drop n ((read_once size files).0 fd).bytes)) moved
                  ∙ ap (λ xs. take (length more) (drop ((files fd).position + length got) xs)) same)
            ∙ take_add (length got) (length more) (files fd).position (files fd).bytes
            ∙ ap (λ n. take n (drop (files fd).position (files fd).bytes)) (sym joined),
        omega (arith, fits, within, joined),
        omega (arith, position, moved, joined),
      )
