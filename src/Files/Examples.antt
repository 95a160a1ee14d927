-- ===== src/Files/Examples.antt =====
-- A file of six bytes that is read in two pieces, and a handle that is passed on.
use leda.Prelude.{
  ℕ, zero, suc, ◌+◌, ◌≤◌, ◌≡◌, refl, ap, some, List, [], ◌∷◌, take, drop, length, ◌==◌,
  if◌then◌else◌, arith,
}
use leda.Lua.{userdata}
use leda.Instance.Samples.{runner}
use leda.Files.{
  OpenFile, asyio_prep_pread, aio_submit_read, finish_aio, FileHandles, leda_wrap_io,
  leda_unwrap_io,
}
use leda.Files.Reads.{Disk, Preads, read_once, read_all, read_all-consecutive}
use leda.Files.Handles.{OneHandle, PassedOn, unwrap-wrap}

abbrev six : ℕ → OpenFile
six fd = record { bytes = 1 ∷ 2 ∷ 3 ∷ 4 ∷ 5 ∷ 6 ∷ []; position = 1 }

-- A system that brings at most two bytes for a request.
abbrev disk : Disk
disk files cb = take cb.aio_nbytes (take 2 (drop cb.aio_offset (files cb.aio_fildes).bytes))

take_twice :
    (n m : ℕ) (xs : List ℕ)
    → (length (take n (take m xs)) ≤ n)
      × (take n (take m xs) ≡ take (length (take n (take m xs))) xs)
take_twice zero m xs = (omega arith, refl)
take_twice (suc n) zero xs = (omega arith, refl)
take_twice (suc n) (suc m) [] = (omega arith, refl)
take_twice (suc n) (suc m) (x ∷ xs) =
    let (fits, is) = take_twice n m xs in (omega (arith, fits), ap (λ ys. x ∷ ys) is)

disk-Preads : Preads disk
disk-Preads files cb reads =
    take_twice cb.aio_nbytes 2 (drop cb.aio_offset (files cb.aio_fildes).bytes)

read_all-consecutive_example :
    let bytes = (read_all disk 3 runner (4 ∷ 1 ∷ []) six).1 in
    (bytes ≡ take (length bytes) (drop 1 (1 ∷ 2 ∷ 3 ∷ 4 ∷ 5 ∷ 6 ∷ [])))
    × (length bytes ≤ 5)
    × (((read_all disk 3 runner (4 ∷ 1 ∷ []) six).0 3).position ≡ 1 + length bytes)
read_all-consecutive_example = read_all-consecutive disk 3 runner disk-Preads (4 ∷ 1 ∷ []) six

three_bytes : (read_all disk 3 runner (4 ∷ 1 ∷ []) six).1 ≡ 2 ∷ 3 ∷ 4 ∷ []
unfolding read_all read_once aio_submit_read finish_aio asyio_prep_pread
three_bytes = refl

abbrev handles : FileHandles
handles = record { file = λ h. if h == 0 then 9 else 0; next = 1 }

handles-OneHandle : OneHandle handles
handles-OneHandle = ((λ h h' some_ same. ground arith), (λ h le. ground arith))

unwrap-wrap_example :
    (s' : FileHandles) × (leda_unwrap_io (leda_wrap_io 0 handles).0 (leda_wrap_io 0 handles).1
      ≡ some (userdata 1 ∷ [], s'))
    × PassedOn 0 handles s'
    × OneHandle s'
unwrap-wrap_example = unwrap-wrap 0 handles (omega arith) (λ e. omega (arith, e)) handles-OneHandle
