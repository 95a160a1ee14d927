-- ===== src/Remote/Wire/Transfer.antt =====
-- The loops that write and read on a socket lose, repeat and reorder nothing, and end.
use mathlib.Core.List.{append_assoc, append-nil}
use leda.Prelude.{
  ℕ, zero, suc, ◌+◌, ◌-◌, ◌≤◌, ◌≡◌, refl, sym, ap, ◌∙◌, inl, inr, Bool-cases, List, [], ◌∷◌, ◌++◌,
  length, length-append, take, drop, take-append-drop, leb, arith,
}
use leda.Remote.Wire.{
  Put, took, put_again, put_failed, Wrote, wrote_all, wrote_error, writing, write_loop, Got, got,
  got_again, got_failed, put_back, Body, complete, read_body,
}

-- What the socket took is the buffer, or the front of it.
abbrev pub Sends : List ℕ → Wrote → Type 0
Sends buffer (wrote_all out) = out ≡ buffer
Sends buffer (wrote_error out) = (left : List ℕ) × (out ++ left ≡ buffer)
Sends buffer (writing out) = (left : List ℕ) × (out ++ left ≡ buffer)

written_part :
    (n : ℕ) (out buffer : List ℕ) → (out ++ take n buffer) ++ drop n buffer ≡ out ++ buffer
written_part n out buffer =
    append_assoc out (take n buffer) (drop n buffer)
    ∙ ap (λ x. out ++ x) (take-append-drop n buffer)

Sends-from :
    (puts : List Put) (out buffer : List ℕ) → Sends (out ++ buffer) (write_loop puts out buffer)
unfolding write_loop
Sends-from [] out [] = sym (append-nil out)
Sends-from (p ∷ puts) out [] = sym (append-nil out)
Sends-from [] out (b ∷ bs) = (b ∷ bs, refl)
Sends-from (took n ∷ puts) out (b ∷ bs) =
    rw (← written_part n out (b ∷ bs)) (Sends-from puts (out ++ take n (b ∷ bs)) (drop n (b ∷ bs)))
Sends-from (put_again ∷ puts) out (b ∷ bs) = Sends-from puts out (b ∷ bs)
Sends-from (put_failed ∷ puts) out (b ∷ bs) = (b ∷ bs, refl)

-- How many bytes the socket would take, and that it does not fail.
abbrev pub room : List Put → ℕ
room [] = 0
room (took n ∷ puts) = n + room puts
room (put_again ∷ puts) = room puts
room (put_failed ∷ puts) = 0

length-drop : (n : ℕ) (xs : List ℕ) → length (drop n xs) ≡ length xs - n
length-drop zero xs = omega arith
length-drop (suc n) [] = omega arith
length-drop (suc n) (x ∷ xs) = omega (arith, length-drop n xs)

write_loop-ends :
    (puts : List Put) (out buffer : List ℕ)
    → length buffer ≤ room puts
    → write_loop puts out buffer ≡ wrote_all (out ++ buffer)
unfolding write_loop
write_loop-ends puts out [] h = ap wrote_all (sym (append-nil out))
write_loop-ends [] out (b ∷ bs) h = absurd (omega arith)
write_loop-ends (took n ∷ puts) out (b ∷ bs) h =
    write_loop-ends puts (out ++ take n (b ∷ bs)) (drop n (b ∷ bs))
      (omega (arith, length-drop n (b ∷ bs)))
    ∙ ap wrote_all (written_part n out (b ∷ bs))
write_loop-ends (put_again ∷ puts) out (b ∷ bs) h = write_loop-ends puts out (b ∷ bs) h
write_loop-ends (put_failed ∷ puts) out (b ∷ bs) h = absurd (omega arith)

-- The write loop sends the buffer, whole and in order: what the socket took is always a front of it, and once the calls of `write` have taken as many bytes as it has, the loop has ended with all of it.
pub write_loop_lem :
    (puts : List Put) (buffer : List ℕ)
    → length buffer ≤ room puts
    → (write_loop puts [] buffer ≡ wrote_all buffer)
      × ((first : List Put) → Sends buffer (write_loop first [] buffer))
write_loop_lem puts buffer h =
    (write_loop-ends puts [] buffer h, λ first. Sends-from first [] buffer)

-- The bytes that arrive, up to an error.
abbrev pub arrives : List Got → List ℕ
arrives [] = []
arrives (got b bs ∷ s) = b ∷ bs ++ arrives s
arrives (got_again ∷ s) = arrives s
arrives (got_failed ∷ s) = []

pub arrives-put_back : (bs : List ℕ) (s : List Got) → arrives (put_back bs s) ≡ bs ++ arrives s
arrives-put_back [] s = refl
arrives-put_back (b ∷ bs) s = refl

-- What taking `n` bytes of `xs ++ ys` is, where `xs` has them or not.
pub take-within : (n : ℕ) (xs ys : List ℕ) → n ≤ length xs → take n (xs ++ ys) ≡ take n xs
take-within zero xs ys h = refl
take-within (suc n) [] ys h = absurd (omega arith)
take-within (suc n) (x ∷ xs) ys h = ap (◌∷◌ x) (take-within n xs ys (omega arith))

pub drop-within : (n : ℕ) (xs ys : List ℕ) → n ≤ length xs → drop n (xs ++ ys) ≡ drop n xs ++ ys
drop-within zero xs ys h = refl
drop-within (suc n) [] ys h = absurd (omega arith)
drop-within (suc n) (x ∷ xs) ys h = drop-within n xs ys (omega arith)

take-beyond :
    (n : ℕ) (xs ys : List ℕ) → length xs ≤ n → take n (xs ++ ys) ≡ xs ++ take (n - length xs) ys
take-beyond n [] ys h = ap (λ k. take k ys) (omega arith)
take-beyond zero (x ∷ xs) ys h = absurd (omega arith)
take-beyond (suc n) (x ∷ xs) ys h =
    ap (◌∷◌ x) (take-beyond n xs ys (omega arith) ∙ ap (λ k. xs ++ take k ys) (omega arith))

drop-beyond : (n : ℕ) (xs ys : List ℕ) → length xs ≤ n → drop n (xs ++ ys) ≡ drop (n - length xs) ys
drop-beyond n [] ys h = ap (λ k. drop k ys) (omega arith)
drop-beyond zero (x ∷ xs) ys h = absurd (omega arith)
drop-beyond (suc n) (x ∷ xs) ys h =
    drop-beyond n xs ys (omega arith) ∙ ap (λ k. drop k ys) (omega arith)

-- The payload loop has ended with the next `n` bytes.
abbrev pub Completes : ℕ → List ℕ → List Got → Body → Type 0
Completes n buf s r =
    (s' : List Got) × (r ≡ complete (buf ++ take n (arrives s)) s')
    × (arrives s' ≡ drop n (arrives s))

read_from :
    (s : List Got) (n : ℕ) (buf : List ℕ)
    → n ≤ length (arrives s)
    → Completes n buf s (read_body n buf s)
unfolding read_body
read_from s zero buf h = (s, ap (λ x. complete x s) (sym (append-nil buf)), refl)
read_from [] (suc n) buf h = absurd (omega arith)
read_from (got_again ∷ s) (suc n) buf h = read_from s (suc n) buf h
read_from (got_failed ∷ s) (suc n) buf h = absurd (omega arith)
read_from (got b bs ∷ s) (suc n) buf h = elim (Bool-cases (leb (length bs) n)) [
  | inl e ↦
      let few : length bs ≤ n = ground arith in
      let (s', r, left) =
        read_from s (n - length bs) (buf ++ b ∷ bs) (omega (arith, length-append bs (arrives s))) in
      (
        s',
        rw e (
            r
            ∙ ap (λ x. complete x s')
                (append_assoc buf (b ∷ bs) (take (n - length bs) (arrives s))
                  ∙ ap (λ x. buf ++ b ∷ x) (sym (take-beyond n bs (arrives s) few)))),
        left ∙ sym (drop-beyond n bs (arrives s) few),
      )
  | inr e ↦
      let many : n ≤ length bs = ground arith in
      (
        put_back (drop n bs) s,
        rw e (
            ap (λ x. complete (buf ++ b ∷ x) (put_back (drop n bs) s))
              (sym (take-within n bs (arrives s) many))),
        arrives-put_back (drop n bs) s ∙ sym (drop-within n bs (arrives s) many),
      )
]

-- The loop of `read_event` gets the payload whole and in order, however the stream splits it and however often the socket says EAGAIN, if as many bytes arrive before an error, and leaves what follows it on the socket.
pub read_body_lem :
    (n : ℕ) (s : List Got) → n ≤ length (arrives s) → Completes n [] s (read_body n [] s)
read_body_lem n s h = read_from s n [] h
