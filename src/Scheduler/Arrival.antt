-- ===== src/Scheduler/Arrival.antt =====
-- An event that one process frames arrives at the other.
use mathlib.Core.List.{append-nil, append_assoc}
use leda.Prelude.{
  ltb, Bool-cases, inl, inr, false, ℕ, ◌%◌, ◌^◌, ◌-◌, ◌<◌, ◌≤◌, ◌≡◌, refl, sym, ap, ◌∙◌, Bool, List,
  [], ◌∷◌, ◌++◌, length, length-append, take, drop, take-append, drop-append, arith,
}
use leda.Prelude.Int.{ℤ, pos, negsuc, ◌≤ℤ◌, leb_ℤ}
use leda.Kernel.{fault, Kernel, and_then, pure, ◌>>=◌}
use leda.Instance.{instance_aquire, instance_try_push_pending_event, slot_at, as_size}
use leda.Scheduler.{Platform, emmit_packed_event}
use leda.Scheduler.Receive.{first_byte, acknowledge, receive_body, receive_message, read_event}
use leda.Remote.Wire.{
  event_type, header, header_size, frame, le_bytes, of_le, int_bits, signed32, Got, got, put_back,
  read, complete,
}
use leda.Remote.Wire.Bytes.{length-le_bytes, of_le-le_bytes, signed32-int_bits, length-header}
use leda.Remote.Wire.Transfer.{arrives, arrives-put_back, take-within, drop-within, read_body_lem}

-- What comes in is the header at least, and the payload follows.
header_split :
    (s_id : ℤ) (len : ℕ) (chunk more rest : List ℕ)
    → header_size ≤ length chunk
    → chunk ++ more ≡ header s_id len ++ rest
    → (take header_size chunk ≡ header s_id len) × (drop header_size chunk ++ more ≡ rest)
header_split s_id len chunk more rest enough e = (
  sym (take-within header_size chunk more enough)
      ∙ ap (take header_size) e
      ∙ take-append header_size (header s_id len) rest (length-header s_id len),
  sym (drop-within header_size chunk more enough)
      ∙ ap (drop header_size) e
      ∙ drop-append header_size (header s_id len) rest (length-header s_id len),
)

-- The fields of a header.
stage_field : (s_id : ℤ) (len : ℕ) → take 4 (drop 1 (header s_id len)) ≡ le_bytes 4 (int_bits s_id)
unfolding header
stage_field s_id len =
    take-append 4 (le_bytes 4 (int_bits s_id)) _ (length-le_bytes 4 (int_bits s_id))

length_field : (s_id : ℤ) (len : ℕ) → take 8 (drop 5 (header s_id len)) ≡ le_bytes 8 (len % 2 ^ 64)
unfolding header
length_field s_id len =
    ap (take 8) (drop-append 4 (le_bytes 4 (int_bits s_id)) _ (length-le_bytes 4 (int_bits s_id)))
    ∙ ap (take 8) (sym (append-nil (le_bytes 8 (len % 2 ^ 64))))
    ∙ take-append 8 (le_bytes 8 (len % 2 ^ 64)) [] (length-le_bytes 8 (len % 2 ^ 64))

int_bits-lt : (z : ℤ) → int_bits z < 256 ^ 4
unfolding int_bits
int_bits-lt (pos n) = omega arith
int_bits-lt (negsuc n) = omega arith

type_field : (s_id : ℤ) (len : ℕ) → first_byte (header s_id len) ≡ event_type
unfolding header
type_field s_id len = refl

read_stage :
    (s_id : ℤ) (len : ℕ)
    → negsuc (2 ^ 31 - 1) ≤ℤ s_id
    → s_id ≤ℤ pos (2 ^ 31 - 1)
    → signed32 (of_le (take 4 (drop 1 (header s_id len)))) ≡ s_id
read_stage s_id len lo hi =
    ap (λ x. signed32 (of_le x)) (stage_field s_id len)
    ∙ ap signed32 (of_le-le_bytes 4 (int_bits s_id) (int_bits-lt s_id))
    ∙ signed32-int_bits s_id lo hi

read_length : (s_id : ℤ) (len : ℕ) → len < 2 ^ 64 → of_le (take 8 (drop 5 (header s_id len))) ≡ len
read_length s_id len small =
    ap of_le (length_field s_id len) ∙ of_le-le_bytes 8 (len % 2 ^ 64) (omega arith) ∙ omega arith

message_lem :
    (p : Platform) (acked : Bool) (s_id : ℤ) (len : ℕ) (s : List Got)
    → negsuc (2 ^ 31 - 1) ≤ℤ s_id
    → s_id ≤ℤ pos (2 ^ 31 - 1)
    → len < 2 ^ 64
    → receive_message p acked (header s_id len) s ≡ receive_body p acked s_id len s
unfolding receive_message
message_lem p acked s_id len s lo hi small =
    rw (type_field, read_stage s_id len lo hi, read_length s_id len small) refl

positive : (n : ℕ) → 0 < n → n < 2 ^ 31 → leb_ℤ (signed32 (n % 2 ^ 32)) (pos 0) ≡ false
unfolding signed32
positive n some_ small = ground arith

body_lem :
    (p : Platform) (acked : Bool) (s_id : ℤ) (payload rest : List ℕ) (s : List Got)
    → 0 < length payload
    → length payload < 2 ^ 31
    → arrives s ≡ payload ++ rest
    → receive_body p acked s_id (length payload) s
      ≡ (emmit_packed_event p (as_size s_id) payload >>= λ res. pure (acknowledge acked res))
unfolding receive_body
body_lem p acked s_id payload rest s some_ small e =
    let (s', r, left) =
      read_body_lem (length payload) s (omega (arith, ap length e, length-append payload rest)) in
    rw
      (
        positive (length payload) some_ small,
        r
            ∙ ap (λ x. complete x s')
                (ap (take (length payload)) e ∙ take-append (length payload) payload rest refl),
      )
      refl

-- A process that another one sends a frame to, header in one piece, takes it for an event of the stage with just that payload and answers 1 or 2, whatever the pieces in which the payload arrives and whatever follows it; the stage id is a C `int`, and the payload has at least one byte and fewer than 2^31.
pub read_event-frame :
    (p : Platform) (acked : Bool) (garbage : List ℕ) (s_id : ℤ) (payload rest : List ℕ) (b : ℕ)
    (bs : List ℕ) (s : List Got) (k : Kernel)
    → negsuc (2 ^ 31 - 1) ≤ℤ s_id
    → s_id ≤ℤ pos (2 ^ 31 - 1)
    → 0 < length payload
    → length payload < 2 ^ 31
    → header_size ≤ length (b ∷ bs)
    → b ∷ bs ++ arrives s ≡ frame s_id payload ++ rest
    → read_event p acked garbage (got b bs ∷ s) k
      ≡ and_then
          (emmit_packed_event p (as_size s_id) payload k)
          (λ res. pure (acknowledge acked res))
unfolding read_event read frame
read_event-frame p acked garbage s_id payload rest b bs s k lo hi some_ small whole e =
    let (head, left) =
      header_split s_id (length payload) (b ∷ bs) (arrives s) (payload ++ rest) whole
        (e ∙ append_assoc (header s_id (length payload)) payload rest) in
    ap (λ h. receive_message p acked h after k) (known head)
    ∙ ap (λ m. m k) (message_lem p acked s_id (length payload) after lo hi (omega arith))
    ∙ ap (λ m. m k)
        (body_lem p acked s_id payload rest after some_ small
          (arrives-put_back (drop header_size (b ∷ bs)) s ∙ left))
  where
    after : List Got
    after = put_back (drop header_size (b ∷ bs)) s

    known :
        take header_size (b ∷ bs) ≡ header s_id (length payload)
        → take header_size
            (take header_size (b ∷ bs) ++ drop (length (take header_size (b ∷ bs))) garbage)
          ≡ header s_id (length payload)
    known head =
        take-append header_size (take header_size (b ∷ bs)) _
          (ap length head ∙ length-header s_id (length payload))
        ∙ head

-- No test keeps a stage id out that the graph does not have.
foreign-faults :
    (p : Platform) (s : ℕ) (bytes : List ℕ) (k : Kernel)
    → k.n_s ≤ s
    → emmit_packed_event p s bytes k ≡ fault
unfolding emmit_packed_event instance_aquire instance_try_push_pending_event slot_at
foreign-faults p s bytes k above = elim (Bool-cases (ltb k.n_s s)) [
  | inl e ↦ rw (e, outside) refl
  | inr e ↦ rw (e, outside) refl
]
  where
    outside : ltb s k.n_s ≡ false
    outside = ground arith

-- A frame, header in one piece, whose stage id is a C `int` but no stage of the graph, with a payload of at least one byte and fewer than 2^31, makes the process that receives it leave its tables: nothing tests the id that the other process sends.
pub read_event-faults :
    (p : Platform) (acked : Bool) (garbage : List ℕ) (s_id : ℤ) (payload rest : List ℕ) (b : ℕ)
    (bs : List ℕ) (s : List Got) (k : Kernel)
    → negsuc (2 ^ 31 - 1) ≤ℤ s_id
    → s_id ≤ℤ pos (2 ^ 31 - 1)
    → k.n_s ≤ as_size s_id
    → 0 < length payload
    → length payload < 2 ^ 31
    → header_size ≤ length (b ∷ bs)
    → b ∷ bs ++ arrives s ≡ frame s_id payload ++ rest
    → read_event p acked garbage (got b bs ∷ s) k ≡ fault
read_event-faults p acked garbage s_id payload rest b bs s k lo hi above some_ small whole e =
    read_event-frame p acked garbage s_id payload rest b bs s k lo hi some_ small whole e
    ∙ ap (λ r. and_then r (λ res. pure (acknowledge acked res)))
        (foreign-faults p (as_size s_id) payload k above)
