-- ===== src/Remote/Wire/Bytes.antt =====
-- The fields of a header are read back as they were written.
use leda.Prelude.{
  ℕ, zero, suc, ◌+◌, ◌-◌, ◌/◌, ◌%◌, ◌^◌, ◌<◌, ◌≡◌, refl, ap, List, length, length-append, arith,
}
use leda.Prelude.Int.{ℤ, pos, negsuc, ◌≤ℤ◌}
use leda.Remote.Wire.{le_bytes, of_le, int_bits, signed32, header, header_size, frame}

pub length-le_bytes : (w n : ℕ) → length (le_bytes w n) ≡ w
unfolding le_bytes
length-le_bytes zero n = refl
length-le_bytes (suc w) n = ap suc (length-le_bytes w (n / 256))

pub of_le-le_bytes : (w n : ℕ) → n < 256 ^ w → of_le (le_bytes w n) ≡ n
unfolding of_le le_bytes
of_le-le_bytes zero n h = omega arith
of_le-le_bytes (suc w) n h = omega (arith, of_le-le_bytes w (n / 256) (omega arith))

-- A stage id travels as a C `int`.
pub signed32-int_bits :
    (z : ℤ) → negsuc (2 ^ 31 - 1) ≤ℤ z → z ≤ℤ pos (2 ^ 31 - 1) → signed32 (int_bits z) ≡ z
unfolding signed32 int_bits
signed32-int_bits (pos n) lo hi = ground arith
signed32-int_bits (negsuc n) lo hi = ground arith

pub length-header : (s_id : ℤ) (len : ℕ) → length (header s_id len) ≡ header_size
unfolding header
length-header s_id len = omega (
  arith,
  length-append (le_bytes 4 (int_bits s_id)) (le_bytes 8 (len % 2 ^ 64)),
  length-le_bytes 4 (int_bits s_id),
  length-le_bytes 8 (len % 2 ^ 64),
)

-- A frame is 13 bytes longer than its payload.
pub length-frame :
    (s_id : ℤ) (payload : List ℕ) → length (frame s_id payload) ≡ header_size + length payload
unfolding frame
length-frame s_id payload = omega (
  arith,
  length-append (header s_id (length payload)) payload,
  length-header s_id (length payload),
)
