-- ===== src/Remote/Samples.antt =====
-- A network in which every process can be reached: for tests.
use leda.Prelude.{true, [], ◌∷◌}
use leda.Prelude.Int.{pos}
use leda.Remote.Wire.{took, put_again, received}
use leda.Remote.Connection.{Link, connected}

-- The socket takes part of a frame, then nothing, then the rest, and brings a positive answer.
abbrev pub link : Link
link = record {
  connect = λ p. connected (pos 5);
  puts = took 6 ∷ put_again ∷ took 40 ∷ [];
  added = true;
  reply = received (1 ∷ []);
}
