-- ===== src/Startup/Samples.antt =====
-- A graph of two stages in one local cluster, and a controller with no callbacks: for tests.
use leda.Prelude.{true, false, refl, some, none, [], ◌∷◌, arith}
use leda.Prelude.Int.{pos}
use leda.Graph.{Process, Graph, Stage, Cluster, Connector}
use leda.Graph.Sound.{Sound}
use leda.Startup.{Controller}

abbrev pub here : Process
here = record { host = []; port = pos 9999 }

abbrev pub one_cluster : Cluster
one_cluster = record { name = []; local = true; processes = pos 0 ∷ [] }

abbrev pub a_stage : Stage
a_stage = record {
  name = [];
  env = [];
  serial = false;
  cluster = pos 0;
  n_out = 0;
  output = λ _. none;
}

abbrev pub a_connector : Connector
a_connector = record { name = 111 ∷ []; send = []; p = pos 0; c = pos 1 }

abbrev pub two_stages : Graph
two_stages = record {
  name = [];
  n_s = 2;
  n_c = 1;
  n_cl = 1;
  n_d = 1;
  s = λ _. some a_stage;
  c = λ _. some a_connector;
  cl = λ _. some one_cluster;
  d = λ _. some here;
}

abbrev pub quiet : Controller
quiet = record { on_error = false; on_event = false; on_release = false; init = true }

pub two_stages-Sound : Sound two_stages
two_stages-Sound = record {
  processes = λ i lt. (here, refl);
  clusters = λ i lt. (one_cluster, refl, ((0, refl, omega arith), tt));
  stages = λ i lt. (a_stage, refl, (0, refl, omega arith), (λ k none_. absurd (omega arith)));
  connectors = λ i lt. (a_connector, refl, (0, refl, omega arith), (1, refl, omega arith));
}
