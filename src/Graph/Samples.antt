-- ===== src/Graph/Samples.antt =====
-- A graph of two stages with a connector from the first to the second, in a cluster of one process: for
-- tests.
use leda.Prelude.{refl, true, false, some, none, [], ◌∷◌, arith}
use leda.Prelude.Int.{pos}
use leda.Lua.{number}
use leda.Graph.{string_key, ProcessEntry, ClusterEntry, StageEntry, ConnectorEntry, Description}
use leda.Graph.Regular.{Regular}

abbrev pub here : ProcessEntry
here = record { object = 10; host = some (104 ∷ []); port = number (pos 9999) }

abbrev pub only : ClusterEntry
only = record { object = 20; name = some (99 ∷ []); is_local = true; process_addr = some (10 ∷ []) }

abbrev pub first : StageEntry
first = record {
  object = 30;
  name = some (97 ∷ []);
  serial = false;
  env = some [];
  get_cluster = some 20;
  get_output = (string_key (111 ∷ []), 40) ∷ [];
}

abbrev pub second : StageEntry
second = record {
  object = 31;
  name = none;
  serial = true;
  env = some (1 ∷ []);
  get_cluster = some 20;
  get_output = [];
}

abbrev pub between : ConnectorEntry
between = record {
  object = 40;
  port = some (111 ∷ []);
  method = none;
  producer = some 30;
  consumer = some 31;
}

abbrev pub sample : Description
sample = record {
  is_graph = true;
  name = some (103 ∷ []);
  stagesid = none;
  connectorsid = none;
  clustersid = none;
  processesid = none;
  count_processes = pos 1;
  processes = here ∷ [];
  count_clusters = pos 1;
  clusters = only ∷ [];
  count_stages = pos 2;
  stages = first ∷ second ∷ [];
  count_connectors = pos 1;
  connectors = between ∷ [];
}

pub sample-Regular : Regular sample
sample-Regular = record {
  processes = record { fresh = refl; counted = refl; distinct = (tt, tt) };
  clusters = record { fresh = refl; counted = refl; distinct = (tt, tt) };
  stages = record {
    fresh = refl;
    counted = refl;
    distinct = (((λ e. absurd (omega arith)), tt), (tt, tt));
  };
  connectors = record { fresh = refl; counted = refl; distinct = (tt, tt) };
  addressed = ((10 ∷ [], refl, ((0, here, refl, refl), tt)), tt);
  staged = (
    (([], refl), (20, refl, (0, only, refl, refl)), ((tt, (0, between, refl, refl)), tt)),
    (((1 ∷ [], refl), (20, refl, (0, only, refl, refl)), tt), tt),
  );
  joined = (((30, refl, (0, first, refl, refl)), (31, refl, (1, second, refl, refl))), tt);
}
