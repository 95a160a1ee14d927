-- ===== src/Graph/Examples.antt =====
-- The theorems on graphs, for the sample graph.
use leda.Prelude.{◌≡◌, refl, false, some, none, [], ◌∷◌, arith}
use leda.Prelude.Int.{pos}
use leda.Lua.{number}
use leda.Graph.{Process, string_key, Graph, Filled, built, fault, fill, before, make_process}
use leda.Graph.Build.{
  Representation, graph_build, graph_get_connector, graph_get_cluster, graph_get_stage,
}
use leda.Graph.Regular.{process_object}
use leda.Graph.Outlets.{Outlet, output_table}
use leda.Graph.Outlets.Wiring.{output_table-wired}
use leda.Prelude.{List, get_elem?}
use leda.Graph.Destroy.{Live, graph_destroy, all_live, AllFreed, graph_destroy-AllFreed}
use leda.Graph.Samples.{here, first, second, between, sample, sample-Regular}
use leda.Graph.Phases.{Makes-process}
use leda.Graph.Faithful.{Faithful, graph_build-Faithful}
use leda.Graph.Sound.{Sound, graph_build-Sound}
use leda.Graph.Given.{AllWithin, Looks, fill-given, graph_get-Looks}

graph_build-Faithful_example :
    (r : Representation) × (graph_build sample ≡ built r) × Faithful sample r
graph_build-Faithful_example = graph_build-Faithful sample refl sample-Regular

output_table-wired_example :
    (r : Representation) × (graph_build sample ≡ built r)
    × ((ys : List Outlet) × (output_table r.graph 0 ≡ built ys)
        × (get_elem? ys 0
            ≡ some
                (record { key = string_key (111 ∷ []); sendf = []; id = pos 0; consumer = pos 1 })))
output_table-wired_example =
    output_table-wired sample 0 0 0 1 first second between (string_key (111 ∷ [])) refl
      sample-Regular refl refl refl refl refl

graph_build-Sound_example : (r : Representation) × (graph_build sample ≡ built r) × Sound r.graph
graph_build-Sound_example = graph_build-Sound sample refl sample-Regular

abbrev one_process : Graph
one_process = record {
  name = [];
  n_s = 0;
  n_c = 0;
  n_cl = 0;
  n_d = 1;
  s = λ _. none;
  c = λ _. none;
  cl = λ _. none;
  d = λ _. some (record { host = []; port = pos 80 });
}

one_process-Sound : Sound one_process
one_process-Sound = record {
  processes = λ i lt. (_, refl);
  clusters = λ i lt. absurd (omega arith);
  stages = λ i lt. absurd (omega arith);
  connectors = λ i lt. absurd (omega arith);
}

graph_destroy-AllFreed_example :
    (live : Live) × (graph_destroy one_process all_live ≡ built live) × AllFreed one_process live
graph_destroy-AllFreed_example = graph_destroy-AllFreed one_process one_process-Sound

-- The process has the id 1.
abbrev known : Filled Process
known = before (some (λ _. number (pos 1)))

fill-given_example :
    (AllWithin process_object make_process 2 (here ∷ []) known
      → (t' : Filled Process) × (fill process_object make_process false 2 (here ∷ []) known
          ≡ built t')
        × (t'.ids ≡ known.ids))
    × ((AllWithin process_object make_process 2 (here ∷ []) known → ⊥)
        → fill process_object make_process false 2 (here ∷ []) known ≡ fault)
fill-given_example =
    fill-given process_object make_process 2 (here ∷ []) known (Makes-process (here ∷ []))

abbrev one_stage : Graph
one_stage = record {
  name = [];
  n_s = 1;
  n_c = 0;
  n_cl = 0;
  n_d = 0;
  s = λ _. none;
  c = λ _. none;
  cl = λ _. none;
  d = λ _. none;
}

graph_get-Looks_example :
    Looks 0 one_stage.c (graph_get_connector (some one_stage))
    × Looks 0 one_stage.cl (graph_get_cluster (some one_stage))
    × Looks 1 one_stage.s (graph_get_stage (some one_stage))
graph_get-Looks_example = graph_get-Looks one_stage
