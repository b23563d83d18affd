-- ===== src/Graph/Samples.antt =====
-- A small graph, a snapshot of it, and graphs that calls reach, for the tests.
use tellury.Base.{ℕ, String, false, ◌≡◌, refl, some, List, [], ◌∷◌}
use tellury.Graph.Node.{Edge, Node, MetricValue}
use tellury.Graph.Build.{Graph, empty, add_node, add_edge, set_metric, freeze, put_node, put_edge}
use tellury.Graph.Load.{put_nodes, put_edges}
use tellury.Graph.Reach.{Reach, new, after, adds_node, adds_edge, freezes, sets_metric}
use tellury.Graph.Snapshot.{Snapshot}

abbrev pub resource : String → String → Node ℕ
resource id kind = record {
  id = id;
  kind = kind;
  name = id;
  provider = "gcp";
  service = "compute";
  asset_type = "";
  project = "p";
  location = "";
  labels = [];
  attrs = [];
  metrics = [];
  raw = "";
}

abbrev pub edge : String → String → String → Edge
edge from to kind = record { from = from; to = to; kind = kind }

abbrev pub nodes : List (Node ℕ)
nodes = resource "vm" "instance" ∷ resource "disk" "disk" ∷ resource "proj" "project" ∷ []

-- The last three edges lack a target, an origin, and both.
abbrev pub edges : List Edge
edges =
    edge "vm" "disk" "uses"
    ∷ edge "proj" "vm" "contains"
    ∷ edge "vm" "disk" "attached_to"
    ∷ edge "vm" "net" "uses"
    ∷ edge "gone" "disk" "uses"
    ∷ edge "gone" "net" "uses"
    ∷ []

abbrev pub snapshot : Snapshot ℕ
snapshot = record {
  version = 3;
  provider = "gcp";
  scope = "p";
  captured_at = 0;
  nodes =
      some (resource "vm" "instance")
      ∷ some (resource "disk" "disk")
      ∷ some (resource "proj" "project")
      ∷ [];
  edges = edges;
}

abbrev pub graph : Graph ℕ
graph = put_edges (put_nodes empty nodes) edges

abbrev pub usage : ℕ → MetricValue ℕ
usage value = record {
  value = value;
  unit = "ratio";
  stat = "p95";
  window_days = 14;
  samples = 300;
  expected_samples = 336;
  coverage = 89;
  source = "cpu";
  aligner = "";
  reducer = "";
  window_start = 0;
  window_end = 0;
}

-- A node, an edge that is refused, a freeze and a metric.
abbrev pub scanned : Graph ℕ
scanned =
    set_metric
      (freeze
        (add_edge (add_node empty (some (resource "vm" "instance"))).0 (edge "vm" "" "uses")).0)
      "vm" "cpu" (usage 3)

pub reached : Reach scanned
reached =
    after (after (after (after new (adds_node _ _)) (adds_edge _ _)) (freezes _))
      (sets_metric _ _ _ _)

-- The three nodes with four of the edges, unfrozen, as calls of the API.
pub drafted : Reach graph
unfolding put_nodes put_edges put_node put_edge add_node add_edge
drafted =
    after
      (after
        (after
          (after
            (after
              (after
                (after
                  (after (after new (adds_node _ (some (resource "vm" "instance"))))
                    (adds_node _ (some (resource "disk" "disk"))))
                  (adds_node _ (some (resource "proj" "project"))))
                (adds_edge _ (edge "vm" "disk" "uses")))
              (adds_edge _ (edge "proj" "vm" "contains")))
            (adds_edge _ (edge "vm" "disk" "attached_to")))
          (adds_edge _ (edge "vm" "net" "uses")))
        (adds_edge _ (edge "gone" "disk" "uses")))
      (adds_edge _ (edge "gone" "net" "uses"))

pub graph-thawed : graph.frozen ≡ false
unfolding put_nodes put_edges put_node put_edge
graph-thawed = refl
