-- ===== src/Graph/Examples.antt =====
-- Runs on a small graph, and the theorems on it.
use tellury.Base.{
  ℕ, String, true, false, ◌≡◌, refl, none, some, length, filter, ◌+◌, [], ◌∷◌, arith,
}
use tellury.Graph.Node.{Node, Value, text, container}
use tellury.Graph.Build.{
  Graph, empty, add_node, add_edge, set_metric, freeze, put_node, put_edge, seal, prune, edge_less,
}
use tellury.Graph.Load.{put_nodes, put_edges}
use tellury.Graph.Loading.{is_loaded, is_loaded-load_snapshot}
use tellury.Graph.WellFormed.{IsWellFormed}
use tellury.Graph.Reach.{new, after, adds_node, Reach-IsWellFormed}
use tellury.Graph.Walk.{nodes_at, resource_node_count-Reach}
use tellury.Graph.Codec.{Codec}
use tellury.Graph.Codec.Retype.{retyped_snapshot}
use tellury.Graph.Determinism.{load_snapshot_perm}
use tellury.Graph.Counts.{load_snapshot_counts, has_id}
use tellury.Graph.Arranged.{IsArranged, freeze-IsArranged}
use tellury.Graph.Prune.{missing}
use tellury.Graph.Degree.{length-neighbors_frozen, degree_of}
use tellury.Graph.Kinds.{IsKinded, add_node-IsKinded}
use mathlib.Core.List.Perm
use tellury.Base.Sort
use tellury.Base.Dict.{has_key, insert, lookup, get_or, push, map_values}
use tellury.Graph.Query.{
  out, inward, edge_count, neighbors, outbound, resource_node_count, project_count, out_degree,
  node_count,
}
use tellury.Graph.Snapshot.{Snapshot, write_snapshot, load_snapshot, loaded}
use tellury.Graph.Samples.{resource, edge, nodes, snapshot, graph, scanned, reached, graph-thawed}

program : Unit {0}
unfolding load_snapshot put_node put_edge add_node add_edge seal freeze prune edge_less Sort.sort
    push map_values out inward edge_count resource_node_count project_count neighbors out_degree
    set_metric write_snapshot
program = tt

-- What the loader leaves of the six edges: three are dangling by their target or their origin, and
-- one by both, which makes four. The edge from `gone` to `disk` is still counted.
graph_counts :
    (edge_count (freeze graph) ≡ 4)
    × ((freeze graph).dangling ≡ 4)
    × (out (freeze graph) "vm" ≡ edge "vm" "disk" "attached_to" ∷ edge "vm" "disk" "uses" ∷ [])
    × (out (freeze graph) "gone" ≡ edge "gone" "disk" "uses" ∷ [])
    × (resource_node_count graph ≡ some 2)
    × (project_count graph ≡ some 1)
    × ((freeze graph).order ≡ "disk" ∷ "proj" ∷ "vm" ∷ [])
unfolding program put_nodes put_edges get_or
graph_counts = (refl, refl, refl, refl, refl, refl, refl)

Reach-IsWellFormed_example : IsWellFormed scanned
Reach-IsWellFormed_example = Reach-IsWellFormed reached

resource_node_count-Reach_example :
    (n : ℕ) × (resource_node_count scanned ≡ some n)
    × (n + length (filter container (nodes_at scanned.nodes scanned.order)) ≡ node_count scanned)
resource_node_count-Reach_example = resource_node_count-Reach reached

-- Every other value comes back as a text, the way a decoder with another shape would give it.
abbrev reread : String → Value ℕ
reread = text

-- A decoder which gives what was encoded, re-read.
abbrev codec : Codec ℕ (Snapshot ℕ)
codec = record { encode = some; decode = λ s. some (retyped_snapshot reread s) }

-- The snapshot with its first two edges swapped.
abbrev swapped : Snapshot ℕ
swapped = record snapshot {
  edges =
      edge "proj" "vm" "contains"
      ∷ edge "vm" "disk" "uses"
      ∷ edge "vm" "disk" "attached_to"
      ∷ edge "vm" "net" "uses"
      ∷ edge "gone" "disk" "uses"
      ∷ edge "gone" "net" "uses"
      ∷ [];
}

load_snapshot_perm_example :
    (g h : Graph ℕ) × (load_snapshot snapshot ≡ loaded g)
    × (load_snapshot swapped ≡ loaded h)
    × ((id : String) → out g id ≡ out h id)
    × ((id : String) → inward g id ≡ inward h id)
    × (edge_count g ≡ edge_count h)
    × (g.dangling ≡ h.dangling)
load_snapshot_perm_example =
    load_snapshot_perm snapshot swapped nodes refl refl refl refl refl (Perm.swap _ _ _)

load_snapshot_counts_example :
    let to_nowhere = missing (has_id nodes) (λ e. e.to) snapshot.edges in
    let from_nowhere = missing (has_id nodes) (λ e. e.from) snapshot.edges in
    (h : Graph ℕ) × (load_snapshot snapshot ≡ loaded h)
    × (h.frozen ≡ true)
    × (edge_count h + to_nowhere ≡ length snapshot.edges)
    × (h.dangling ≡ to_nowhere + from_nowhere)
load_snapshot_counts_example = load_snapshot_counts snapshot nodes refl refl refl

-- A null node in a snapshot fails the load.
is_loaded-load_snapshot_example :
    is_loaded (load_snapshot (record snapshot { nodes = none ∷ snapshot.nodes })) ≡ false
is_loaded-load_snapshot_example =
    is_loaded-load_snapshot (record snapshot { nodes = none ∷ snapshot.nodes })

freeze-IsArranged_example :
    IsArranged (λ j. has_key j graph.nodes) (λ e. e.to) (out graph "vm") (out (freeze graph) "vm")
    × IsArranged
        (λ j. has_key j graph.nodes)
        (λ e. e.from)
        (inward graph "vm")
        (inward (freeze graph) "vm")
freeze-IsArranged_example = freeze-IsArranged graph "vm" graph-thawed

length-neighbors_frozen_example :
    length (neighbors (freeze graph) "vm" outbound ("uses" ∷ []))
    ≡ degree_of (freeze graph) "vm" outbound ("uses" ∷ [])
length-neighbors_frozen_example =
    length-neighbors_frozen graph "vm" outbound ("uses" ∷ []) graph-thawed

abbrev single : Graph ℕ
single = (add_node empty (some (resource "vm" "instance"))).0

single_w : IsWellFormed single
single_w = Reach-IsWellFormed (after new (adds_node _ _))

single-IsKinded : IsKinded single
unfolding lookup get_or
single-IsKinded =
    add_node-IsKinded empty (resource "vm" "instance") (λ old e. ground arith)
      (λ k id m. ground arith) (λ k id n m e. ground arith)

same_kind : (old : Node ℕ) → lookup "vm" single.nodes ≡ some old → old.kind ≡ "instance"
unfolding add_node put_node lookup insert
same_kind old e = ground arith
