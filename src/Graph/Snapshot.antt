-- ===== src/Graph/Snapshot.antt =====
-- pkg/graph/snapshot.go. A `Snapshot` stands for the value that the encoder is given and that the
-- decoder returns; `Graph/Codec.antt` has the JSON text. A JSON null in its list of nodes is `none`.
use tellury.Base.{ℕ, String, Option, none, some, List, [], ◌∷◌, ◌++◌, true}
use tellury.Graph.Node.{Edge, Node}
use tellury.Graph.Build.{Graph, GraphError, empty, add_node, add_edge, freeze}
use tellury.Graph.Query.{walk, for_nodes, out}

pub record Snapshot (F : Type 0) : Type 0 where
  pub version : ℕ
  pub provider : String
  pub scope : String
  pub captured_at : ℕ
  pub nodes : List (Option (Node F))
  pub edges : List Edge

abbrev pub snapshot_version : ℕ
snapshot_version = 3

pub data Loaded (F : Type 0) : Type 0 where
  loaded : Graph F → Loaded F
  failed : GraphError → Loaded F

module _ {F : Type 0} where
  unfoldable pub edges_of : Graph F → List String → List Edge
  unfolding out
  edges_of g [] = []
  edges_of g (id ∷ ids) = out g id ++ edges_of g ids

  -- `now` is the clock. The graph is frozen by the call; a panic of the walk is `none`.
  unfoldable pub write_snapshot : Graph F → String → String → ℕ → Graph F × Option (Snapshot F)
  unfolding walk edges_of
  write_snapshot g provider scope now =
      let g' = freeze g in
      (
        g',
        elim (for_nodes g' (λ ns n. (ns ++ some n ∷ [], true)) []) [
          | none ↦ none
          | some nodes ↦ some (record {
            version = snapshot_version;
            provider = provider;
            scope = scope;
            captured_at = now;
            nodes = nodes;
            edges = edges_of g' g'.order;
          })
        ],
      )

  unfoldable pub load_nodes : Graph F → List (Option (Node F)) → Loaded F
  load_nodes g [] = loaded g
  load_nodes g (n ∷ ns) =
      let (g', err) = add_node g n in
      let rest = load_nodes g' ns in elim err [ none ↦ rest | some e ↦ failed e ]

  unfoldable pub load_edges : Graph F → List Edge → Loaded F
  load_edges g [] = loaded g
  load_edges g (e ∷ es) =
      let (g', err) = add_edge g e in
      let rest = load_edges g' es in elim err [ none ↦ rest | some e ↦ failed e ]

  unfoldable pub load_snapshot : Snapshot F → Loaded F
  unfolding load_nodes load_edges
  load_snapshot snap = elim (load_nodes empty snap.nodes) [
    | failed e ↦ failed e
    | loaded g ↦ elim (load_edges g snap.edges) [
      | failed e ↦ failed e
      | loaded h ↦ loaded (freeze h)
    ]
  ]
