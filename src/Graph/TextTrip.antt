-- ===== src/Graph/TextTrip.antt =====
-- `WriteSnapshot` followed by `LoadSnapshot`, through the JSON text.
use tellury.Base.{String, ◌≡◌, Option, none, some, [], if◌then◌else◌}
use tellury.Graph.Node.{Node, Value}
use tellury.Graph.Build.{Graph, exists}
use tellury.Graph.Query.{out, node}
use tellury.Graph.Snapshot.{Snapshot, loaded}
use tellury.Graph.Codec.{Codec, load_text}
use tellury.Graph.Codec.Retype.{retyped_node, retyped_snapshot}

module _ {F Text : Type 0} (c : Codec F Text) (reread : String → Value F) where
  -- What is encoded decodes, with the attributes that are no text, number or flag as `reread` tells.
  abbrev pub Rereads : Type 0
  Rereads =
      (s : Snapshot F) (t : Text)
      → c.encode s ≡ some t
      → c.decode t ≡ some (retyped_snapshot reread s)

  -- The text, if there is one, loads as a graph with the nodes of `g`, re-read, the order of `g` and,
  -- at every id that is a node, its edges.
  abbrev pub Reloads : Graph F → Option Text → Type 0
  Reloads g none = Unit
  Reloads g (some t) =
      (h : Graph F) × (load_text c t ≡ some (loaded h))
      × ((id : String) → node h id ≡ retyped_node reread (node g id))
      × (h.order ≡ g.order)
      × ((id : String) → out h id ≡ (if exists g id then out g id else []))
