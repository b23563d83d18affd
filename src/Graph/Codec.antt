-- ===== src/Graph/Codec.antt =====
-- `WriteSnapshot` and `LoadSnapshot` of pkg/graph/snapshot.go with the JSON text between them.
-- encoding/json is a parameter: `encode` fails on a value that JSON lacks, such as a NaN, or where the
-- writer fails, and `decode` fails on a text that is no snapshot.
pub mod Retype
use tellury.Base.{ℕ, String, Option, none, some}
use tellury.Graph.Node.{Node, Value, text, number, flag, other}
use tellury.Graph.Build.{Graph}
use tellury.Graph.Snapshot.{Snapshot, Loaded, write_snapshot, load_snapshot}

pub record Codec (F Text : Type 0) : Type 0 where
  pub encode : Snapshot F → Option Text
  pub decode : Text → Option (Snapshot F)

module _ {F Text : Type 0} (c : Codec F Text) where
  -- The graph, and the text or the error of the encoder; a panic of the walk is `none`.
  unfoldable pub write_text : Graph F → String → String → ℕ → Graph F × Option (Option Text)
  write_text g provider scope now =
      let (g', snap) = write_snapshot g provider scope now in
      (g', elim snap [ none ↦ none | some s ↦ some (c.encode s) ])

  -- `none` is the error of the decoder.
  unfoldable pub load_text : Text → Option (Loaded F)
  load_text t = elim (c.decode t) [ none ↦ none | some s ↦ some (load_snapshot s) ]
