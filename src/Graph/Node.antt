-- ===== src/Graph/Node.antt =====
-- pkg/graph/node.go and edge.go: the vertices and edges, and the accessors of a node. A `Ref`,
-- a `ResourceKind` and an `EdgeKind` are strings, as in Go.
use tellury.Base.{
  ℕ, String, Bool, ◌&&◌, ◌||◌, Option, none, some, ltb, ◌==◌, str_eq, if◌then◌else◌, ◌<>◌,
}
use tellury.Base.Dict.{Dict, lookup, insert, get_or}
use tellury.Float.{Float64}

pub record Edge : Type 0 where
  pub from : String
  pub to : String
  pub kind : String

-- Counts are never negative, and an instant is a number of seconds.
pub record MetricValue (F : Type 0) : Type 0 where
  pub value : F
  pub unit : String
  pub stat : String
  pub window_days : ℕ
  pub samples : ℕ
  pub expected_samples : ℕ
  pub coverage : F
  pub source : String
  pub aligner : String
  pub reducer : String
  pub window_start : ℕ
  pub window_end : ℕ

-- The dynamic values that an attribute of type `any` holds; `other` is any further type.
pub data Value (F : Type 0) : Type 0 where
  text : String → Value F
  number : F → Value F
  flag : Bool → Value F
  other : String → Value F

pub record Node (F : Type 0) : Type 0 where
  pub id : String
  pub kind : String
  pub name : String
  pub provider : String
  pub service : String
  pub asset_type : String
  pub project : String
  pub location : String
  pub labels : Dict String
  pub attrs : Dict (Value F)
  pub metrics : Dict (MetricValue F)
  pub raw : String

unfoldable pub is_container_kind : String → Bool
is_container_kind k =
    str_eq k "organization"
    || str_eq k "folder"
    || str_eq k "project"
    || str_eq k "account"
    || str_eq k "organizational_unit"
    || str_eq k "subscription"
    || str_eq k "region"

module _ {F : Type 0} where
  unfoldable pub container : Node F → Bool
  unfolding is_container_kind
  container n = is_container_kind n.kind

  pub display : Node F → String
  display n = n.kind <> ("/" <> n.name)

  unfoldable pub set_attr : Node F → String → Value F → Node F
  unfolding insert
  set_attr n key v = record n { attrs = insert key v n.attrs }

  as_text : Value F → Option String
  as_text (text s) = some s
  as_text _ = none

  as_number : Value F → Option F
  as_number (number x) = some x
  as_number _ = none

  as_flag : Value F → Option Bool
  as_flag (flag b) = some b
  as_flag _ = none

  unfoldable pub str : Node F → String → Option String
  unfolding as_text lookup
  str n k = elim (lookup k n.attrs) [ none ↦ none | some v ↦ as_text v ]

  unfoldable pub num : Node F → String → Option F
  unfolding as_number lookup
  num n k = elim (lookup k n.attrs) [ none ↦ none | some v ↦ as_number v ]

  unfoldable pub bool : Node F → String → Option Bool
  unfolding as_flag lookup
  bool n k = elim (lookup k n.attrs) [ none ↦ none | some v ↦ as_flag v ]

  unfoldable pub label : Node F → String → Option String
  unfolding lookup
  label n k = lookup k n.labels

  unfoldable pub exempt : Node F → Bool
  unfolding get_or
  exempt n = str_eq (get_or "tellury-exempt" "" n.labels) "true"

  unfoldable pub metric : Node F → String → Option (MetricValue F)
  unfolding lookup
  metric n key = elim (lookup key n.metrics) [
    | none ↦ none
    | some m ↦ if m.samples == 0 then none else some m
  ]

  unfoldable pub metric_ok : Float64 F → Node F → String → ℕ → F → Option (MetricValue F)
  unfolding lookup
  metric_ok f n key min_samples min_coverage = elim (lookup key n.metrics) [
    | none ↦ none
    | some m ↦
        if ltb m.samples min_samples
        then none
        else if f.lt f.nought min_coverage && f.lt m.coverage min_coverage
        then none
        else some m
  ]
