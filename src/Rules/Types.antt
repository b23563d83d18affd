-- ===== src/Rules/Types.antt =====
-- pkg/rules: finding.go, rule.go, noderule.go, pass.go and skip.go, the data that rules work on. A
-- `SkipCode` and a `Severity` are strings, as in Go.
use tellury.Base.{ℕ, String, Bool, Option, List, [], ◌∷◌, ◌++◌, if◌then◌else◌}
use tellury.Base.Dict.{Dict, lookup, insert}
use tellury.Graph.Node.{Node, Value}
use tellury.Graph.Build.{Graph}

pub record Evidence : Type 0 where
  pub key : String
  pub value : String

pub record Finding (F : Type 0) : Type 0 where
  pub rule_id : String
  pub resource_id : String
  pub resource : String
  pub kind : String
  pub project : String
  pub location : String
  pub severity : String
  pub monthly_waste : F
  pub confidence : F
  pub evidence : List Evidence
  pub remediation : String

pub record Meta : Type 0 where
  pub id : String
  pub provider : String
  pub service : String
  pub title : String
  pub description : String
  pub severity : String
  pub required_asset_types : List String
  pub required_metrics : List String
  pub remediation : String
  pub origin : String
  pub target_kind : String

-- A call of the callback `Pass.Skip`.
pub record Skip : Type 0 where
  pub rule_id : String
  pub ref : String
  pub code : String

-- `E` is the type of what a pass hands on to rules and the skeleton does not read: the pricer, the
-- sizer and the log. `has_skip` tells that the callback `Skip` is not nil.
pub record Pass (F E : Type 0) : Type 0 where
  pub graph : Graph F
  pub services : E
  pub scope : String
  pub window : ℕ
  pub now : ℕ
  pub has_skip : Bool

-- `SkipNode`: the calls of the callback, one more if there is one.
unfoldable pub skip_node :
    {F E : Type 0} → Pass F E → String → String → String → List Skip → List Skip
skip_node p rule_id ref code skips =
    if p.has_skip then skips ++ record { rule_id = rule_id; ref = ref; code = code } ∷ [] else skips

-- `NodeContext`, with values of type `V`.
abbrev pub NodeContext : Type 0 → Type 0
NodeContext V = Dict V

module _ {V : Type 0} where
  unfoldable pub set : NodeContext V → String → V → NodeContext V
  unfolding insert
  set nc key value = insert key value nc

  unfoldable pub get : NodeContext V → String → Option V
  unfolding lookup
  get nc key = lookup key nc

pub record CostBranch (F : Type 0) : Type 0 where
  pub waste : F
  pub confidence : F
  pub label : String

-- A check reads the node and the pass, and may write the context that the later guards, the cost
-- and the evidence of the same node read.
pub record Guard (F V E : Type 0) : Type 0 where
  pub skip_code : String
  pub name : String
  pub check : Node F → NodeContext V → Pass F E → Bool × NodeContext V

-- `cost` is given the moment of the call, since it reads the Go context; an error is `none`.
pub record NodeRule (F V E : Type 0) : Type 0 where
  pub meta : Meta
  pub kind : String
  pub guards : List (Guard F V E)
  pub cost : ℕ → Node F → NodeContext V → Pass F E → NodeContext V × Option (List (CostBranch F))
  pub min_waste : F
  pub evidence_keys : List String
  pub extra_evidence : Node F → NodeContext V → CostBranch F → List Evidence

-- How `fmt.Sprintf` renders an attribute by "%v" and a number by "%g".
pub record Formats (F : Type 0) : Type 0 where
  pub show_value : Value F → String
  pub show_number : F → String

abbrev pub exempt_label : String
exempt_label = "exempt_label"

abbrev pub no_price : String
no_price = "no_price"

abbrev pub below_min_waste : String
below_min_waste = "below_min_waste"
