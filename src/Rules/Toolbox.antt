-- ===== src/Rules/Toolbox.antt =====
-- What the rules under pkg/rules/gcp, aws and azure share: the services of a pass, the values they
-- keep in the context of a node, and the attributes they read.
use tellury.Base.{
  ℕ, String, Bool, true, false, not, Option, none, some, List, [], str_eq, if◌then◌else◌, ◌≡◌,
  arith, eq_iff, refl, ap, ◌∙◌, Option-cases, inl, inr,
}
use tellury.Float.{Numeric}
use tellury.Graph.Node.{Node, str, num, bool}
use tellury.Pricing.Cost.{Sizer}
use tellury.Pricing.Provenance.{Prices}
use tellury.Rules.Types.{Evidence, NodeContext, get}

-- The pricer and the sizer of a pass; a nil sizer is `none`.
pub record Services (F : Type 0) : Type 0 where
  pub prices : Prices F
  pub sizer : Option (Sizer F)

-- What the rules use of Go's library: `fmt`'s verbs "%.*f" and "%v" of a float64, `time.Parse` of
-- an RFC 3339 time, `now.Sub(t).Hours()`, `strings.ToLower`,
-- `strings.Contains` and the verb "%d" of an int that is not negative.
pub record Std (F : Type 0) : Type 0 where
  pub show_fixed : ℕ → F → String
  pub show_number : F → String
  pub parse_time : String → Option ℕ
  pub hours_since : ℕ → ℕ → F
  pub to_lower : String → String
  pub contains_text : String → String → Bool
  pub show_count : ℕ → String

-- The dynamic values that the rules keep under the keys of a context. An `Evidence` is kept as the
-- list that has it alone.
pub data Stash (F : Type 0) : Type 0 where
  words : String → Stash F
  amount : F → Stash F
  instant : ℕ → Stash F
  count : ℕ → Stash F
  truth : Bool → Stash F
  entries : List Evidence → Stash F

-- Type assertions on what a context holds. Where Go panics, because the key is missing or holds
-- another type, they return the zero value; the theorems on a rule's findings give their values from
-- the node and the prices alone.
module _ {F : Type 0} (nc : NodeContext (Stash F)) (key : String) where
  unfoldable pub stashed_words : String
  unfolding get
  stashed_words = elim (get nc key) [ some (words s) ↦ s | _ ↦ "" ]

  unfoldable pub stashed_amount : Numeric F → F
  unfolding get
  stashed_amount x = elim (get nc key) [ some (amount v) ↦ v | _ ↦ x.order.nought ]

  unfoldable pub stashed_count : ℕ
  unfolding get
  stashed_count = elim (get nc key) [ some (count k) ↦ k | _ ↦ 0 ]

  unfoldable pub stashed_truth : Bool
  unfolding get
  stashed_truth = elim (get nc key) [ some (truth b) ↦ b | _ ↦ false ]

  unfoldable pub stashed_instant : Option ℕ
  unfolding get
  stashed_instant = elim (get nc key) [ some (instant t) ↦ some t | _ ↦ none ]

  -- Under `if v, ok := nc.Get(key); ok`.
  unfoldable pub stashed_entries : List Evidence
  unfolding get
  stashed_entries = elim (get nc key) [ some (entries es) ↦ es | _ ↦ [] ]

-- `v, _ := n.Num(key)` and its like: a missing attribute reads as the zero value.
module _ {F : Type 0} (n : Node F) (key : String) where
  unfoldable pub num_or_zero : Numeric F → F
  unfolding num
  num_or_zero x = elim (num n key) [ none ↦ x.order.nought | some v ↦ v ]

  unfoldable pub str_or_empty : String
  unfolding str
  str_or_empty = elim (str n key) [ none ↦ "" | some s ↦ s ]

  unfoldable pub bool_or_false : Bool
  unfolding bool
  bool_or_false = elim (bool n key) [ none ↦ false | some b ↦ b ]

  unfoldable pub has_text : Bool
  unfolding str
  has_text = elim (str n key) [ none ↦ false | some s ↦ not (str_eq s "") ]

  unfoldable pub has_number : Bool
  unfolding num
  has_number = elim (num n key) [ none ↦ false | some _ ↦ true ]

  unfoldable pub has_positive : Numeric F → Bool
  unfolding num
  has_positive x = elim (num n key) [ none ↦ false | some v ↦ x.order.lt x.order.nought v ]

  -- `s, ok := n.Str(key)` and `time.Parse` of it.
  unfoldable pub parsed_time : Std F → Option ℕ
  unfolding str
  parsed_time std = elim (str n key) [ none ↦ none | some s ↦ std.parse_time s ]

  -- `Node.Time`
  unfoldable pub node_time : Std F → Option ℕ
  unfolding str
  node_time std = elim (str n key) [
    | none ↦ none
    | some s ↦ if str_eq s "" then none else std.parse_time s
  ]

module _ {F : Type 0} (x : Numeric F) where
  -- `now.Sub(t).Hours() / 24`
  unfoldable pub days_since : Std F → ℕ → ℕ → F
  days_since std now t = x.div (std.hours_since now t) (x.literal "24")

  -- `round2`, of which each rule has its own copy.
  unfoldable pub round2 : F → F
  round2 v = x.div (x.round (x.mul v (x.literal "100"))) (x.literal "100")

abbrev pub value_or {ℓ} : {A : Type ℓ} → A → Option A → A
value_or d none = d
value_or d (some a) = a

-- Whether there is a value.
abbrev pub known : {A : Type 0} → Option A → Bool
known none = false
known (some a) = true

pub other_text : (t s u : String) → str_eq s u ≡ false → str_eq t s ≡ true → str_eq t u ≡ false
other_text t s u h e = ground (arith, eq_iff t s)

module _ {F : Type 0} (n : Node F) (key : String) where
  has_text-eq : has_text n key ≡ not (str_eq (str_or_empty n key) "")
  unfolding has_text str_or_empty
  has_text-eq = elim (Option-cases (str n key)) [
    | inl missing ↦ rw (missing, has_text, str_or_empty) refl
    | inr (t, found) ↦ rw (found, has_text, str_or_empty) refl
  ]

  -- An attribute that is a known text is there.
  pub known_text :
      (s : String)
      → str_eq s "" ≡ false
      → str_eq (str_or_empty n key) s ≡ true
      → has_text n key ≡ true
  known_text s h e = has_text-eq ∙ ap not (other_text (str_or_empty n key) s "" h e)
