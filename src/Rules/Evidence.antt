-- ===== src/Rules/Evidence.antt =====
-- pkg/rules: priceevidence.go and the formatting of evidence in rule.go.
use tellury.Base.{ℕ, String, ◌||◌, none, some, List, [], ◌∷◌, str_eq, if◌then◌else◌, ◌<>◌}
use tellury.Pricing.Provenance.{Prices, source_fixture}
use tellury.Rules.Types.{Evidence}
use tellury.Rules.Toolbox.{Std}

pub record PricedComponent : Type 0 where
  pub kind : String
  pub sku : String
  pub region : String
  pub key : String

-- `fmt.Sprintf("%s sku=%s region=%s", …)`
abbrev source_of : String → String → String → String
source_of source sku region = source <> (" sku=" <> (sku <> (" region=" <> region)))

module _ {F : Type 0} where
  unfoldable pub price_evidence : String → Prices F → String → String → String → Evidence
  price_evidence key p kind sku region =
      let fixture : Evidence = record { key = key; value = source_of source_fixture sku region } in
      elim p.last_lookup [
        | none ↦ fixture
        | some last ↦ elim (last kind sku region) [
          | none ↦ fixture
          | some prov ↦ record { key = key; value = source_of prov.source prov.sku prov.region }
        ]
      ]

  -- The loop over two components or more.
  unfoldable pub price_evidence_each : String → Prices F → List PricedComponent → List Evidence
  unfolding price_evidence
  price_evidence_each key p [] = []
  price_evidence_each key p (c ∷ comps) =
      price_evidence (if str_eq c.key "" then key else key <> ("_" <> c.key)) p c.kind c.sku
        c.region
      ∷ price_evidence_each key p comps

  unfoldable pub price_evidence_for : String → Prices F → List PricedComponent → List Evidence
  unfolding price_evidence price_evidence_each
  price_evidence_for key p [] = []
  price_evidence_for key p (c ∷ []) = price_evidence key p c.kind c.sku c.region ∷ []
  price_evidence_for key p (c ∷ d ∷ comps) = price_evidence_each key p (c ∷ d ∷ comps)

  -- `CurrencyOf`, of the pricer of the pass.
  unfoldable pub currency_of : Prices F → String
  currency_of p = elim p.currency_info [ none ↦ "" | some info ↦ info.effective ]

  unfoldable pub ev_money_in : Std F → String → String → F → ℕ → Evidence
  ev_money_in std key currency v prec =
      if str_eq currency "" || str_eq currency "USD"
      then record { key = key; value = "$" <> std.show_fixed prec v }
      else record { key = key; value = std.show_fixed prec v <> (" " <> currency) }
