-- ===== src/Pricing/Provenance.antt =====
-- pkg/pricing/provenance.go and `Round2` of pricer.go: what a pricer may tell of its answers.
use tellury.Base.{String, Bool, Option, if◌then◌else◌}
use tellury.Float.{Numeric}
use tellury.Pricing.Cost.{Pricer}

pub record Provenance : Type 0 where
  pub source : String
  pub sku : String
  pub region : String

abbrev pub source_fixture : String
source_fixture = "fixture"

pub record CurrencyInfo : Type 0 where
  pub requested : String
  pub effective : String
  pub mixed : Bool

-- A pricer with the optional interfaces that rules ask it for, `ProvenancePricer` and
-- `CurrencyReporter`; it has one if the field is not `none`. `LastLookup` is asked about a lookup
-- that has just been answered, and its answer is taken to depend on the key of that lookup alone.
pub record Prices (F : Type 0) : Type 0 where
  pub pricer : Pricer F
  pub last_lookup : Option ((kind sku region : String) → Option Provenance)
  pub currency_info : Option CurrencyInfo

unfoldable pub round_2 : {F : Type 0} → Numeric F → F → F
round_2 x v =
    if x.order.lt v x.order.nought
    then x.div (x.neg (x.round (x.mul (x.neg v) (x.literal "100")))) (x.literal "100")
    else x.div (x.round (x.mul v (x.literal "100"))) (x.literal "100")
