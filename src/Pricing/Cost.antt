-- ===== src/Pricing/Cost.antt =====
-- pkg/pricing/pricer.go and sizer.go: `Pricer`, `NoPricePricer` and `MachineCost`. A float64 is of a type with the
-- two operations that are used of it, and an error is `none` where the code only passes it on.
use tellury.Base.{Bool, List, String, Option, none, some, Option-cases, inl, inr, refl, ◌≡◌}

pub record MachineSpec (F : Type 0) : Type 0 where
  pub name : String
  pub family : String
  pub vcpu : F
  pub memory_gib : F
  pub shared_core : Bool
  pub min_vcpu : F
  pub step_vcpu : F
  pub ram_per_vcpu_min : F
  pub ram_per_vcpu_max : F

pub record Sizer (F : Type 0) : Type 0 where
  pub spec : String → Option (MachineSpec F)
  pub family : String → String
  pub ladder : String → List (MachineSpec F)

-- The operations on float64 that `MachineCost` uses, and its constant.
pub record Arithmetic (F : Type 0) : Type 0 where
  pub add : F → F → F
  pub mul : F → F → F
  pub hours_per_month : F

pub record Item (F : Type 0) : Type 0 where
  pub kind : String
  pub provider : String
  pub sku : String
  pub region : String
  pub quantity : F

-- `UnitPrice` also tells the unit, as a string.
pub record Pricer (F : Type 0) : Type 0 where
  pub monthly_cost : Item F → Option F
  pub unit_price : (kind provider sku region : String) → Option (F × String)

unfoldable pub no_price_pricer : {F : Type 0} → Pricer F
no_price_pricer = record {
  monthly_cost = λ it. none;
  unit_price = λ kind provider sku region. none;
}

module _ {F : Type 0} (a : Arithmetic F) (p : Pricer F) where
  -- A custom shape: its processors and its memory, each at the rate of the family.
  unfoldable pub custom_cost : MachineSpec F → String → Option F
  custom_cost spec region = elim (p.unit_price "vm_custom_cpu" "gcp" spec.family region) [
    | none ↦ none
    | some cpu ↦ elim (p.unit_price "vm_custom_ram" "gcp" spec.family region) [
      | none ↦ none
      | some ram ↦
          some
            (a.mul (a.add (a.mul spec.vcpu cpu.0) (a.mul spec.memory_gib ram.0)) a.hours_per_month)
    ]
  ]

  -- A nil sizer is `none`.
  unfoldable pub machine_cost : Option (Sizer F) → String → String → Option F
  unfolding custom_cost
  machine_cost sz machine_type region =
      elim (p.unit_price "vm_instance" "gcp" machine_type region) [
        | some unit ↦ some (a.mul unit.0 a.hours_per_month)
        | none ↦ elim sz [
          | none ↦ none
          | some sizer ↦ elim (sizer.spec machine_type) [
            | none ↦ none
            | some spec ↦ custom_cost spec region
          ]
        ]
      ]

-- Without prices a machine has no cost, whatever its type and region and whatever the sizer knows.
pub machine_cost-no_price_pricer :
    {F : Type 0} (a : Arithmetic F) (sz : Option (Sizer F)) (machine_type region : String)
    → machine_cost a no_price_pricer sz machine_type region ≡ none
unfolding machine_cost no_price_pricer
machine_cost-no_price_pricer a none machine_type region = refl
machine_cost-no_price_pricer a (some sizer) machine_type region =
    elim (Option-cases (sizer.spec machine_type)) [
      | inl unknown ↦ rw unknown refl
      | inr (spec, found) ↦ rw found refl
    ]
