-- ===== src/Rules/Gcp/Shape.antt =====
-- pkg/rules/gcp/compute/underutilized_instance/rule.go: the price of a machine shape, and the search
-- for a smaller one.
pub mod Candidate
pub mod Hourly
use tellury.Base.{String, Bool, not, ◌||◌, Option, none, some, List, [], ◌∷◌, ◌++◌, if◌then◌else◌}
use tellury.Float.{Numeric}
use tellury.Pricing.Cost.{Pricer, MachineSpec, Sizer}
use tellury.Rules.Types.{Pass}
use tellury.Rules.Toolbox.{Services}
use tellury.Rules.Evidence.{PricedComponent}

-- `priceableShape`
pub record Shape (F : Type 0) : Type 0 where
  pub cost : F
  pub comps : List PricedComponent

module _ {F : Type 0} (x : Numeric F) where
  -- The region is the one that the empty location has, "default".
  unfoldable pub custom_monthly_cost : Pricer F → String → F → F → Option (Shape F)
  custom_monthly_cost pricer family vcpu memory =
      elim (pricer.unit_price "vm_custom_cpu" "gcp" family "default") [
        | none ↦ none
        | some cpu ↦ elim (pricer.unit_price "vm_custom_ram" "gcp" family "default") [
          | none ↦ none
          | some ram ↦
              let zero = x.order.nought in
              let cpu_part : PricedComponent = record {
                kind = "vm_custom_cpu";
                sku = family;
                region = cpu.1;
                key = "cpu";
              } in
              let ram_part : PricedComponent = record {
                kind = "vm_custom_ram";
                sku = family;
                region = ram.1;
                key = "ram";
              } in
              let comps : List PricedComponent =
                (if not (x.order.eq (x.mul vcpu cpu.0) zero) then cpu_part ∷ [] else [])
                ++ (if not (x.order.eq (x.mul memory ram.0) zero) then ram_part ∷ [] else []) in
              some (record {
                cost = x.mul (x.add (x.mul vcpu cpu.0) (x.mul memory ram.0)) (x.literal "730.0");
                comps = elim comps [ [] ↦ cpu_part ∷ ram_part ∷ [] | c ∷ cs ↦ c ∷ cs ];
              })
        ]
      ]

  unfoldable pub price_shape : Pricer F → String → String → F → F → Option (Shape F)
  unfolding custom_monthly_cost
  price_shape pricer machine_type family vcpu memory =
      elim (pricer.unit_price "vm_instance" "gcp" machine_type "default") [
        | some unit ↦
            let part : PricedComponent = record {
              kind = "vm_instance";
              sku = machine_type;
              region = unit.1;
              key = "instance";
            } in
            some (record { cost = x.mul unit.0 (x.literal "730.0"); comps = part ∷ [] })
        | none ↦ custom_monthly_cost pricer family vcpu memory
      ]

  -- The two `continue`s at the start of the loop.
  unfoldable pub too_small_or_large : F → MachineSpec F → Bool
  too_small_or_large current_vcpu cand =
      x.order.lt cand.vcpu (x.literal "1.0")
      || x.order.lt cand.memory_gib (x.literal "1.0")
      || x.order.le current_vcpu cand.vcpu

  unfoldable pub walk_ladder :
      Pricer F → F → F → List (MachineSpec F) → Option (MachineSpec F × Shape F)
  unfolding price_shape too_small_or_large
  walk_ladder pricer current_vcpu p95 [] = none
  walk_ladder pricer current_vcpu p95 (cand ∷ ladder) =
      let rest = walk_ladder pricer current_vcpu p95 ladder in
      if too_small_or_large current_vcpu cand
      then rest
      else if x.order.le (x.div (x.mul p95 current_vcpu) cand.vcpu) (x.literal "0.60")
      then (elim (price_shape pricer cand.name cand.family cand.vcpu cand.memory_gib) [
        | none ↦ rest
        | some shape ↦ some (cand, shape)
      ])
      else rest

  unfoldable pub find_candidate :
      Pass F (Services F) → String → F → F → Option (MachineSpec F × Shape F)
  unfolding walk_ladder
  find_candidate p family current_vcpu p95 = elim p.services.sizer [
    | none ↦ none
    | some sizer ↦ walk_ladder p.services.prices.pricer current_vcpu p95 (sizer.ladder family)
  ]
