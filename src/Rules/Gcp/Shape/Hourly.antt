-- ===== src/Rules/Gcp/Shape/Hourly.antt =====
-- What a shape costs and which machine replaces it, against `price_shape` and `walk_ladder`.
use tellury.Base.{
  String, Bool, true, false, not, ◌&&◌, ◌≡◌, refl, ap, Option, none, some, List, [], ◌∷◌, ◌++◌,
  arith, Option-cases, inl, inr, filter, if◌then◌else◌, Bool-cases, ◌∙◌,
}
use tellury.Float.{Numeric}
use tellury.Rules.Types.{Pass}
use tellury.Rules.Toolbox.{Services}
use tellury.Rules.Evidence.{PricedComponent}
use tellury.Pricing.Cost.{MachineSpec}
use tellury.Rules.Gcp.Shape.{
  Shape, price_shape, custom_monthly_cost, walk_ladder, too_small_or_large,
}

module _ {F : Type 0} (x : Numeric F) (p : Pass F (Services F)) where
  abbrev part : (kind sku region key : String) → PricedComponent
  part kind sku region key = record { kind = kind; sku = sku; region = region; key = key }

  -- The parts that cost something, or both if neither does.
  abbrev or_both : PricedComponent → PricedComponent → (free_a free_b : Bool) → List PricedComponent
  or_both a b true true = a ∷ b ∷ []
  or_both a b true false = b ∷ []
  or_both a b false true = a ∷ []
  or_both a b false false = a ∷ b ∷ []

  -- A shape costs 730 hours of its machine type; without a price of the type it costs 730 hours of its
  -- processors and of its memory, by the prices of the family, and has no price without both of these.
  abbrev pub hourly : (machine_type family : String) → (vcpu memory : F) → Option (Shape F)
  hourly machine_type family vcpu memory =
      let price =
        λ (kind sku : String). p.services.prices.pricer.unit_price kind "gcp" sku "default" in
      elim (price "vm_instance" machine_type) [
        | some unit ↦ some (record {
          cost = x.mul unit.0 (x.literal "730.0");
          comps = part "vm_instance" machine_type unit.1 "instance" ∷ [];
        })
        | none ↦ elim (price "vm_custom_cpu" family) [
          | none ↦ none
          | some cpu ↦ elim (price "vm_custom_ram" family) [
            | none ↦ none
            | some ram ↦ some (record {
              cost = x.mul (x.add (x.mul vcpu cpu.0) (x.mul memory ram.0)) (x.literal "730.0");
              comps =
                  or_both (part "vm_custom_cpu" family cpu.1 "cpu")
                    (part "vm_custom_ram" family ram.1 "ram")
                    (x.order.eq (x.mul vcpu cpu.0) x.order.nought)
                    (x.order.eq (x.mul memory ram.0) x.order.nought);
            })
          ]
        ]
      ]

  -- A machine of the ladder has at least one processor and one GiB, fewer processors than the
  -- instance, and would be loaded to at most 0.60.
  abbrev pub is_enough : F → F → MachineSpec F → Bool
  is_enough vcpu load cand =
      not (x.order.lt cand.vcpu (x.literal "1.0"))
      && not (x.order.lt cand.memory_gib (x.literal "1.0"))
      && not (x.order.le vcpu cand.vcpu)
      && x.order.le (x.div (x.mul load vcpu) cand.vcpu) (x.literal "0.60")

  -- The first machine that has a price.
  abbrev pub first_priced : List (MachineSpec F) → Option (MachineSpec F × Shape F)
  first_priced [] = none
  first_priced (cand ∷ ladder) = elim (hourly cand.name cand.family cand.vcpu cand.memory_gib) [
    | none ↦ first_priced ladder
    | some shape ↦ some (cand, shape)
  ]

  chosen-or_both :
      (a b : PricedComponent) (free_a free_b : Bool)
      → (elim ((if not free_a then a ∷ [] else []) ++ (if not free_b then b ∷ [] else [])) [
        | [] ↦ a ∷ b ∷ []
        | c ∷ cs ↦ c ∷ cs
      ])
        ≡ or_both a b free_a free_b
  chosen-or_both a b true true = refl
  chosen-or_both a b true false = refl
  chosen-or_both a b false true = refl
  chosen-or_both a b false false = refl

  skipped-is_enough :
      (vcpu load : F) (cand : MachineSpec F)
      → too_small_or_large x vcpu cand ≡ true
      → is_enough vcpu load cand ≡ false
  unfolding too_small_or_large
  skipped-is_enough vcpu load cand skipped = ground arith

  loaded-is_enough :
      (vcpu load : F) (cand : MachineSpec F)
      → x.order.le (x.div (x.mul load vcpu) cand.vcpu) (x.literal "0.60") ≡ false
      → is_enough vcpu load cand ≡ false
  loaded-is_enough vcpu load cand loaded = ground arith

  fits-is_enough :
      (vcpu load : F) (cand : MachineSpec F)
      → too_small_or_large x vcpu cand ≡ false
      → x.order.le (x.div (x.mul load vcpu) cand.vcpu) (x.literal "0.60") ≡ true
      → is_enough vcpu load cand ≡ true
  unfolding too_small_or_large
  fits-is_enough vcpu load cand sized enough = ground arith

  pub price_shape-hourly :
      (machine_type family : String) (vcpu memory : F)
      → price_shape x p.services.prices.pricer machine_type family vcpu memory
        ≡ hourly machine_type family vcpu memory
  unfolding price_shape custom_monthly_cost
  price_shape-hourly machine_type family vcpu memory =
      let price =
        λ (kind sku : String). p.services.prices.pricer.unit_price kind "gcp" sku "default" in
      elim (Option-cases (price "vm_instance" machine_type)) [
        | inr (unit, found) ↦ rw (found, price_shape, hourly) refl
        | inl no_type ↦ elim (Option-cases (price "vm_custom_cpu" family)) [
          | inl no_cpu ↦ rw (no_type, no_cpu, price_shape, custom_monthly_cost, hourly) refl
          | inr (cpu, has_cpu) ↦ elim (Option-cases (price "vm_custom_ram" family)) [
            | inl no_ram ↦
                rw (no_type, has_cpu, no_ram, price_shape, custom_monthly_cost, hourly) refl
            | inr (ram, has_ram) ↦
                rw (no_type, has_cpu, has_ram, price_shape, custom_monthly_cost, hourly)
                  (ap
                    (λ comps. some (record {
                      cost =
                          x.mul (x.add (x.mul vcpu cpu.0) (x.mul memory ram.0)) (x.literal "730.0");
                      comps = comps;
                    }))
                    (chosen-or_both _ _ (x.order.eq (x.mul vcpu cpu.0) x.order.nought)
                      (x.order.eq (x.mul memory ram.0) x.order.nought)))
          ]
        ]
      ]

  pub walk_ladder-first_priced :
      (vcpu load : F) (ladder : List (MachineSpec F))
      → walk_ladder x p.services.prices.pricer vcpu load ladder
        ≡ first_priced (filter (is_enough vcpu load) ladder)
  unfolding walk_ladder
  walk_ladder-first_priced vcpu load [] = refl
  walk_ladder-first_priced vcpu load (cand ∷ ladder) =
      let rest = walk_ladder-first_priced vcpu load ladder in
      let same = price_shape-hourly cand.name cand.family cand.vcpu cand.memory_gib in
      elim (Bool-cases (too_small_or_large x vcpu cand)) [
        | inl skipped ↦ rw (skipped, skipped-is_enough vcpu load cand skipped, walk_ladder) rest
        | inr sized ↦
            elim (Bool-cases (x.order.le (x.div (x.mul load vcpu) cand.vcpu) (x.literal "0.60"))) [
              | inr loaded ↦
                  rw (loaded-is_enough vcpu load cand loaded, sized, loaded, walk_ladder) rest
              | inl enough ↦
                  elim (Option-cases (hourly cand.name cand.family cand.vcpu cand.memory_gib)) [
                    | inl unpriced ↦
                        rw
                          (
                            fits-is_enough vcpu load cand sized enough,
                            sized,
                            enough,
                            same ∙ unpriced,
                            unpriced,
                            walk_ladder,
                            first_priced,
                          )
                          rest
                    | inr (shape, priced) ↦
                        rw
                          (
                            fits-is_enough vcpu load cand sized enough,
                            sized,
                            enough,
                            same ∙ priced,
                            priced,
                            walk_ladder,
                            first_priced,
                          )
                          refl
                  ]
            ]
      ]
