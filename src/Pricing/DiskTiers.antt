-- ===== src/Pricing/DiskTiers.antt =====
-- The loops of pkg/pricing/azure/managed_disk.go as filters of the table of tiers.
use tellury.Base.{
  String, ◌≡◌, refl, none, some, List, [], ◌∷◌, filter, str_eq, Bool-cases, inl, inr,
}
use tellury.Base.Trim.{trim_space}
use tellury.Float.{Numeric}
use tellury.Pricing.ManagedDisk.{
  DiskFamily, DiskTier, managed_disk_families, find_tier, find_family, managed_disk_tier_sku,
}

find_tier_lem :
    {F : Type 0} (x : Numeric F) (size : F) (tiers : List DiskTier)
    → find_tier x size tiers ≡ (elim (filter (λ t. x.order.eq (x.literal t.size_gib) size) tiers) [
      | [] ↦ none
      | t ∷ _ ↦ some t.sku_name
    ])
unfolding find_tier
find_tier_lem x size [] = refl
find_tier_lem x size (t ∷ tiers) = elim (Bool-cases (x.order.eq (x.literal t.size_gib) size)) [
  | inl sized ↦ rw sized refl
  | inr other ↦ rw other (find_tier_lem x size tiers)
]

-- The tier that `ManagedDiskTierSKU` finds.
pub managed_disk_tier_sku_lem :
    {F : Type 0} (to_lower : String → String) (x : Numeric F) (name : String) (size : F)
    → managed_disk_tier_sku to_lower x name size
      ≡ (elim (filter
          (λ (family : DiskFamily).
            str_eq (to_lower family.arm_sku_name) (to_lower (trim_space name)))
          managed_disk_families) [
            | [] ↦ none
            | family ∷ _ ↦
                elim (filter
                  (λ (t : DiskTier). x.order.eq (x.literal t.size_gib) size)
                  family.tiers) [ [] ↦ none | t ∷ _ ↦ some t.sku_name ]
          ])
unfolding managed_disk_tier_sku find_family
managed_disk_tier_sku_lem to_lower x name size = go managed_disk_families
  where
    go :
        (families : List DiskFamily)
        → (elim (find_family to_lower (to_lower (trim_space name)) families) [
          | none ↦ none
          | some family ↦ find_tier x size family.tiers
        ])
          ≡ (elim (filter
              (λ (family : DiskFamily).
                str_eq (to_lower family.arm_sku_name) (to_lower (trim_space name)))
              families) [
                | [] ↦ none
                | family ∷ _ ↦
                    elim (filter
                      (λ (t : DiskTier). x.order.eq (x.literal t.size_gib) size)
                      family.tiers) [ [] ↦ none | t ∷ _ ↦ some t.sku_name ]
              ])
    go [] = refl
    go (family ∷ families) =
        elim (Bool-cases (str_eq (to_lower family.arm_sku_name) (to_lower (trim_space name)))) [
          | inl named ↦ rw named (find_tier_lem x size family.tiers)
          | inr other ↦ rw other (go families)
        ]
