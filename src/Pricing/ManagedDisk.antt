-- ===== src/Pricing/ManagedDisk.antt =====
-- pkg/pricing/azure/managed_disk.go: the tiers of managed disks. `strings.ToLower` is the parameter
-- `to_lower`, and the size of a tier is the literal of the source.
use tellury.Base.{String, Option, none, some, List, [], ◌∷◌, str_eq, if◌then◌else◌, ◌<>◌}
use tellury.Base.Dict.{Dict, lookup, insert}
use tellury.Base.Trim.{trim_space}
use tellury.Float.{Numeric}

pub record DiskTier : Type 0 where
  pub sku_name : String
  pub size_gib : String

pub record DiskFamily : Type 0 where
  pub arm_sku_name : String
  pub product_name : String
  pub tiers : List DiskTier

abbrev tier : String → String → DiskTier
tier sku_name size_gib = record { sku_name = sku_name; size_gib = size_gib }

abbrev premium_lrs : DiskFamily
premium_lrs = record {
  arm_sku_name = "Premium_LRS";
  product_name = "Premium SSD Managed Disks";
  tiers =
      tier "P1 LRS" "4"
      ∷ tier "P2 LRS" "8"
      ∷ tier "P3 LRS" "16"
      ∷ tier "P4 LRS" "32"
      ∷ tier "P6 LRS" "64"
      ∷ tier "P10 LRS" "128"
      ∷ tier "P15 LRS" "256"
      ∷ tier "P20 LRS" "512"
      ∷ tier "P30 LRS" "1024"
      ∷ tier "P40 LRS" "2048"
      ∷ tier "P50 LRS" "4096"
      ∷ tier "P60 LRS" "8192"
      ∷ tier "P70 LRS" "16384"
      ∷ tier "P80 LRS" "32768"
      ∷ [];
}

abbrev premium_zrs : DiskFamily
premium_zrs = record {
  arm_sku_name = "Premium_ZRS";
  product_name = "Premium SSD Managed Disks";
  tiers =
      tier "P1 ZRS" "4"
      ∷ tier "P2 ZRS" "8"
      ∷ tier "P3 ZRS" "16"
      ∷ tier "P4 ZRS" "32"
      ∷ tier "P6 ZRS" "64"
      ∷ tier "P10 ZRS" "128"
      ∷ tier "P15 ZRS" "256"
      ∷ tier "P20 ZRS" "512"
      ∷ tier "P30 ZRS" "1024"
      ∷ tier "P40 ZRS" "2048"
      ∷ tier "P50 ZRS" "4096"
      ∷ tier "P60 ZRS" "8192"
      ∷ tier "P70 ZRS" "16384"
      ∷ tier "P80 ZRS" "32768"
      ∷ [];
}

abbrev standard_ssd_lrs : DiskFamily
standard_ssd_lrs = record {
  arm_sku_name = "StandardSSD_LRS";
  product_name = "Standard SSD Managed Disks";
  tiers =
      tier "E1 LRS" "4"
      ∷ tier "E2 LRS" "8"
      ∷ tier "E3 LRS" "16"
      ∷ tier "E4 LRS" "32"
      ∷ tier "E6 LRS" "64"
      ∷ tier "E10 LRS" "128"
      ∷ tier "E15 LRS" "256"
      ∷ tier "E20 LRS" "512"
      ∷ tier "E30 LRS" "1024"
      ∷ tier "E40 LRS" "2048"
      ∷ tier "E50 LRS" "4096"
      ∷ tier "E60 LRS" "8192"
      ∷ tier "E70 LRS" "16384"
      ∷ tier "E80 LRS" "32768"
      ∷ [];
}

abbrev standard_ssd_zrs : DiskFamily
standard_ssd_zrs = record {
  arm_sku_name = "StandardSSD_ZRS";
  product_name = "Standard SSD Managed Disks";
  tiers =
      tier "E1 ZRS" "4"
      ∷ tier "E2 ZRS" "8"
      ∷ tier "E3 ZRS" "16"
      ∷ tier "E4 ZRS" "32"
      ∷ tier "E6 ZRS" "64"
      ∷ tier "E10 ZRS" "128"
      ∷ tier "E15 ZRS" "256"
      ∷ tier "E20 ZRS" "512"
      ∷ tier "E30 ZRS" "1024"
      ∷ tier "E40 ZRS" "2048"
      ∷ tier "E50 ZRS" "4096"
      ∷ tier "E60 ZRS" "8192"
      ∷ tier "E70 ZRS" "16384"
      ∷ tier "E80 ZRS" "32768"
      ∷ [];
}

abbrev standard_lrs : DiskFamily
standard_lrs = record {
  arm_sku_name = "Standard_LRS";
  product_name = "Standard HDD Managed Disks";
  tiers =
      tier "S4 LRS" "32"
      ∷ tier "S6 LRS" "64"
      ∷ tier "S10 LRS" "128"
      ∷ tier "S15 LRS" "256"
      ∷ tier "S20 LRS" "512"
      ∷ tier "S30 LRS" "1024"
      ∷ tier "S40 LRS" "2048"
      ∷ tier "S50 LRS" "4096"
      ∷ tier "S60 LRS" "8192"
      ∷ tier "S70 LRS" "16384"
      ∷ tier "S80 LRS" "32768"
      ∷ [];
}

abbrev pub managed_disk_families : List DiskFamily
managed_disk_families =
    premium_lrs ∷ premium_zrs ∷ standard_ssd_lrs ∷ standard_ssd_zrs ∷ standard_lrs ∷ []

-- The first tier of a size.
unfoldable pub find_tier : {F : Type 0} → Numeric F → F → List DiskTier → Option String
find_tier x size [] = none
find_tier x size (t ∷ tiers) =
    let rest = find_tier x size tiers in
    if x.order.eq (x.literal t.size_gib) size then some t.sku_name else rest

module _ (to_lower : String → String) where
  -- The first family of a name, which the caller has put in lower case.
  unfoldable pub find_family : String → List DiskFamily → Option DiskFamily
  find_family key [] = none
  find_family key (family ∷ families) =
      let rest = find_family key families in
      if str_eq (to_lower family.arm_sku_name) key then some family else rest

  unfoldable pub managed_disk_tier_sku : {F : Type 0} → Numeric F → String → F → Option String
  unfolding find_family find_tier trim_space
  managed_disk_tier_sku x arm_sku_name size =
      elim (find_family (to_lower (trim_space arm_sku_name)) managed_disk_families) [
        | none ↦ none
        | some family ↦ find_tier x size family.tiers
      ]

  -- The loops that fill `tierSKUIndex`.
  unfoldable pub index_tiers : DiskFamily → List DiskTier → Dict DiskFamily → Dict DiskFamily
  unfolding insert
  index_tiers family [] idx = idx
  index_tiers family (t ∷ tiers) idx =
      index_tiers family tiers (insert (to_lower t.sku_name) family idx)

  unfoldable pub index_families : List DiskFamily → Dict DiskFamily → Dict DiskFamily
  unfolding index_tiers
  index_families [] idx = idx
  index_families (family ∷ families) idx =
      index_families families (index_tiers family family.tiers idx)

  unfoldable pub tier_sku_index : Dict DiskFamily
  unfolding index_families
  tier_sku_index = index_families managed_disk_families []

  unfoldable pub family_for_tier_sku : String → Option DiskFamily
  unfolding tier_sku_index lookup trim_space
  family_for_tier_sku sku_name = lookup (to_lower (trim_space sku_name)) tier_sku_index

  -- The product and the meter.
  unfoldable pub managed_disk_product : String → Option (String × String)
  unfolding family_for_tier_sku trim_space
  managed_disk_product sku_name =
      let trimmed = trim_space sku_name in
      if str_eq trimmed "" then none else (elim (family_for_tier_sku trimmed) [
        | none ↦ none
        | some family ↦ some (family.product_name, trimmed <> " Disk")
      ])
