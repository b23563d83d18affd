-- ===== src/Pricing/Examples.antt =====
-- Runs on locations of three clouds and on a pricer without prices, and the theorems on them.
use tellury.Base.{str_apart, inl, false, [], ℕ, ◌+◌, ◌*◌, String, ◌≡◌, refl, some}
use tellury.Base.Trim.{trim_space}
use tellury.Pricing.Region.{canonical_region, region_of}
use tellury.Pricing.Cost.{Arithmetic, Sizer}
use tellury.Pricing.Cut.{zone, canonical_region-Cut}

abbrev same : String → String
same s = s

regions :
    (region_of same "us-central1-a" ≡ "us-central1")
    × (region_of same "us-east-1" ≡ "us-east-1")
    × (region_of same "us-east-1a" ≡ "us-east-1")
    × (region_of same " global " ≡ "global")
    × (region_of same "" ≡ "default")
unfolding region_of
regions = (refl, refl, refl, refl, refl)

-- A zone of AWS: the letter goes, the digit stays.
canonical_region-Cut_example : canonical_region same "us-east-1a" ≡ "us-east-1"
unfolding trim_space
canonical_region-Cut_example =
    canonical_region-Cut same "us-east-1a" "us-east-1"
      (zone "us-east" "1" "a" (refl, refl, tt) (str_apart "1" "" refl) (inl (refl, refl)) refl refl)

abbrev counting : Arithmetic ℕ
counting = record { add = λ x y. x + y; mul = λ x y. x * y; hours_per_month = 730 }

abbrev custom : Sizer ℕ
custom = record {
  spec = λ machine_type. some (record {
    name = machine_type;
    family = "n1";
    vcpu = 4;
    memory_gib = 16;
    shared_core = false;
    min_vcpu = 1;
    step_vcpu = 2;
    ram_per_vcpu_min = 1;
    ram_per_vcpu_max = 6;
  });
  family = λ machine_type. "n1";
  ladder = λ family. [];
}
