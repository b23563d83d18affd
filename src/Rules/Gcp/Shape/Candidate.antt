-- ===== src/Rules/Gcp/Shape/Candidate.antt =====
-- The candidate that the search for a smaller machine finds.
use tellury.Base.{
  String, Bool, true, false, not, ◌&&◌, ◌≡◌, refl, ap, Option, none, some, List, [], ◌∷◌, ◌++◌, all,
  arith, Option-cases, Bool-cases, inl, inr,
}
use tellury.Float.{Numeric}
use tellury.Pricing.Cost.{Pricer, MachineSpec, Sizer}
use tellury.Rules.Types.{Pass}
use tellury.Rules.Toolbox.{Services, known}
use tellury.Rules.Gcp.Shape.{Shape, price_shape, too_small_or_large, walk_ladder, find_candidate}

module _ {F : Type 0} (x : Numeric F) (pricer : Pricer F) (current_vcpu p95 : F) where
  -- A machine that may replace another: it has a processor and a GiB at least, fewer processors than
  -- the other, enough of them for the load, and a price.
  unfoldable pub replaces : MachineSpec F → Bool
  unfolding too_small_or_large
  replaces cand =
      not (x.order.lt cand.vcpu (x.literal "1.0"))
      && not (x.order.lt cand.memory_gib (x.literal "1.0"))
      && not (x.order.le current_vcpu cand.vcpu)
      && x.order.le (x.div (x.mul p95 current_vcpu) cand.vcpu) (x.literal "0.60")
      && known (price_shape x pricer cand.name cand.family cand.vcpu cand.memory_gib)

  -- The machine that is found replaces the other and has the shape's price, and it is the first of the
  -- ladder that does.
  pub record IsFirst (ladder : List (MachineSpec F)) (cand : MachineSpec F) (shape : Shape F)
      : Type 0 where
    pub before : List (MachineSpec F)
    pub after : List (MachineSpec F)
    pub split : ladder ≡ before ++ cand ∷ after
    pub none_before : all (λ c. not (replaces c)) before ≡ true
    pub fits : replaces cand ≡ true
    pub costs : price_shape x pricer cand.name cand.family cand.vcpu cand.memory_gib ≡ some shape

  -- What a search says of a ladder.
  abbrev pub Found : List (MachineSpec F) → Option (MachineSpec F × Shape F) → Type 0
  Found ladder none = all (λ c. not (replaces c)) ladder ≡ true
  Found ladder (some (cand, shape)) = IsFirst ladder cand shape

  Found-skip :
      (c : MachineSpec F) (ladder : List (MachineSpec F)) (o : Option (MachineSpec F × Shape F))
      → replaces c ≡ false
      → Found ladder o
      → Found (c ∷ ladder) o
  Found-skip c ladder none other h = ground arith
  Found-skip c ladder (some (cand, shape)) other h = record {
    before = c ∷ h.before;
    after = h.after;
    split = ap (λ l. c ∷ l) h.split;
    none_before = ground (arith, h.none_before);
    fits = h.fits;
    costs = h.costs;
  }

  skipped-replaces :
      (c : MachineSpec F) → too_small_or_large x current_vcpu c ≡ true → replaces c ≡ false
  unfolding replaces too_small_or_large
  skipped-replaces c skipped = ground arith

  loaded-replaces :
      (c : MachineSpec F)
      → x.order.le (x.div (x.mul p95 current_vcpu) c.vcpu) (x.literal "0.60") ≡ false
      → replaces c ≡ false
  unfolding replaces
  loaded-replaces c loaded = ground arith

  unpriced-replaces :
      (c : MachineSpec F)
      → price_shape x pricer c.name c.family c.vcpu c.memory_gib ≡ none
      → replaces c ≡ false
  unfolding replaces
  unpriced-replaces c unpriced = ground arith

  found-replaces :
      (c : MachineSpec F) (shape : Shape F)
      → too_small_or_large x current_vcpu c ≡ false
      → x.order.le (x.div (x.mul p95 current_vcpu) c.vcpu) (x.literal "0.60") ≡ true
      → price_shape x pricer c.name c.family c.vcpu c.memory_gib ≡ some shape
      → replaces c ≡ true
  unfolding replaces too_small_or_large
  found-replaces c shape sized enough priced = ground arith

  walk_ladder-Found :
      (ladder : List (MachineSpec F)) → Found ladder (walk_ladder x pricer current_vcpu p95 ladder)
  unfolding walk_ladder
  walk_ladder-Found [] = refl
  walk_ladder-Found (c ∷ ladder) =
      let rest = walk_ladder-Found ladder in
      let skip = Found-skip c ladder (walk_ladder x pricer current_vcpu p95 ladder) in
      elim (Bool-cases (too_small_or_large x current_vcpu c)) [
        | inl skipped ↦ rw (skipped, walk_ladder) (skip (skipped-replaces c skipped) rest)
        | inr sized ↦
            elim (Bool-cases
              (x.order.le (x.div (x.mul p95 current_vcpu) c.vcpu) (x.literal "0.60"))) [
                | inl enough ↦
                    elim (Option-cases (price_shape x pricer c.name c.family c.vcpu c.memory_gib)) [
                      | inl unpriced ↦
                          rw (sized, enough, unpriced, walk_ladder)
                            (skip (unpriced-replaces c unpriced) rest)
                      | inr (shape, priced) ↦
                          rw (sized, enough, priced, walk_ladder)
                            (record {
                              before = [];
                              after = ladder;
                              split = refl;
                              none_before = refl;
                              fits = found-replaces c shape sized enough priced;
                              costs = priced;
                            })
                    ]
                | inr loaded ↦
                    rw (sized, loaded, walk_ladder) (skip (loaded-replaces c loaded) rest)
              ]
      ]

-- On the ladder of the family, the search finds the first machine that replaces the current one, with
-- the price of its shape, and finds none only if no machine of the ladder does, provided that there is a
-- sizer.
pub find_candidate-Found :
    {F : Type 0} (x : Numeric F) (p : Pass F (Services F)) (sizer : Sizer F) (family : String)
    (current_vcpu p95 : F)
    → p.services.sizer ≡ some sizer
    → Found x p.services.prices.pricer current_vcpu p95
        (sizer.ladder family)
        (find_candidate x p family current_vcpu p95)
unfolding find_candidate
find_candidate-Found x p sizer family current_vcpu p95 has =
    rw (has, find_candidate)
      (walk_ladder-Found x p.services.prices.pricer current_vcpu p95 (sizer.ladder family))
