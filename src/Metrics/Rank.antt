-- ===== src/Metrics/Rank.antt =====
-- The 95th percentile of `Metrics/Reduce.antt` as an order statistic of the samples.
use tellury.Base.{
  ℕ, zero, suc, ◌≤◌, ◌<◌, String, true, false, not, ◌≡◌, refl, ap, sym, ◌∙◌, some, List, [], ◌∷◌,
  map, length, filter, arith, length-perm, filter-perm,
}
use tellury.Base.Int.{pos}
use mathlib.Core.List.{Perm, Mem, mem-cons_self, mem-cons_of_mem}
use mathlib.Core.List.Perm
use mathlib.Core.Path.{subst}
use tellury.Base.Sort
use tellury.Base.Sort.{IsWeakOrder, IsSorted, IsBound}
use tellury.Float.{Float64, IsOrdered, Numeric}
use tellury.Metrics.Percentile.{
  Sample, Rounding, ceil_rank, percentile, percentile_index, get_elem?,
}
use tellury.Metrics.Reduce.{float_less, p95_of, reduce_time_stat, reduced}

-- The numbers that are below `v`, and those that are not above it.
abbrev pub below : {F : Type 0} → Float64 F → F → List F → ℕ
below f v vs = length (filter (λ u. f.lt u v) vs)

abbrev pub at_or_below : {F : Type 0} → Float64 F → F → List F → ℕ
at_or_below f v vs = length (filter (λ u. not (f.lt v u)) vs)

-- `v` is in the place `k` of the numbers in order, counted from 0.
pub record IsRanked {F : Type 0} (f : Float64 F) (vs : List F) (k : ℕ) (v : F) : Type 0 where
  pub from : Mem v vs
  pub lower : below f v vs ≤ k
  pub upper : k < at_or_below f v vs

module _ {F : Type 0} (f : Float64 F) (o : IsOrdered f) where
  irrefl : (a : F) → f.lt a a ≡ false
  irrefl a = ground (arith, o.asym a a)

  eq_self : (a : F) → f.eq a a ≡ true
  eq_self a = o.eq-eq-not_lt a a (irrefl a) (irrefl a)

  float_less-lt : (a b : F) → float_less f a b ≡ f.lt a b
  unfolding float_less
  float_less-lt a b = ground (arith, eq_self a)

  float_less-IsWeakOrder : IsWeakOrder (float_less f)
  float_less-IsWeakOrder = record {
    asym = λ a b h. float_less-lt b a ∙ o.asym a b (sym (float_less-lt a b) ∙ h);
    neg_trans = λ a b c h k.
        float_less-lt c a
        ∙ o.neg_trans a b c (sym (float_less-lt b a) ∙ h) (sym (float_less-lt c b) ∙ k);
  }

  none_below : (v : F) (vs : List F) → IsBound (float_less f) v vs → below f v vs ≡ 0
  none_below v [] h = refl
  none_below v (u ∷ us) h = ground (arith, float_less-lt u v, h.0, none_below v us h.1)

  not_above :
      (v : F) (vs : List F) (k : ℕ) (u : F)
      → IsBound (float_less f) u vs
      → get_elem? vs k ≡ some v
      → f.lt v u ≡ false
  not_above v [] k u h e = cc
  not_above v (w ∷ ws) zero u h e =
      let same : w ≡ v = cc in subst (λ y. f.lt y u ≡ false) same (sym (float_less-lt w u) ∙ h.0)
  not_above v (w ∷ ws) (suc k) u h e = not_above v ws k u h.1 e

  elem-lower :
      (vs : List F) (k : ℕ) (v : F)
      → IsSorted (float_less f) vs
      → get_elem? vs k ≡ some v
      → below f v vs ≤ k
  elem-lower [] k v s e = cc
  elem-lower (u ∷ us) zero v s e =
      let same : u ≡ v = cc in
      subst (λ y. below f y (u ∷ us) ≤ 0) same (ground (arith, irrefl u, none_below u us s.0))
  elem-lower (u ∷ us) (suc k) v s e = ground (arith, elem-lower us k v s.1 e)

  elem-upper :
      (vs : List F) (k : ℕ) (v : F)
      → IsSorted (float_less f) vs
      → get_elem? vs k ≡ some v
      → k < at_or_below f v vs
  elem-upper [] k v s e = cc
  elem-upper (u ∷ us) zero v s e =
      let same : u ≡ v = cc in
      subst (λ y. 0 < at_or_below f y (u ∷ us)) same (ground (arith, irrefl u))
  elem-upper (u ∷ us) (suc k) v s e =
      ground (arith, elem-upper us k v s.1 e, not_above v us k u s.0 e)

  elem-mem : (vs : List F) (k : ℕ) (v : F) → get_elem? vs k ≡ some v → Mem v vs
  elem-mem [] k v e = cc
  elem-mem (u ∷ us) zero v e =
      let same : u ≡ v = cc in subst (λ y. Mem y (u ∷ us)) same mem-cons_self
  elem-mem (u ∷ us) (suc k) v e = mem-cons_of_mem u (elem-mem us k v e)

  -- The element in the place `k` of the list in order has that rank in the list as it was.
  sorted-IsRanked :
      (vs : List F) (k : ℕ) (v : F)
      → get_elem? (Sort.sort (float_less f) vs) k ≡ some v
      → IsRanked f vs k v
  sorted-IsRanked vs k v e =
      let sorted : List F = Sort.sort (float_less f) vs in
      let same : Perm sorted vs = Sort.sort-perm (float_less f) vs in
      let order : IsSorted (float_less f) sorted = Sort.sort-IsSorted float_less-IsWeakOrder vs in
      record {
        from = (Perm.mem_iff same).0 (elem-mem sorted k v e);
        lower =
            subst (λ n. n ≤ k) (length-perm (filter-perm (λ u. f.lt u v) same))
              (elem-lower sorted k v order e);
        upper =
            subst (λ n. k < n) (length-perm (filter-perm (λ u. not (f.lt v u)) same))
              (elem-upper sorted k v order e);
      }

  pub elem_of_lt : (vs : List F) (k : ℕ) → k < length vs → (v : F) × (get_elem? vs k ≡ some v)
  elem_of_lt [] k h = absurd (omega arith)
  elem_of_lt (u ∷ us) zero h = (u, refl)
  elem_of_lt (u ∷ us) (suc k) h = elem_of_lt us k (omega arith)

module _ {F : Type 0} (x : Numeric F) (r : Rounding F) where
  -- Whatever the conversion to `int` makes of the rank, the index is in range.
  pub percentile_index-lt : (q : F) (n : ℕ) → percentile_index x r q (suc n) < suc n
  unfolding percentile_index
  percentile_index-lt q n = ground arith

  percentile_at :
      (vs : List F) (q : F) (n : ℕ)
      → length vs ≡ suc n
      → percentile x r vs q ≡ get_elem? vs (percentile_index x r q (suc n))
  unfolding percentile
  percentile_at [] q n h = absurd (omega arith)
  percentile_at (v ∷ vs) q n h = ap (λ m. get_elem? (v ∷ vs) (percentile_index x r q m)) h

  pub length-values : (ss : List (Sample F)) → length (map (λ p. p.value) ss) ≡ length ss
  length-values [] = refl
  length-values (s ∷ ss) = ap suc (length-values ss)

  -- The percentile of the samples is the one of the rank that `Percentile` settles on.
  pub p95_of-IsRanked :
      IsOrdered x.order
      → (q : F) (s : Sample F) (ss : List (Sample F))
      → (v : F) × (p95_of x r q (s ∷ ss) ≡ some v)
        × IsRanked x.order
            (map (λ p. p.value) (s ∷ ss))
            (percentile_index x r q (length (s ∷ ss)))
            v
  unfolding p95_of
  p95_of-IsRanked o q s ss =
      let values : List F = map (λ p. p.value) (s ∷ ss) in
      let sorted : List F = Sort.sort (float_less x.order) values in
      let k : ℕ = percentile_index x r q (suc (length ss)) in
      let size : length sorted ≡ suc (length ss) =
        Sort.length-sort (float_less x.order) values ∙ length-values (s ∷ ss) in
      let found : (v : F) × (get_elem? sorted k ≡ some v) =
        elem_of_lt x.order o sorted k (omega (arith, percentile_index-lt q (length ss), size)) in
      (
        found.0,
        percentile_at sorted q (length ss) size ∙ found.1,
        sorted-IsRanked x.order o values k found.0 found.1,
      )

  index_of_rank :
      (q : F) (n k : ℕ) → ceil_rank x r q n ≡ pos (suc k) → k < n → percentile_index x r q n ≡ k
  unfolding percentile_index
  index_of_rank q n k e h = rw e (ground arith)

  -- Provided that the floats are ordered and the rank `ceil(quantile * n)` of n samples, from 1
  -- to n, is k + 1, the statistic "p95" is the value of a sample such that at most k samples are
  -- below it and more than k are not above it, in whatever order the samples stand.
  pub reduce_time_stat-IsRanked :
      IsOrdered x.order
      → (backend : String) (q : F) (s : Sample F) (ss : List (Sample F)) (k : ℕ)
      → ceil_rank x r q (length (s ∷ ss)) ≡ pos (suc k)
      → k < length (s ∷ ss)
      → (v : F) × (reduce_time_stat x r backend "p95" q (s ∷ ss) ≡ some (reduced v))
        × IsRanked x.order (map (λ p. p.value) (s ∷ ss)) k v
  unfolding reduce_time_stat
  reduce_time_stat-IsRanked o backend q s ss k e h =
      let found = p95_of-IsRanked o q s ss in
      (
        found.0,
        rw found.1 refl,
        subst (λ i. IsRanked x.order (map (λ p. p.value) (s ∷ ss)) i found.0)
            (index_of_rank q (length (s ∷ ss)) k e h) found.2,
      )
