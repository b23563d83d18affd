-- ===== src/Rules/Flags.antt =====
-- `Select` against the flags `--rules` and `--skip-rules`.
use tellury.Base.{
  String, Bool, true, false, not, ◌||◌, ◌≡◌, refl, sym, ap, ◌∙◌, List, [], ◌∷◌, arith, filter, all,
  map, Every, fun_ext, Bool-cases, inl, inr,
}
use tellury.Base.Dict.{Dict, lookup, insert, has_key, lookup-insert}
use tellury.Base.Names.{contains}
use tellury.Base.Trim.{trim_space}
use tellury.Rules.Registry.{Rule, chosen, unknown_rule, skip_set, drop_rules, pick, select}
use tellury.Rules.Selection.{
  IsRegistry, names, IsListed, known, lookup-by_id, pick_rules-unknown, pick_rules-known,
}

-- Whether an id is excluded.
abbrev pub excluded : List String → String → Bool
excluded exclude id = contains id (map trim_space exclude)

has_key-skip_set :
    (k : String) (exclude : List String) (skip : Dict Bool)
    → has_key k (skip_set skip exclude) ≡ (contains k (map trim_space exclude) || has_key k skip)
unfolding skip_set
has_key-skip_set k [] skip = refl
has_key-skip_set k (id ∷ exclude) skip = ground (
  arith,
  lookup-insert k (trim_space id) true skip,
  has_key-skip_set k exclude (insert (trim_space id) true skip),
)

module _ {A : Type 0} where
  filter_all_true : (rs : List (Rule A)) → filter (λ r. true) rs ≡ rs
  filter_all_true [] = refl
  filter_all_true (r ∷ rs) = ap (λ l. r ∷ l) (filter_all_true rs)

  drop_rules_lem :
      (exclude : List String) (rs : List (Rule A))
      → drop_rules exclude rs ≡ filter (λ r. not (excluded exclude r.meta.id)) rs
  unfolding drop_rules lookup
  drop_rules_lem [] rs = sym (filter_all_true rs)
  drop_rules_lem (id ∷ exclude) rs =
      ap (λ (q : String → Bool). filter (λ (r : Rule A). not (q r.meta.id)) rs)
        (fun_ext (λ k. ground (arith, has_key-skip_set k (id ∷ exclude) [])))

  names-filter :
      (q : String → Bool) (rs : List (Rule A))
      → names (filter (λ r. q r.meta.id) rs) ≡ filter q (names rs)
  names-filter q [] = refl
  names-filter q (r ∷ rs) = ground (arith, names-filter q rs)

  filter-Every :
      (P : Rule A → Type 0) (q : Rule A → Bool) (rs : List (Rule A))
      → Every P rs
      → Every P (filter q rs)
  filter-Every P q [] h = tt
  filter-Every P q (r ∷ rs) (pr, h) = elim (Bool-cases (q r)) [
    | inl kept ↦ rw (kept, filter, Every) (pr, filter-Every P q rs h)
    | inr dropped ↦ rw (dropped, filter, Every) (filter-Every P q rs h)
  ]

module _ {A : Type 0} (registry : Dict (Rule A)) (w : IsRegistry registry) (provider id : String)
    (include exclude : List String) where
  -- In a well-formed registry, if every id of `--rules`, without the white space around it, is registered, `Select` returns the
  -- rules of these ids in the order of the flag, a repeated id repeated, without those that
  -- `--skip-rules` names. The provider plays no part.
  pub select-names :
      all (known registry) (id ∷ include) ≡ true
      → (rs : List (Rule A)) × (select registry provider (id ∷ include) exclude ≡ chosen rs)
        × (names rs ≡ filter (λ k. not (excluded exclude k)) (map trim_space (id ∷ include)))
        × Every (IsListed registry) rs
  unfolding select pick
  select-names h =
      let (found, picked, named, listed) =
        pick_rules-known registry w (id ∷ include) [] _ (lookup-by_id registry w) h in
      (
        filter (λ r. not (excluded exclude r.meta.id)) found,
        rw (picked, select) (ap chosen (drop_rules_lem exclude found)),
        names-filter (λ k. not (excluded exclude k)) found
            ∙ ap (filter (λ k. not (excluded exclude k))) named,
        filter-Every (IsListed registry) _ found listed,
      )

  -- If some id of `--rules` is not in the registry, which is well formed, `Select` fails and names an id
  -- of the flag that is not registered.
  pub select-unknown :
      all (known registry) (id ∷ include) ≡ false
      → (culprit : String) × (select registry provider (id ∷ include) exclude
          ≡ unknown_rule culprit)
        × (known registry culprit ≡ false)
        × (contains culprit (id ∷ include) ≡ true)
  unfolding select pick
  select-unknown h =
      let (culprit, failed, unknown, included) =
        pick_rules-unknown registry w (id ∷ include) [] _ (lookup-by_id registry w) h in
      (culprit, rw (failed, select) refl, unknown, included)
