-- ===== src/Rules/Totals.antt =====
-- `SkipTotals` reports what the rules have skipped.
use tellury.Base.{
  Bool-cases, ℕ, ◌+◌, String, false, ◌≡◌, refl, ◌∙◌, ◌&&◌, some, List, [], ◌∷◌, ◌++◌, arith, str_eq,
  eq_iff, str_eq_refl, if◌then◌else◌, Option-cases, inl, inr,
}
use mathlib.Core.Path.{subst}
use tellury.Base.Sort
use tellury.Base.Dict.{Dict, lookup, insert, get_or, NodupKeys, lookup-insert, insert-NodupKeys}
use tellury.Rules.Types.{Skip}
use tellury.Rules.Registry.{Rule}
use tellury.Rules.Engine.{
  Engine, Result, Answer, State, Step, Reached, takes, drops, skips, answers, interrupts, begins,
  then_step, count_skip, record_answer, SkipTally, code_tallies, rule_tallies, tally_less,
  skip_totals,
}
use tellury.Rules.Skips.{total_skips, skip_count-Reached}

-- The count under which a list of tallies reports a rule and a code.
abbrev pub reported_count : String → String → List SkipTally → ℕ
reported_count id code [] = 0
reported_count id code (t ∷ ts) =
    (if str_eq t.rule_id id && str_eq t.code code then t.count else 0) + reported_count id code ts

module _ (id code : String) where
  reported-insert :
      (t : SkipTally) (ts : List SkipTally)
      → reported_count id code (Sort.insert tally_less t ts) ≡ reported_count id code (t ∷ ts)
  unfolding Sort.insert
  reported-insert t [] = refl
  reported-insert t (u ∷ ts) = ground (arith, reported-insert t ts)

  reported-sort :
      (ts : List SkipTally)
      → reported_count id code (Sort.sort tally_less ts) ≡ reported_count id code ts
  unfolding Sort.sort
  reported-sort [] = refl
  reported-sort (t ∷ ts) =
      ground (arith, reported-insert t (Sort.sort tally_less ts), reported-sort ts)

  reported-append :
      (ts us : List SkipTally)
      → reported_count id code (ts ++ us) ≡ reported_count id code ts + reported_count id code us
  reported-append [] us = omega arith
  reported-append (t ∷ ts) us = omega (arith, reported-append ts us)

  reported-code_tallies :
      (j : String) (m : Dict ℕ)
      → NodupKeys m
      → reported_count id code (code_tallies j m) ≡ (if str_eq j id then get_or code 0 m else 0)
  unfolding code_tallies get_or lookup
  reported-code_tallies j [] u = ground arith
  reported-code_tallies j ((c, n) ∷ m) (fresh, u) =
      ground (arith, eq_iff c code, reported-code_tallies j m u)

  reported-rule_tallies :
      (d : Dict (Dict ℕ))
      → NodupKeys d
      → ((j : String) (m : Dict ℕ) → lookup j d ≡ some m → NodupKeys m)
      → reported_count id code (rule_tallies d) ≡ get_or code 0 (get_or id [] d)
  unfolding rule_tallies get_or lookup
  reported-rule_tallies [] u v = refl
  reported-rule_tallies ((j, m) ∷ d) (fresh, u) v =
      let inner : NodupKeys m = v j m (ground (arith, str_eq_refl j)) in
      let rest = reported-rule_tallies d u (λ k n h. v k n (ground (arith, eq_iff j k))) in
      ground (
        arith,
        eq_iff j id,
        reported-append (code_tallies j m) (rule_tallies d),
        reported-code_tallies j m inner,
        rest,
      )

module _ {F : Type 0} where
  -- No rule and no code of a rule has two entries.
  record IsTidy (res : Result F) : Type 0 where
    rules_once : NodupKeys res.skipped
    codes_once : (j : String) (m : Dict ℕ) → lookup j res.skipped ≡ some m → NodupKeys m

  codes_of : (res : Result F) (j : String) → IsTidy res → NodupKeys (get_or j [] res.skipped)
  unfolding get_or
  codes_of res j i = elim (Option-cases (lookup j res.skipped)) [
    | inl absent ↦ rw (absent, get_or) tt
    | inr (m, found) ↦ rw (found, get_or) (i.codes_once j m found)
  ]

  count_skip-IsTidy : (res : Result F) (s : Skip) → IsTidy res → IsTidy (count_skip res s)
  unfolding count_skip
  count_skip-IsTidy res s i =
      let m = get_or s.rule_id [] res.skipped in
      let m' = insert s.code (get_or s.code 0 m + 1) m in
      let once : NodupKeys m' =
        insert-NodupKeys s.code (get_or s.code 0 m + 1) m (codes_of res s.rule_id i) in
      record {
        rules_once = insert-NodupKeys s.rule_id m' res.skipped i.rules_once;
        codes_once = λ j n h. elim (Bool-cases (str_eq s.rule_id j)) [
          | inl same ↦
              let e : m' ≡ n = ground (arith, lookup-insert j s.rule_id m' res.skipped) in
              subst (λ (d : Dict ℕ). NodupKeys d) e once
          | inr other ↦ i.codes_once j n (ground (arith, lookup-insert j s.rule_id m' res.skipped))
        ];
      }

module _ {F A : Type 0} (e : Engine) (workers : ℕ) (Answers : Rule A → Answer F → Type 0) where
  Step-IsTidy : {s t : State F A} → Step e workers Answers s t → IsTidy s.result → IsTidy t.result
  unfolding record_answer
  Step-IsTidy (takes r a queue running res cancelled free given) i = i
  Step-IsTidy (drops r queue running res) i = i
  Step-IsTidy (skips r a s pending queue before later res cancelled) i = count_skip-IsTidy res s i
  Step-IsTidy (answers r a queue before later res cancelled) i = record {
    rules_once = i.rules_once;
    codes_once = i.codes_once;
  }
  Step-IsTidy (interrupts queue running res cancelled) i = i

  Reached-IsTidy :
      {rs : List (Rule A)} {s : State F A} → Reached e workers Answers rs s → IsTidy s.result
  unfolding lookup
  Reached-IsTidy begins = record { rules_once = tt; codes_once = λ j m h. ground arith }
  Reached-IsTidy (then_step reached step) = Step-IsTidy step (Reached-IsTidy reached)

  -- Suppose that the answer of a rule does not depend on the schedule. Once a run that is not
  -- cancelled is through, `SkipTotals` reports, for each rule and each code, as many skips as the
  -- rules make when they are evaluated one by one.
  pub skip_totals-Reached :
      (answer : Rule A → Answer F)
      → ((r : Rule A) (a : Answer F) → Answers r a → a ≡ answer r)
      → (rs : List (Rule A)) (res : Result F)
      → Reached e workers Answers rs
          (record { queue = []; running = []; result = res; cancelled = false })
      → (id code : String)
      → reported_count id code (skip_totals res) ≡ total_skips id code answer rs
  unfolding skip_totals
  skip_totals-Reached answer pure rs res reached id code =
      let i = Reached-IsTidy reached in
      reported-sort id code (rule_tallies res.skipped)
      ∙ reported-rule_tallies id code res.skipped i.rules_once i.codes_once
      ∙ skip_count-Reached id code answer e workers Answers pure rs res reached
