-- ===== src/Rules/Skips.antt =====
-- Whatever the interleaving of the workers, no call of `Skip` is lost or counted twice.
use tellury.Base.{
  ℕ, ◌+◌, String, false, ◌≡◌, refl, ap, ◌&&◌, List, [], ◌∷◌, ◌++◌, arith, length, filter, str_eq,
  eq_iff, if◌then◌else◌,
}
use tellury.Base.Dict.{insert, get_or, lookup-insert}
use tellury.Rules.Types.{Skip}
use tellury.Rules.Registry.{Rule}
use tellury.Rules.Engine.{
  Engine, Result, Answer, Flight, State, Step, Reached, takes, drops, skips, answers, interrupts,
  begins, then_step, count_skip, record_answer,
}

module _ (id code : String) where
  -- How often a rule skips with a code in a list of calls.
  abbrev pub occurs : List Skip → ℕ
  occurs ss = length (filter (λ s. str_eq s.rule_id id && str_eq s.code code) ss)

  -- What the result has counted.
  abbrev pub skip_count : {F : Type 0} → Result F → ℕ
  skip_count res = get_or code 0 (get_or id [] res.skipped)

  count_skip-adds :
      {F : Type 0} (res : Result F) (s : Skip)
      → skip_count (count_skip res s)
        ≡ (if str_eq s.rule_id id && str_eq s.code code then 1 else 0) + skip_count res
  unfolding count_skip get_or
  count_skip-adds res s =
      let m = get_or s.rule_id [] res.skipped in
      ground (
        arith,
        eq_iff s.rule_id id,
        eq_iff s.code code,
        lookup-insert id s.rule_id (insert s.code (get_or s.code 0 m + 1) m) res.skipped,
        lookup-insert code s.code (get_or s.code 0 m + 1) m,
      )

  pending_count : {F A : Type 0} → List (Flight F A) → ℕ
  pending_count [] = 0
  pending_count (fl ∷ fls) = occurs fl.pending + pending_count fls

  pending_count-append :
      {F A : Type 0} (xs ys : List (Flight F A))
      → pending_count (xs ++ ys) ≡ pending_count xs + pending_count ys
  unfolding pending_count
  pending_count-append [] ys = omega arith
  pending_count-append (x ∷ xs) ys = omega (arith, pending_count-append xs ys)

  module _ {F A : Type 0} (answer : Rule A → Answer F) where
    -- How often the rules skip, evaluated one by one.
    abbrev pub total_skips : List (Rule A) → ℕ
    total_skips [] = 0
    total_skips (r ∷ rs) = occurs (answer r).skips + total_skips rs

    module _ (e : Engine) (workers : ℕ) (Answers : Rule A → Answer F → Type 0)
        (pure : (r : Rule A) (a : Answer F) → Answers r a → a ≡ answer r) (rs : List (Rule A)) where
      abbrev Accounted : State F A → Type 0
      Accounted s =
          s.cancelled ≡ false
          → skip_count s.result + (pending_count s.running + total_skips s.queue) ≡ total_skips rs

      Accounted-Step : {s t : State F A} → Step e workers Answers s t → Accounted s → Accounted t
      unfolding pending_count record_answer
      Accounted-Step (takes r a queue running res cancelled free given) i live = omega (
        arith,
        i live,
        pending_count-append running (record { rule = r; answer = a; pending = a.skips } ∷ []),
        ap (λ (b : Answer F). occurs b.skips) (pure r a given),
      )
      Accounted-Step (drops r queue running res) i live = absurd (ground arith)
      Accounted-Step (skips r a s pending queue before later res cancelled) i live = ground (
        arith,
        i live,
        count_skip-adds res s,
        pending_count-append before
            (record { rule = r; answer = a; pending = s ∷ pending } ∷ later),
        pending_count-append before (record { rule = r; answer = a; pending = pending } ∷ later),
      )
      Accounted-Step (answers r a queue before later res cancelled) i live = ground (
        arith,
        i,
        pending_count-append before (record { rule = r; answer = a; pending = [] } ∷ later),
        pending_count-append before later,
      )
      Accounted-Step (interrupts queue running res cancelled) i live = absurd (ground arith)

      Reached-Accounted : {s : State F A} → Reached e workers Answers rs s → Accounted s
      unfolding pending_count get_or
      Reached-Accounted begins = λ live. omega arith
      Reached-Accounted (then_step reached step) = Accounted-Step step (Reached-Accounted reached)

      -- Suppose that the answer of a rule does not depend on the schedule. Once a run that is not
      -- cancelled is through, its result counts, for each rule and each code, as many skips as the
      -- rules make when they are evaluated one by one.
      pub skip_count-Reached :
          (res : Result F)
          → Reached e workers Answers rs
              (record { queue = []; running = []; result = res; cancelled = false })
          → skip_count res ≡ total_skips rs
      unfolding pending_count
      skip_count-Reached res reached = omega (arith, Reached-Accounted reached refl)
