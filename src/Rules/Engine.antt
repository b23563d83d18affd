-- ===== src/Rules/Engine.antt =====
-- pkg/rules/engine.go: `Engine.Run`. The workers are the flights that are under way: a rule that a
-- worker has taken, the answer that its `Eval` will give, and the calls of `Skip` that it has yet to
-- make. A step is what the mutex or the channel makes atomic. `Answers r a` tells that `Eval` of the
-- rule may give the answer: findings, an error, and the calls of `Skip` on the way. The progress
-- callback and the log are not modelled.
use tellury.Base.{
  not, str_ltb, ℕ, ◌+◌, String, Bool, true, false, ◌||◌, ◌≡◌, Option, none, some, List, [], ◌∷◌,
  ◌++◌, map, length, ltb, ◌==◌, str_eq, if◌then◌else◌,
}
use tellury.Base.Sort
use tellury.Base.Dict.{Dict, insert, get_or}
use tellury.Graph.Build.{Graph}
use tellury.Float.{Float64}
use tellury.Rules.Types.{Meta, Finding, Skip}
use tellury.Rules.Registry.{Rule}
use tellury.Rules.Order.{waste_less}

-- `workers` is zero also for a negative setting.
pub record Engine : Type 0 where
  pub workers : ℕ
  pub fail_fast : Bool

pub record Result (F : Type 0) : Type 0 where
  pub findings : List (Finding F)
  pub errors : Dict String
  pub skipped : Dict (Dict ℕ)

pub record Answer (F : Type 0) : Type 0 where
  pub findings : List (Finding F)
  pub error : Option String
  pub skips : List Skip

abbrev min : ℕ → ℕ → ℕ
min a b = if ltb a b then a else b

abbrev max : ℕ → ℕ → ℕ
max a b = if ltb b a then a else b

-- The number of workers, on a machine with `cpus` processors.
unfoldable pub worker_count : Engine → ℕ → ℕ → ℕ
worker_count e cpus rules = if e.workers == 0 then min cpus (max rules 1) else e.workers

module _ {F : Type 0} where
  abbrev pub no_result : Result F
  no_result = record { findings = []; errors = []; skipped = [] }

  -- The callback that counts a skip.
  unfoldable pub count_skip : Result F → Skip → Result F
  unfolding insert get_or
  count_skip res s =
      let m = get_or s.rule_id [] res.skipped in
      record res {
        skipped = insert s.rule_id (insert s.code (get_or s.code 0 m + 1) m) res.skipped;
      }

  -- What the rule declares stands in for what a finding leaves empty.
  unfoldable pub fill : Meta → Finding F → Finding F
  fill m fd = record fd {
    rule_id = if str_eq fd.rule_id "" then m.id else fd.rule_id;
    severity = if str_eq fd.severity "" then m.severity else fd.severity;
    remediation = if str_eq fd.remediation "" then m.remediation else fd.remediation;
  }

  -- The result once a rule has given its answer.
  unfoldable pub record_answer : Meta → Answer F → Result F → Result F
  unfolding fill insert
  record_answer m a res = record res {
    findings = res.findings ++ map (fill m) a.findings;
    errors = elim a.error [ none ↦ res.errors | some err ↦ insert m.id err res.errors ];
  }

  -- Whether an answer cancels the context.
  unfoldable pub cancels : Engine → Answer F → Bool
  cancels e a = elim a.error [ none ↦ false | some _ ↦ e.fail_fast ]

pub record Flight (F A : Type 0) : Type 0 where
  pub rule : Rule A
  pub answer : Answer F
  pub pending : List Skip

pub record State (F A : Type 0) : Type 0 where
  pub queue : List (Rule A)
  pub running : List (Flight F A)
  pub result : Result F
  pub cancelled : Bool

module _ {F A : Type 0} (e : Engine) (workers : ℕ) (Answers : Rule A → Answer F → Type 0) where
  pub data Step : State F A → State F A → Type 0 where
    -- A worker that is free takes the next rule.
    takes :
        (r : Rule A) (a : Answer F) (queue : List (Rule A)) (running : List (Flight F A))
        (res : Result F) (cancelled : Bool)
        → ltb (length running) workers ≡ true
        → Answers r a
        → Step
            (record { queue = r ∷ queue; running = running; result = res; cancelled = cancelled })
            (record {
              queue = queue;
              running = running ++ record { rule = r; answer = a; pending = a.skips } ∷ [];
              result = res;
              cancelled = cancelled;
            })
    -- Once the context is cancelled, the next rule may be dropped.
    drops :
        (r : Rule A) (queue : List (Rule A)) (running : List (Flight F A)) (res : Result F)
        → Step
            (record { queue = r ∷ queue; running = running; result = res; cancelled = true })
            (record { queue = queue; running = running; result = res; cancelled = true })
    -- One of the running rules skips a node.
    skips :
        (r : Rule A) (a : Answer F) (s : Skip) (pending : List Skip) (queue : List (Rule A))
        (before later : List (Flight F A)) (res : Result F) (cancelled : Bool)
        → Step
            (record {
              queue = queue;
              running = before ++ record { rule = r; answer = a; pending = s ∷ pending } ∷ later;
              result = res;
              cancelled = cancelled;
            })
            (record {
              queue = queue;
              running = before ++ record { rule = r; answer = a; pending = pending } ∷ later;
              result = count_skip res s;
              cancelled = cancelled;
            })
    -- One of the running rules has made its skips and gives its answer.
    answers :
        (r : Rule A) (a : Answer F) (queue : List (Rule A)) (before later : List (Flight F A))
        (res : Result F) (cancelled : Bool)
        → Step
            (record {
              queue = queue;
              running = before ++ record { rule = r; answer = a; pending = [] } ∷ later;
              result = res;
              cancelled = cancelled;
            })
            (record {
              queue = queue;
              running = before ++ later;
              result = record_answer r.meta a res;
              cancelled = cancelled || cancels e a;
            })
    -- The caller cancels the context.
    interrupts :
        (queue : List (Rule A)) (running : List (Flight F A)) (res : Result F) (cancelled : Bool)
        → Step
            (record { queue = queue; running = running; result = res; cancelled = cancelled })
            (record { queue = queue; running = running; result = res; cancelled = true })

  -- The states that a run over the rules reaches.
  pub data Reached (rs : List (Rule A)) : State F A → Type 0 where
    begins : Reached rs (record { queue = rs; running = []; result = no_result; cancelled = false })
    then_step : {s t : State F A} → Reached rs s → Step s t → Reached rs t

module _ {F A : Type 0} where
  -- The state in which `Run` begins; `none` is its error on a graph that is not frozen.
  unfoldable pub start : Graph F → List (Rule A) → Option (State F A)
  start g rs =
      if g.frozen
      then some (record { queue = rs; running = []; result = no_result; cancelled = false })
      else none

-- What `Run` returns once all is done: the result with its findings in order, and with `FailFast`
-- the first error of the map.
unfoldable pub conclude :
    {F : Type 0} → Float64 F → Engine → Result F → Result F × Option (String × String)
unfolding waste_less
conclude f e res = (
  record res { findings = Sort.sort (waste_less f) res.findings },
  if e.fail_fast then (elim res.errors [ [] ↦ none | err ∷ _ ↦ some err ]) else none,
)

-- pkg/rules/pass.go: `SkipTotals`, the counts as a list, in order.
pub record SkipTally : Type 0 where
  pub rule_id : String
  pub code : String
  pub count : ℕ

unfoldable pub code_tallies : String → Dict ℕ → List SkipTally
code_tallies rule_id [] = []
code_tallies rule_id ((code, count) ∷ m) =
    record { rule_id = rule_id; code = code; count = count } ∷ code_tallies rule_id m

unfoldable pub rule_tallies : Dict (Dict ℕ) → List SkipTally
unfolding code_tallies
rule_tallies [] = []
rule_tallies ((rule_id, by_code) ∷ m) = code_tallies rule_id by_code ++ rule_tallies m

unfoldable pub tally_less : SkipTally → SkipTally → Bool
tally_less a b =
    if not (str_eq a.rule_id b.rule_id) then str_ltb a.rule_id b.rule_id else str_ltb a.code b.code

unfoldable pub skip_totals : {F : Type 0} → Result F → List SkipTally
unfolding rule_tallies tally_less
skip_totals res = Sort.sort tally_less (rule_tallies res.skipped)
