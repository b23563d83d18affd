-- ===== src/Rules/Interleaving.antt =====
-- Tests: two rules on two workers, the second of which answers first.
use tellury.Base.{
  str_apart, String-set, sym, ap, ◌∙◌, if_ind, Every, ◌||◌, ℕ, String, true, false, ◌≡◌, refl, none,
  List, [], ◌∷◌, str_eq, if◌then◌else◌,
}
use mathlib.Core.List.{Perm, Mem, mem-cons, not-mem-nil}
use mathlib.Core.Logic.Or
use tellury.Base.Sort
use native.Mathlib.Nat.{ℕ_set}
use tellury.Float.{cents, cents-IsOrdered}
use tellury.Rules.Types.{Meta, Finding, Skip}
use tellury.Rules.Registry.{Rule}
use tellury.Rules.Order.{waste_less, sort_findings}
use tellury.Rules.Engine.{
  Engine, Result, Answer, Reached, takes, skips, answers, begins, then_step, conclude, worker_count,
  record_answer, count_skip, cancels, no_result,
}
use tellury.Rules.Blocks.{reported, IsOwn, Unique}
use tellury.Rules.Schedule.{conclude-Reached}
use tellury.Rules.Completion.{Leads, live_state, Leads-completes}
use tellury.Rules.Resort.{ByResource, ByRule, ByWaste, sort_findings-conclude}
use tellury.Base.Sort.Pairs.{Pairs}
use tellury.Rules.Skips.{skip_count, total_skips, skip_count-Reached}

abbrev meta_of : String → Meta
meta_of id = record {
  id = id;
  provider = "gcp";
  service = "compute";
  title = "";
  description = "";
  severity = "low";
  required_asset_types = [];
  required_metrics = [];
  remediation = "";
  origin = "native";
  target_kind = "disk";
}

abbrev first_rule : Rule Unit
first_rule = record { meta = meta_of "first"; eval = tt }

abbrev second_rule : Rule Unit
second_rule = record { meta = meta_of "second"; eval = tt }

abbrev finding : String → ℕ → Finding ℕ
finding resource waste = record {
  rule_id = "";
  resource_id = resource;
  resource = resource;
  kind = "disk";
  project = "p";
  location = "";
  severity = "";
  monthly_waste = waste;
  confidence = 1;
  evidence = [];
  remediation = "";
}

abbrev skip : Skip
skip = record { rule_id = "second"; ref = "vm"; code = "in_use" }

-- Both rules find the same waste at one resource; the second also skips a node.
abbrev answer : Rule Unit → Answer ℕ
answer r =
    if str_eq r.meta.id "second"
    then record { findings = finding "x" 3 ∷ []; error = none; skips = skip ∷ [] }
    else record { findings = finding "x" 3 ∷ finding "y" 7 ∷ []; error = none; skips = [] }

abbrev IsAnswer : Rule Unit → Answer ℕ → Type 0
IsAnswer r a = a ≡ answer r

abbrev rules : List (Rule Unit)
rules = first_rule ∷ second_rule ∷ []

abbrev engine : Engine
engine = record { workers = 2; fail_fast = false }

abbrev final : Result ℕ
final =
    record_answer first_rule.meta (answer first_rule)
      (record_answer second_rule.meta (answer second_rule) (count_skip no_result skip))

-- Both rules are taken.
under_way : Reached engine (worker_count engine 1 2) IsAnswer rules (record {
  queue = [];
  running =
      record { rule = first_rule; answer = answer first_rule; pending = [] }
      ∷ record { rule = second_rule; answer = answer second_rule; pending = skip ∷ [] }
      ∷ [];
  result = no_result;
  cancelled = false;
})
unfolding worker_count
under_way =
    then_step (then_step begins (takes first_rule (answer first_rule) _ [] _ _ refl refl))
      (takes second_rule (answer second_rule) [] _ _ _ refl refl)

finished :
    Reached engine
      (worker_count engine 1 2)
      IsAnswer
      rules
      (record { queue = []; running = []; result = final; cancelled = false })
unfolding cancels
finished =
    then_step
      (then_step (then_step under_way (skips second_rule _ skip [] [] (_ ∷ []) [] _ false))
        (answers second_rule (answer second_rule) [] (_ ∷ []) [] _ false))
      (answers first_rule (answer first_rule) [] [] [] _ false)

Rule-set : IsSet (Rule Unit)
Rule-set = hlevel String-set

rules_cases :
    {P : Type 0}
    → IsProp P
    → (r : Rule Unit) → Mem r rules
    → (r ≡ first_rule → P)
    → (r ≡ second_rule → P)
    → P
rules_cases p r m f g =
    Or.elim p (mem-cons.0 m) f (λ k. Or.elim p (mem-cons.0 k) g (λ z. absurd (not-mem-nil z)))

abbrev id_of : Rule Unit → String
id_of r = r.meta.id

rules-Unique : Unique answer rules
rules-Unique r s m n e =
    rules_cases (Rule-set r s) r m
      (λ p.
        rules_cases (Rule-set r s) s n (λ q. p ∙ sym q)
          (λ q. absurd (str_apart "first" "second" refl (sym (ap id_of p) ∙ e ∙ ap id_of q))))
      (λ p.
        rules_cases (Rule-set r s) s n
          (λ q. absurd (str_apart "second" "first" refl (sym (ap id_of p) ∙ e ∙ ap id_of q)))
          (λ q. p ∙ sym q))

rules-IsOwn : (r : Rule Unit) → Mem r rules → IsOwn answer r
rules-IsOwn r m =
    if_ind
      (λ (a : Answer ℕ).
        Every (λ fd. (str_eq fd.rule_id "" || str_eq fd.rule_id r.meta.id) ≡ true) a.findings)
      (str_eq r.meta.id "second") (λ _. (refl, tt)) (λ _. (refl, (refl, tt)))

conclude-Reached_example :
    (conclude cents engine final).0.findings ≡ Sort.sort (waste_less cents) (reported answer rules)
conclude-Reached_example =
    conclude-Reached engine (worker_count engine 1 2) IsAnswer answer (λ r a e. e) rules
      cents-IsOrdered ℕ_set rules-Unique rules-IsOwn final finished

-- Both rules are running, and the second has a skip to make.
Leads-completes_example :
    (res' : Result ℕ) × Leads engine 1 IsAnswer rules refl refl
      (live_state engine 1 IsAnswer rules refl refl []
        (record { rule = first_rule; answer = answer first_rule; pending = [] }
          ∷ record { rule = second_rule; answer = answer second_rule; pending = skip ∷ [] }
          ∷ [])
        no_result)
      (live_state engine 1 IsAnswer rules refl refl [] [] res')
Leads-completes_example =
    Leads-completes engine 1 IsAnswer rules refl refl (λ r. (answer r, refl)) _ _ _

skip_count-Reached_example :
    skip_count "second" "in_use" final ≡ total_skips "second" "in_use" answer rules
skip_count-Reached_example =
    skip_count-Reached "second" "in_use" answer engine (worker_count engine 1 2) IsAnswer
      (λ r a e. e) rules final finished

sort_findings-conclude_example :
    let returned = (conclude cents engine final).0.findings in
    ((order : String) → Perm (sort_findings cents returned order) final.findings)
    × Pairs ByResource (sort_findings cents returned "resource")
    × Pairs ByRule (sort_findings cents returned "rule")
    × Pairs (ByWaste cents) returned
    × (sort_findings cents returned "waste" ≡ returned)
sort_findings-conclude_example = sort_findings-conclude cents cents-IsOrdered engine final
