-- ===== src/Rules/Schedule.antt =====
-- Whatever the order in which the workers take and answer the rules, `Run` returns the same findings.
use tellury.Base.{
  ℕ, Bool, false, ◌≡◌, refl, sym, ap, ◌∙◌, ◌||◌, List, [], ◌∷◌, ◌++◌, map, Every, Every-snoc,
  Every-middle, Every-replace, arith,
}
use mathlib.Core.List.{perm_middle, Perm, Mem, append_assoc, append-nil}
use mathlib.Core.List.Perm
use tellury.Base.Sort
use tellury.Float.{Float64, IsOrdered}
use tellury.Rules.Registry.{Rule}
use tellury.Rules.Order.{waste_less}
use tellury.Rules.Engine.{
  Engine, cancels, Result, Answer, Flight, State, Step, Reached, takes, drops, skips, answers,
  interrupts, begins, then_step, fill, record_answer, count_skip, conclude,
}
use tellury.Rules.Blocks.{reported, IsOwn, Unique, ordered-perm}

abbrev rules_of : {F A : Type 0} → List (Flight F A) → List (Rule A)
rules_of fls = map (λ fl. fl.rule) fls

rules_of-append :
    {F A : Type 0} (xs ys : List (Flight F A)) → rules_of (xs ++ ys) ≡ rules_of xs ++ rules_of ys
rules_of-append [] ys = refl
rules_of-append (x ∷ xs) ys = ap (λ l. x.rule ∷ l) (rules_of-append xs ys)

module _ {F A : Type 0} (answer : Rule A → Answer F) where
  reported-snoc :
      (rs : List (Rule A)) (r : Rule A)
      → reported answer (rs ++ r ∷ []) ≡ reported answer rs ++ map (fill r.meta) (answer r).findings
  reported-snoc [] r = append-nil (map (fill r.meta) (answer r).findings)
  reported-snoc (s ∷ rs) r =
      ap (λ l. map (fill s.meta) (answer s).findings ++ l) (reported-snoc rs r)
      ∙ sym (append_assoc (map (fill s.meta) (answer s).findings) (reported answer rs) _)

module _ {F A : Type 0} (e : Engine) (workers : ℕ) (Answers : Rule A → Answer F → Type 0)
    (answer : Rule A → Answer F) (pure : (r : Rule A) (a : Answer F) → Answers r a → a ≡ answer r)
    (rs : List (Rule A)) where
  -- The rules that have answered, and what they account for as long as nothing is cancelled.
  record IsOnTrack (s : State F A) : Type 0 where
    done : List (Rule A)
    answered : Every (λ (fl : Flight F A). fl.answer ≡ answer fl.rule) s.running
    found : s.cancelled ≡ false → s.result.findings ≡ reported answer done
    left : s.cancelled ≡ false → Perm (done ++ (rules_of s.running ++ s.queue)) rs

  still : (cancelled : Bool) (a : Answer F) → (cancelled || cancels e a) ≡ false → cancelled ≡ false
  still cancelled a h = ground arith

  found_after :
      (r : Rule A) (a : Answer F) (res : Result F) (done : List (Rule A))
      → a ≡ answer r
      → res.findings ≡ reported answer done
      → (record_answer r.meta a res).findings ≡ reported answer (done ++ r ∷ [])
  unfolding record_answer
  found_after r a res done same found =
      ap (λ l. l ++ map (fill r.meta) a.findings) found
      ∙ ap (λ (b : Answer F). reported answer done ++ map (fill r.meta) b.findings) same
      ∙ sym (reported-snoc answer done r)

  IsOnTrack-Step : {s t : State F A} → Step e workers Answers s t → IsOnTrack s → IsOnTrack t
  unfolding count_skip record_answer
  IsOnTrack-Step (takes r a queue running res cancelled free given) i = record {
    done = i.done;
    answered = Every-snoc _ running _ i.answered (pure r a given);
    found = i.found;
    left = λ live.
        rw (rules_of-append running (_ ∷ []), append_assoc (rules_of running) (r ∷ []) queue)
          (i.left live);
  }
  IsOnTrack-Step (drops r queue running res) i = record {
    done = i.done;
    answered = i.answered;
    found = λ live. absurd (ground arith);
    left = λ live. absurd (ground arith);
  }
  IsOnTrack-Step (skips r a s pending queue before later res cancelled) i = record {
    done = i.done;
    answered =
        Every-replace _ before _ _ later i.answered (Every-middle _ before _ later i.answered).0;
    found = i.found;
    left = λ live.
        rw (rules_of-append before (_ ∷ later))
          (rw (rules_of-append before (_ ∷ later)) at (i.left live));
  }
  IsOnTrack-Step (answers r a queue before later res cancelled) i = record {
    done = i.done ++ r ∷ [];
    answered = (Every-middle _ before _ later i.answered).1;
    found = λ live.
        found_after r a res i.done (Every-middle _ before _ later i.answered).0
          (i.found (still cancelled a live));
    left = λ live.
        rw
          (
            append_assoc i.done (r ∷ []) (rules_of (before ++ later) ++ queue),
            rules_of-append before later,
          )
          (Perm.trans
            (Perm.append_left i.done (
              Perm.append_right queue (Perm.symm (perm_middle (rules_of before) (rules_of later)))))
            (rw (rules_of-append before (_ ∷ later)) at (i.left (still cancelled a live))));
  }
  IsOnTrack-Step (interrupts queue running res cancelled) i = record {
    done = i.done;
    answered = i.answered;
    found = λ live. absurd (ground arith);
    left = λ live. absurd (ground arith);
  }

  Reached-IsOnTrack : {s : State F A} → Reached e workers Answers rs s → IsOnTrack s
  Reached-IsOnTrack begins = record {
    done = [];
    answered = tt;
    found = λ live. refl;
    left = λ live. Perm.rfl;
  }
  Reached-IsOnTrack (then_step reached step) = IsOnTrack-Step step (Reached-IsOnTrack reached)

  -- Suppose that the answer of a rule does not depend on the schedule, that findings carry the id of
  -- their rule or none, that rules with one id are one rule, and that the floats are ordered and a
  -- set. Then in
  -- every state that a run reaches in which the context is not cancelled, no rule is queued and none
  -- is running, the findings that `Run` returns are those of the rules evaluated one by one, in order.
  pub conclude-Reached :
      {f : Float64 F}
      → IsOrdered f
      → IsSet F
      → Unique answer rs
      → ((r : Rule A) → Mem r rs → IsOwn answer r)
      → (res : Result F)
      → Reached e workers Answers rs
          (record { queue = []; running = []; result = res; cancelled = false })
      → (conclude f e res).0.findings ≡ Sort.sort (waste_less f) (reported answer rs)
  unfolding conclude
  conclude-Reached {f} o set u own res reached =
      let i = Reached-IsOnTrack reached in
      let all_done : Perm i.done rs = rw (append-nil i.done) at (i.left refl) in
      ap (Sort.sort (waste_less f)) (i.found refl)
      ∙ sym (ordered-perm answer o set (Perm.symm all_done) u own)
