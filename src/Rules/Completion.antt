-- ===== src/Rules/Completion.antt =====
-- A run of the engine that is not cancelled can always be brought to its end: no worker waits for ever.
use tellury.Base.{ℕ, true, false, ◌≡◌, List, [], ◌∷◌, arith, ltb, length}
use tellury.Rules.Types.{Skip}
use tellury.Rules.Registry.{Rule}
use tellury.Rules.Engine.{
  Engine, Result, Answer, Flight, State, Step, takes, skips, answers, cancels, worker_count,
  count_skip, record_answer,
}

module _ {F A : Type 0} (e : Engine) (cpus : ℕ) (Answers : Rule A → Answer F → Type 0)
    (rs : List (Rule A)) (calm : e.fail_fast ≡ false) (some_cpu : ltb 0 cpus ≡ true) where
  abbrev workers : ℕ
  workers = worker_count e cpus (length rs)

  some_worker : ltb 0 workers ≡ true
  unfolding worker_count
  some_worker = ground arith

  -- The steps that lead from one state to another.
  pub data Leads (s : State F A) : State F A → Type 0 where
    stays : Leads s s
    goes : {t u : State F A} → Leads s t → Step e workers Answers t u → Leads s u

  -- The state in which nothing is cancelled.
  abbrev pub live_state : List (Rule A) → List (Flight F A) → Result F → State F A
  live_state queue running res = record {
    queue = queue;
    running = running;
    result = res;
    cancelled = false;
  }

  abbrev Live : State F A → List (Rule A) → List (Flight F A) → Result F → Type 0
  Live s queue running res = Leads s (live_state queue running res)

  never_cancels : (a : Answer F) → cancels e a ≡ false
  unfolding cancels
  never_cancels a = ground (arith, calm)

  -- The first flight makes its skips and gives its answer.
  land :
      {s : State F A} (r : Rule A) (a : Answer F) (pending : List Skip) (queue : List (Rule A))
      (later : List (Flight F A)) (res : Result F)
      → Live s queue (record { rule = r; answer = a; pending = pending } ∷ later) res
      → (res' : Result F) × Live s queue later res'
  land r a [] queue later res live = (
    record_answer r.meta a res,
    rw (never_cancels a) at (goes live (answers r a queue [] later res false)),
  )
  land r a (k ∷ pending) queue later res live =
      land r a pending queue later (count_skip res k)
        (goes live (skips r a k pending queue [] later res false))

  land_all :
      {s : State F A} (running : List (Flight F A)) (queue : List (Rule A)) (res : Result F)
      → Live s queue running res
      → (res' : Result F) × Live s queue [] res'
  land_all [] queue res live = (res, live)
  land_all (fl ∷ running) queue res live =
      let (res', live') = land fl.rule fl.answer fl.pending queue running res live in
      land_all running queue res' live'

  take_all :
      {s : State F A}
      → ((r : Rule A) → (a : Answer F) × Answers r a)
      → (queue : List (Rule A)) (res : Result F) → Live s queue [] res
      → (res' : Result F) × Live s [] [] res'
  take_all eval [] res live = (res, live)
  take_all eval (r ∷ queue) res live =
      let (a, given) = eval r in
      let (res', live') =
        land r a a.skips queue [] res
          (goes live (takes r a queue [] res false some_worker given)) in
      take_all eval queue res' live'

  -- If every rule has an answer, `FailFast` is off and the machine has a processor, there are steps
  -- of the workers that lead from any state that is not cancelled, whatever is queued and running in
  -- it, to one in which no rule is queued or running and that is not cancelled.
  pub Leads-completes :
      ((r : Rule A) → (a : Answer F) × Answers r a)
      → (queue : List (Rule A)) (running : List (Flight F A)) (res : Result F)
      → (res' : Result F) × Leads (live_state queue running res) (live_state [] [] res')
  Leads-completes eval queue running res =
      let (res', landed) = land_all running queue res stays in take_all eval queue res' landed
