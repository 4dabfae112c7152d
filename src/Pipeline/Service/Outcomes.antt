-- ===== src/Pipeline/Service/Outcomes.antt =====
-- How a run ends, and what the table of runs then says.
use chainmonitor.Prelude.{
  ℕ, min, max, String, ◌≡◌, refl, ap, ◌∙◌, Bool, true, false, not, ◌&&◌, Option, none, some, List,
  ltb, if◌then◌else◌, length, if_holds, option_holds,
}
use chainmonitor.Float.{Float}
use mathlib.Core.Path.{subst}
use chainmonitor.Pipeline.Runs.{
  PipelineRun, Window, in_window, updated, Status, success, failed, ErrorMessage,
}
use chainmonitor.Pipeline.Runs.Marking.{find_run, find_run-mark}
use chainmonitor.Pipeline.Service.{
  commit_pending, Error, Outcome, gives, fails, PipelineSettings, Components, World, Prepared,
  Result, returned, raised, second, Ending, mark_failed, persist_success, fail_with, finish,
  await_transaction, persist, conclude, run_claimed, prepare, deadline_of, persist_message,
  bounded_timeout, is_cancelled, failure,
}

-- The status that a result goes with.
abbrev pub status_for : {float : Float} → Result float → Status
status_for (returned s) = success
status_for (raised e) = failed

abbrev pub run_status : Option PipelineRun → Option Status
run_status none = none
run_status (some r) = some r.status

-- The status of a run in the table.
abbrev pub status_in : String → List PipelineRun → Option Status
status_in run_id rows = run_status (find_run run_id rows)

module _ (float : Float) (settings : PipelineSettings float) (parts : Components float) (w : Window)
    (run_id trigger : String) where
  -- A transaction that is still pending: the run counts as failed, until it is committed.
  Late : Ending float settings parts w run_id trigger → Option (Prepared float) → Type 0
  Late e none = Unit
  Late e (some p) =
      (status_for e.result ≡ failed)
      × (status_in run_id (commit_pending float settings parts w run_id trigger p e.world).runs
          ≡ some success)

  -- The update that marks the run as failed is made while it is awaited.
  abbrev pub is_marked : Bool
  is_marked =
      let m = parts.marking in
      not (is_cancelled float settings parts w run_id trigger m.cancelled_after m.took)
      && elim m.rolled_back [ none ↦ true | some _ ↦ false ]

  -- The status that a run leaves, with the one that it had.
  abbrev pub status_left : Status → Result float → Status
  status_left before (returned s) = success
  status_left before (raised e) = if is_marked then failed else before

  module _ (r : PipelineRun) where
    -- The table says of the run what its result says.
    Settles : Ending float settings parts w run_id trigger → Type 0
    Settles e =
        (status_in run_id e.world.runs ≡ some (status_left r.status e.result)) × Late e e.pending

    -- What marking leaves of the run.
    Marks : Option Error × World float → Type 0
    Marks m =
        (r' : PipelineRun) × (find_run run_id m.1.runs ≡ some r')
        × (in_window w r' ≡ true)
        × (r'.status ≡ (if is_marked then failed else r.status))

    mark_failed-Marks :
        (n : ℕ) (m : ErrorMessage) (s : World float)
        → find_run run_id s.runs ≡ some r
        → in_window w r ≡ true
        → Marks (mark_failed float settings parts w run_id trigger n m s)
    unfolding mark_failed Marks in_window
    mark_failed-Marks n m s h k =
        let t = parts.marking in
        let u = failure float settings parts w run_id trigger n m s.now in
        let cut = is_cancelled float settings parts w run_id trigger t.cancelled_after t.took in
        if_holds Marks cut (λ c. (r, h, k, rw c refl))
          (λ c.
            option_holds Marks t.rolled_back
              (λ done. (updated u r, find_run-mark w run_id u r s.runs h k, k, rw (c, done) refl))
              (λ e fails. (r, h, k, rw (c, fails) refl)))

    fail_with-Settles :
        (n : ℕ) (e : Error) (m : ErrorMessage) (p : Option (Prepared float)) (s : World float)
        → find_run run_id s.runs ≡ some r
        → in_window w r ≡ true
        → Settles (fail_with float settings parts w run_id trigger n e m p s)
    unfolding fail_with Marks Settles Late commit_pending persist_success
    fail_with-Settles n e m none s h k =
        let (r', found, within, status) = mark_failed-Marks n m s h k in
        (ap run_status found ∙ ap some status, tt)
    fail_with-Settles n e m (some p) s h k =
        let (r', found, within, status) = mark_failed-Marks n m s h k in
        (
          ap run_status found ∙ ap some status,
          (refl, ap run_status (find_run-mark w run_id _ r' _ found within)),
        )

    finish-Settles :
        (p : Prepared float) (e : Option Error) (s : World float)
        → find_run run_id s.runs ≡ some r
        → in_window w r ≡ true
        → Settles (finish float settings parts w run_id trigger p e s)
    unfolding finish persist_success Settles Late
    finish-Settles p none s h k = (ap run_status (find_run-mark w run_id _ r s.runs h k), tt)
    finish-Settles p (some e) s h k =
        fail_with-Settles (length p.ticks) e (persist_message e) none s h k

    await_transaction-Settles :
        (p : Prepared float) (timeout : ℕ) (s : World float)
        → find_run run_id s.runs ≡ some r
        → in_window w r ≡ true
        → Settles (await_transaction float settings parts w run_id trigger p timeout s)
    unfolding await_transaction
    await_transaction-Settles p timeout s h k =
        let t = parts.transaction in
        if_holds Settles
          (is_cancelled float settings parts w run_id trigger t.cancelled_after
            (min timeout t.took))
          (λ _. fail_with-Settles _ _ _ _ _ h k)
          (λ _.
            if_holds Settles (ltb timeout t.took) (λ _. fail_with-Settles _ _ _ _ _ h k)
              (λ _. finish-Settles p t.rolled_back _ h k))

    persist-Settles :
        (deadline : ℕ) (p : Prepared float) (s : World float)
        → find_run run_id s.runs ≡ some r
        → in_window w r ≡ true
        → Settles (persist float settings parts w run_id trigger deadline p s)
    unfolding persist
    persist-Settles deadline p s h k =
        option_holds Settles
          (bounded_timeout (max second settings.persist_timeout_seconds) deadline s.now)
          (λ _. fail_with-Settles _ _ _ _ _ h k)
          (λ timeout _. await_transaction-Settles p timeout s h k)

    conclude-Settles :
        (deadline : ℕ) (s : World float) (o : Outcome (Prepared float)) (now : ℕ)
        → find_run run_id s.runs ≡ some r
        → in_window w r ≡ true
        → Settles (conclude float settings parts w run_id trigger deadline s (o, now))
    conclude-Settles deadline s (gives p) now h k = persist-Settles deadline p _ h k
    conclude-Settles deadline s (fails e) now h k = fail_with-Settles _ _ _ _ _ h k

  run_claimed-Settles :
      (s : World float) (r : PipelineRun)
      → find_run run_id s.runs ≡ some r
      → in_window w r ≡ true
      → Settles r (run_claimed float settings parts w run_id trigger s)
  unfolding run_claimed
  run_claimed-Settles s r h k =
      let deadline = deadline_of float settings parts w run_id trigger s.now in
      let o = prepare float settings parts w run_id trigger deadline s.now in
      conclude-Settles r deadline s o.0 o.1 h k

  -- Where a run that is in the table leaves a transaction pending, which nobody waits for any more,
  -- the run has raised, and once the transaction is committed the table says success all the same,
  -- as long as no update of the run comes in between.
  pub pending-contradicts :
      (s : World float) (r : PipelineRun) (p : Prepared float)
      → find_run run_id s.runs ≡ some r
      → in_window w r ≡ true
      → (run_claimed float settings parts w run_id trigger s).pending ≡ some p
      → let e = run_claimed float settings parts w run_id trigger s in
        (status_for e.result ≡ failed)
        × (status_in run_id (commit_pending float settings parts w run_id trigger p e.world).runs
            ≡ some success)
  unfolding Settles Late
  pending-contradicts s r p h k pending =
      subst (Late (run_claimed float settings parts w run_id trigger s)) pending
        (run_claimed-Settles s r h k).1
