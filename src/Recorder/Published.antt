-- ===== src/Recorder/Published.antt =====
-- What a published capture of src/commercialrchproxy/capture/recorder.py holds, and that the worker
-- comes to an end.
use commercial_rchproxy.Common.{
  ℕ, zero, suc, true, false, none, some, List, [], ◌∷◌, ◌++◌, ◌≡◌, refl, sym, ap, ◌∙◌, inl, inr,
  Bool-cases, if-cases, arith, append-nil,
}
use commercial_rchproxy.Recorder.Types.{Command, Settings, Manager, running, published}
use commercial_rchproxy.Recorder.Worker.{close_live, take_command, worker_next, worker_step}
use commercial_rchproxy.Recorder.Steps.{commands_of, Reached, begins, steps}
use commercial_rchproxy.Recorder.Progress.{
  view, is_flagged, taken, is_failed_worker, is_published, has_ended, IsSound,
}
use commercial_rchproxy.Recorder.Ending.{Step-IsSound}

Reached-IsSound :
    {settings : Settings} {issued : List Command} {m : Manager}
    → Reached settings issued m
    → IsSound issued (view m)
Reached-IsSound begins = record {
  lost = [];
  in_order = λ _. refl;
  none_lost = λ _ _. refl;
  bounded = omega arith;
  degraded_flagged = λ h. h;
  failed_flagged = λ h. h;
  failed_failing = refl;
  publish_clean = λ _. refl;
  ended = λ h. ground (arith, h);
  requested_closed = λ h. ground (arith, h);
  unstarted = λ _ _. (refl, refl);
  active_job = λ h. h;
  no_job = λ _. refl;
  begun_job = λ h. h;
}
Reached-IsSound (steps r s) = Step-IsSound (Reached-IsSound r) s

-- Whatever the interleaving of the session's calls with the worker, when the worker publishes the
-- capture it has written all the commands of the calls, in their order, and the capture was not
-- degraded.
pub published-issued :
    {settings : Settings} {issued : List Command} {m : Manager} (written : List Command)
    → Reached settings issued m
    → m.worker ≡ published written
    → (written ≡ issued) × (m.capture_degraded ≡ false)
published-issued {issued = issued} {m = m} written r at =
    let s = Reached-IsSound r in
    let clean = s.publish_clean (ap is_published at) in
    let well = s.failed_failing ∙ ap is_failed_worker at in
    let (asked, queued) = s.ended (ap has_ended at) in
    let free = (s.requested_closed asked).2 in
    (
      sym (append-nil written)
          ∙ ap (λ w. taken w ++ []) (sym at)
          ∙ ap (λ l. taken m.worker ++ l) (sym (s.none_lost clean well))
          ∙ ap (λ w. taken m.worker ++ (commands_of w ++ s.lost)) (sym free)
          ∙ ap (λ q. taken m.worker ++ (q ++ (commands_of m.waiting ++ s.lost))) (sym queued)
          ∙ s.in_order well,
      clean,
    )

-- As long as the job is not flagged as incomplete, no command is lost: those that are written, held
-- by the worker, queued or waiting for room are, in this order, all the commands of the calls.
pub unflagged-issued :
    {settings : Settings} {issued : List Command} {m : Manager}
    → Reached settings issued m
    → is_flagged m.job ≡ false
    → taken m.worker ++ (m.queue ++ commands_of m.waiting) ≡ issued
unflagged-issued {issued = issued} {m = m} r whole =
    let s = Reached-IsSound r in
    let clean : m.capture_degraded ≡ false = elim (Bool-cases m.capture_degraded) [
      | inr no_gap ↦ no_gap
      | inl degraded ↦ let h = s.degraded_flagged degraded in absurd (ground (arith, h, whole))
    ] in
    let well : (view m).failing ≡ false = elim (Bool-cases (view m).failing) [
      | inr no_error ↦ no_error
      | inl fails ↦ let h = s.failed_flagged fails in absurd (ground (arith, h, whole))
    ] in
    ap (λ w. taken m.worker ++ (m.queue ++ w)) (sym (append-nil (commands_of m.waiting)))
    ∙ ap (λ l. taken m.worker ++ (m.queue ++ (commands_of m.waiting ++ l)))
        (sym (s.none_lost clean well))
    ∙ s.in_order well

-- The worker's steps in turn, as long as it does not wait.
unfoldable pub work : ℕ → Manager → Manager
work zero m = m
work (suc fuel) m = elim (worker_step m) [ none ↦ m | some n ↦ work fuel n ]

close_live-has_ended :
    (written : List Command) (m : Manager) → has_ended (close_live written m).worker ≡ true
unfolding close_live
close_live-has_ended written m =
    if-cases (λ (n : Manager). has_ended n.worker ≡ true) m.capture_degraded (λ _. refl) (λ _. refl)

work-step : (fuel : ℕ) (m n : Manager) → worker_step m ≡ some n → work (suc fuel) m ≡ work fuel n
unfolding work
work-step fuel m n e = rw (e, work) refl

work_zero : (m : Manager) → work 0 m ≡ m
unfolding work
work_zero m = refl

-- What the worker does with the queue `q`.
step_at :
    (q written : List Command) (m : Manager)
    → m.worker ≡ running written none
    → m.queue ≡ q
    → worker_step m ≡ take_command q written m
unfolding worker_step worker_next
step_at q written m at queued =
    ap (λ w. worker_next w m) at ∙ ap (λ l. take_command l written m) queued

-- Two steps for each command in the queue, and one for the end.
abbrev pub steps_for : List Command → ℕ
steps_for [] = 1
steps_for (c ∷ cs) = suc (suc (steps_for cs))

-- A worker that holds no command, once it is asked to end, ends after two steps for each command in
-- its queue and one more.
pub has_ended-work :
    (q written : List Command) (m : Manager)
    → m.worker ≡ running written none
    → m.queue ≡ q
    → m.finalize_requested ≡ true
    → has_ended (work (steps_for q) m).worker ≡ true
unfolding take_command worker_step worker_next
has_ended-work [] written m at queued asked =
    let e : worker_step m ≡ some (close_live written m) =
      step_at [] written m at queued
      ∙ if-cases (λ o. o ≡ some (close_live written m)) m.finalize_requested (λ _. refl)
          (λ idle. absurd (ground (arith, idle, asked))) in
    ap (λ (n : Manager). has_ended n.worker) (work-step 0 m (close_live written m) e ∙ work_zero _)
    ∙ close_live-has_ended written m
has_ended-work (c ∷ cs) written m at queued asked =
    let held = record m { queue = cs; worker = running written (some c) } in
    let done = record m { queue = cs; worker = running (written ++ (c ∷ [])) none } in
    ap (λ (n : Manager). has_ended n.worker)
      (work-step (suc (steps_for cs)) m held (step_at (c ∷ cs) written m at queued)
        ∙ work-step (steps_for cs) held done refl)
    ∙ has_ended-work cs (written ++ (c ∷ [])) done refl refl asked
