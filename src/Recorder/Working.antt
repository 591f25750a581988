-- ===== src/Recorder/Working.antt =====
-- The steps of the live worker of src/commercialrchproxy/capture/recorder.py that do not fail.
use commercial_rchproxy.Common.{
  ◌≤◌, true, false, Option, none, some, List, [], ◌∷◌, ◌++◌, length, ◌≡◌, refl, sym, ap, ◌∙◌, subst,
  if-cases, arith, append-nil, append_assoc, some-injective,
}
use commercial_rchproxy.Recorder.Types.{
  Command, Manager, Worker, not_started, starting, running, published, closed_incomplete, failed,
}
use commercial_rchproxy.Recorder.Worker.{close_live, take_command, worker_next}
use commercial_rchproxy.Recorder.Steps.{commands_of}
use commercial_rchproxy.Recorder.Progress.{
  view, taken, is_failed_worker, is_published, has_ended, has_begun, IsSound,
}

-- The worker moves on, and the commands that it has taken or that are queued stay the same.
moved-IsSound :
    {issued : List Command} (m : Manager) (w : Worker) (q : List Command)
    → is_failed_worker w ≡ false
    → is_failed_worker m.worker ≡ false
    → taken w ++ q ≡ taken m.worker ++ m.queue
    → length q ≤ length m.queue
    → (is_published w ≡ true → m.capture_degraded ≡ false)
    → (has_ended w ≡ true → (m.finalize_requested ≡ true) × (q ≡ []))
    → has_begun m.worker ≡ true
    → IsSound issued (view m)
    → IsSound issued (view (record m { worker = w; queue = q }))
moved-IsSound m w q well was_well same size clean ended begun s = record {
  lost = s.lost;
  in_order = λ h.
      sym (append_assoc (taken w) q (commands_of m.waiting ++ s.lost))
      ∙ ap (λ k. k ++ (commands_of m.waiting ++ s.lost)) same
      ∙ append_assoc (taken m.worker) m.queue (commands_of m.waiting ++ s.lost)
      ∙ s.in_order h;
  none_lost = s.none_lost;
  bounded = let b = s.bounded in omega (arith, b, size);
  degraded_flagged = s.degraded_flagged;
  failed_flagged = s.failed_flagged;
  failed_failing = s.failed_failing ∙ was_well ∙ sym well;
  publish_clean = clean;
  ended = ended;
  requested_closed = s.requested_closed;
  unstarted = λ c a. let h = ap has_begun (s.unstarted c a).0 in absurd (ground (arith, h, begun));
  active_job = s.active_job;
  no_job = s.no_job;
  begun_job = λ _. s.begun_job begun;
}

close_live-IsSound :
    {issued : List Command} (written : List Command) (m : Manager)
    → m.queue ≡ []
    → m.finalize_requested ≡ true
    → m.worker ≡ running written none
    → written ++ m.queue ≡ taken m.worker ++ m.queue
    → IsSound issued (view m)
    → IsSound issued (view (close_live written m))
unfolding close_live
close_live-IsSound {issued = issued} written m queued asked at same s =
    if-cases (λ k. IsSound issued (view k)) m.capture_degraded
      (λ degraded.
        moved-IsSound m (closed_incomplete written) m.queue refl (ap is_failed_worker at) same
          (omega arith) (λ h. ground (arith, h)) (λ h. (asked, queued)) (ap has_begun at) s)
      (λ clean.
        moved-IsSound m (published written) m.queue refl (ap is_failed_worker at) same (omega arith)
          (λ h. clean) (λ h. (asked, queued)) (ap has_begun at) s)

take_command-IsSound :
    {issued : List Command} (q written : List Command) (m n : Manager)
    → m.queue ≡ q
    → m.worker ≡ running written none
    → take_command q written m ≡ some n
    → IsSound issued (view m)
    → IsSound issued (view n)
unfolding take_command
take_command-IsSound {issued = issued} (c ∷ cs) written m n queued at e s =
    let same : (written ++ (c ∷ [])) ++ cs ≡ taken m.worker ++ m.queue =
      append_assoc written (c ∷ []) cs
      ∙ ap (λ k. k ++ (c ∷ cs)) (sym (append-nil written))
      ∙ ap (λ w. taken w ++ (c ∷ cs)) (sym at)
      ∙ ap (λ q. taken m.worker ++ q) (sym queued) in
    let size = ap length queued in
    subst (λ k. IsSound issued (view k)) (some-injective _ _ e)
      (moved-IsSound m (running written (some c)) cs refl (ap is_failed_worker at) same
        (omega (arith, size)) (λ h. ground (arith, h)) (λ h. ground (arith, h)) (ap has_begun at) s)
take_command-IsSound {issued = issued} [] written m n queued at e s =
    let same : written ++ m.queue ≡ taken m.worker ++ m.queue =
      ap (λ k. k ++ m.queue) (sym (ap taken at ∙ append-nil written)) in
    let ends : Option Manager → Type 0 = λ o. o ≡ some n → IsSound issued (view n) in
    if-cases ends m.finalize_requested
      (λ asked h.
        subst (λ k. IsSound issued (view k)) (some-injective _ _ h)
          (close_live-IsSound written m queued asked at same s))
      (λ goes_on h. absurd (ground (arith, h))) e

pub worker_next-IsSound :
    {issued : List Command} (w : Worker) (m n : Manager)
    → m.worker ≡ w
    → worker_next w m ≡ some n
    → IsSound issued (view m)
    → IsSound issued (view n)
unfolding worker_next
worker_next-IsSound not_started m n at e s = absurd (ground (arith, e))
worker_next-IsSound {issued = issued} starting m n at e s =
    subst (λ k. IsSound issued (view k)) (some-injective _ _ e)
      (moved-IsSound m (running [] none) m.queue refl (ap is_failed_worker at)
        (ap (λ w. taken w ++ m.queue) (sym at)) (omega arith) (λ h. ground (arith, h))
        (λ h. ground (arith, h)) (ap has_begun at) s)
worker_next-IsSound {issued = issued} (running written (some c)) m n at e s =
    subst (λ k. IsSound issued (view k)) (some-injective _ _ e)
      (moved-IsSound m (running (written ++ (c ∷ [])) none) m.queue refl (ap is_failed_worker at)
        (ap (λ k. k ++ m.queue) (append-nil (written ++ (c ∷ [])) ∙ sym (ap taken at)))
        (omega arith) (λ h. ground (arith, h)) (λ h. ground (arith, h)) (ap has_begun at) s)
worker_next-IsSound (running written none) m n at e s =
    take_command-IsSound m.queue written m n refl at e s
worker_next-IsSound (published written) m n at e s = absurd (ground (arith, e))
worker_next-IsSound (closed_incomplete written) m n at e s = absurd (ground (arith, e))
worker_next-IsSound (failed written) m n at e s = absurd (ground (arith, e))
