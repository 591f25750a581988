-- ===== src/Recorder/Sound.antt =====
-- The job and the worker of src/commercialrchproxy/capture/recorder.py change, and commands that are
-- issued are still accounted for.
use commercial_rchproxy.Common.{
  Bool, true, false, ◌||◌, Option, none, some, List, [], ◌∷◌, ◌++◌, length, ltb, ◌≡◌, refl, sym,
  ◌∙◌, inl, inr, Bool-cases, arith, ltb→lt,
}
use commercial_rchproxy.Capture.Types.{CapturedJob, Reason, queue_exhausted}
use commercial_rchproxy.Recorder.Types.{
  Command, Manager, Worker, not_started, starting, running, published, closed_incomplete, failed,
}
use commercial_rchproxy.Recorder.Manager.{
  submit, enqueue_stream, mark_capture_degraded, any_error, is_abort, flag_partial, on_job,
}
use commercial_rchproxy.Recorder.Progress.{
  View, view, is_flagged, is_some, is_published, has_ended, IsSound, active-not_requested,
  push-IsSound, wait-IsSound, lose-IsSound,
}

-- The job changes, and a job that is flagged stays so.
pub job-IsSound :
    {issued : List Command} (v : View) (flagged has_job : Bool)
    → has_job ≡ v.has_job
    → (v.flagged ≡ true → flagged ≡ true)
    → (has_job ≡ false → flagged ≡ false)
    → IsSound issued v
    → IsSound issued (record v { flagged = flagged; has_job = has_job })
job-IsSound v flagged has_job same keeps without s = record {
  lost = s.lost;
  in_order = s.in_order;
  none_lost = s.none_lost;
  bounded = s.bounded;
  degraded_flagged = λ d. keeps (s.degraded_flagged d);
  failed_flagged = λ d. keeps (s.failed_flagged d);
  failed_failing = s.failed_failing;
  publish_clean = s.publish_clean;
  ended = s.ended;
  requested_closed = s.requested_closed;
  unstarted = λ c a. let h = s.unstarted c a in (h.0, same ∙ h.1);
  active_job = λ a. same ∙ s.active_job a;
  no_job = without;
  begun_job = λ b. same ∙ s.begun_job b;
}

is_published-has_ended : (w : Worker) → is_published w ≡ true → has_ended w ≡ true
is_published-has_ended not_started h = ground (arith, h)
is_published-has_ended starting h = ground (arith, h)
is_published-has_ended (running written held) h = ground (arith, h)
is_published-has_ended (published written) h = refl
is_published-has_ended (closed_incomplete written) h = refl
is_published-has_ended (failed written) h = ground (arith, h)

-- A capture becomes degraded while the manager is active, and its job is flagged.
pub degrade-IsSound :
    {issued : List Command} (v : View)
    → v.active ≡ true
    → v.flagged ≡ true
    → IsSound issued v
    → IsSound issued (record v { degraded = true })
degrade-IsSound v on flag s =
    let idle = active-not_requested v s on in
    record {
      lost = s.lost;
      in_order = s.in_order;
      none_lost = λ d. ground (arith, d);
      bounded = s.bounded;
      degraded_flagged = λ d. flag;
      failed_flagged = s.failed_flagged;
      failed_failing = s.failed_failing;
      publish_clean =
          λ p. let e = s.ended (is_published-has_ended v.worker p) in ground (arith, e, idle);
      ended = s.ended;
      requested_closed = s.requested_closed;
      unstarted = s.unstarted;
      active_job = s.active_job;
      no_job = s.no_job;
      begun_job = s.begun_job;
    }

pub is_some-on_job :
    (f : CapturedJob → CapturedJob) (j : Option CapturedJob) → is_some (on_job f j) ≡ is_some j
is_some-on_job f none = refl
is_some-on_job f (some j) = refl

pub is_flagged-flag_partial :
    (r : Reason) (j : Option CapturedJob) → is_flagged (on_job (flag_partial r) j) ≡ is_some j
is_flagged-flag_partial r none = refl
is_flagged-flag_partial r (some j) = refl

is_flagged-none : (j : Option CapturedJob) → is_some j ≡ false → is_flagged j ≡ false
is_flagged-none none h = refl
is_flagged-none (some j) h = ground (arith, h)

is_flagged-some : (j : Option CapturedJob) → is_flagged j ≡ true → is_some j ≡ true
is_flagged-some none h = h
is_flagged-some (some j) h = refl

pub flag_partial-IsSound :
    {issued : List Command} (m : Manager) (r : Reason)
    → IsSound issued (view m)
    → IsSound issued (view (record m { job = on_job (flag_partial r) m.job }))
flag_partial-IsSound m r s =
    let same = is_some-on_job (flag_partial r) m.job in
    let flags = is_flagged-flag_partial r m.job in
    job-IsSound (view m) (is_flagged (on_job (flag_partial r) m.job))
      (is_some (on_job (flag_partial r) m.job)) same (λ f. flags ∙ is_flagged-some m.job f)
      (λ h. flags ∙ (sym same ∙ h)) s

mark_capture_degraded-IsSound :
    {issued : List Command} (c : Command) (m : Manager)
    → m.active ≡ true
    → m.waiting ≡ none
    → m.capture_degraded ≡ false
    → IsSound issued (view m)
    → IsSound (issued ++ (c ∷ [])) (view (mark_capture_degraded m))
unfolding mark_capture_degraded
mark_capture_degraded-IsSound c m on free clean s =
    let k = record m { job = on_job (flag_partial queue_exhausted) m.job } in
    let flag = is_flagged-flag_partial queue_exhausted m.job ∙ s.active_job on in
    let degraded = degrade-IsSound (view k) on flag (flag_partial-IsSound m queue_exhausted s) in
    simp clean
      (lose-IsSound (record (view k) { degraded = true }) degraded on free c (ground arith))

-- Whatever becomes of it, a command that is submitted is issued.
pub submit-IsSound :
    {issued : List Command} (c : Command) (m : Manager)
    → m.active ≡ true
    → m.waiting ≡ none
    → IsSound issued (view m)
    → IsSound (issued ++ (c ∷ [])) (view (submit c m))
unfolding submit enqueue_stream
submit-IsSound c m on free s =
    elim (Bool-cases (any_error m.persist_errors || m.capture_degraded)) [
      | inl dropped ↦ simp dropped (lose-IsSound (view m) s on free c dropped)
      | inr kept ↦
          let clean : m.capture_degraded ≡ false = ground (arith, kept) in
          let well : any_error m.persist_errors ≡ false = ground (arith, kept) in
          elim (Bool-cases (ltb (length m.queue) m.settings.queue_items)) [
            | inl room ↦
                simp (kept, room) (push-IsSound (view m) s on free c clean well (ltb→lt _ _ room))
            | inr full ↦ elim (Bool-cases (is_abort m.settings.policy)) [
              | inl waits ↦ simp (kept, full, waits) (wait-IsSound (view m) s on free c clean well)
              | inr drops ↦
                  simp (kept, full, drops) (mark_capture_degraded-IsSound c m on free clean s)
            ]
          ]
    ]
