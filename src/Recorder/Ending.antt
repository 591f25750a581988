-- ===== src/Recorder/Ending.antt =====
-- Every step of src/commercialrchproxy/capture/recorder.py accounts for the commands.
use commercial_rchproxy.Common.{
  true, false, some, List, [], ◌∷◌, ◌++◌, Bytes, length, ltb, ltb→lt, ◌≡◌, refl, sym, ap, ◌∙◌,
  subst, inl, inr, Bool-cases, arith, append-nil, append_assoc, some-injective, length-append,
}
use commercial_rchproxy.Capture.Types.{live_spool_failure}
use commercial_rchproxy.Recorder.Types.{
  Command, Manager, Worker, not_started, starting, running, published, closed_incomplete, failed,
}
use commercial_rchproxy.Recorder.Manager.{any_error}
use commercial_rchproxy.Recorder.Worker.{
  record_storage_failure, worker_step, error_next, worker_error,
}
use commercial_rchproxy.Recorder.Steps.{
  commands_of, resume_put, Step, records, marks, resumes, closes, finalizes, works, fails,
}
use commercial_rchproxy.Recorder.Progress.{view, taken, has_ended, has_begun, IsSound}
use commercial_rchproxy.Recorder.Sound.{flag_partial-IsSound, is_flagged-flag_partial}
use commercial_rchproxy.Recorder.Calls.{
  record_chunk_event-IsSound, mark_drain-IsSound, close_manager-IsSound, finalize-IsSound,
}
use commercial_rchproxy.Recorder.Working.{worker_next-IsSound}

any_error-append : (errors : List Bytes) (e : Bytes) → any_error (errors ++ (e ∷ [])) ≡ true
any_error-append [] e = refl
any_error-append (x ∷ errors) e = refl

record_storage_failure-IsSound :
    {issued : List Command} (error : Bytes) (written : List Command) (m : Manager)
    → has_begun m.worker ≡ true
    → has_ended m.worker ≡ false
    → IsSound issued (view m)
    → IsSound issued (view (record_storage_failure error written m))
unfolding record_storage_failure
record_storage_failure-IsSound error written m begun going s =
    let reason = live_spool_failure error in
    let f = flag_partial-IsSound m reason s in
    let fails = any_error-append m.persist_errors error in
    let flag = is_flagged-flag_partial reason m.job ∙ s.begun_job begun in
    record {
      lost = f.lost;
      in_order = λ h. absurd (ground (arith, h, fails));
      none_lost = λ _ h. absurd (ground (arith, h, fails));
      bounded = f.bounded;
      degraded_flagged = λ _. flag;
      failed_flagged = λ _. flag;
      failed_failing = fails;
      publish_clean = λ h. ground (arith, h);
      ended = λ h. ground (arith, h);
      requested_closed = f.requested_closed;
      unstarted =
          λ c a. let h = ap has_begun (s.unstarted c a).0 in absurd (ground (arith, h, begun));
      active_job = f.active_job;
      no_job = f.no_job;
      begun_job = λ _. f.begun_job begun;
    }

error_next-IsSound :
    {issued : List Command} (w : Worker) (error : Bytes) (m n : Manager)
    → m.worker ≡ w
    → error_next w error m ≡ some n
    → IsSound issued (view m)
    → IsSound issued (view n)
unfolding error_next
error_next-IsSound not_started error m n at e s = absurd (ground (arith, e))
error_next-IsSound {issued = issued} starting error m n at e s =
    subst (λ k. IsSound issued (view k)) (some-injective _ _ e)
      (record_storage_failure-IsSound error [] m (ap has_begun at) (ap has_ended at) s)
error_next-IsSound {issued = issued} (running written held) error m n at e s =
    subst (λ k. IsSound issued (view k)) (some-injective _ _ e)
      (record_storage_failure-IsSound error written m (ap has_begun at) (ap has_ended at) s)
error_next-IsSound (published written) error m n at e s = absurd (ground (arith, e))
error_next-IsSound (closed_incomplete written) error m n at e s = absurd (ground (arith, e))
error_next-IsSound (failed written) error m n at e s = absurd (ground (arith, e))

-- A `put` that waited puts its command behind the queue.
resume_put-IsSound :
    {issued : List Command} (c : Command) (m : Manager)
    → m.waiting ≡ some c
    → ltb (length m.queue) m.settings.queue_items ≡ true
    → IsSound issued (view m)
    → IsSound issued (view (resume_put c m))
unfolding resume_put
resume_put-IsSound c m waits room s =
    let size = length-append m.queue (c ∷ []) in
    let busy : m.finalize_requested ≡ false = elim (Bool-cases m.finalize_requested) [
      | inr idle ↦ idle
      | inl asked ↦ absurd (ground (arith, (sym waits ∙ (s.requested_closed asked).2)))
    ] in
    record {
      lost = s.lost;
      in_order = λ h.
          ap (λ k. taken m.worker ++ k)
            (append_assoc m.queue (c ∷ []) s.lost
              ∙ ap (λ w. m.queue ++ (commands_of w ++ s.lost)) (sym waits))
          ∙ s.in_order h;
      none_lost = s.none_lost;
      bounded = let r = ltb→lt _ _ room in omega (arith, r, size);
      degraded_flagged = s.degraded_flagged;
      failed_flagged = s.failed_flagged;
      failed_failing = s.failed_failing;
      publish_clean = s.publish_clean;
      ended = λ h. let r = (s.ended h).0 in absurd (ground (arith, r, busy));
      requested_closed = λ r. absurd (ground (arith, r, busy));
      unstarted = s.unstarted;
      active_job = s.active_job;
      no_job = s.no_job;
      begun_job = s.begun_job;
    }

pub Step-IsSound :
    {issued : List Command} {m : Manager} {commands : List Command} {n : Manager}
    → IsSound issued (view m)
    → Step m commands n
    → IsSound (issued ++ commands) (view n)
unfolding worker_step worker_error
Step-IsSound {m = m} s (records clock d p received forwarded free) =
    record_chunk_event-IsSound clock d p received forwarded m free s
Step-IsSound {m = m} s (marks token completed at error free) =
    mark_drain-IsSound token completed at error m free s
Step-IsSound {issued = issued} {m = m} s (resumes c waits room) =
    rw (append-nil issued) (resume_put-IsSound c m waits room s)
Step-IsSound {issued = issued} {m = m} s closes = rw (append-nil issued) (close_manager-IsSound m s)
Step-IsSound {issued = issued} {m = m} s (finalizes now status shut free) =
    rw (append-nil issued) (finalize-IsSound now status m shut free s)
Step-IsSound {issued = issued} {m = m} {n = n} s (works e) =
    rw (append-nil issued) (worker_next-IsSound m.worker m n refl e s)
Step-IsSound {issued = issued} {m = m} {n = n} s (fails error e) =
    rw (append-nil issued) (error_next-IsSound m.worker error m n refl e s)
