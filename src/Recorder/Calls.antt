-- ===== src/Recorder/Calls.antt =====
-- The session's calls of src/commercialrchproxy/capture/recorder.py account for their commands.
use commercial_rchproxy.Common.{
  ℕ, Bool, true, false, ◌&&◌, Option, none, some, List, [], ◌∷◌, ◌++◌, Bytes, ◌≡◌, refl, sym, ap,
  ◌∙◌, subst, inl, inr, Bool-cases, if-cases, Option-cases, arith, append-nil,
}
use commercial_rchproxy.Capture.Types.{
  Direction, client_to_rch, rch_to_client, CaptureToken, CapturedJob, Clock,
}
use commercial_rchproxy.Capture.Jobs.{mark_local_write_drain, finish_job}
use commercial_rchproxy.Recorder.Types.{Command, Manager}
use commercial_rchproxy.Recorder.Manager.{
  Called, any_error, is_abort, on_job, submit_some, ensure_job, ensure_with, make_job,
  observe_chunk, advance_offset, record_chunk_event, mark_active, mark_drain, is_job, drain_command,
  close_manager, finalize,
}
use commercial_rchproxy.Recorder.Steps.{commands_of}
use commercial_rchproxy.Recorder.Progress.{
  view, is_flagged, is_some, taken, is_failed_worker, IsSound,
}
use commercial_rchproxy.Recorder.Sound.{is_some-on_job, job-IsSound, submit-IsSound}
use commercial_rchproxy.Recorder.Flags.{
  Flagged, append-Flagged, mark_local_write_drain-Flagged, finish_job-Flagged,
}

-- The first `record` finds no job and makes one; a later one finds the job active.
record Ensured (issued : List Command) (m : Manager) (r : CapturedJob × Manager) : Type 0 where
  sound : IsSound issued (view r.1)
  is_active : r.1.active ≡ true
  free : r.1.waiting ≡ m.waiting
  has_job : r.1.job ≡ some r.0

make_job-Ensured :
    {issued : List Command} (received : ℕ) (m : Manager)
    → m.closed ≡ false
    → m.active ≡ false
    → IsSound issued (view m)
    → Ensured issued m (make_job received m)
unfolding make_job
make_job-Ensured received m opened off s =
    let h = s.unstarted opened off in
    let idle : m.finalize_requested ≡ false = elim (Bool-cases m.finalize_requested) [
      | inr none_asked ↦ none_asked
      | inl asked ↦ let r = s.requested_closed asked in ground (arith, r, opened)
    ] in
    record {
      sound = record {
        lost = s.lost;
        in_order = λ well.
            ap (λ w. taken w ++ (m.queue ++ (commands_of m.waiting ++ s.lost))) (sym h.0)
            ∙ s.in_order well;
        none_lost = s.none_lost;
        bounded = s.bounded;
        degraded_flagged = λ e. sym (s.no_job h.1) ∙ s.degraded_flagged e;
        failed_flagged = λ e. sym (s.no_job h.1) ∙ s.failed_flagged e;
        failed_failing = s.failed_failing ∙ ap is_failed_worker h.0;
        publish_clean = λ p. ground (arith, p);
        ended = λ p. ground (arith, p);
        requested_closed = λ r. ground (arith, r, idle);
        unstarted = λ c a. ground (arith, a);
        active_job = λ _. refl;
        no_job = λ p. ground (arith, p);
        begun_job = λ _. refl;
      };
      is_active = refl;
      free = refl;
      has_job = refl;
    }

ensure_job-Ensured :
    {issued : List Command} (received : ℕ) (m : Manager)
    → m.closed ≡ false
    → IsSound issued (view m)
    → Ensured issued m (ensure_job received m)
unfolding ensure_job ensure_with
ensure_job-Ensured {issued = issued} received m opened s =
    let at_job : Option CapturedJob → Type 0 = λ o. Ensured issued m (ensure_with o received m) in
    elim (Bool-cases m.active) [
      | inr off ↦
          let fresh = make_job-Ensured received m opened off s in
          elim (Option-cases m.job) [
            | inl none_yet ↦ subst at_job (sym none_yet) fresh
            | inr (j, e) ↦ subst at_job (sym e) (simp off fresh)
          ]
      | inl on ↦ elim (Option-cases m.job) [
        | inl none_yet ↦ let h = s.active_job on in absurd (ground (arith, h, none_yet))
        | inr (j, e) ↦
            subst at_job (sym e)
              (simp on (record { sound = s; is_active = on; free = refl; has_job = e }))
      ]
    ]

-- The state after the job has taken a chunk, before the command is submitted.
record Observed (issued : List Command) (m k : Manager) : Type 0 where
  sound : IsSound issued (view k)
  is_active : k.active ≡ true
  free : k.waiting ≡ m.waiting

observe_chunk-Observed :
    {issued : List Command} (clock : Clock) (d : Direction) (p : Bytes) (received : ℕ)
    (forwarded : Option ℕ) (j : CapturedJob) (m : Manager)
    → m.job ≡ some j
    → m.active ≡ true
    → IsSound issued (view m)
    → Observed issued m (observe_chunk clock d p received forwarded j m).2
unfolding observe_chunk advance_offset
observe_chunk-Observed clock client_to_rch p received forwarded j m e on s = record {
  sound =
      job-IsSound (view m) _ true (sym (ap is_some e))
        (λ f. append-Flagged clock client_to_rch p _ j (sym (ap is_flagged e) ∙ f))
        (λ f. ground (arith, f)) s;
  is_active = on;
  free = refl;
}
observe_chunk-Observed clock rch_to_client p received forwarded j m e on s = record {
  sound =
      job-IsSound (view m) _ true (sym (ap is_some e))
        (λ f. append-Flagged clock rch_to_client p _ j (sym (ap is_flagged e) ∙ f))
        (λ f. ground (arith, f)) s;
  is_active = on;
  free = refl;
}

-- The invariant after a call, with the command of the call.
abbrev pub IsCalled : List Command → Called → Type 0
IsCalled issued r = IsSound (issued ++ commands_of r.1) (view r.2)

pub record_chunk_event-IsSound :
    {issued : List Command} (clock : Clock) (d : Direction) (p : Bytes) (received : ℕ)
    (forwarded : Option ℕ) (m : Manager)
    → m.waiting ≡ none
    → IsSound issued (view m)
    → (let r = record_chunk_event clock d p received forwarded m in
        IsSound (issued ++ commands_of r.1) (view r.2))
unfolding record_chunk_event
record_chunk_event-IsSound {issued = issued} clock d [] received forwarded m free s =
    rw (append-nil issued) s
record_chunk_event-IsSound {issued = issued} clock d (b ∷ p) received forwarded m free s =
    if-cases (IsCalled issued) m.closed (λ shut. rw (append-nil issued) s)
      (λ opened.
        let (j, n) = ensure_job received m in
        let e = ensure_job-Ensured received m opened s in
        if-cases (IsCalled issued) (any_error n.persist_errors && is_abort n.settings.policy)
          (λ aborts. rw (append-nil issued) e.sound)
          (λ goes_on.
            let k = (observe_chunk clock d (b ∷ p) received forwarded j n).2 in
            let o =
              observe_chunk-Observed clock d (b ∷ p) received forwarded j n e.has_job e.is_active
                e.sound in
            submit-IsSound (observe_chunk clock d (b ∷ p) received forwarded j n).1 k o.is_active
              (o.free ∙ (e.free ∙ free)) o.sound))

on_job-Flagged :
    (f : CapturedJob → CapturedJob) (j : Option CapturedJob)
    → ((k : CapturedJob) → Flagged k → Flagged (f k))
    → is_flagged j ≡ true
    → is_flagged (on_job f j) ≡ true
on_job-Flagged f none keeps h = h
on_job-Flagged f (some j) keeps h = keeps j h

is_flagged-on_job_none :
    (f : CapturedJob → CapturedJob) (j : Option CapturedJob)
    → is_some (on_job f j) ≡ false
    → is_flagged (on_job f j) ≡ false
is_flagged-on_job_none f none h = refl
is_flagged-on_job_none f (some j) h = ground (arith, h)

on_job-IsSound :
    {issued : List Command} (f : CapturedJob → CapturedJob) (m : Manager)
    → ((k : CapturedJob) → Flagged k → Flagged (f k))
    → IsSound issued (view m)
    → IsSound issued (view (record m { job = on_job f m.job }))
on_job-IsSound f m keeps s =
    job-IsSound (view m) (is_flagged (on_job f m.job)) (is_some (on_job f m.job))
      (is_some-on_job f m.job) (on_job-Flagged f m.job keeps) (is_flagged-on_job_none f m.job) s

submit_some-IsSound :
    {issued : List Command} (c : Option Command) (m : Manager)
    → m.active ≡ true
    → m.waiting ≡ none
    → IsSound issued (view m)
    → IsSound (issued ++ commands_of c) (view (submit_some c m))
unfolding submit_some
submit_some-IsSound {issued = issued} none m on free s = rw (append-nil issued) s
submit_some-IsSound (some c) m on free s = submit-IsSound c m on free s

pub mark_drain-IsSound :
    {issued : List Command} (token : CaptureToken) (completed : Bool) (at : ℕ)
    (error : Option Bytes) (m : Manager)
    → m.waiting ≡ none
    → IsSound issued (view m)
    → (let r = mark_drain token completed at error m in
        IsSound (issued ++ commands_of r.1) (view r.2))
unfolding mark_drain mark_active
mark_drain-IsSound {issued = issued} token completed at error m free s =
    if-cases (IsCalled issued) (m.active && is_job token.job_id m.job)
      (λ this.
        let f = mark_local_write_drain token completed (some at) error in
        let marked =
          on_job-IsSound f m
            (λ k h. mark_local_write_drain-Flagged token completed (some at) error k h) s in
        submit_some-IsSound (drain_command token completed at error)
          (record m { job = on_job f m.job }) (ground (arith, this)) free marked)
      (λ other. rw (append-nil issued) s)

pub close_manager-IsSound :
    {issued : List Command} (m : Manager)
    → IsSound issued (view m)
    → IsSound issued (view (close_manager m))
unfolding close_manager
close_manager-IsSound m s = record {
  lost = s.lost;
  in_order = s.in_order;
  none_lost = s.none_lost;
  bounded = s.bounded;
  degraded_flagged = s.degraded_flagged;
  failed_flagged = s.failed_flagged;
  failed_failing = s.failed_failing;
  publish_clean = s.publish_clean;
  ended = s.ended;
  requested_closed = λ r. let h = s.requested_closed r in (refl, h.1, h.2);
  unstarted = λ c. ground (arith, c);
  active_job = s.active_job;
  no_job = s.no_job;
  begun_job = s.begun_job;
}

pub finalize-IsSound :
    {issued : List Command} (now : Bytes) (status : Option Bytes) (m : Manager)
    → m.closed ≡ true
    → m.waiting ≡ none
    → IsSound issued (view m)
    → IsSound issued (view (finalize now status m))
unfolding finalize
finalize-IsSound {issued = issued} now status m shut free s =
    if-cases (λ n. IsSound issued (view n)) m.active
      (λ on.
        let f =
          on_job-IsSound (finish_job now status) m (λ k h. finish_job-Flagged now status k h) s in
        record {
          lost = f.lost;
          in_order = f.in_order;
          none_lost = f.none_lost;
          bounded = f.bounded;
          degraded_flagged = f.degraded_flagged;
          failed_flagged = f.failed_flagged;
          failed_failing = f.failed_failing;
          publish_clean = f.publish_clean;
          ended = λ e. (refl, (f.ended e).1);
          requested_closed = λ r. (shut, refl, free);
          unstarted = λ c. ground (arith, c, shut);
          active_job = λ a. ground (arith, a);
          no_job = f.no_job;
          begun_job = f.begun_job;
        })
      (λ off. s)
