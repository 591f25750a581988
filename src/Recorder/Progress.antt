-- ===== src/Recorder/Progress.antt =====
-- The commands of src/commercialrchproxy/capture/recorder.py on their way to the spool: nothing is
-- reordered or repeated, and what is lost is flagged.
use commercial_rchproxy.Common.{
  ℕ, ◌≤◌, ◌<◌, Bool, true, false, not, ◌&&◌, ◌||◌, Option, none, some, List, [], ◌∷◌, ◌++◌, length,
  ◌≡◌, refl, sym, ap, ◌∙◌, inl, inr, Bool-cases, arith, append-nil, append_assoc, length-append,
}
use commercial_rchproxy.Capture.Types.{CapturedJob}
use commercial_rchproxy.Recorder.Types.{
  Command, Manager, Worker, not_started, starting, running, published, closed_incomplete, failed,
}
use commercial_rchproxy.Recorder.Manager.{any_error}
use commercial_rchproxy.Recorder.Steps.{commands_of}

-- What the way of the commands depends on.
pub record View : Type 0 where
  pub capacity : ℕ
  pub queue : List Command
  pub waiting : Option Command
  pub worker : Worker
  pub degraded : Bool
  pub failing : Bool
  pub has_job : Bool
  pub flagged : Bool
  pub requested : Bool
  pub closed : Bool
  pub active : Bool

abbrev pub is_flagged : Option CapturedJob → Bool
is_flagged none = false
is_flagged (some j) = not j.capture_complete && not j.timeline_complete

abbrev pub is_some : Option CapturedJob → Bool
is_some none = false
is_some (some j) = true

abbrev pub view : Manager → View
view m = record {
  capacity = m.settings.queue_items;
  queue = m.queue;
  waiting = m.waiting;
  worker = m.worker;
  degraded = m.capture_degraded;
  failing = any_error m.persist_errors;
  has_job = is_some m.job;
  flagged = is_flagged m.job;
  requested = m.finalize_requested;
  closed = m.closed;
  active = m.active;
}

-- The commands that the worker has written, and the one that it holds.
abbrev pub taken : Worker → List Command
taken not_started = []
taken starting = []
taken (running written held) = written ++ commands_of held
taken (published written) = written
taken (closed_incomplete written) = written
taken (failed written) = written

abbrev pub is_failed_worker : Worker → Bool
is_failed_worker (failed written) = true
is_failed_worker _ = false

abbrev pub is_published : Worker → Bool
is_published (published written) = true
is_published _ = false

abbrev pub has_ended : Worker → Bool
has_ended (published written) = true
has_ended (closed_incomplete written) = true
has_ended _ = false

abbrev pub has_begun : Worker → Bool
has_begun not_started = false
has_begun _ = true

-- What holds of every manager that is reached, where `issued` are the commands of its steps: those
-- that are written, held, queued or wait for room are the first of them, in their order, until the
-- worker fails.
pub record IsSound (issued : List Command) (v : View) : Type 0 where
  pub lost : List Command
  pub in_order :
      v.failing ≡ false → taken v.worker ++ (v.queue ++ (commands_of v.waiting ++ lost)) ≡ issued
  pub none_lost : v.degraded ≡ false → v.failing ≡ false → lost ≡ []
  pub bounded : length v.queue ≤ v.capacity
  pub degraded_flagged : v.degraded ≡ true → v.flagged ≡ true
  pub failed_flagged : v.failing ≡ true → v.flagged ≡ true
  pub failed_failing : v.failing ≡ is_failed_worker v.worker
  pub publish_clean : is_published v.worker ≡ true → v.degraded ≡ false
  pub ended : has_ended v.worker ≡ true → (v.requested ≡ true) × (v.queue ≡ [])
  pub requested_closed :
      v.requested ≡ true → (v.closed ≡ true) × (v.active ≡ false) × (v.waiting ≡ none)
  pub unstarted :
      v.closed ≡ false → v.active ≡ false → (v.worker ≡ not_started) × (v.has_job ≡ false)
  pub active_job : v.active ≡ true → v.has_job ≡ true
  pub no_job : v.has_job ≡ false → v.flagged ≡ false
  pub begun_job : has_begun v.worker ≡ true → v.has_job ≡ true

-- One more command at the end of what is lost.
lose_last :
    (t q w l cs : List Command) → t ++ (q ++ (w ++ (l ++ cs))) ≡ (t ++ (q ++ (w ++ l))) ++ cs
lose_last t q w l cs =
    ap (λ k. t ++ (q ++ k)) (sym (append_assoc w l cs))
    ∙ ap (λ k. t ++ k) (sym (append_assoc q (w ++ l) cs))
    ∙ sym (append_assoc t (q ++ (w ++ l)) cs)

-- With nothing lost and no `put` waiting, what is issued is taken or queued.
queued_all :
    {issued : List Command} (t q l : List Command) (waiting : Option Command)
    → waiting ≡ none
    → l ≡ []
    → t ++ (q ++ (commands_of waiting ++ l)) ≡ issued
    → t ++ q ≡ issued
queued_all t q l waiting free nothing order =
    ap (λ k. t ++ k) (sym (append-nil q))
    ∙ ap (λ k. t ++ (q ++ k)) (sym nothing)
    ∙ ap (λ k. t ++ (q ++ (commands_of k ++ l))) (sym free)
    ∙ order

-- An active manager has not asked its worker to end.
pub active-not_requested :
    {issued : List Command} (v : View) → IsSound issued v → v.active ≡ true → v.requested ≡ false
active-not_requested v s on = elim (Bool-cases v.requested) [
  | inr idle ↦ idle
  | inl asked ↦ let h = s.requested_closed asked in ground (arith, h, on)
]

module _ {issued : List Command} (v : View) (s : IsSound issued v) (on : v.active ≡ true)
    (free : v.waiting ≡ none) (c : Command) where
  -- A command that finds room.
  pub push-IsSound :
      v.degraded ≡ false
      → v.failing ≡ false
      → length v.queue < v.capacity
      → IsSound (issued ++ (c ∷ [])) (record v { queue = v.queue ++ (c ∷ []) })
  push-IsSound clean well room =
      let size = length-append v.queue (c ∷ []) in
      let nothing = s.none_lost clean well in
      let order = s.in_order well in
      let idle = active-not_requested v s on in
      record {
        lost = [];
        in_order = λ _.
            ap (λ k. taken v.worker ++ ((v.queue ++ (c ∷ [])) ++ (commands_of k ++ []))) free
            ∙ ap (λ k. taken v.worker ++ k) (append-nil (v.queue ++ (c ∷ [])))
            ∙ sym (append_assoc (taken v.worker) v.queue (c ∷ []))
            ∙ ap (λ k. k ++ (c ∷ []))
                (queued_all (taken v.worker) v.queue s.lost v.waiting free nothing order);
        none_lost = λ _ _. refl;
        bounded = omega (arith, size, room);
        degraded_flagged = s.degraded_flagged;
        failed_flagged = s.failed_flagged;
        failed_failing = s.failed_failing;
        publish_clean = s.publish_clean;
        ended = λ e. let h = s.ended e in ground (arith, h, idle);
        requested_closed = s.requested_closed;
        unstarted = s.unstarted;
        active_job = s.active_job;
        no_job = s.no_job;
        begun_job = s.begun_job;
      }

  -- A command that waits for room.
  pub wait-IsSound :
      v.degraded ≡ false
      → v.failing ≡ false
      → IsSound (issued ++ (c ∷ [])) (record v { waiting = some c })
  wait-IsSound clean well =
      let nothing = s.none_lost clean well in
      let order = s.in_order well in
      let idle = active-not_requested v s on in
      record {
        lost = [];
        in_order = λ _.
            sym (append_assoc (taken v.worker) v.queue (c ∷ []))
            ∙ ap (λ k. k ++ (c ∷ []))
                (queued_all (taken v.worker) v.queue s.lost v.waiting free nothing order);
        none_lost = λ _ _. refl;
        bounded = s.bounded;
        degraded_flagged = s.degraded_flagged;
        failed_flagged = s.failed_flagged;
        failed_failing = s.failed_failing;
        publish_clean = s.publish_clean;
        ended = s.ended;
        requested_closed = λ r. ground (arith, r, idle);
        unstarted = s.unstarted;
        active_job = s.active_job;
        no_job = s.no_job;
        begun_job = s.begun_job;
      }

  -- A command that a degraded or failed capture drops.
  pub lose-IsSound : (v.failing || v.degraded) ≡ true → IsSound (issued ++ (c ∷ [])) v
  lose-IsSound dropping = record {
    lost = s.lost ++ (c ∷ []);
    in_order = λ well.
        lose_last (taken v.worker) v.queue (commands_of v.waiting) s.lost (c ∷ [])
        ∙ ap (λ k. k ++ (c ∷ [])) (s.in_order well);
    none_lost = λ clean well. ground (arith, dropping, clean, well);
    bounded = s.bounded;
    degraded_flagged = s.degraded_flagged;
    failed_flagged = s.failed_flagged;
    failed_failing = s.failed_failing;
    publish_clean = s.publish_clean;
    ended = s.ended;
    requested_closed = s.requested_closed;
    unstarted = s.unstarted;
    active_job = s.active_job;
    no_job = s.no_job;
    begun_job = s.begun_job;
  }
