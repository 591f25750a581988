-- ===== src/Recorder/Blocking.antt =====
-- src/commercialrchproxy/capture/recorder.py: a `put` that waits for a worker that has failed.
use commercial_rchproxy.Common.{
  true, false, Option, none, some, List, Bytes, length, ltb, ◌≡◌, sym, ap, ◌∙◌, arith,
}
use commercial_rchproxy.Recorder.Types.{Command, Manager, Worker, failed}
use commercial_rchproxy.Recorder.Manager.{close_manager}
use commercial_rchproxy.Recorder.Worker.{worker_step, worker_next, worker_error, error_next}
use commercial_rchproxy.Recorder.Steps.{
  Step, records, marks, resumes, closes, finalizes, works, fails,
}

-- A caller waits for room in a full queue whose worker has failed.
pub record IsBlocked (c : Command) (m : Manager) : Type 0 where
  pub waits : m.waiting ≡ some c
  pub is_full : ltb (length m.queue) m.settings.queue_items ≡ false
  pub written : List Command
  pub has_failed : m.worker ≡ failed written

-- Any number of steps.
pub data Later : Manager → Manager → Type 0 where
  here : {m : Manager} → Later m m
  after : {m n k : Manager} {commands : List Command} → Step m commands n → Later n k → Later m k

failed_next :
    (w : Worker) (m n : Manager) (written : List Command)
    → w ≡ failed written
    → worker_next w m ≡ some n
    → false ≡ true
unfolding worker_next
failed_next w m n written at e =
    let e' : none ≡ some n = ap (λ v. worker_next v m) (sym at) ∙ e in ground (arith, e')

failed_error :
    (w : Worker) (error : Bytes) (m n : Manager) (written : List Command)
    → w ≡ failed written
    → error_next w error m ≡ some n
    → false ≡ true
unfolding error_next
failed_error w error m n written at e =
    let e' : none ≡ some n = ap (λ v. error_next v error m) (sym at) ∙ e in ground (arith, e')

-- A caller that waits holds the lock.
waits-not_free : {c : Command} {w : Option Command} → w ≡ some c → w ≡ none → false ≡ true
waits-not_free waits free = let e = sym waits ∙ free in ground (arith, e)

Step-IsBlocked :
    {c : Command} {m : Manager} {commands : List Command} {n : Manager}
    → IsBlocked c m
    → Step m commands n
    → IsBlocked c n
unfolding worker_step worker_error close_manager
Step-IsBlocked b (records clock d p received forwarded free) =
    absurd (ground (arith, (waits-not_free b.waits free)))
Step-IsBlocked b (marks token completed at error free) =
    absurd (ground (arith, (waits-not_free b.waits free)))
Step-IsBlocked b (resumes c waits room) = absurd (ground (arith, (sym b.is_full ∙ room)))
Step-IsBlocked b closes = record {
  waits = b.waits;
  is_full = b.is_full;
  written = b.written;
  has_failed = b.has_failed;
}
Step-IsBlocked b (finalizes now status shut free) =
    absurd (ground (arith, (waits-not_free b.waits free)))
Step-IsBlocked {m = m} {n = n} b (works e) =
    absurd (ground (arith, (failed_next m.worker m n b.written b.has_failed e)))
Step-IsBlocked {m = m} {n = n} b (fails error e) =
    absurd (ground (arith, (failed_error m.worker error m n b.written b.has_failed e)))

-- Once the worker has failed, a caller that waits for room in the full queue still waits after any
-- number of further steps, with the worker failed and the queue full: no step of the session's calls
-- or of the worker ends its wait, and it holds the lock.
pub Later-IsBlocked : {c : Command} {m n : Manager} → IsBlocked c m → Later m n → IsBlocked c n
Later-IsBlocked b here = b
Later-IsBlocked b (after s l) = Later-IsBlocked (Step-IsBlocked b s) l
