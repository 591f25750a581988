-- ===== src/Parser/Workers.antt =====
-- src/commercialrchproxy/parser/worker.py: `process_job` of several workers on one job, as the steps
-- that hold the lock and those between them.
use commercial_rchproxy.Common.{
  ℕ, ◌+◌, Bool, true, false, none, some, List, [], ◌∷◌, ◌==◌, if◌then◌else◌,
}
use commercial_rchproxy.Parser.Job.{
  absent, no_attempts, Outputs, JobDir, Trace, state_at, Settings, claimed, busy, already_parsed,
  parse_failed, claim_error, done, raised, claim_job, refresh_claim, release_claim,
  record_failure_if_owned, find_staging, without_staging,
}
use commercial_rchproxy.Parser.Commit.{CommitFaults, Prepared, commit_success}

-- Where a worker is in `process_job`; `over` is also a worker that was killed.
pub data Phase : Type 0 where
  idle working failing ending over : Phase
  prepared : Prepared → Phase

-- The job with its workers; a token names one, and tokens from `next_token` on are not given out,
-- as a UUID is not given out twice.
pub record System : Type 0 where
  pub dir : JobDir
  pub now : ℕ
  pub next_token : ℕ
  pub phase : ℕ → Phase

pub data WorkerAction : Type 0 where
  wait : ℕ → WorkerAction
  -- `_claim_job`, by a worker that is forced or not
  claim : (force : Bool) → WorkerAction
  -- the heartbeat of a worker, while it runs
  heartbeat : (token : ℕ) → WorkerAction
  -- `mkdir` and `_write_documents`
  prepare : (token : ℕ) → Outputs → WorkerAction
  commit : CommitFaults → (token : ℕ) → WorkerAction
  -- an exception before the commit
  fail : (token : ℕ) → WorkerAction
  -- `_record_failure_if_owned` in the handler
  report : (token : ℕ) → WorkerAction
  -- the `finally` block
  finish : (token : ℕ) → WorkerAction
  -- the worker is killed between its steps, or after some durable steps of the claim, of the commit,
  -- of the report of a failure or of the `finally` block
  kill : (token : ℕ) → WorkerAction
  kill_claiming : (force : Bool) → (steps : ℕ) → WorkerAction
  kill_committing : CommitFaults → (token steps : ℕ) → WorkerAction
  kill_reporting : (token steps : ℕ) → WorkerAction
  kill_finishing : (token steps : ℕ) → WorkerAction

abbrev pub set_phase : ℕ → Phase → System → System
set_phase token p s = record s { phase = λ t. if t == token then p else s.phase t }

-- `token, state = _claim_job(...)`
unfoldable pub act_claim : Settings → Bool → System → System
unfolding claim_job
act_claim settings force s =
    let (result, d) = (claim_job settings force s.now s.next_token s.dir).1 in
    let begun = record (set_phase s.next_token working s) {
      dir = d;
      next_token = s.next_token + 1;
    } in
    elim result [
      | claimed ↦ begun
      | busy ↦ record s { dir = d }
      | already_parsed ↦ record s { dir = d }
      | parse_failed ↦ record s { dir = d }
      | claim_error why ↦ record s { dir = d }
    ]

-- A failed refresh stops the heartbeat, and nothing else.
unfoldable pub act_heartbeat : ℕ → System → System
unfolding refresh_claim
act_heartbeat token s = elim (refresh_claim s.now token s.dir) [
  | done d ↦ record s { dir = d }
  | raised why d ↦ s
]

abbrev pub add_staging : ℕ → Outputs → JobDir → JobDir
add_staging token o d = record d { stagings = record { token = token; outputs = o } ∷ d.stagings }

abbrev pub prepared_of : Outputs → Phase
prepared_of o =
    prepared (record { document_count = o.document_count; metadata_hash = o.metadata_hash })

-- The refresh, and the documents in a directory that must be new.
unfoldable pub act_prepare : ℕ → Outputs → System → System
unfolding refresh_claim
act_prepare token o s = elim (refresh_claim s.now token s.dir) [
  | raised why d ↦ set_phase token failing s
  | done d ↦ elim (find_staging token d.stagings) [
    | some old ↦ set_phase token failing (record s { dir = d })
    | none ↦ set_phase token (prepared_of o) (record s { dir = add_staging token o d })
  ]
]

unfoldable pub act_commit : CommitFaults → ℕ → Prepared → System → System
unfolding commit_success
act_commit faults token p s = elim (commit_success faults token p s.dir).1 [
  | done d ↦ set_phase token ending (record s { dir = d })
  | raised why d ↦ set_phase token failing (record s { dir = d })
]

unfoldable pub act_report : Settings → ℕ → System → System
unfolding record_failure_if_owned
act_report settings token s = elim (record_failure_if_owned settings token s.dir).1 [
  | done d ↦ set_phase token ending (record s { dir = d })
  | raised why d ↦ set_phase token ending s
]

-- The staging is removed and the claim released.
unfoldable pub finish_dir : ℕ → JobDir → Trace JobDir
unfolding release_claim
finish_dir token d =
    let unstaged = record d { stagings = without_staging token d.stagings } in
    (unstaged ∷ [], release_claim token unstaged)

unfoldable pub act_finish : ℕ → System → System
unfolding finish_dir
act_finish token s = set_phase token over (record s { dir = (finish_dir token s.dir).1 })

-- The worker is killed when it has made some of the durable steps.
abbrev pub killed_at {ℓ} : {R : Type ℓ} → ℕ → ℕ → Trace R → System → System
killed_at token steps (ds, r) s = set_phase token over (record s { dir = state_at steps ds s.dir })

unfoldable pub act_kill_claiming : Settings → Bool → ℕ → System → System
unfolding claim_job
act_kill_claiming settings force steps s =
    let trace = claim_job settings force s.now s.next_token s.dir in
    record (killed_at s.next_token steps trace s) { next_token = s.next_token + 1 }

-- A step of the worker in its phase; what the phase does not allow does nothing.
unfoldable pub act_worker : Settings → WorkerAction → Phase → System → System
unfolding act_heartbeat act_prepare act_commit act_report act_finish finish_dir commit_success
    record_failure_if_owned
act_worker settings (heartbeat token) working s = act_heartbeat token s
act_worker settings (heartbeat token) (prepared p) s = act_heartbeat token s
act_worker settings (heartbeat token) failing s = act_heartbeat token s
act_worker settings (heartbeat token) ending s = act_heartbeat token s
act_worker settings (prepare token o) working s = act_prepare token o s
act_worker settings (commit faults token) (prepared p) s = act_commit faults token p s
act_worker settings (fail token) working s = set_phase token failing s
act_worker settings (fail token) (prepared p) s = set_phase token failing s
act_worker settings (report token) failing s = act_report settings token s
act_worker settings (finish token) ending s = act_finish token s
act_worker settings (kill token) _ s = set_phase token over s
act_worker settings (kill_committing faults token n) (prepared p) s =
    killed_at token n (commit_success faults token p s.dir) s
act_worker settings (kill_reporting token n) failing s =
    killed_at token n (record_failure_if_owned settings token s.dir) s
act_worker settings (kill_finishing token n) ending s = killed_at token n (finish_dir token s.dir) s
act_worker settings _ _ s = s

abbrev pub token_of : WorkerAction → ℕ
token_of (wait n) = 0
token_of (claim force) = 0
token_of (heartbeat token) = token
token_of (prepare token o) = token
token_of (commit faults token) = token
token_of (fail token) = token
token_of (report token) = token
token_of (finish token) = token
token_of (kill token) = token
token_of (kill_claiming force n) = 0
token_of (kill_committing faults token n) = token
token_of (kill_reporting token n) = token
token_of (kill_finishing token n) = token

unfoldable pub act : Settings → WorkerAction → System → System
unfolding act_claim act_kill_claiming act_worker
act settings (wait n) s = record s { now = s.now + n }
act settings (claim force) s = act_claim settings force s
act settings (kill_claiming force n) s = act_kill_claiming settings force n s
act settings a s = act_worker settings a (s.phase (token_of a)) s

unfoldable pub act_all : Settings → List WorkerAction → System → System
unfolding act
act_all settings [] s = s
act_all settings (a ∷ as') s = act_all settings as' (act settings a s)

-- A job that was just captured, and no workers.
abbrev pub new_system : ℕ → System
new_system now = record {
  dir = record {
    capture_valid = true;
    processing = absent;
    parsed = none;
    parse_failed = false;
    attempts = no_attempts;
    output = none;
    stagings = [];
    superseded = [];
  };
  now = now;
  next_token = 0;
  phase = λ _. idle;
}
