-- ===== src/Parser/Tests.antt =====
-- Workers on concrete jobs.
use commercial_rchproxy.Common.{
  ℕ, ◌+◌, Option, arith, true, false, none, some, List, [], ◌∷◌, ◌≡◌, refl,
}
use commercial_rchproxy.Parser.Job.{
  absent, no_attempts, attempts_made, Outputs, JobDir, Settings, marker_file, done, raised, Outcome,
  state_at,
}
use commercial_rchproxy.Parser.Commit.{CommitFaults, Prepared}
use commercial_rchproxy.Parser.Workers.{
  WorkerAction, wait, claim, prepare, commit, fail, report, finish, kill_reporting, act_all,
  new_system, act,
}
use commercial_rchproxy.Parser.Sound.{new_system-IsSound}
use commercial_rchproxy.Parser.Owners.{IsSound}
use commercial_rchproxy.Parser.Fencing.{published}
use commercial_rchproxy.Parser.Leases.{Lost, act-Lost_worker}
use commercial_rchproxy.Parser.Commit.{commit_success}

abbrev length_of : List JobDir → ℕ
length_of [] = 0
length_of (d ∷ ds) = 1 + length_of ds

abbrev outcome_output : Outcome → Option Outputs
outcome_output (done d) = d.output
outcome_output (raised why d) = d.output

abbrev settings : Settings
settings = record { parser_stale_lock_sec = 10; parser_retry_count = 1 }

abbrev no_faults : CommitFaults
no_faults = record { rename_fails = false; cleanup_fails = false }

abbrev rename_fault : CommitFaults
rename_fault = record { rename_fails = true; cleanup_fails = false }

abbrev two_documents : Outputs
two_documents = record { document_count = 2; metadata_hash = 77; is_valid = true }

abbrev one_document : Outputs
one_document = record { document_count = 1; metadata_hash = 78; is_valid = true }

abbrev one_run : List WorkerAction
one_run = claim false ∷ prepare 0 two_documents ∷ commit no_faults 0 ∷ finish 0 ∷ []

one_run-published : published (act_all settings one_run (new_system 5)).dir ≡ record {
  output = some two_documents;
  parsed = some (record { document_count = 2; metadata_hash = 77 });
  is_failed = false;
  attempts = no_attempts;
}
unfolding act_all
one_run-published = refl

-- The claim is released, and nothing is left of the staging.
one_run-clean :
    ((act_all settings one_run (new_system 5)).dir.processing ≡ absent)
    × ((act_all settings one_run (new_system 5)).dir.stagings ≡ [])
unfolding act_all
one_run-clean = (refl, refl)

-- One retry is allowed: the second failure is the last.
abbrev two_failures : List WorkerAction
two_failures =
    claim false
    ∷ fail 0
    ∷ report 0
    ∷ finish 0
    ∷ claim false
    ∷ prepare 1 two_documents
    ∷ commit rename_fault 1
    ∷ report 1
    ∷ finish 1
    ∷ claim false
    ∷ []

two_failures-published :
    published (act_all settings two_failures (new_system 5)).dir
    ≡ record { output = none; parsed = none; is_failed = true; attempts = attempts_made 2 }
unfolding act_all
two_failures-published = refl

-- The first worker prepares its documents and stands still; a second one takes the job over.
abbrev takeover : List WorkerAction
takeover = claim false ∷ prepare 0 one_document ∷ wait 11 ∷ claim false ∷ []

abbrev second_worker : List WorkerAction
second_worker = prepare 1 two_documents ∷ commit no_faults 1 ∷ finish 1 ∷ []

second_worker-published :
    (published
      (act_all settings second_worker (act_all settings takeover (new_system 5))).dir).output
    ≡ some two_documents
unfolding act_all
second_worker-published = refl

-- The second worker is killed when it has written the attempts, and before `.parse_failed`: a third
-- attempt is made.
abbrev interrupted_failures : List WorkerAction
interrupted_failures =
    claim false
    ∷ fail 0
    ∷ report 0
    ∷ finish 0
    ∷ claim false
    ∷ fail 1
    ∷ kill_reporting 1 1
    ∷ wait 11
    ∷ claim false
    ∷ fail 2
    ∷ report 2
    ∷ []

interrupted_failures-published :
    published (act_all settings interrupted_failures (new_system 5)).dir
    ≡ record { output = none; parsed = none; is_failed = true; attempts = attempts_made 3 }
unfolding act_all
interrupted_failures-published = refl

new_system-IsSound_example :
    IsSound settings 1 (act_all settings interrupted_failures (new_system 5))
new_system-IsSound_example = new_system-IsSound settings 5 interrupted_failures

first_worker-Lost : Lost 0 (act_all settings takeover (new_system 5))
unfolding act_all
first_worker-Lost = (omega arith, refl)

act-Lost_worker_example :
    published
      (act settings
        (commit no_faults 0)
        (act_all settings second_worker (act_all settings takeover (new_system 5)))).dir
    ≡ published (act_all settings second_worker (act_all settings takeover (new_system 5))).dir
act-Lost_worker_example =
    act-Lost_worker settings 5 takeover second_worker 0 (commit no_faults 0) first_worker-Lost refl

-- A job that is parsed again: there are documents of an earlier run.
abbrev forced_job : JobDir
forced_job = record {
  capture_valid = true;
  processing = marker_file (some 3) 100;
  parsed = none;
  parse_failed = false;
  attempts = attempts_made 1;
  output = some one_document;
  stagings =
      record { token = 2; outputs = one_document }
      ∷ record { token = 3; outputs = two_documents }
      ∷ [];
  superseded = [];
}

abbrev forced_result : Prepared
forced_result = record { document_count = 2; metadata_hash = 77 }

-- A commit that is killed after its third step has its documents in place, and no marker yet.
killed_commit :
    published (state_at 3 (commit_success no_faults 3 forced_result forced_job).0 forced_job)
    ≡ record {
      output = some two_documents;
      parsed = none;
      is_failed = false;
      attempts = attempts_made 1;
    }
unfolding commit_success
killed_commit = refl

-- A rename that fails passes a directory without documents, and puts the earlier ones back.
failed_rename :
    (length_of (commit_success rename_fault 3 forced_result forced_job).0 ≡ 2)
    × (outcome_output (commit_success rename_fault 3 forced_result forced_job).1
        ≡ some one_document)
unfolding commit_success
failed_rename = (refl, refl)
