-- ===== src/Parser/Commit.antt =====
-- src/commercialrchproxy/parser/worker.py: `_commit_success`, the publication of staged documents, by
-- its durable steps.
use commercial_rchproxy.Common.{ℕ, Bool, true, false, Option, none, some, [], ◌∷◌, if◌then◌else◌}
use commercial_rchproxy.Parser.Job.{
  Outputs, JobDir, Trace, passing, not_committed, invalid_outputs, superseded_exists, claim_lost,
  staging_missing, rename_failed, Outcome, done, raised, outputs_match, is_current, keep_stagings,
  find_staging, without_staging, clear_attempts, clear_failed,
}

-- What a commit may meet: whether the rename of the staged documents fails, and whether the removal of
-- the superseded ones does, which is only logged.
pub record CommitFaults : Type 0 where
  pub rename_fails : Bool
  pub cleanup_fails : Bool

-- The documents that a worker has staged, by their count and hash.
pub record Prepared : Type 0 where
  pub document_count : ℕ
  pub metadata_hash : ℕ

unfoldable pub clean_stagings : ℕ → JobDir → JobDir
unfolding keep_stagings
clean_stagings token d = record d { stagings = keep_stagings (some token) d.stagings }

-- `os.rename(output_dir, superseded)`, if there is an output
unfoldable pub move_away : ℕ → JobDir → JobDir
move_away token d = elim d.output [
  | none ↦ d
  | some old ↦ record d {
    output = none;
    superseded = record { token = token; outputs = old } ∷ d.superseded;
  }
]

-- The handler of a failed rename: `os.rename(superseded, output_dir)`
unfoldable pub move_back : ℕ → JobDir → JobDir
move_back token d = elim d.output [
  | some o ↦ d
  | none ↦ elim (find_staging token d.superseded) [
    | none ↦ d
    | some old ↦ record d { output = some old; superseded = without_staging token d.superseded }
  ]
]

-- `os.rename(staging_dir, output_dir)`
unfoldable pub move_in : ℕ → Outputs → JobDir → JobDir
move_in token staged d = record d {
  output = some staged;
  stagings = without_staging token d.stagings;
}

unfoldable pub write_parsed : Prepared → JobDir → JobDir
write_parsed p d = record d {
  parsed = some (record { document_count = p.document_count; metadata_hash = p.metadata_hash });
}

unfoldable pub drop_superseded : CommitFaults → ℕ → JobDir → JobDir
drop_superseded faults token d =
    if faults.cleanup_fails then d else record d { superseded = without_staging token d.superseded }

-- The steps after the documents are in place.
unfoldable pub publish : CommitFaults → ℕ → Prepared → JobDir → Trace Outcome
unfolding clear_attempts clear_failed write_parsed drop_superseded
publish faults token p d =
    let uncounted = clear_attempts d in
    let unfailed = clear_failed uncounted in
    let marked = write_parsed p unfailed in
    (uncounted ∷ unfailed ∷ marked ∷ [], done (drop_superseded faults token marked))

-- The second validation, of the documents in place.
unfoldable pub check_output : CommitFaults → ℕ → Prepared → JobDir → Trace Outcome
unfolding outputs_match publish
check_output faults token p d = elim d.output [
  | none ↦ ([], raised invalid_outputs d)
  | some o ↦
      if outputs_match o p.metadata_hash p.document_count
      then publish faults token p d
      else ([], raised invalid_outputs d)
]

-- The replacement of the documents.
unfoldable pub replace_output : CommitFaults → ℕ → Prepared → Outputs → JobDir → Trace Outcome
unfolding move_away move_back move_in check_output
replace_output faults token p staged d =
    let away = move_away token d in
    let placed = move_in token staged away in
    passing away (
      if faults.rename_fails
      then ([], raised rename_failed (move_back token away))
      else passing placed (check_output faults token p placed))

abbrev pub is_some {ℓ} : {A : Type ℓ} → Option A → Bool
is_some none = false
is_some (some a) = true

-- The checks before the replacement.
unfoldable pub check_staging : CommitFaults → ℕ → Prepared → JobDir → Trace Outcome
unfolding outputs_match replace_output
check_staging faults token p d = elim (find_staging token d.stagings) [
  | none ↦ ([], raised staging_missing d)
  | some staged ↦
      if outputs_match staged p.metadata_hash p.document_count
      then (if is_some (find_staging token d.superseded)
          then ([], raised superseded_exists d)
          else replace_output faults token p staged d)
      else ([], raised invalid_outputs d)
]

-- `_commit_success`
unfoldable pub commit_success : CommitFaults → ℕ → Prepared → JobDir → Trace Outcome
unfolding is_current clean_stagings check_staging
commit_success faults token p d =
    let cleaned = clean_stagings token d in
    if is_current d.processing token
    then passing cleaned (
        if d.capture_valid
        then check_staging faults token p cleaned
        else ([], raised not_committed cleaned))
    else ([], raised claim_lost d)
