-- ===== src/Parser/Job.antt =====
-- src/commercialrchproxy/parser/worker.py: the state of a job's directory and the operations on it
-- that hold `.parser.lock`.
use commercial_rchproxy.Common.{
  ℕ, ◌+◌, ◌-◌, Bool, true, false, ◌&&◌, Option, none, some, List, [], ◌∷◌, ◌++◌, ltb, ◌==◌,
  if◌then◌else◌,
}

-- The documents in a directory: their count and the hash of `parsed.json`, and whether all files are
-- those that `parsed.json` lists.
pub record Outputs : Type 0 where
  pub document_count : ℕ
  pub metadata_hash : ℕ
  pub is_valid : Bool

-- `.processing`: a regular file holds a token, if it can be read, and has a time.
pub data Marker : Type 0 where
  absent unsafe : Marker
  marker_file : (token : Option ℕ) (mtime : ℕ) → Marker

-- `.parsed`
pub record ParsedMarker : Type 0 where
  pub document_count : ℕ
  pub metadata_hash : ℕ

-- A directory of a token, `.PHARSED.<token>.partial` or `.PHARSED.<token>.superseded`.
pub record Staging : Type 0 where
  pub token : ℕ
  pub outputs : Outputs

-- `attempts` of `.parse_attempts.json`
pub data Attempts : Type 0 where
  no_attempts invalid_attempts : Attempts
  attempts_made : ℕ → Attempts

pub record JobDir : Type 0 where
  -- whether the capture is committed: `.ready`, the manifest and the captured files agree
  pub capture_valid : Bool
  pub processing : Marker
  pub parsed : Option ParsedMarker
  pub parse_failed : Bool
  pub attempts : Attempts
  pub output : Option Outputs
  pub stagings : List Staging
  pub superseded : List Staging

pub record Settings : Type 0 where
  pub parser_stale_lock_sec : ℕ
  pub parser_retry_count : ℕ

pub data JobError : Type 0 where
  unsafe_marker not_committed invalid_outputs superseded_exists claim_lost : JobError
  invalid_counter staging_missing rename_failed : JobError

pub data ClaimResult : Type 0 where
  claimed busy already_parsed parse_failed : ClaimResult
  claim_error : JobError → ClaimResult

-- The outcome of an operation with the directory after it.
pub data Outcome : Type 0 where
  done : JobDir → Outcome
  raised : JobError → JobDir → Outcome

-- What an operation passes through and results in: the directory after each durable step but the
-- last, so that it may be killed there, and the result. The removal of directories of tokens, which
-- nothing reads, is one step.
abbrev pub Trace {ℓ} : Type ℓ → Type ℓ
Trace R = List JobDir × R

-- An operation from a directory that is passed.
abbrev pub passing {ℓ} : {R : Type ℓ} → JobDir → Trace R → Trace R
passing d (ds, r) = (d ∷ ds, r)

-- An operation, and another one from the directory that it leaves.
abbrev pub and_then {ℓ} : {R : Type ℓ} → Trace JobDir → (JobDir → Trace R) → Trace R
and_then (ds, d) f = let (es, r) = f d in (ds ++ (d ∷ es), r)

-- The directory after a number of durable steps.
abbrev pub state_at : ℕ → List JobDir → JobDir → JobDir
state_at n [] d = d
state_at n (e ∷ es) d = let rest = state_at (n - 1) es e in if n == 0 then d else rest

-- `_validate_parser_outputs`, for the hash and the count that are expected
unfoldable pub outputs_match : Outputs → ℕ → ℕ → Bool
outputs_match o metadata_hash document_count =
    o.is_valid && (o.metadata_hash == metadata_hash && o.document_count == document_count)

-- `_validate_parsed_marker`
unfoldable pub parsed_valid : Option Outputs → ParsedMarker → Bool
unfolding outputs_match
parsed_valid none m = false
parsed_valid (some o) m = outputs_match o m.metadata_hash m.document_count

-- `_require_current_claim`
unfoldable pub is_current : Marker → ℕ → Bool
is_current absent token = false
is_current unsafe token = false
is_current (marker_file none mtime) token = false
is_current (marker_file (some t) mtime) token = t == token

-- `_cleanup_orphan_parser_staging`, with the token that is current, if any
unfoldable pub keep_stagings : Option ℕ → List Staging → List Staging
keep_stagings none stagings = []
keep_stagings (some token) [] = []
keep_stagings (some token) (s ∷ ss) =
    let rest = keep_stagings (some token) ss in if s.token == token then s ∷ rest else rest

-- `_unlink_parser_state` for each of the three files of the state
unfoldable pub clear_parsed : JobDir → JobDir
clear_parsed d = record d { parsed = none }

unfoldable pub clear_failed : JobDir → JobDir
clear_failed d = record d { parse_failed = false }

unfoldable pub clear_attempts : JobDir → JobDir
clear_attempts d = record d { attempts = no_attempts }

-- `_clear_parser_outputs`
unfoldable pub clear_outputs : JobDir → Trace JobDir
unfolding clear_parsed clear_failed clear_attempts
clear_outputs d =
    let unparsed = clear_parsed d in
    let unfailed = clear_failed unparsed in (unparsed ∷ unfailed ∷ [], clear_attempts unfailed)

-- `_create_processing_marker`: the file is there before its token is.
unfoldable pub create_marker : ℕ → ℕ → JobDir → Trace (ClaimResult × JobDir)
create_marker now token d = (
  record d { processing = marker_file none now } ∷ [],
  (claimed, record d { processing = marker_file (some token) now }),
)

-- The claim, once no other claim is active.
unfoldable pub claim_free : Bool → ℕ → ℕ → JobDir → Trace (ClaimResult × JobDir)
unfolding clear_outputs create_marker parsed_valid
claim_free force now token d =
    if force then and_then (clear_outputs d) (create_marker now token) else elim d.parsed [
      | some m ↦
          if d.capture_valid
          then (if parsed_valid d.output m
              then ([], (already_parsed, d))
              else ([], (claim_error invalid_outputs, d)))
          else ([], (claim_error not_committed, d))
      | none ↦ if d.parse_failed then ([], (parse_failed, d)) else create_marker now token d
    ]

unfoldable pub clean_orphans : JobDir → JobDir
unfolding keep_stagings
clean_orphans d = record d { stagings = keep_stagings none d.stagings }

-- The part of `_claim_job` under the lock. A stale marker is moved away; `now - mtime` stops at 0, as
-- `max(0.0, ...)` does.
unfoldable pub claim_job : Settings → Bool → ℕ → ℕ → JobDir → Trace (ClaimResult × JobDir)
unfolding claim_free clean_orphans
claim_job settings force now token d =
    let unclaimed = record d { processing = absent } in
    let free = clean_orphans unclaimed in
    let claim = passing free (claim_free force now token free) in
    elim d.processing [
      | unsafe ↦ ([], (claim_error unsafe_marker, d))
      | absent ↦ claim
      | marker_file holder mtime ↦
          if ltb (now - mtime) settings.parser_stale_lock_sec
          then ([], (busy, d))
          else passing unclaimed claim
    ]

-- `_refresh_claim`
unfoldable pub refresh_claim : ℕ → ℕ → JobDir → Outcome
unfolding is_current
refresh_claim now token d =
    if is_current d.processing token
    then done (record d { processing = marker_file (some token) now })
    else raised claim_lost d

-- `_release_claim`
unfoldable pub release_claim : ℕ → JobDir → JobDir
unfolding is_current
release_claim token d =
    if is_current d.processing token then record d { processing = absent } else d

-- The two writes of `_record_failure`
unfoldable pub write_attempts : ℕ → JobDir → JobDir
write_attempts n d = record d { attempts = attempts_made n }

unfoldable pub write_failed : JobDir → JobDir
write_failed d = record d { parse_failed = true }

-- `_record_failure`, from the number of attempts before
unfoldable pub write_failure : Settings → ℕ → JobDir → Trace Outcome
unfolding write_attempts write_failed
write_failure settings before d =
    let counted = write_attempts (before + 1) d in
    if ltb settings.parser_retry_count (before + 1)
    then (counted ∷ [], done (write_failed counted))
    else ([], done counted)

-- `_record_failure` with `_failure_count`
unfoldable pub record_failure : Settings → JobDir → Trace Outcome
unfolding write_failure
record_failure settings d = elim d.attempts [
  | no_attempts ↦ write_failure settings 0 d
  | attempts_made n ↦ write_failure settings n d
  | invalid_attempts ↦ ([], raised invalid_counter d)
]

-- `_record_failure_if_owned`
unfoldable pub record_failure_if_owned : Settings → ℕ → JobDir → Trace Outcome
unfolding is_current record_failure
record_failure_if_owned settings token d =
    if is_current d.processing token then record_failure settings d else ([], raised claim_lost d)

abbrev pub find_staging : ℕ → List Staging → Option Outputs
find_staging token [] = none
find_staging token (s ∷ ss) = if s.token == token then some s.outputs else find_staging token ss

abbrev pub without_staging : ℕ → List Staging → List Staging
without_staging token [] = []
without_staging token (s ∷ ss) =
    if s.token == token then without_staging token ss else s ∷ without_staging token ss
