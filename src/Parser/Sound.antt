-- ===== src/Parser/Sound.antt =====
-- What holds of a job that several workers of src/commercialrchproxy/parser/worker.py process, whatever
-- the order of their steps.
use commercial_rchproxy.Common.{
  ℕ, ◌+◌, Bool, true, some, List, [], ◌∷◌, ◌≡◌, refl, arith, sym, subst, ◌∙◌,
}
use commercial_rchproxy.Parser.Job.{
  marker_file, JobDir, Settings, ClaimResult, claimed, busy, already_parsed, parse_failed,
  claim_error, is_current, claim_job, record_failure_if_owned,
}
use commercial_rchproxy.Parser.Commit.{commit_success}
use commercial_rchproxy.Parser.Facts.{Matches, Counts, Counted, IsOpen, EachDir-map}
use commercial_rchproxy.Parser.Committing.{commit_success-Commits}
use commercial_rchproxy.Parser.Claiming.{ClaimEnds, claim_job-Claims}
use commercial_rchproxy.Parser.Workers.{
  Phase, working, failing, ending, over, prepared, System, WorkerAction, wait, claim, heartbeat,
  prepare, commit, fail, report, finish, kill, kill_claiming, kill_committing, kill_reporting,
  kill_finishing, set_phase, act_claim, act_worker, token_of, act, act_all, new_system,
}
use commercial_rchproxy.Parser.Owners.{
  MayPublish, IsSound, act_heartbeat-IsSound, set_phase-IsSound,
}
use commercial_rchproxy.Parser.Publishing.{act_prepare-IsSound, act_commit-IsSound}
use commercial_rchproxy.Parser.Reporting.{
  record_failure_if_owned-Reports, act_report-IsSound, act_finish-IsSound,
}
use commercial_rchproxy.Parser.Interrupted.{
  cost, interruptions, after_more, killed_at-IsSound, act_kill_claiming-IsSound, Kept-more,
  kill_finishing-IsSound,
}

kept_claim :
    (settings : Settings) (k : ℕ) (s : System) (e : JobDir)
    → IsSound settings k s
    → (e.output ≡ s.dir.output)
      × (e.parsed ≡ s.dir.parsed)
      × (e.parse_failed ≡ s.dir.parse_failed)
      × (e.attempts ≡ s.dir.attempts)
      × ((t : ℕ) → is_current e.processing t ≡ true → is_current s.dir.processing t ≡ true)
    → IsSound settings k (record s { dir = e })
kept_claim settings k s e sound (output, parsed, failed, attempts, back) = record {
  consistent =
      subst (λ o. Matches o e.parsed) (sym output)
        (subst (Matches s.dir.output) (sym parsed) sound.consistent);
  counted =
      subst (λ f. Counts settings.parser_retry_count k e.attempts f) (sym failed)
        (subst (λ n. Counts settings.parser_retry_count k n s.dir.parse_failed) (sym attempts)
          sound.counted);
  owned =
      λ t current may. let o = sound.owned t (back t current) may in (parsed ∙ o.0, failed ∙ o.1);
}

new_claim :
    (settings : Settings) (k : ℕ) (s : System) (e : JobDir)
    → (e.processing ≡ marker_file (some s.next_token) s.now) × IsOpen e × Counted settings k e
    → IsSound settings k
        (record (set_phase s.next_token working s) { dir = e; next_token = s.next_token + 1 })
new_claim settings k s e (mine, unpublished, counted) = record {
  consistent = subst (Matches e.output) (sym unpublished.0) tt;
  counted = counted;
  owned = λ t current may. unpublished;
}

claim-outcome :
    (settings : Settings) (k : ℕ) (s : System) (r : ClaimResult × JobDir)
    → IsSound settings k s
    → ClaimEnds settings k s.now s.next_token s.dir r
    → IsSound settings k (elim r.0 [
      | claimed ↦ record (set_phase s.next_token working s) {
        dir = r.1;
        next_token = s.next_token + 1;
      }
      | busy ↦ record s { dir = r.1 }
      | already_parsed ↦ record s { dir = r.1 }
      | parse_failed ↦ record s { dir = r.1 }
      | claim_error why ↦ record s { dir = r.1 }
    ])
claim-outcome settings k s (claimed, e) sound c = new_claim settings k s e c
claim-outcome settings k s (busy, e) sound c = kept_claim settings k s e sound c
claim-outcome settings k s (already_parsed, e) sound c = kept_claim settings k s e sound c
claim-outcome settings k s (parse_failed, e) sound c = kept_claim settings k s e sound c
claim-outcome settings k s (claim_error why, e) sound c = kept_claim settings k s e sound c

act_claim-IsSound :
    (settings : Settings) (k : ℕ) (force : Bool) (s : System)
    → IsSound settings k s
    → IsSound settings k (act_claim settings force s)
unfolding act_claim
act_claim-IsSound settings k force s sound =
    claim-outcome settings k s (claim_job settings force s.now s.next_token s.dir).1 sound
      (claim_job-Claims settings force k s.now s.next_token s.dir sound.counted).ends

act_worker-IsSound :
    (settings : Settings) (k : ℕ) (a : WorkerAction) (p : Phase) (s : System)
    → p ≡ s.phase (token_of a)
    → IsSound settings k s
    → IsSound settings (k + cost a) (act_worker settings a p s)
unfolding act_worker
act_worker-IsSound settings k (heartbeat token) working s e sound =
    act_heartbeat-IsSound settings (k + 0) token s (after_more settings k 0 s sound)
act_worker-IsSound settings k (heartbeat token) (prepared p) s e sound =
    act_heartbeat-IsSound settings (k + 0) token s (after_more settings k 0 s sound)
act_worker-IsSound settings k (heartbeat token) failing s e sound =
    act_heartbeat-IsSound settings (k + 0) token s (after_more settings k 0 s sound)
act_worker-IsSound settings k (heartbeat token) ending s e sound =
    act_heartbeat-IsSound settings (k + 0) token s (after_more settings k 0 s sound)
act_worker-IsSound settings k (prepare token o) working s e sound =
    act_prepare-IsSound settings (k + 0) token o s (after_more settings k 0 s sound)
      (subst MayPublish e tt)
act_worker-IsSound settings k (commit faults token) (prepared p) s e sound =
    act_commit-IsSound settings (k + 0) faults token p s (after_more settings k 0 s sound)
      (subst MayPublish e tt)
act_worker-IsSound settings k (fail token) working s e sound =
    set_phase-IsSound settings (k + 0) token failing s (after_more settings k 0 s sound)
      (λ _. subst MayPublish e tt)
act_worker-IsSound settings k (fail token) (prepared p) s e sound =
    set_phase-IsSound settings (k + 0) token failing s (after_more settings k 0 s sound)
      (λ _. subst MayPublish e tt)
act_worker-IsSound settings k (report token) failing s e sound =
    act_report-IsSound settings (k + 0) token s (after_more settings k 0 s sound)
      (subst MayPublish e tt)
act_worker-IsSound settings k (finish token) ending s e sound =
    act_finish-IsSound settings (k + 0) token s (after_more settings k 0 s sound)
act_worker-IsSound settings k (kill token) p s e sound =
    set_phase-IsSound settings (k + 0) token over s (after_more settings k 0 s sound)
      (λ may. absurd may)
act_worker-IsSound settings k (kill_committing faults token n) (prepared p) s e sound =
    killed_at-IsSound settings k 0 token n (commit_success faults token p s.dir) s sound
      (subst MayPublish e tt)
      (EachDir-map (Kept-more settings k 0 token s.dir) (commit_success faults token p s.dir).0
        (commit_success-Commits settings k faults token p s.dir).passes)
act_worker-IsSound settings k (kill_reporting token n) failing s e sound =
    let was = subst MayPublish e tt in
    killed_at-IsSound settings k 1 token n (record_failure_if_owned settings token s.dir) s sound
      was
      (record_failure_if_owned-Reports settings k token s.dir sound.consistent sound.counted
        (λ current. (sound.owned token current was).1)).passes
act_worker-IsSound settings k (kill_finishing token n) ending s e sound =
    kill_finishing-IsSound settings (k + 0) token n s (after_more settings k 0 s sound)
act_worker-IsSound settings k a p s e sound = after_more settings k (cost a) s sound

pub act-IsSound :
    (settings : Settings) (k : ℕ) (a : WorkerAction) (s : System)
    → IsSound settings k s
    → IsSound settings (k + cost a) (act settings a s)
unfolding act
act-IsSound settings k (wait n) s sound =
    let more = after_more settings k 0 s sound in
    record { consistent = more.consistent; counted = more.counted; owned = more.owned }
act-IsSound settings k (claim force) s sound =
    act_claim-IsSound settings (k + 0) force s (after_more settings k 0 s sound)
act-IsSound settings k (kill_claiming force n) s sound =
    act_kill_claiming-IsSound settings k force n s sound
act-IsSound settings k (heartbeat t) s sound =
    act_worker-IsSound settings k (heartbeat t) _ s refl sound
act-IsSound settings k (prepare t o) s sound =
    act_worker-IsSound settings k (prepare t o) _ s refl sound
act-IsSound settings k (commit f t) s sound =
    act_worker-IsSound settings k (commit f t) _ s refl sound
act-IsSound settings k (fail t) s sound = act_worker-IsSound settings k (fail t) _ s refl sound
act-IsSound settings k (report t) s sound = act_worker-IsSound settings k (report t) _ s refl sound
act-IsSound settings k (finish t) s sound = act_worker-IsSound settings k (finish t) _ s refl sound
act-IsSound settings k (kill t) s sound = act_worker-IsSound settings k (kill t) _ s refl sound
act-IsSound settings k (kill_committing f t n) s sound =
    act_worker-IsSound settings k (kill_committing f t n) _ s refl sound
act-IsSound settings k (kill_reporting t n) s sound =
    act_worker-IsSound settings k (kill_reporting t n) _ s refl sound
act-IsSound settings k (kill_finishing t n) s sound =
    act_worker-IsSound settings k (kill_finishing t n) _ s refl sound

pub act_all-IsSound :
    (settings : Settings) (k : ℕ) (actions : List WorkerAction) (s : System)
    → IsSound settings k s
    → IsSound settings (k + interruptions actions) (act_all settings actions s)
unfolding act_all
act_all-IsSound settings k [] s sound = after_more settings k 0 s sound
act_all-IsSound settings k (a ∷ as') s sound =
    let total : k + cost a + interruptions as' ≡ k + (cost a + interruptions as') = omega arith in
    subst (λ n. IsSound settings n (act_all settings as' (act settings a s))) total
      (act_all-IsSound settings (k + cost a) as' (act settings a s)
        (act-IsSound settings k a s sound))

-- Whatever workers do to a captured job, in whatever order, and also if they are killed between their
-- steps or between any two durable steps of a claim, a commit, the report of a failure or the
-- `finally` block: `.parsed` is there only for documents that it describes; while the worker of the
-- current claim may publish, the job has neither marker; `.parse_failed` is there only when the
-- attempts are more than the retries. They are at most one more, and one for each kill within a claim
-- or within the report of a failure, which may leave them without the marker; where there is no such
-- kill, `.parse_failed` is there just when the attempts are more than the retries.
pub new_system-IsSound :
    (settings : Settings) (now : ℕ) (actions : List WorkerAction)
    → IsSound settings (interruptions actions) (act_all settings actions (new_system now))
new_system-IsSound settings now actions =
    let none_yet : 0 + interruptions actions ≡ interruptions actions = omega arith in
    subst (λ n. IsSound settings n (act_all settings actions (new_system now))) none_yet
      (act_all-IsSound settings 0 actions (new_system now)
        (record { consistent = tt; counted = refl; owned = λ t current may. absurd may }))
