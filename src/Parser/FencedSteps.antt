-- ===== src/Parser/FencedSteps.antt =====
-- Each step of a worker of src/commercialrchproxy/parser/worker.py is fenced, also where it is killed.
use commercial_rchproxy.Common.{ℕ, ◌+◌, true, List, [], ltb, ◌≡◌, refl, if-cases}
use commercial_rchproxy.Parser.Job.{
  Attempts, no_attempts, invalid_attempts, attempts_made, JobDir, Trace, state_at, Settings,
  JobError, Outcome, done, raised, is_current, record_failure, write_failure, write_attempts,
  write_failed, record_failure_if_owned,
}
use commercial_rchproxy.Parser.Facts.{EachDir, EachDir-map, state_at-each}
use commercial_rchproxy.Parser.Committing.{commit_success-Commits}
use commercial_rchproxy.Parser.Commit.{CommitFaults, Prepared, commit_success}
use commercial_rchproxy.Parser.Workers.{
  Phase, working, failing, ending, over, prepared, System, WorkerAction, heartbeat, prepare, commit,
  fail, report, finish, kill, kill_committing, kill_reporting, kill_finishing, set_phase, killed_at,
  finish_dir, act_commit, act_report, act_worker, token_of,
}
use commercial_rchproxy.Parser.Fencing.{
  Fenced, Fenced-refl, Fenced-same, act_heartbeat-Fenced, act_prepare-Fenced, commit-Fenced,
  current-Fenced, act_finish-Fenced,
}

failure-Fenced :
    (settings : Settings) (token before : ℕ) (s : System)
    → is_current s.dir.processing token ≡ true
    → Fenced token s (elim (write_failure settings before s.dir).1 [
      | done d ↦ set_phase token ending (record s { dir = d })
      | raised why d ↦ set_phase token ending s
    ])
unfolding write_failure write_attempts write_failed
failure-Fenced settings token before s current =
    let P = λ (t : Trace Outcome). Fenced token s (elim t.1 [
      | done d ↦ set_phase token ending (record s { dir = d })
      | raised why d ↦ set_phase token ending s
    ]) in
    if-cases P (ltb settings.parser_retry_count (before + 1))
      (λ _. current-Fenced token ending s _ current refl)
      (λ _. current-Fenced token ending s _ current refl)

report-Fenced :
    (settings : Settings) (token : ℕ) (s : System) (a : Attempts)
    → is_current s.dir.processing token ≡ true
    → let t : Trace Outcome = elim a [
      | no_attempts ↦ write_failure settings 0 s.dir
      | attempts_made n ↦ write_failure settings n s.dir
      | invalid_attempts ↦ ([], raised JobError.invalid_counter s.dir)
    ] in
      Fenced token s (elim t.1 [
        | done d ↦ set_phase token ending (record s { dir = d })
        | raised why d ↦ set_phase token ending s
      ])
report-Fenced settings token s no_attempts current = failure-Fenced settings token 0 s current
report-Fenced settings token s (attempts_made n) current = failure-Fenced settings token n s current
report-Fenced settings token s invalid_attempts current = Fenced-refl token ending s

act_report-Fenced :
    (settings : Settings) (token : ℕ) (s : System) → Fenced token s (act_report settings token s)
unfolding act_report record_failure_if_owned record_failure
act_report-Fenced settings token s =
    let P = λ (t : Trace Outcome). Fenced token s (elim t.1 [
      | done d ↦ set_phase token ending (record s { dir = d })
      | raised why d ↦ set_phase token ending s
    ]) in
    if-cases P (is_current s.dir.processing token)
      (λ current. report-Fenced settings token s s.dir.attempts current)
      (λ _. Fenced-refl token ending s)

-- A directory that is passed under a current claim keeps the marker.
abbrev CurrentSame : ℕ → JobDir → JobDir → Type 0
CurrentSame token d e = (is_current d.processing token ≡ true) × (e.processing ≡ d.processing)

killed-Fenced :
    (token steps : ℕ) (ds : List JobDir) (s : System)
    → EachDir (CurrentSame token s.dir) ds
    → Fenced token s (set_phase token over (record s { dir = state_at steps ds s.dir }))
killed-Fenced token steps ds s each =
    let P = λ (e : JobDir). Fenced token s (set_phase token over (record s { dir = e })) in
    let start = Fenced-refl token over s in
    state_at-each P steps ds s.dir
      (EachDir-map (λ e (current, same). current-Fenced token over s e current same) ds each)
      (record { back = start.back; unchanged = start.unchanged; tokens = start.tokens })

failure_passes :
    (settings : Settings) (token before : ℕ) (d : JobDir)
    → is_current d.processing token ≡ true
    → EachDir (CurrentSame token d) (write_failure settings before d).0
unfolding write_failure write_attempts write_failed
failure_passes settings token before d current =
    if-cases (λ (t : Trace Outcome). EachDir (CurrentSame token d) t.0)
      (ltb settings.parser_retry_count (before + 1)) (λ _. ((current, refl), tt)) (λ _. tt)

report_passes :
    (settings : Settings) (token : ℕ) (d : JobDir)
    → EachDir (CurrentSame token d) (record_failure_if_owned settings token d).0
unfolding record_failure_if_owned record_failure
report_passes settings token d =
    if-cases (λ (t : Trace Outcome). EachDir (CurrentSame token d) t.0)
      (is_current d.processing token) (λ current. from_attempts d.attempts current) (λ _. tt)
  where
    from_attempts :
        (a : Attempts)
        → is_current d.processing token ≡ true
        → let t : Trace Outcome = elim a [
          | no_attempts ↦ write_failure settings 0 d
          | attempts_made n ↦ write_failure settings n d
          | invalid_attempts ↦ ([], raised JobError.invalid_counter d)
        ] in
          EachDir (CurrentSame token d) t.0
    from_attempts no_attempts current = failure_passes settings token 0 d current
    from_attempts (attempts_made n) current = failure_passes settings token n d current
    from_attempts invalid_attempts current = tt

commit_passes :
    (settings : Settings) (faults : CommitFaults) (token : ℕ) (p : Prepared) (d : JobDir)
    → EachDir (CurrentSame token d) (commit_success faults token p d).0
commit_passes settings faults token p d =
    EachDir-map (λ e kept. (kept.current, kept.keeps.processing))
      (commit_success faults token p d).0
      (commit_success-Commits settings 0 faults token p d).passes

kill_finishing-Fenced :
    (token steps : ℕ) (s : System)
    → Fenced token s (killed_at token steps (finish_dir token s.dir) s)
unfolding finish_dir
kill_finishing-Fenced token steps s =
    let P = λ (e : JobDir). Fenced token s (set_phase token over (record s { dir = e })) in
    state_at-each P steps (finish_dir token s.dir).0 s.dir
      (record { back = λ u h. h; unchanged = λ _. refl; tokens = refl }, tt)
      (record { back = λ u h. h; unchanged = λ _. refl; tokens = refl })

pub act_worker-Fenced :
    (settings : Settings) (a : WorkerAction) (p : Phase) (s : System)
    → Fenced (token_of a) s (act_worker settings a p s)
unfolding act_worker act_commit
act_worker-Fenced settings (heartbeat token) working s = act_heartbeat-Fenced token s
act_worker-Fenced settings (heartbeat token) (prepared p) s = act_heartbeat-Fenced token s
act_worker-Fenced settings (heartbeat token) failing s = act_heartbeat-Fenced token s
act_worker-Fenced settings (heartbeat token) ending s = act_heartbeat-Fenced token s
act_worker-Fenced settings (prepare token o) working s = act_prepare-Fenced token o s
act_worker-Fenced settings (commit faults token) (prepared p) s =
    commit-Fenced settings 0 token s _ (commit_success-Commits settings 0 faults token p s.dir).ends
act_worker-Fenced settings (fail token) working s = Fenced-refl token failing s
act_worker-Fenced settings (fail token) (prepared p) s = Fenced-refl token failing s
act_worker-Fenced settings (report token) failing s = act_report-Fenced settings token s
act_worker-Fenced settings (finish token) ending s = act_finish-Fenced token s
act_worker-Fenced settings (kill token) p s = Fenced-refl token over s
act_worker-Fenced settings (kill_committing faults token n) (prepared p) s =
    killed-Fenced token n (commit_success faults token p s.dir).0 s
      (commit_passes settings faults token p s.dir)
act_worker-Fenced settings (kill_reporting token n) failing s =
    killed-Fenced token n (record_failure_if_owned settings token s.dir).0 s
      (report_passes settings token s.dir)
act_worker-Fenced settings (kill_finishing token n) ending s = kill_finishing-Fenced token n s
act_worker-Fenced settings a p s = Fenced-same (token_of a) s
