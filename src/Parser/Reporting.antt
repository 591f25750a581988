-- ===== src/Parser/Reporting.antt =====
-- The steps of src/commercialrchproxy/parser/worker.py that report a failure and end a run.
use commercial_rchproxy.Common.{ℕ, ◌+◌, ◌≤◌, true, false, [], ltb, ◌≡◌, refl, if-cases, arith}
use commercial_rchproxy.Parser.Job.{
  absent, Attempts, no_attempts, invalid_attempts, attempts_made, JobDir, Settings, JobError, Trace,
  Outcome, done, raised, is_current, release_claim, record_failure, write_failure, write_attempts,
  write_failed, record_failure_if_owned, without_staging,
}
use commercial_rchproxy.Parser.Facts.{Consistent, Counts, Counted, Kept, Traced, Traced-end}
use commercial_rchproxy.Parser.Claiming.{none_current}
use commercial_rchproxy.Parser.Workers.{
  ending, over, System, set_phase, act_report, finish_dir, act_finish,
}
use commercial_rchproxy.Parser.Owners.{
  MayPublish, IsSound, sole_owner, same_owner, set_phase-IsSound,
}

-- What a report leaves; only the worker of the current claim makes one.
abbrev pub ReportEnds : Settings → ℕ → ℕ → JobDir → Outcome → Type 0
ReportEnds settings k token d (done e) =
    (is_current d.processing token ≡ true)
    × (e.processing ≡ d.processing)
    × Consistent e
    × Counted settings k e
ReportEnds settings k token d (raised why e) = Unit {0}

abbrev pub Reports : Settings → ℕ → ℕ → JobDir → Trace Outcome → Type 0
Reports settings k token d =
    Traced (Kept settings k (k + 1) token d) (ReportEnds settings k token d)

write_failure-Reports :
    (settings : Settings) (k token before : ℕ) (d : JobDir)
    → is_current d.processing token ≡ true
    → Consistent d
    → before ≤ settings.parser_retry_count + k
    → d.parse_failed ≡ false
    → Reports settings k token d (write_failure settings before d)
unfolding write_failure write_attempts write_failed
write_failure-Reports settings k token before d current c within unfailed =
    let retries = settings.parser_retry_count in
    if-cases (Reports settings k token d) (ltb retries (before + 1))
      (λ exhausted. record {
        passes = (
          record {
            current = current;
            keeps = record {
              processing = refl;
              of_open =
                  λ _ _. (c, (omega (arith, within), λ failed. cc, λ _. omega (arith, within)));
            };
          },
          tt,
        );
        ends = (current, refl, c, (omega (arith, within), λ _. exhausted, λ never. cc));
      })
      (λ left.
        Traced-end
          (current, refl, c, (omega (arith, within), λ failed. cc, λ _. ground (arith, left))))

record_failure-Reports :
    (settings : Settings) (k token : ℕ) (d : JobDir) (a : Attempts)
    → is_current d.processing token ≡ true
    → Consistent d
    → Counts settings.parser_retry_count k a d.parse_failed
    → d.parse_failed ≡ false
    → Reports settings k token d (elim a [
      | no_attempts ↦ write_failure settings 0 d
      | attempts_made n ↦ write_failure settings n d
      | invalid_attempts ↦ ([], raised JobError.invalid_counter d)
    ])
record_failure-Reports settings k token d no_attempts current c counted unfailed =
    write_failure-Reports settings k token 0 d current c (omega arith) unfailed
record_failure-Reports settings k token d (attempts_made n) current c counted unfailed =
    write_failure-Reports settings k token n d current c (counted.2 unfailed) unfailed
record_failure-Reports settings k token d invalid_attempts current c counted unfailed =
    Traced-end tt

-- A report, of a worker whose claim may have been lost.
pub record_failure_if_owned-Reports :
    (settings : Settings) (k token : ℕ) (d : JobDir)
    → Consistent d
    → Counted settings k d
    → (is_current d.processing token ≡ true → d.parse_failed ≡ false)
    → Reports settings k token d (record_failure_if_owned settings token d)
unfolding record_failure_if_owned record_failure
record_failure_if_owned-Reports settings k token d consistent counted unfailed =
    if-cases (Reports settings k token d) (is_current d.processing token)
      (λ current.
        record_failure-Reports settings k token d d.attempts current consistent counted
          (unfailed current))
      (λ _. Traced-end tt)

pub report-outcome :
    (settings : Settings) (k token : ℕ) (s : System) (x : Outcome)
    → IsSound settings k s
    → ReportEnds settings k token s.dir x
    → IsSound settings k (elim x [
      | done d ↦ set_phase token ending (record s { dir = d })
      | raised why d ↦ set_phase token ending s
    ])
report-outcome settings k token s (done e) sound (current, same, matches, counted) = record {
  consistent = matches;
  counted = counted;
  owned = sole_owner s token ending e (λ may. may) current same;
}
report-outcome settings k token s (raised why e) sound r =
    set_phase-IsSound settings k token ending s sound (λ may. absurd may)

pub act_report-IsSound :
    (settings : Settings) (k token : ℕ) (s : System)
    → IsSound settings k s
    → MayPublish (s.phase token)
    → IsSound settings k (act_report settings token s)
unfolding act_report
act_report-IsSound settings k token s sound was =
    report-outcome settings k token s _ sound
      (record_failure_if_owned-Reports settings k token s.dir sound.consistent sound.counted
        (λ current. (sound.owned token current was).1)).ends

pub act_finish-IsSound :
    (settings : Settings) (k token : ℕ) (s : System)
    → IsSound settings k s
    → IsSound settings k (act_finish token s)
unfolding act_finish finish_dir release_claim
act_finish-IsSound settings k token s sound =
    let d = record s.dir { stagings = without_staging token s.dir.stagings } in
    if-cases (λ (d : JobDir). IsSound settings k (set_phase token over (record s { dir = d })))
      (is_current s.dir.processing token)
      (λ _. record {
        consistent = sound.consistent;
        counted = sound.counted;
        owned =
            same_owner settings k s token over (record d { processing = absent }) sound
              (none_current s.dir.processing) refl refl (λ may. absurd may);
      })
      (λ _. record {
        consistent = sound.consistent;
        counted = sound.counted;
        owned = same_owner settings k s token over d sound (λ t h. h) refl refl (λ may. absurd may);
      })
