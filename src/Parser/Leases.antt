-- ===== src/Parser/Leases.antt =====
-- A worker of src/commercialrchproxy/parser/worker.py that has lost its claim publishes nothing more.
use commercial_rchproxy.Common.{
  ℕ, ◌+◌, ◌<◌, Bool, true, false, List, [], ◌∷◌, ◌≡◌, refl, sym, subst, arith,
}
use commercial_rchproxy.Parser.Job.{
  Marker, JobDir, Settings, ClaimResult, claimed, busy, already_parsed, parse_failed, claim_error,
  is_current, claim_job,
}
use commercial_rchproxy.Parser.Facts.{EachDir-map, state_at-each}
use commercial_rchproxy.Parser.Interrupted.{cost, interruptions}
use commercial_rchproxy.Parser.Claiming.{ClaimEnds, claim_job-Claims, claim_job-back}
use commercial_rchproxy.Parser.Workers.{
  working, System, WorkerAction, wait, claim, heartbeat, prepare, commit, fail, report, finish,
  kill, kill_claiming, kill_committing, kill_reporting, kill_finishing, act_kill_claiming,
  set_phase, act_claim, token_of, act, act_all, new_system,
}
use commercial_rchproxy.Parser.Fencing.{published, Fenced}
use commercial_rchproxy.Parser.FencedSteps.{act_worker-Fenced}
use commercial_rchproxy.Parser.Owners.{IsSound}
use commercial_rchproxy.Parser.Sound.{act-IsSound, new_system-IsSound}

-- A step of the worker of a token.
abbrev pub IsStepOf : ℕ → WorkerAction → Type 0
IsStepOf token (wait n) = ⊥
IsStepOf token (claim force) = ⊥
IsStepOf token (kill_claiming force n) = ⊥
IsStepOf token a = token_of a ≡ token

-- The token was given out, and its claim is not current.
abbrev pub Lost : ℕ → System → Type 0
Lost token s = (token < s.next_token) × (is_current s.dir.processing token ≡ false)

still_false : (b c : Bool) → (c ≡ true → b ≡ true) → b ≡ false → c ≡ false
still_false b true back h = cc (back refl)
still_false b false back h = refl

Fenced-Lost : (token u : ℕ) (s t : System) → Fenced token s t → Lost u s → Lost u t
Fenced-Lost token u s t f (given, lost) =
    let tokens = f.tokens in
    (
      omega (arith, tokens, given),
      still_false (is_current s.dir.processing u) (is_current t.dir.processing u) (f.back u) lost,
    )

claim-Lost :
    (settings : Settings) (k u : ℕ) (s : System) (r : ClaimResult × JobDir)
    → ClaimEnds settings k s.now s.next_token s.dir r
    → Lost u s
    → Lost u (elim r.0 [
      | claimed ↦ record (set_phase s.next_token working s) {
        dir = r.1;
        next_token = s.next_token + 1;
      }
      | busy ↦ record s { dir = r.1 }
      | already_parsed ↦ record s { dir = r.1 }
      | parse_failed ↦ record s { dir = r.1 }
      | claim_error why ↦ record s { dir = r.1 }
    ])
claim-Lost settings k u s r c (given, lost) =
    let false_again =
      still_false (is_current s.dir.processing u) (is_current r.1.processing u)
        (claim_job-back settings k s.now s.next_token s.dir r u c given) lost in
    claim-cases r.0 false_again
  where
    claim-cases :
        (x : ClaimResult)
        → is_current r.1.processing u ≡ false
        → Lost u (elim x [
          | claimed ↦ record (set_phase s.next_token working s) {
            dir = r.1;
            next_token = s.next_token + 1;
          }
          | busy ↦ record s { dir = r.1 }
          | already_parsed ↦ record s { dir = r.1 }
          | parse_failed ↦ record s { dir = r.1 }
          | claim_error why ↦ record s { dir = r.1 }
        ])
    claim-cases claimed h = (omega (arith, given), h)
    claim-cases busy h = (given, h)
    claim-cases already_parsed h = (given, h)
    claim-cases parse_failed h = (given, h)
    claim-cases (claim_error why) h = (given, h)

kill_claiming-Lost :
    (settings : Settings) (k : ℕ) (force : Bool) (steps u : ℕ) (s : System)
    → IsSound settings k s
    → Lost u s
    → Lost u (act_kill_claiming settings force steps s)
unfolding act_kill_claiming
kill_claiming-Lost settings k force steps u s sound (given, lost) =
    let t = claim_job settings force s.now s.next_token s.dir in
    (
      omega (arith, given),
      state_at-each (λ e. is_current e.processing u ≡ false) steps t.0 s.dir
          (EachDir-map
            (λ e emptied.
              still_false (is_current s.dir.processing u) (is_current e.processing u)
                (emptied.back u) lost)
            t.0 (claim_job-Claims settings force k s.now s.next_token s.dir sound.counted).passes)
          lost,
    )

act-Lost :
    (settings : Settings) (k : ℕ) (a : WorkerAction) (u : ℕ) (s : System)
    → IsSound settings k s
    → Lost u s
    → Lost u (act settings a s)
unfolding act act_claim
act-Lost settings k (wait n) u s sound lost = lost
act-Lost settings k (claim force) u s sound lost =
    claim-Lost settings k u s _
      (claim_job-Claims settings force k s.now s.next_token s.dir sound.counted).ends lost
act-Lost settings k (kill_claiming force n) u s sound lost =
    kill_claiming-Lost settings k force n u s sound lost
act-Lost settings k (heartbeat t) u s sound lost =
    Fenced-Lost t u s _ (act_worker-Fenced settings (heartbeat t) (s.phase t) s) lost
act-Lost settings k (prepare t o) u s sound lost =
    Fenced-Lost t u s _ (act_worker-Fenced settings (prepare t o) (s.phase t) s) lost
act-Lost settings k (commit f t) u s sound lost =
    Fenced-Lost t u s _ (act_worker-Fenced settings (commit f t) (s.phase t) s) lost
act-Lost settings k (fail t) u s sound lost =
    Fenced-Lost t u s _ (act_worker-Fenced settings (fail t) (s.phase t) s) lost
act-Lost settings k (report t) u s sound lost =
    Fenced-Lost t u s _ (act_worker-Fenced settings (report t) (s.phase t) s) lost
act-Lost settings k (finish t) u s sound lost =
    Fenced-Lost t u s _ (act_worker-Fenced settings (finish t) (s.phase t) s) lost
act-Lost settings k (kill t) u s sound lost =
    Fenced-Lost t u s _ (act_worker-Fenced settings (kill t) (s.phase t) s) lost
act-Lost settings k (kill_committing f t n) u s sound lost =
    Fenced-Lost t u s _ (act_worker-Fenced settings (kill_committing f t n) (s.phase t) s) lost
act-Lost settings k (kill_reporting t n) u s sound lost =
    Fenced-Lost t u s _ (act_worker-Fenced settings (kill_reporting t n) (s.phase t) s) lost
act-Lost settings k (kill_finishing t n) u s sound lost =
    Fenced-Lost t u s _ (act_worker-Fenced settings (kill_finishing t n) (s.phase t) s) lost

act_all-Lost :
    (settings : Settings) (k : ℕ) (actions : List WorkerAction) (u : ℕ) (s : System)
    → IsSound settings k s
    → Lost u s
    → Lost u (act_all settings actions s)
unfolding act_all
act_all-Lost settings k [] u s sound lost = lost
act_all-Lost settings k (a ∷ as') u s sound lost =
    act_all-Lost settings (k + cost a) as' u (act settings a s) (act-IsSound settings k a s sound)
      (act-Lost settings k a u s sound lost)

lost_by : (m : Marker) {v t : ℕ} → v ≡ t → is_current m t ≡ false → is_current m v ≡ false
lost_by m same lost = subst (λ u. is_current m u ≡ false) (sym same) lost

act-unchanged :
    (settings : Settings) (a : WorkerAction) (t : ℕ) (s : System)
    → IsStepOf t a
    → is_current s.dir.processing t ≡ false
    → published (act settings a s).dir ≡ published s.dir
unfolding act
act-unchanged settings (wait n) t s mine lost = absurd mine
act-unchanged settings (claim force) t s mine lost = absurd mine
act-unchanged settings (kill_claiming force n) t s mine lost = absurd mine
act-unchanged settings (heartbeat v) t s mine lost =
    (act_worker-Fenced settings (heartbeat v) (s.phase v) s).unchanged
      (lost_by s.dir.processing mine lost)
act-unchanged settings (prepare v o) t s mine lost =
    (act_worker-Fenced settings (prepare v o) (s.phase v) s).unchanged
      (lost_by s.dir.processing mine lost)
act-unchanged settings (commit f v) t s mine lost =
    (act_worker-Fenced settings (commit f v) (s.phase v) s).unchanged
      (lost_by s.dir.processing mine lost)
act-unchanged settings (fail v) t s mine lost =
    (act_worker-Fenced settings (fail v) (s.phase v) s).unchanged
      (lost_by s.dir.processing mine lost)
act-unchanged settings (report v) t s mine lost =
    (act_worker-Fenced settings (report v) (s.phase v) s).unchanged
      (lost_by s.dir.processing mine lost)
act-unchanged settings (finish v) t s mine lost =
    (act_worker-Fenced settings (finish v) (s.phase v) s).unchanged
      (lost_by s.dir.processing mine lost)
act-unchanged settings (kill v) t s mine lost =
    (act_worker-Fenced settings (kill v) (s.phase v) s).unchanged
      (lost_by s.dir.processing mine lost)
act-unchanged settings (kill_committing f v n) t s mine lost =
    (act_worker-Fenced settings (kill_committing f v n) (s.phase v) s).unchanged
      (lost_by s.dir.processing mine lost)
act-unchanged settings (kill_reporting v n) t s mine lost =
    (act_worker-Fenced settings (kill_reporting v n) (s.phase v) s).unchanged
      (lost_by s.dir.processing mine lost)
act-unchanged settings (kill_finishing v n) t s mine lost =
    (act_worker-Fenced settings (kill_finishing v n) (s.phase v) s).unchanged
      (lost_by s.dir.processing mine lost)

-- Once a worker has lost its claim, no step of it changes the documents, the markers or the attempts,
-- whatever steps of all workers are in between.
pub act-Lost_worker :
    (settings : Settings) (now : ℕ) (before between : List WorkerAction) (token : ℕ)
    (step : WorkerAction)
    → Lost token (act_all settings before (new_system now))
    → IsStepOf token step
    → let s = act_all settings between (act_all settings before (new_system now)) in
      published (act settings step s).dir ≡ published s.dir
act-Lost_worker settings now before between token step lost mine =
    let s = act_all settings before (new_system now) in
    act-unchanged settings step token (act_all settings between s) mine
      (act_all-Lost settings (interruptions before) between token s
        (new_system-IsSound settings now before) lost).1
