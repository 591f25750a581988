-- ===== src/Parser/Interrupted.antt =====
-- A worker of src/commercialrchproxy/parser/worker.py that is killed between two durable steps.
use commercial_rchproxy.Common.{ℕ, ◌+◌, Bool, List, [], ◌∷◌, arith}
use commercial_rchproxy.Parser.Job.{JobDir, Trace, Settings, claim_job}
use commercial_rchproxy.Parser.Facts.{EachDir, EachDir-map, state_at-each, Kept}
use commercial_rchproxy.Parser.Claiming.{Emptied, Counts-mono, claim_job-Claims}
use commercial_rchproxy.Parser.Workers.{
  over, System, WorkerAction, kill_claiming, kill_reporting, set_phase, killed_at,
  act_kill_claiming, finish_dir,
}
use commercial_rchproxy.Parser.Owners.{
  MayPublish, IsSound, sole_owner, set_owner, set_phase-IsSound,
}

-- How many interruptions may let one more attempt pass.
abbrev pub cost : WorkerAction → ℕ
cost (kill_claiming force n) = 1
cost (kill_reporting token n) = 1
cost _ = 0

abbrev pub interruptions : List WorkerAction → ℕ
interruptions [] = 0
interruptions (a ∷ as') = cost a + interruptions as'

pub after_more :
    (settings : Settings) (k c : ℕ) (s : System) → IsSound settings k s → IsSound settings (k + c) s
after_more settings k c s sound = record {
  consistent = sound.consistent;
  counted =
      Counts-mono settings.parser_retry_count k (k + c) s.dir.attempts s.dir.parse_failed
        (omega arith) sound.counted;
  owned = sound.owned;
}

killed_here :
    (settings : Settings) (k m token : ℕ) (s : System)
    → IsSound settings k s
    → MayPublish (s.phase token)
    → (e : JobDir) → Kept settings k m token s.dir e
    → IsSound settings m (set_phase token over (record s { dir = e }))
killed_here settings k m token s sound was e kept =
    let (matches, counted) =
      kept.keeps.of_open (sound.owned token kept.current was) sound.counted in
    record {
      consistent = matches;
      counted = counted;
      owned = sole_owner s token over e (λ may. may) kept.current kept.keeps.processing;
    }

-- A worker that is killed between two durable steps.
pub killed_at-IsSound :
    {R : Type 0} (settings : Settings) (k c token steps : ℕ) (t : Trace R) (s : System)
    → IsSound settings k s
    → MayPublish (s.phase token)
    → EachDir (Kept settings k (k + c) token s.dir) t.0
    → IsSound settings (k + c) (killed_at token steps t s)
killed_at-IsSound settings k c token steps t s sound was each =
    state_at-each (λ e. IsSound settings (k + c) (set_phase token over (record s { dir = e })))
      steps t.0 s.dir (EachDir-map (killed_here settings k (k + c) token s sound was) t.0 each)
      (set_phase-IsSound settings (k + c) token over s (after_more settings k c s sound)
        (λ may. absurd may))

killed_in_claim :
    (settings : Settings) (k m : ℕ) (s : System) (token next : ℕ)
    → IsSound settings k s
    → (e : JobDir) → Emptied settings k m s.dir e
    → IsSound settings m
        (record (set_phase token over (record s { dir = e })) { next_token = next })
killed_in_claim settings k m s token next sound e emptied = record {
  consistent = emptied.consistent sound.consistent;
  counted = emptied.counted;
  owned =
      set_owner s token over e (λ may. absurd may)
        (λ t _ current may. emptied.unpublished (sound.owned t (emptied.back t current) may));
}

pub act_kill_claiming-IsSound :
    (settings : Settings) (k : ℕ) (force : Bool) (steps : ℕ) (s : System)
    → IsSound settings k s
    → IsSound settings (k + 1) (act_kill_claiming settings force steps s)
unfolding act_kill_claiming
act_kill_claiming-IsSound settings k force steps s sound =
    let t = claim_job settings force s.now s.next_token s.dir in
    let P = λ (e : JobDir).
      IsSound settings (k + 1) (record (set_phase s.next_token over (record s { dir = e })) {
        next_token = s.next_token + 1;
      }) in
    let now =
      set_phase-IsSound settings (k + 1) s.next_token over s (after_more settings k 1 s sound)
        (λ may. absurd may) in
    state_at-each P steps t.0 s.dir
      (EachDir-map (killed_in_claim settings k (k + 1) s s.next_token (s.next_token + 1) sound) t.0
        (claim_job-Claims settings force k s.now s.next_token s.dir sound.counted).passes)
      (record { consistent = now.consistent; counted = now.counted; owned = now.owned })

pub Kept-more :
    (settings : Settings) (k c token : ℕ) (d e : JobDir)
    → Kept settings k k token d e
    → Kept settings k (k + c) token d e
Kept-more settings k c token d e kept = record {
  current = kept.current;
  keeps = record {
    processing = kept.keeps.processing;
    of_open = λ unpublished counted.
        let (matches, now_counted) = kept.keeps.of_open unpublished counted in
        (
          matches,
          Counts-mono settings.parser_retry_count k (k + c) e.attempts e.parse_failed (omega arith)
              now_counted,
        );
  };
}

pub kill_finishing-IsSound :
    (settings : Settings) (k token steps : ℕ) (s : System)
    → IsSound settings k s
    → IsSound settings k (killed_at token steps (finish_dir token s.dir) s)
unfolding finish_dir
kill_finishing-IsSound settings k token steps s sound =
    let P = λ (e : JobDir). IsSound settings k (set_phase token over (record s { dir = e })) in
    let kept : P s.dir = set_phase-IsSound settings k token over s sound (λ may. absurd may) in
    state_at-each P steps (finish_dir token s.dir).0 s.dir
      (record { consistent = kept.consistent; counted = kept.counted; owned = kept.owned }, tt) kept
