-- ===== src/Parser/Fencing.antt =====
-- Each step of a worker of src/commercialrchproxy/parser/worker.py is fenced by its claim.
use commercial_rchproxy.Common.{
  ℕ, Bool, true, false, Option, none, some, ◌≡◌, refl, ap, subst, if-cases,
}
use commercial_rchproxy.Parser.Job.{
  Outputs, Attempts, ParsedMarker, JobDir, Settings, Outcome, done, raised, is_current,
  refresh_claim, release_claim, find_staging,
}
use commercial_rchproxy.Parser.Facts.{some-cases}
use commercial_rchproxy.Parser.Committing.{CommitEnds}
use commercial_rchproxy.Parser.Claiming.{refresh-current, none_current}
use commercial_rchproxy.Parser.Workers.{
  Phase, failing, ending, over, System, set_phase, finish_dir, act_heartbeat, act_prepare,
  add_staging, prepared_of, act_finish,
}

-- What readers of the job see.
pub record Published : Type 0 where
  pub output : Option Outputs
  pub parsed : Option ParsedMarker
  pub is_failed : Bool
  pub attempts : Attempts

abbrev pub published : JobDir → Published
published d = record {
  output = d.output;
  parsed = d.parsed;
  is_failed = d.parse_failed;
  attempts = d.attempts;
}

-- The step makes no claim current, and without a current claim of `token` publishes nothing.
pub record Fenced (token : ℕ) (s t : System) : Type 0 where
  pub back : (u : ℕ) → is_current t.dir.processing u ≡ true → is_current s.dir.processing u ≡ true
  pub unchanged : is_current s.dir.processing token ≡ false → published t.dir ≡ published s.dir
  pub tokens : t.next_token ≡ s.next_token

pub Fenced-refl : (token : ℕ) (p : Phase) (s : System) → Fenced token s (set_phase token p s)
Fenced-refl token p s = record { back = λ u h. h; unchanged = λ _. refl; tokens = refl }

pub Fenced-same : (token : ℕ) (s : System) → Fenced token s s
Fenced-same token s = record { back = λ u h. h; unchanged = λ _. refl; tokens = refl }

pub act_heartbeat-Fenced : (token : ℕ) (s : System) → Fenced token s (act_heartbeat token s)
unfolding act_heartbeat refresh_claim
act_heartbeat-Fenced token s =
    let P = λ (o : Outcome).
      Fenced token s (elim o [ done d ↦ record s { dir = d } | raised why d ↦ s ]) in
    if-cases P (is_current s.dir.processing token)
      (λ current. record {
        back = λ u. refresh-current s.dir.processing token s.now u current;
        unchanged = λ _. refl;
        tokens = refl;
      })
      (λ _. Fenced-same token s)

pub act_prepare-Fenced :
    (token : ℕ) (o : Outputs) (s : System) → Fenced token s (act_prepare token o s)
unfolding act_prepare refresh_claim
act_prepare-Fenced token o s =
    let P = λ (x : Outcome). Fenced token s (elim x [
      | raised why d ↦ set_phase token failing s
      | done d ↦ elim (find_staging token d.stagings) [
        | some old ↦ set_phase token failing (record s { dir = d })
        | none ↦ set_phase token (prepared_of o) (record s { dir = add_staging token o d })
      ]
    ]) in
    if-cases P (is_current s.dir.processing token)
      (λ current.
        let back = λ (u : ℕ). refresh-current s.dir.processing token s.now u current in
        some-cases (Fenced token s) (find_staging token s.dir.stagings)
          (λ _ _. record { back = back; unchanged = λ _. refl; tokens = refl })
          (λ _. record { back = back; unchanged = λ _. refl; tokens = refl }))
      (λ _. Fenced-refl token failing s)

pub commit-Fenced :
    (settings : Settings) (k token : ℕ) (s : System) (x : Outcome)
    → CommitEnds settings k token s.dir x
    → Fenced token s (elim x [
      | done d ↦ set_phase token ending (record s { dir = d })
      | raised why d ↦ set_phase token failing (record s { dir = d })
    ])
commit-Fenced settings k token s (done e) (current, matches, counted, same) = record {
  back = λ u. subst (λ m. is_current m u ≡ true) same;
  unchanged = λ lost. cc;
  tokens = refl;
}
commit-Fenced settings k token s (raised why e) (same, lost) = record {
  back = λ u. subst (λ m. is_current m u ≡ true) same.processing;
  unchanged = λ gone. ap published (lost gone);
  tokens = refl;
}

-- A step of the current claim that leaves its marker.
pub current-Fenced :
    (token : ℕ) (p : Phase) (s : System) (e : JobDir)
    → is_current s.dir.processing token ≡ true
    → e.processing ≡ s.dir.processing
    → Fenced token s (set_phase token p (record s { dir = e }))
current-Fenced token p s e current same = record {
  back = λ u. subst (λ m. is_current m u ≡ true) same;
  unchanged = λ lost. cc;
  tokens = refl;
}

pub act_finish-Fenced : (token : ℕ) (s : System) → Fenced token s (act_finish token s)
unfolding act_finish finish_dir release_claim
act_finish-Fenced token s =
    if-cases (λ (d : JobDir). Fenced token s (set_phase token over (record s { dir = d })))
      (is_current s.dir.processing token)
      (λ _. record { back = none_current s.dir.processing; unchanged = λ _. refl; tokens = refl })
      (λ _. record { back = λ u h. h; unchanged = λ _. refl; tokens = refl })
