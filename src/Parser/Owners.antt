-- ===== src/Parser/Owners.antt =====
-- Who may publish a job of src/commercialrchproxy/parser/worker.py: the invariant and the steps that
-- leave the markers alone.
use commercial_rchproxy.Common.{
  ℕ, true, false, none, some, ◌==◌, ◌≡◌, refl, subst, ◌∙◌, if-cases, arith,
}
use commercial_rchproxy.Parser.Job.{
  Marker, absent, unsafe, marker_file, JobDir, Settings, Outcome, done, raised, is_current,
  refresh_claim,
}
use commercial_rchproxy.Parser.Facts.{Consistent, Counted, IsOpen}
use commercial_rchproxy.Parser.Claiming.{refresh-current}
use commercial_rchproxy.Parser.Workers.{
  Phase, working, failing, prepared, System, set_phase, act_heartbeat,
}

-- The phases in which a worker may still publish.
abbrev pub MayPublish : Phase → Type 0
MayPublish working = Unit {0}
MayPublish failing = Unit {0}
MayPublish (prepared p) = Unit {0}
MayPublish _ = ⊥

abbrev pub Owned : System → Type 0
Owned s = (t : ℕ) → is_current s.dir.processing t ≡ true → MayPublish (s.phase t) → IsOpen s.dir

pub record IsSound (settings : Settings) (k : ℕ) (s : System) : Type 0 where
  pub consistent : Consistent s.dir
  pub counted : Counted settings k s.dir
  -- while the worker of the current claim may publish, nothing is published
  pub owned : Owned s

-- A claim has one token.
pub current_unique : (m : Marker) (t u : ℕ) → is_current m t ≡ true → is_current m u ≡ true → t ≡ u
unfolding is_current
current_unique absent t u h k = cc
current_unique unsafe t u h k = cc
current_unique (marker_file none mtime) t u h k = cc
current_unique (marker_file (some v) mtime) t u h k = ground (arith, h, k)

pub set_owner :
    (s : System) (token : ℕ) (p : Phase) (e : JobDir)
    → (MayPublish p → is_current e.processing token ≡ true → IsOpen e)
    → ((t : ℕ)
        → (t == token) ≡ false
        → is_current e.processing t ≡ true
        → MayPublish (s.phase t)
        → IsOpen e)
    → Owned (set_phase token p (record s { dir = e }))
set_owner s token p e own others t current =
    if-cases (λ (q : Phase). MayPublish q → IsOpen e) (t == token)
      (λ same may.
        own may (subst (λ u. is_current e.processing u ≡ true) (ground (arith, same)) current))
      (λ other may. others t other current may)

-- A step that leaves the markers alone and moves a worker to a phase.
pub same_owner :
    (settings : Settings) (k : ℕ) (s : System) (token : ℕ) (p : Phase) (e : JobDir)
    → IsSound settings k s
    → ((t : ℕ) → is_current e.processing t ≡ true → is_current s.dir.processing t ≡ true)
    → e.parsed ≡ s.dir.parsed
    → e.parse_failed ≡ s.dir.parse_failed
    → (MayPublish p → MayPublish (s.phase token))
    → Owned (set_phase token p (record s { dir = e }))
same_owner settings k s token p e sound back parsed failed was =
    let moved : IsOpen s.dir → IsOpen e = λ o. (parsed ∙ o.0, failed ∙ o.1) in
    set_owner s token p e (λ may current. moved (sound.owned token (back token current) (was may)))
      (λ t _ current may. moved (sound.owned t (back t current) may))

-- A step of the current claim, after which its worker publishes nothing.
pub sole_owner :
    (s : System) (token : ℕ) (p : Phase) (e : JobDir)
    → (MayPublish p → ⊥)
    → is_current s.dir.processing token ≡ true
    → e.processing ≡ s.dir.processing
    → Owned (set_phase token p (record s { dir = e }))
sole_owner s token p e ended current same =
    set_owner s token p e (λ may. absurd (ended may))
      (λ t other now_current.
        let back = subst (λ m. is_current m t ≡ true) same now_current in
        let one = current_unique s.dir.processing t token back current in
        absurd (ground (arith, one, other)))

pub act_heartbeat-IsSound :
    (settings : Settings) (k token : ℕ) (s : System)
    → IsSound settings k s
    → IsSound settings k (act_heartbeat token s)
unfolding act_heartbeat refresh_claim
act_heartbeat-IsSound settings k token s sound =
    let P = λ (o : Outcome).
      IsSound settings k (elim o [ done d ↦ record s { dir = d } | raised why d ↦ s ]) in
    if-cases P (is_current s.dir.processing token)
      (λ current. record {
        consistent = sound.consistent;
        counted = sound.counted;
        owned = λ t new. sound.owned t (refresh-current s.dir.processing token s.now t current new);
      })
      (λ _. sound)

-- A worker that may publish goes to a phase.
pub set_phase-IsSound :
    (settings : Settings) (k token : ℕ) (p : Phase) (s : System)
    → IsSound settings k s
    → (MayPublish p → MayPublish (s.phase token))
    → IsSound settings k (set_phase token p s)
set_phase-IsSound settings k token p s sound was = record {
  consistent = sound.consistent;
  counted = sound.counted;
  owned = same_owner settings k s token p s.dir sound (λ t h. h) refl refl was;
}
