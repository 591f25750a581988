-- ===== src/Parser/Publishing.antt =====
-- The steps of src/commercialrchproxy/parser/worker.py that prepare and commit documents.
use commercial_rchproxy.Common.{
  ℕ, true, none, some, ◌≡◌, refl, subst, inl, inr, if-cases, Bool-cases,
}
use commercial_rchproxy.Parser.Job.{
  Outputs, marker_file, Settings, Outcome, done, raised, is_current, refresh_claim, find_staging,
}
use commercial_rchproxy.Parser.Commit.{CommitFaults, Prepared}
use commercial_rchproxy.Parser.Facts.{some-cases, Same-Keeps}
use commercial_rchproxy.Parser.Committing.{CommitEnds, commit_success-Commits}
use commercial_rchproxy.Parser.Claiming.{refresh-current}
use commercial_rchproxy.Parser.Workers.{
  failing, ending, System, set_phase, act_prepare, add_staging, prepared_of, act_commit,
}
use commercial_rchproxy.Parser.Owners.{
  MayPublish, IsSound, sole_owner, same_owner, set_phase-IsSound,
}

pub act_prepare-IsSound :
    (settings : Settings) (k token : ℕ) (o : Outputs) (s : System)
    → IsSound settings k s
    → MayPublish (s.phase token)
    → IsSound settings k (act_prepare token o s)
unfolding act_prepare refresh_claim
act_prepare-IsSound settings k token o s sound was =
    let e = record s.dir { processing = marker_file (some token) s.now } in
    let P = λ (x : Outcome). IsSound settings k (elim x [
      | raised why d ↦ set_phase token failing s
      | done d ↦ elim (find_staging token d.stagings) [
        | some old ↦ set_phase token failing (record s { dir = d })
        | none ↦ set_phase token (prepared_of o) (record s { dir = add_staging token o d })
      ]
    ]) in
    if-cases P (is_current s.dir.processing token)
      (λ current.
        let back = λ (t : ℕ). refresh-current s.dir.processing token s.now t current in
        some-cases (IsSound settings k) (find_staging token s.dir.stagings)
          (λ old _. record {
            consistent = sound.consistent;
            counted = sound.counted;
            owned = same_owner settings k s token failing e sound back refl refl (λ _. was);
          })
          (λ _. record {
            consistent = sound.consistent;
            counted = sound.counted;
            owned =
                same_owner settings k s token (prepared_of o) (add_staging token o e) sound back
                  refl refl (λ _. was);
          }))
      (λ _. set_phase-IsSound settings k token failing s sound (λ _. was))

pub commit-outcome :
    (settings : Settings) (k token : ℕ) (s : System) (x : Outcome)
    → IsSound settings k s
    → MayPublish (s.phase token)
    → CommitEnds settings k token s.dir x
    → IsSound settings k (elim x [
      | done d ↦ set_phase token ending (record s { dir = d })
      | raised why d ↦ set_phase token failing (record s { dir = d })
    ])
commit-outcome settings k token s (done e) sound was (current, matches, counted, same) = record {
  consistent = matches;
  counted = counted;
  owned = sole_owner s token ending e (λ may. may) current same;
}
commit-outcome settings k token s (raised why e) sound was (same, lost) =
    let back = λ (t : ℕ). subst (λ m. is_current m t ≡ true) same.processing in
    elim (Bool-cases (is_current s.dir.processing token)) [
      | inl current ↦
          let kept =
            (Same-Keeps settings k s.dir e same).of_open (sound.owned token current was)
              sound.counted in
          record {
            consistent = kept.0;
            counted = kept.1;
            owned =
                same_owner settings k s token failing e sound back same.parsed same.parse_failed
                  (λ _. was);
          }
      | inr gone ↦ rw (lost gone) (set_phase-IsSound settings k token failing s sound (λ _. was))
    ]

pub act_commit-IsSound :
    (settings : Settings) (k : ℕ) (faults : CommitFaults) (token : ℕ) (p : Prepared) (s : System)
    → IsSound settings k s
    → MayPublish (s.phase token)
    → IsSound settings k (act_commit faults token p s)
unfolding act_commit
act_commit-IsSound settings k faults token p s sound was =
    commit-outcome settings k token s _ sound was
      (commit_success-Commits settings k faults token p s.dir).ends
