-- ===== src/Parser/Committing.antt =====
-- What `_commit_success` of src/commercialrchproxy/parser/worker.py leaves, also where it is killed.
use commercial_rchproxy.Common.{
  ℕ, true, false, some, ◌≡◌, refl, sym, subst, ◌∙◌, if-cases, option-cases,
}
use commercial_rchproxy.Parser.Job.{
  Outputs, JobDir, Trace, Settings, Outcome, done, raised, parsed_valid, outputs_match, is_current,
  find_staging, clear_failed, clear_attempts,
}
use commercial_rchproxy.Parser.Commit.{
  CommitFaults, Prepared, clean_stagings, move_away, move_back, move_in, publish, check_output,
  replace_output, check_staging, is_some, commit_success, drop_superseded, write_parsed,
}
use commercial_rchproxy.Parser.Facts.{
  some-cases, Matches, Consistent, Counted, IsOpen, EachDir-map, Traced, Traced-passing, Traced-end,
  Keeps, Kept, Same, Same-refl, Same-trans, Same-Keeps,
}

clean_stagings-Same : (token : ℕ) (d : JobDir) → Same d (clean_stagings token d)
unfolding clean_stagings
clean_stagings-Same token d = record {
  processing = refl;
  parsed = refl;
  parse_failed = refl;
  attempts = refl;
}

move_away-Same : (token : ℕ) (d : JobDir) → Same d (move_away token d)
unfolding move_away
move_away-Same token d =
    option-cases (Same d) d.output (λ _. Same-refl d)
      (λ old _. record { processing = refl; parsed = refl; parse_failed = refl; attempts = refl })

move_in-Same : (token : ℕ) (staged : Outputs) (d : JobDir) → Same d (move_in token staged d)
unfolding move_in
move_in-Same token staged d = record {
  processing = refl;
  parsed = refl;
  parse_failed = refl;
  attempts = refl;
}

move_back-Same : (token : ℕ) (d : JobDir) → Same d (move_back token d)
unfolding move_back
move_back-Same token d =
    some-cases (Same d) d.output (λ _ _. Same-refl d)
      (λ _.
        option-cases (Same d) (find_staging token d.superseded) (λ _. Same-refl d)
          (λ old _. record {
            processing = refl;
            parsed = refl;
            parse_failed = refl;
            attempts = refl;
          }))

-- What a commit from `d` leaves: published documents that match, or the markers as they were.
abbrev Ends : Settings → ℕ → JobDir → Outcome → Type 0
Ends settings k d (done e) = Consistent e × Counted settings k e × (e.processing ≡ d.processing)
Ends settings k d (raised why e) = Same d e

abbrev Leaves : Settings → ℕ → JobDir → Trace Outcome → Type 0
Leaves settings k d = Traced (Keeps settings k k d) (Ends settings k d)

publish-Leaves :
    (settings : Settings) (k : ℕ) (faults : CommitFaults) (token : ℕ) (p : Prepared) (b d : JobDir)
    → Same b d
    → Matches d.output
        (some (record { document_count = p.document_count; metadata_hash = p.metadata_hash }))
    → Leaves settings k b (publish faults token p d)
unfolding publish drop_superseded write_parsed clear_failed clear_attempts
publish-Leaves settings k faults token p b d s good =
    let unparsed : IsOpen b → Matches d.output d.parsed =
      λ unpublished. subst (Matches d.output) (sym (s.parsed ∙ unpublished.0)) tt in
    record {
      passes = (
        record {
          processing = s.processing;
          of_open = λ unpublished _. (unparsed unpublished, s.parse_failed ∙ unpublished.1);
        },
        (
          record {
            processing = s.processing;
            of_open = λ unpublished _. (unparsed unpublished, refl);
          },
          (record { processing = s.processing; of_open = λ _ _. (good, refl) }, tt),
        ),
      );
      ends =
          if-cases
            (λ (e : JobDir). Consistent e × Counted settings k e × (e.processing ≡ b.processing))
            faults.cleanup_fails (λ _. (good, refl, s.processing))
            (λ _. (good, refl, s.processing));
    }

check_output-Leaves :
    (settings : Settings) (k : ℕ) (faults : CommitFaults) (token : ℕ) (p : Prepared) (b d : JobDir)
    → Same b d
    → Leaves settings k b (check_output faults token p d)
unfolding check_output parsed_valid
check_output-Leaves settings k faults token p b d s =
    option-cases (Leaves settings k b) d.output (λ _. Traced-end s)
      (λ o there.
        if-cases (Leaves settings k b) (outputs_match o p.metadata_hash p.document_count)
          (λ good. publish-Leaves settings k faults token p b d s (
            subst
              (λ x. Matches x (
                some
                  (record { document_count = p.document_count; metadata_hash = p.metadata_hash })))
              (sym there) good))
          (λ _. Traced-end s))

replace_output-Leaves :
    (settings : Settings) (k : ℕ) (faults : CommitFaults) (token : ℕ) (p : Prepared)
    (staged : Outputs) (b d : JobDir)
    → Same b d
    → Leaves settings k b (replace_output faults token p staged d)
unfolding replace_output
replace_output-Leaves settings k faults token p staged b d s =
    let away = move_away token d in
    let placed = move_in token staged away in
    let moved = Same-trans s (move_away-Same token d) in
    let in_place = Same-trans moved (move_in-Same token staged away) in
    Traced-passing (Same-Keeps settings k b away moved) (
      if-cases (Leaves settings k b) faults.rename_fails
        (λ _. Traced-end (Same-trans moved (move_back-Same token away)))
        (λ _.
          Traced-passing (Same-Keeps settings k b placed in_place)
            (check_output-Leaves settings k faults token p b placed in_place)))

check_staging-Leaves :
    (settings : Settings) (k : ℕ) (faults : CommitFaults) (token : ℕ) (p : Prepared) (b d : JobDir)
    → Same b d
    → Leaves settings k b (check_staging faults token p d)
unfolding check_staging
check_staging-Leaves settings k faults token p b d s =
    option-cases (Leaves settings k b) (find_staging token d.stagings) (λ _. Traced-end s)
      (λ staged _.
        if-cases (Leaves settings k b) (outputs_match staged p.metadata_hash p.document_count)
          (λ _.
            if-cases (Leaves settings k b) (is_some (find_staging token d.superseded))
              (λ _. Traced-end s)
              (λ _. replace_output-Leaves settings k faults token p staged b d s))
          (λ _. Traced-end s))

-- Only the worker whose claim is current publishes anything.
abbrev pub CommitEnds : Settings → ℕ → ℕ → JobDir → Outcome → Type 0
CommitEnds settings k token d (done e) =
    (is_current d.processing token ≡ true)
    × Consistent e
    × Counted settings k e
    × (e.processing ≡ d.processing)
CommitEnds settings k token d (raised why e) =
    Same d e × (is_current d.processing token ≡ false → e ≡ d)

abbrev pub Commits : Settings → ℕ → ℕ → JobDir → Trace Outcome → Type 0
Commits settings k token d = Traced (Kept settings k k token d) (CommitEnds settings k token d)

Ends-CommitEnds :
    (settings : Settings) (k token : ℕ) (d : JobDir) (o : Outcome)
    → is_current d.processing token ≡ true
    → Ends settings k d o
    → CommitEnds settings k token d o
Ends-CommitEnds settings k token d (done e) current l = (current, l.0, l.1, l.2)
Ends-CommitEnds settings k token d (raised why e) current l = (l, λ lost. cc)

Leaves-Commits :
    (settings : Settings) (k token : ℕ) (d : JobDir) (t : Trace Outcome)
    → is_current d.processing token ≡ true
    → Leaves settings k d t
    → Commits settings k token d t
Leaves-Commits settings k token d t current l = record {
  passes = EachDir-map (λ e keeps. record { current = current; keeps = keeps }) t.0 l.passes;
  ends = Ends-CommitEnds settings k token d t.1 current l.ends;
}

pub commit_success-Commits :
    (settings : Settings) (k : ℕ) (faults : CommitFaults) (token : ℕ) (p : Prepared) (d : JobDir)
    → Commits settings k token d (commit_success faults token p d)
unfolding commit_success
commit_success-Commits settings k faults token p d =
    let cleaned = clean_stagings token d in
    let s = clean_stagings-Same token d in
    if-cases (Commits settings k token d) (is_current d.processing token)
      (λ current. Leaves-Commits settings k token d _ current (
        Traced-passing (Same-Keeps settings k d cleaned s) (
          if-cases (Leaves settings k d) d.capture_valid
            (λ _. check_staging-Leaves settings k faults token p d cleaned s) (λ _. Traced-end s))))
      (λ _. Traced-end (Same-refl d, λ _. refl))
