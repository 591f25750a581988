-- ===== src/Parser/Facts.antt =====
-- What the operations of src/commercialrchproxy/parser/worker.py keep true of a job's directory.
use commercial_rchproxy.Common.{
  ℕ, ◌+◌, ◌-◌, ◌≤◌, List, [], ◌∷◌, ◌==◌, Bool, true, false, Option, none, some, ltb, ◌≡◌, refl, sym,
  subst, ◌∙◌, if-cases,
}
use commercial_rchproxy.Parser.Job.{
  Outputs, ParsedMarker, Attempts, no_attempts, invalid_attempts, attempts_made, JobDir, Trace,
  passing, state_at, Settings, parsed_valid, is_current,
}

-- `.parsed` is there only for documents that it describes.
abbrev pub Matches : Option Outputs → Option ParsedMarker → Type 0
Matches o none = Unit {0}
Matches o (some m) = parsed_valid o m ≡ true

abbrev pub Consistent : JobDir → Type 0
Consistent d = Matches d.output d.parsed

-- `.parse_failed` is there just when the attempts are more than the retries, and they are then one
-- more; an interruption between two writes may let one more attempt pass without it.
abbrev pub Counts : (retries interrupted : ℕ) → Attempts → Bool → Type 0
Counts retries interrupted no_attempts failed = failed ≡ false
Counts retries interrupted invalid_attempts failed = ⊥
Counts retries interrupted (attempts_made n) failed =
    (n ≤ retries + 1 + interrupted)
    × (failed ≡ true → ltb retries n ≡ true)
    × (failed ≡ false → n ≤ retries + interrupted)

abbrev pub Counted : Settings → ℕ → JobDir → Type 0
Counted settings interrupted d =
    Counts settings.parser_retry_count interrupted d.attempts d.parse_failed

-- Neither completion marker is there.
abbrev pub IsOpen : JobDir → Type 0
IsOpen d = (d.parsed ≡ none) × (d.parse_failed ≡ false)

abbrev pub EachDir : (JobDir → Type 0) → List JobDir → Type 0
EachDir P [] = Unit {0}
EachDir P (d ∷ ds) = P d × EachDir P ds

pub EachDir-map :
    {P Q : JobDir → Type 0}
    → ((d : JobDir) → P d → Q d)
    → (ds : List JobDir) → EachDir P ds
    → EachDir Q ds
EachDir-map f [] each = tt
EachDir-map f (d ∷ ds) (here, there) = (f d here, EachDir-map f ds there)

pub state_at-each :
    (P : JobDir → Type 0) (steps : ℕ) (ds : List JobDir) (d : JobDir)
    → EachDir P ds
    → P d
    → P (state_at steps ds d)
state_at-each P steps [] d each now = now
state_at-each P steps (e ∷ es) d (here, there) now =
    if-cases P (steps == 0) (λ _. now) (λ _. state_at-each P (steps - 1) es e there here)

-- What holds of the directories that an operation passes, and of its result.
pub record Traced {R : Type 0} (P : JobDir → Type 0) (E : R → Type 0) (t : Trace R) : Type 0 where
  pub passes : EachDir P t.0
  pub ends : E t.1

pub Traced-passing :
    {R : Type 0} {P : JobDir → Type 0} {E : R → Type 0} {d : JobDir} {t : Trace R}
    → P d
    → Traced P E t
    → Traced P E (passing d t)
Traced-passing p h = record { passes = (p, h.passes); ends = h.ends }

pub Traced-end :
    {R : Type 0} {P : JobDir → Type 0} {E : R → Type 0} {r : R} → E r → Traced P E ([], r)
Traced-end e = record { passes = tt; ends = e }

-- What a directory that is passed keeps of an open job.
pub record Keeps (settings : Settings) (k m : ℕ) (d e : JobDir) : Type 0 where
  pub processing : e.processing ≡ d.processing
  pub of_open : IsOpen d → Counted settings k d → Consistent e × Counted settings m e

-- The same, under a claim that is current.
pub record Kept (settings : Settings) (k m token : ℕ) (d e : JobDir) : Type 0 where
  pub current : is_current d.processing token ≡ true
  pub keeps : Keeps settings k m d e

-- What the preparation of a commit does not change.
pub record Same (d e : JobDir) : Type 0 where
  pub processing : e.processing ≡ d.processing
  pub parsed : e.parsed ≡ d.parsed
  pub parse_failed : e.parse_failed ≡ d.parse_failed
  pub attempts : e.attempts ≡ d.attempts

pub Same-refl : (d : JobDir) → Same d d
Same-refl d = record { processing = refl; parsed = refl; parse_failed = refl; attempts = refl }

pub Same-trans : {d e f : JobDir} → Same d e → Same e f → Same d f
Same-trans s t = record {
  processing = t.processing ∙ s.processing;
  parsed = t.parsed ∙ s.parsed;
  parse_failed = t.parse_failed ∙ s.parse_failed;
  attempts = t.attempts ∙ s.attempts;
}

pub Same-Keeps : (settings : Settings) (k : ℕ) (d e : JobDir) → Same d e → Keeps settings k k d e
Same-Keeps settings k d e same = record {
  processing = same.processing;
  of_open = λ unpublished counted. (
    subst (λ m. Matches e.output m) (sym (same.parsed ∙ unpublished.0)) tt,
    subst (λ f. Counts settings.parser_retry_count k e.attempts f) (sym same.parse_failed)
        (subst (λ n. Counts settings.parser_retry_count k n d.parse_failed) (sym same.attempts)
          counted),
  );
}

pub some-cases {ℓ κ μ} :
    {A : Type ℓ} {B : Type κ} (P : B → Type μ) (o : Option A) {f : A → B} {x : B}
    → ((a : A) → o ≡ some a → P (f a))
    → (o ≡ none → P x)
    → P (elim o [ some a ↦ f a | none ↦ x ])
some-cases P none some_case none_case = none_case refl
some-cases P (some a) some_case none_case = some_case a refl
