-- ===== src/Parser/Claiming.antt =====
-- What `_claim_job` of src/commercialrchproxy/parser/worker.py leaves, and which claims are current
-- after a step.
use commercial_rchproxy.Common.{
  ℕ, ◌+◌, ◌-◌, ◌<◌, ◌≤◌, Bool, true, false, Option, none, some, List, ltb, ◌≡◌, refl, subst,
  if-cases, arith,
}
use commercial_rchproxy.Parser.Job.{
  Staging, Marker, absent, unsafe, marker_file, JobDir, Trace, Attempts, no_attempts,
  invalid_attempts, attempts_made, Settings, ClaimResult, claimed, busy, already_parsed,
  parse_failed, claim_error, parsed_valid, is_current, claim_free, claim_job, clear_outputs,
  clear_parsed, clear_failed, clear_attempts, create_marker, clean_orphans, keep_stagings,
}
use commercial_rchproxy.Parser.Facts.{
  some-cases, Consistent, Counts, Counted, IsOpen, Traced, Traced-passing, Traced-end,
}

-- A refreshed claim is the one that was current.
pub refresh-current :
    (m : Marker) (token now t : ℕ)
    → is_current m token ≡ true
    → is_current (marker_file (some token) now) t ≡ true
    → is_current m t ≡ true
unfolding is_current
refresh-current absent token now t h k = cc
refresh-current unsafe token now t h k = cc
refresh-current (marker_file none mtime) token now t h k = cc
refresh-current (marker_file (some v) mtime) token now t h k = ground (arith, h, k)

pub none_current : (m : Marker) (t : ℕ) → is_current absent t ≡ true → is_current m t ≡ true
unfolding is_current
none_current m t h = cc

-- What a directory that a claim passes keeps: it is emptied, step by step.
pub record Emptied (settings : Settings) (k m : ℕ) (d e : JobDir) : Type 0 where
  pub back : (t : ℕ) → is_current e.processing t ≡ true → is_current d.processing t ≡ true
  pub consistent : Consistent d → Consistent e
  pub counted : Counted settings m e
  pub unpublished : IsOpen d → IsOpen e

-- A claim that is granted finds or leaves the job open; else the markers are as they were.
abbrev pub ClaimEnds : Settings → ℕ → ℕ → ℕ → JobDir → ClaimResult × JobDir → Type 0
ClaimEnds settings k now token d (claimed, e) =
    (e.processing ≡ marker_file (some token) now) × IsOpen e × Counted settings k e
ClaimEnds settings k now token d (result, e) =
    (e.output ≡ d.output)
    × (e.parsed ≡ d.parsed)
    × (e.parse_failed ≡ d.parse_failed)
    × (e.attempts ≡ d.attempts)
    × ((t : ℕ) → is_current e.processing t ≡ true → is_current d.processing t ≡ true)

abbrev pub Claims : Settings → ℕ → ℕ → ℕ → JobDir → Trace (ClaimResult × JobDir) → Type 0
Claims settings k now token d =
    Traced (Emptied settings k (k + 1) d) (ClaimEnds settings k now token d)

pub Counts-mono :
    (retries k m : ℕ) (a : Attempts) (failed : Bool)
    → k ≤ m
    → Counts retries k a failed
    → Counts retries m a failed
Counts-mono retries k m no_attempts failed h c = c
Counts-mono retries k m invalid_attempts failed h c = c
Counts-mono retries k m (attempts_made n) failed h (most, only, within) =
    (omega (arith, most, h), only, λ unfailed. let few = within unfailed in omega (arith, few, h))

-- An interruption may leave the attempts without the marker.
unmarked :
    (retries k : ℕ) (a : Attempts) (failed : Bool)
    → Counts retries k a failed
    → Counts retries (k + 1) a false
unmarked retries k no_attempts failed c = refl
unmarked retries k invalid_attempts failed c = c
unmarked retries k (attempts_made n) failed (most, only, within) =
    (omega (arith, most), λ e. cc, λ _. omega (arith, most))

moved-Emptied :
    (settings : Settings) (k : ℕ) (d : JobDir) (l : List Staging)
    → Counted settings k d
    → Emptied settings k (k + 1) d (record d { processing = absent; stagings = l })
moved-Emptied settings k d l counted = record {
  back = none_current d.processing;
  consistent = λ c. c;
  counted =
      Counts-mono settings.parser_retry_count k (k + 1) d.attempts d.parse_failed (omega arith)
        counted;
  unpublished = λ o. o;
}

unread_current :
    (m : Marker) (now t : ℕ) → is_current (marker_file none now) t ≡ true → is_current m t ≡ true
unfolding is_current
unread_current m now t h = cc

claim_free-Claims :
    (settings : Settings) (force : Bool) (k now token : ℕ) (d : JobDir) (l : List Staging)
    → Counted settings k d
    → Claims settings k now token d
        (claim_free force now token (record d { processing = absent; stagings = l }))
unfolding claim_free clear_outputs clear_parsed clear_failed clear_attempts create_marker
claim_free-Claims settings force k now token d l counted =
    let P = Claims settings k now token d in
    let retries = settings.parser_retry_count in
    let kept = none_current d.processing in
    let more = Counts-mono retries k (k + 1) d.attempts d.parse_failed (omega arith) counted in
    let unmarked_more = unmarked retries k d.attempts d.parse_failed counted in
    if-cases P force
      (λ _. record {
        passes = (
          record {
            back = kept;
            consistent = λ _. tt;
            counted = more;
            unpublished = λ o. (refl, o.1);
          },
          (
            record {
              back = kept;
              consistent = λ _. tt;
              counted = unmarked_more;
              unpublished = λ o. (refl, refl);
            },
            (
              record {
                back = kept;
                consistent = λ _. tt;
                counted = refl;
                unpublished = λ o. (refl, refl);
              },
              (
                record {
                  back = unread_current d.processing now;
                  consistent = λ _. tt;
                  counted = refl;
                  unpublished = λ o. (refl, refl);
                },
                tt,
              ),
            ),
          ),
        );
        ends = (refl, (refl, refl), refl);
      })
      (λ _.
        some-cases P d.parsed
          (λ m _.
            if-cases P d.capture_valid
              (λ _.
                if-cases P (parsed_valid d.output m)
                  (λ _. Traced-end (refl, refl, refl, refl, kept))
                  (λ _. Traced-end (refl, refl, refl, refl, kept)))
              (λ _. Traced-end (refl, refl, refl, refl, kept)))
          (λ unparsed.
            if-cases P d.parse_failed (λ _. Traced-end (refl, refl, refl, refl, kept))
              (λ unfailed. record {
                passes = (
                  record {
                    back = unread_current d.processing now;
                    consistent = λ c. c;
                    counted = more;
                    unpublished = λ o. o;
                  },
                  tt,
                );
                ends = (refl, (unparsed, unfailed), counted);
              })))

marker-cases {ℓ κ} :
    {A : Type ℓ} (P : A → Type κ) (m : Marker) {x y : A} {f : Option ℕ → ℕ → A}
    → P x
    → P y
    → ((o : Option ℕ) (n : ℕ) → P (f o n))
    → P (elim m [ unsafe ↦ x | absent ↦ y | marker_file o n ↦ f o n ])
marker-cases P unsafe u a f = u
marker-cases P absent u a f = a
marker-cases P (marker_file o n) u a f = f o n

pub claim_job-Claims :
    (settings : Settings) (force : Bool) (k now token : ℕ) (d : JobDir)
    → Counted settings k d
    → Claims settings k now token d (claim_job settings force now token d)
unfolding claim_job clean_orphans
claim_job-Claims settings force k now token d counted =
    let P = Claims settings k now token d in
    let unused = keep_stagings none d.stagings in
    let free =
      Traced-passing (moved-Emptied settings k d unused counted)
        (claim_free-Claims settings force k now token d unused counted) in
    marker-cases P d.processing (Traced-end (refl, refl, refl, refl, λ t h. h)) free
      (λ holder mtime.
        if-cases P (ltb (now - mtime) settings.parser_stale_lock_sec)
          (λ _. Traced-end (refl, refl, refl, refl, λ t h. h))
          (λ _. Traced-passing (moved-Emptied settings k d d.stagings counted) free))

-- The claim of a token that is not new is current only if it was.
pub claim_job-back :
    (settings : Settings) (k now token : ℕ) (d : JobDir) (r : ClaimResult × JobDir) (u : ℕ)
    → ClaimEnds settings k now token d r
    → u < token
    → is_current r.1.processing u ≡ true
    → is_current d.processing u ≡ true
unfolding is_current
claim_job-back settings k now token d (claimed, e) u c h current =
    let mine = subst (λ m. is_current m u ≡ true) c.0 current in absurd (ground (arith, mine, h))
claim_job-back settings k now token d (busy, e) u c h current = c.4 u current
claim_job-back settings k now token d (already_parsed, e) u c h current = c.4 u current
claim_job-back settings k now token d (parse_failed, e) u c h current = c.4 u current
claim_job-back settings k now token d (claim_error why, e) u c h current = c.4 u current
