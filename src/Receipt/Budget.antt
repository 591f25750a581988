-- ===== src/Receipt/Budget.antt =====
-- src/commercialrchproxy/rch/receipt_parser.py: `_SemanticBudget`, the bound on the records that are
-- derived from the frames.
use commercial_rchproxy.Common.{
  ℕ, ◌+◌, ◌≤◌, Bool, true, false, Option, none, some, List, [], ◌∷◌, leb, if◌then◌else◌, ◌≡◌, refl,
  sym, ◌∙◌, if-cases, arith,
}

-- The issue of the first refusal: the offset and the id of its frame.
pub record LimitIssue : Type 0 where
  pub stream_offset : ℕ
  pub frame_id : ℕ

pub record SemanticBudget : Type 0 where
  pub limit : ℕ
  pub used : ℕ
  pub issue : Option LimitIssue

abbrev pub new_budget : ℕ → SemanticBudget
new_budget limit = record { limit = limit; used = 0; issue = none }

abbrev pub first_issue : Option LimitIssue → LimitIssue → Option LimitIssue
first_issue none i = some i
first_issue (some j) i = some j

-- `reserve`, of a count for a frame at an offset
unfoldable pub reserve : ℕ → LimitIssue → SemanticBudget → Bool × SemanticBudget
reserve count frame b =
    if leb (b.used + count) b.limit
    then (true, record b { used = b.used + count })
    else (false, record b { issue = first_issue b.issue frame })

abbrev pub Request : Type 0
Request = ℕ × LimitIssue

-- The answers to reservations in turn, and the budget after them.
unfoldable pub reserve_all : List Request → SemanticBudget → List Bool × SemanticBudget
reserve_all [] b = ([], b)
reserve_all ((count, frame) ∷ rs) b =
    let (granted, c) = reserve count frame b in
    let (answers, d) = reserve_all rs c in (granted ∷ answers, d)

-- The sum of the counts that were granted.
abbrev pub granted_total : List Request → List Bool → ℕ
granted_total (r ∷ rs) (true ∷ answers) = r.0 + granted_total rs answers
granted_total (r ∷ rs) (false ∷ answers) = granted_total rs answers
granted_total _ _ = 0

-- The frame of the first reservation that was refused.
abbrev pub first_refused : List Request → List Bool → Option LimitIssue
first_refused (r ∷ rs) (true ∷ answers) = first_refused rs answers
first_refused (r ∷ rs) (false ∷ answers) = some r.1
first_refused _ _ = none

abbrev pub or_issue : Option LimitIssue → Option LimitIssue → Option LimitIssue
or_issue none o = o
or_issue (some i) o = some i

-- What the answers say of the budget `c` that they leave behind `b`.
pub record Accounts (b : SemanticBudget) (rs : List Request) (answers : List Bool)
    (c : SemanticBudget) : Type 0 where
  pub same_limit : c.limit ≡ b.limit
  pub used_total : c.used ≡ b.used + granted_total rs answers
  pub within : c.used ≤ c.limit
  pub first_issue_kept : c.issue ≡ or_issue b.issue (first_refused rs answers)

or_issue-none : (o : Option LimitIssue) → or_issue o none ≡ o
or_issue-none none = refl
or_issue-none (some i) = refl

granted-Accounts :
    (b : SemanticBudget) (r : Request) (rs : List Request) (answers : List Bool)
    (c : SemanticBudget)
    → Accounts (record b { used = b.used + r.0 }) rs answers c
    → Accounts b (r ∷ rs) (true ∷ answers) c
granted-Accounts b r rs answers c a =
    let total = a.used_total in
    record {
      same_limit = a.same_limit;
      used_total = omega (arith, total);
      within = a.within;
      first_issue_kept = a.first_issue_kept;
    }

or_issue-first_issue :
    (o : Option LimitIssue) (i : LimitIssue) (p : Option LimitIssue)
    → or_issue (first_issue o i) p ≡ or_issue o (some i)
or_issue-first_issue none i p = refl
or_issue-first_issue (some j) i p = refl

refused-Accounts :
    (b : SemanticBudget) (r : Request) (rs : List Request) (answers : List Bool)
    (c : SemanticBudget)
    → Accounts (record b { issue = first_issue b.issue r.1 }) rs answers c
    → Accounts b (r ∷ rs) (false ∷ answers) c
refused-Accounts b r rs answers c a = record {
  same_limit = a.same_limit;
  used_total = a.used_total;
  within = a.within;
  first_issue_kept =
      a.first_issue_kept ∙ or_issue-first_issue b.issue r.1 (first_refused rs answers);
}

-- After any reservations the budget has used what it granted, and no more than its limit; its issue
-- is the one it had, or else that of the first reservation it refused.
pub reserve_all-Accounts :
    (rs : List Request) (b : SemanticBudget)
    → b.used ≤ b.limit
    → Accounts b rs (reserve_all rs b).0 (reserve_all rs b).1
unfolding reserve_all reserve
reserve_all-Accounts [] b fits = record {
  same_limit = refl;
  used_total = omega arith;
  within = fits;
  first_issue_kept = sym (or_issue-none b.issue);
}
reserve_all-Accounts ((count, frame) ∷ rs) b fits =
    if-cases
      (λ (q : Bool × SemanticBudget).
        Accounts b ((count, frame) ∷ rs) (q.0 ∷ (reserve_all rs q.1).0) (reserve_all rs q.1).1)
      (leb (b.used + count) b.limit)
      (λ room.
        granted-Accounts b (count, frame) rs _ _
          (reserve_all-Accounts rs (record b { used = b.used + count }) (ground (arith, room))))
      (λ full.
        refused-Accounts b (count, frame) rs _ _
          (reserve_all-Accounts rs (record b { issue = first_issue b.issue frame }) fits))
