-- ===== src/Receipt/Issues.antt =====
-- src/commercialrchproxy/rch/receipt_parser.py: `_bounded_result_issues`, which keeps the issues that
-- say that a limit was crossed.
use commercial_rchproxy.Common.{
  ℕ, zero, suc, ◌+◌, ◌-◌, ◌≤◌, ◌<◌, Bool, true, false, ◌||◌, List, [], ◌∷◌, ◌++◌, map, length,
  length-append, take, length-take, leb, ◌==◌, if◌then◌else◌, ◌≡◌, refl, ap, ◌∙◌, if-cases, arith,
}

-- A `ReceiptIssue`, of which only the kind of its code matters here; `omitted` is the last one, with
-- the number in its text.
pub data ResultIssue : Type 0 where
  reported : (is_limit : Bool) (number : ℕ) → ResultIssue
  omitted : ℕ → ResultIssue

-- `issue.code.endswith("_limit_exceeded")`
abbrev pub is_limit_issue : ResultIssue → Bool
is_limit_issue (reported is_limit number) = is_limit
is_limit_issue (omitted number) = true

-- The indexes of the issues on a limit, counted from `index`.
unfoldable pub limit_indexes : ℕ → List ResultIssue → List ℕ
limit_indexes index [] = []
limit_indexes index (i ∷ is) =
    let rest = limit_indexes (index + 1) is in if is_limit_issue i then index ∷ rest else rest

abbrev pub is_selected : ℕ → List ℕ → Bool
is_selected index [] = false
is_selected index (i ∷ is) = index == i || is_selected index is

-- The loop that fills the remaining capacity in the original order.
unfoldable pub fill : ℕ → ℕ → List ResultIssue → List ℕ → List ℕ
fill capacity index [] selected = selected
fill capacity index (i ∷ is) selected =
    let without = fill capacity (index + 1) is selected in
    let with_it = fill capacity (index + 1) is (selected ++ (index ∷ [])) in
    if leb capacity (length selected)
    then selected
    else (if is_selected index selected then without else with_it)

-- `sorted`
unfoldable pub insert : ℕ → List ℕ → List ℕ
insert x [] = x ∷ []
insert x (y ∷ ys) = let rest = insert x ys in if leb x y then x ∷ (y ∷ ys) else y ∷ rest

unfoldable pub sorted : List ℕ → List ℕ
unfolding insert
sorted [] = []
sorted (x ∷ xs) = insert x (sorted xs)

-- `issues[index]`, for the indexes that there are
unfoldable pub issue_at : ℕ → List ResultIssue → ResultIssue
issue_at index [] = omitted 0
issue_at zero (i ∷ is) = i
issue_at (suc index) (i ∷ is) = issue_at index is

unfoldable pub selected_indexes : ℕ → List ResultIssue → List ℕ
unfolding limit_indexes fill
selected_indexes capacity issues = fill capacity 0 issues (take capacity (limit_indexes 0 issues))

unfoldable pub retain : ℕ → List ResultIssue → List ResultIssue
unfolding selected_indexes sorted issue_at
retain capacity issues =
    let retained = map (λ i. issue_at i issues) (sorted (selected_indexes capacity issues)) in
    retained ++ (omitted (length issues - length retained) ∷ [])

-- `_bounded_result_issues`, for a limit above 0: at 0 the capacity would be -1 and its slice drop the
-- last index.
unfoldable pub bounded_result_issues : List ResultIssue → ℕ → List ResultIssue
bounded_result_issues issues max_issues =
    if leb (length issues) max_issues then issues else retain (max_issues - 1) issues

length-insert : (x : ℕ) (ys : List ℕ) → length (insert x ys) ≡ suc (length ys)
unfolding insert
length-insert x [] = refl
length-insert x (y ∷ ys) =
    if-cases (λ (l : List ℕ). length l ≡ suc (length (y ∷ ys))) (leb x y) (λ _. refl)
      (λ _. ap suc (length-insert x ys))

length-sorted : (xs : List ℕ) → length (sorted xs) ≡ length xs
unfolding sorted
length-sorted [] = refl
length-sorted (x ∷ xs) = length-insert x (sorted xs) ∙ ap suc (length-sorted xs)

length-map {ℓ κ} :
    {A : Type ℓ} {B : Type κ} (f : A → B) (xs : List A) → length (map f xs) ≡ length xs
length-map f [] = refl
length-map f (x ∷ xs) = ap suc (length-map f xs)

-- The loop stops when the capacity is used up.
fill-le :
    (capacity index : ℕ) (is : List ResultIssue) (selected : List ℕ)
    → length selected ≤ capacity
    → length (fill capacity index is selected) ≤ capacity
unfolding fill
fill-le capacity index [] selected h = h
fill-le capacity index (i ∷ is) selected h =
    let Fits = λ (l : List ℕ). length l ≤ capacity in
    if-cases Fits (leb capacity (length selected)) (λ _. h)
      (λ room.
        let size = length-append selected (index ∷ []) in
        if-cases Fits (is_selected index selected) (λ _. fill-le capacity (index + 1) is selected h)
          (λ _.
            fill-le capacity (index + 1) is (selected ++ (index ∷ []))
              (ground (arith, size, room))))

-- Whatever issues were reported, the result holds at most `max_issues` of them when that limit is
-- positive, with the issue that counts the omitted ones among them.
pub length-bounded_result_issues :
    (issues : List ResultIssue) (max_issues : ℕ)
    → 0 < max_issues
    → length (bounded_result_issues issues max_issues) ≤ max_issues
unfolding bounded_result_issues retain selected_indexes
length-bounded_result_issues issues max_issues some_room =
    if-cases (λ (l : List ResultIssue). length l ≤ max_issues) (leb (length issues) max_issues)
      (λ few. ground (arith, few))
      (λ many.
        let capacity = max_issues - 1 in
        let limits = take capacity (limit_indexes 0 issues) in
        let chosen = fill capacity 0 issues limits in
        let at_most = length-take capacity (limit_indexes 0 issues) in
        let fits = fill-le capacity 0 issues limits (omega (arith, at_most)) in
        let same = length-map (λ i. issue_at i issues) (sorted chosen) ∙ length-sorted chosen in
        let retained = map (λ i. issue_at i issues) (sorted chosen) in
        let size = length-append retained (omitted (length issues - length retained) ∷ []) in
        omega (arith, fits, same, size, some_room))
