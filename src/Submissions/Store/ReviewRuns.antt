-- ===== src/Submissions/Store/ReviewRuns.antt =====
-- Sequences of `reviewCheatClue`
-- (apps/web/server/infrastructure/db/submission-repository.ts).
use sauryctf.Prelude.{
  true, false, List, [], ◌∷◌, map, ◌≡◌, refl, sym, ap, ◌∙◌, inl, inr, All₂, All₂-imp, All₂-map,
}
use mathlib.Core.Path.{subst}
use sauryctf.Prelude.Keys.{string_key}
use sauryctf.Prelude.Distinct.{IsDistinct}
use sauryctf.Prelude.Result.{Result, ok, err}
use sauryctf.Submissions.Store.Tables.{
  CheatClueStatus, CheatClueRow, ReviewStatus, ReviewCheatClueCommand, SubmissionTables, StoreError,
}
use sauryctf.Submissions.Store.Reviews.{can_review_cheat_clue, review_cheat_clue}
use sauryctf.Submissions.Store.Reviewed.{is_final, IsReviewStep, review_cheat_clue-steps}

-- Reviews one after the other; one that throws is rolled back.
abbrev pub after_review :
    SubmissionTables → Result StoreError (SubmissionTables × CheatClueRow) → SubmissionTables
after_review db (ok answer) = answer.0
after_review db (err e) = db

abbrev pub run_reviews : SubmissionTables → List ReviewCheatClueCommand → SubmissionTables
run_reviews db [] = db
run_reviews db (c ∷ cs) = run_reviews (after_review db (review_cheat_clue db c)) cs

-- A clue keeps its identifier, and all of itself where its status is final.
abbrev pub IsSettledSame : CheatClueRow → CheatClueRow → Type 0
IsSettledSame c c' = (c'.id ≡ c.id) × (is_final c.status ≡ true → c' ≡ c)

final-unreviewable :
    (status : CheatClueStatus) (next : ReviewStatus)
    → is_final status ≡ true
    → can_review_cheat_clue status next ≡ false
final-unreviewable CheatClueStatus.dismissed next h = refl
final-unreviewable CheatClueStatus.confirmed next h = refl
final-unreviewable CheatClueStatus.opened next h = cc
final-unreviewable CheatClueStatus.reviewing next h = cc

step-IsSettledSame :
    (command : ReviewCheatClueCommand) (c c' : CheatClueRow)
    → IsReviewStep command c c'
    → IsSettledSame c c'
step-IsSettledSame command c c' (inl same) = (ap (λ (z : CheatClueRow). z.id) same, λ h. same)
step-IsSettledSame command c c' (inr (i, k, r, e)) = (
  ap (λ (z : CheatClueRow). z.id) e,
  λ h. let u = final-unreviewable c.status command.status h in absurd cc,
)

IsSettledSame-refl : (xs : List CheatClueRow) → All₂ IsSettledSame xs xs
IsSettledSame-refl [] = tt
IsSettledSame-refl (x ∷ xs) = ((refl, λ h. refl), IsSettledSame-refl xs)

IsSettledSame-trans :
    (xs ys zs : List CheatClueRow)
    → All₂ IsSettledSame xs ys
    → All₂ IsSettledSame ys zs
    → All₂ IsSettledSame xs zs
IsSettledSame-trans [] [] [] h k = tt
IsSettledSame-trans (x ∷ xs) (y ∷ ys) (z ∷ zs) h k = (
  (
    k.0.0 ∙ h.0.0,
    λ f. let e = h.0.1 f in k.0.1 (ap (λ (c : CheatClueRow). is_final c.status) e ∙ f) ∙ e,
  ),
  IsSettledSame-trans xs ys zs h.1 k.1,
)
IsSettledSame-trans [] [] (z ∷ zs) h k = absurd k
IsSettledSame-trans [] (y ∷ ys) zs h k = absurd h
IsSettledSame-trans (x ∷ xs) [] zs h k = absurd h
IsSettledSame-trans (x ∷ xs) (y ∷ ys) [] h k = absurd k

after_review-IsSettledSame :
    (db : SubmissionTables) (command : ReviewCheatClueCommand)
    (answer : Result StoreError (SubmissionTables × CheatClueRow))
    → review_cheat_clue db command ≡ answer
    → IsDistinct (map (λ (c : CheatClueRow). c.id) db.clues)
    → All₂ IsSettledSame db.clues (after_review db answer).clues
after_review-IsSettledSame db command (err e) h d = IsSettledSame-refl db.clues
after_review-IsSettledSame db command (ok (db', r)) h d =
    All₂-imp (IsReviewStep command) IsSettledSame db.clues db'.clues (step-IsSettledSame command)
      (review_cheat_clue-steps db command db' r d h)

-- Where the identifiers of the clues are distinct, no sequence of reviews, with the failed ones
-- rolled back, changes a clue whose status is final, and none adds, removes or renames a clue.
pub reviews-settled :
    (db : SubmissionTables) (commands : List ReviewCheatClueCommand)
    → IsDistinct (map (λ (c : CheatClueRow). c.id) db.clues)
    → All₂ IsSettledSame db.clues (run_reviews db commands).clues
reviews-settled db [] d = IsSettledSame-refl db.clues
reviews-settled db (c ∷ cs) d =
    let next = after_review db (review_cheat_clue db c) in
    let one = after_review-IsSettledSame db c (review_cheat_clue db c) refl d in
    let ids =
      All₂-map (λ (z : CheatClueRow). z.id) (λ (z : CheatClueRow). z.id) db.clues next.clues
        (All₂-imp IsSettledSame (λ x y. y.id ≡ x.id) db.clues next.clues (λ x y s. s.0) one) in
    IsSettledSame-trans db.clues next.clues (run_reviews next cs).clues one
      (reviews-settled next cs (subst IsDistinct (sym ids) d))
