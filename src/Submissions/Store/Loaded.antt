-- ===== src/Submissions/Store/Loaded.antt =====
-- The facts that are loaded (apps/web/server/infrastructure/db/scoring-replay-repository.ts) against
-- the version that the submission repository advances.
use sauryctf.Prelude.{
  ℕ, ◌+◌, String, ◌&&◌, Option, none, List, [], ◌∷◌, map, filter, count, length, length-map,
  length-filter, count-map, Ordering, ◌≡◌, refl, sym, ap, ◌∙◌, arith,
}
use mathlib.Core.Path.{ap₂}
use sauryctf.Prelude.Int.{ℤ, pos, ◌+ℤ◌}
use sauryctf.Prelude.Keys.{eqb}
use sauryctf.Prelude.Table.{find, or_throw}
use sauryctf.Prelude.Sort.{to_sorted, length-to_sorted, count-to_sorted}
use sauryctf.Prelude.Result.{ok, bind-eq-ok, map_result, ok-inj}
use sauryctf.Submissions.Scoring.{FloatMath}
use sauryctf.Submissions.Replay.Facts.{
  SolveFact, ContestScoringFacts, SumLabel, is_official, safe_add, compare_solve_facts,
}
use sauryctf.Submissions.Replay.Run.{ContestScoringReplay, official_solves, replay_contest_scoring}
use sauryctf.Submissions.Replay.Run.Steps.{replay-IsRun}
use sauryctf.Submissions.Store.Tables.{
  ContestRow, SolveRow, ScoreAdjustmentRow, SubmissionTables, store_contest_not_found,
}
use sauryctf.Submissions.Store.Append.{version_in}
use sauryctf.Submissions.Store.Load.{
  is_fact_before, solve_row_order, adjustment_row_order, challenge_fact, solve_fact,
  adjustment_fact, solves_in, adjustments_in, challenges_in, load,
}
use sauryctf.Submissions.Store.Laws.Versions.{is_official_in, is_adjustment_in}
use sauryctf.Submissions.Store.Laws.Consistent.{IsConsistent}

load-facts :
    (db : SubmissionTables) (contest_id : String) (before : Option ℕ) (facts : ContestScoringFacts)
    → load db contest_id before ≡ ok facts
    → (facts.solves ≡ map solve_fact (to_sorted solve_row_order (solves_in db contest_id before)))
      × (facts.adjustments
          ≡ map adjustment_fact
              (to_sorted adjustment_row_order (adjustments_in db contest_id before)))
unfolding load
load-facts db contest_id before facts h =
    let o = find (λ (c : ContestRow). eqb c.id contest_id) db.contests in
    let (c, e₁, h₁) = bind-eq-ok (or_throw o store_contest_not_found) _ h in
    let (cs, e₂, h₂) = bind-eq-ok (map_result challenge_fact (challenges_in db contest_id)) _ h₁ in
    let result = ok-inj refl h₂ in
    (
      sym (ap (λ (f : ContestScoringFacts). f.solves) result),
      sym (ap (λ (f : ContestScoringFacts). f.adjustments) result),
    )

count-official_in :
    (contest_id : String) (xs : List SolveRow)
    → count
        (λ (s : SolveRow). is_official s.mode)
        (filter
          (λ (s : SolveRow). eqb s.contest_id contest_id && is_fact_before none s.solved_at)
          xs)
      ≡ count (is_official_in contest_id) xs
count-official_in contest_id [] = refl
count-official_in contest_id (x ∷ xs) = ground (arith, count-official_in contest_id xs)

length-adjustments_in :
    (contest_id : String) (xs : List ScoreAdjustmentRow)
    → length (
        filter
          (λ (a : ScoreAdjustmentRow).
            eqb a.contest_id contest_id && is_fact_before none a.created_at)
          xs)
      ≡ count (is_adjustment_in contest_id) xs
length-adjustments_in contest_id [] = refl
length-adjustments_in contest_id (x ∷ xs) = ground (arith, length-adjustments_in contest_id xs)

module _ (locale_compare : String → String → Ordering) where
  length-official_solves :
      (db : SubmissionTables) (contest_id : String)
      → length (
          official_solves locale_compare
            (map solve_fact (to_sorted solve_row_order (solves_in db contest_id none))))
        ≡ count (is_official_in contest_id) db.solves
  unfolding official_solves
  length-official_solves db contest_id =
      let rows = to_sorted solve_row_order (solves_in db contest_id none) in
      length-to_sorted (compare_solve_facts locale_compare)
        (filter (λ (s : SolveFact). is_official s.mode) (map solve_fact rows))
      ∙ length-filter (λ (s : SolveFact). is_official s.mode) (map solve_fact rows)
      ∙ count-map solve_fact (λ (s : SolveFact). is_official s.mode) rows
      ∙ count-to_sorted solve_row_order (λ (s : SolveRow). is_official s.mode)
          (solves_in db contest_id none)
      ∙ count-official_in contest_id db.solves

length-loaded_adjustments :
    (db : SubmissionTables) (contest_id : String)
    → length
        (map adjustment_fact (to_sorted adjustment_row_order (adjustments_in db contest_id none)))
      ≡ count (is_adjustment_in contest_id) db.adjustments
length-loaded_adjustments db contest_id =
    length-map adjustment_fact (to_sorted adjustment_row_order (adjustments_in db contest_id none))
    ∙ length-to_sorted adjustment_row_order (adjustments_in db contest_id none)
    ∙ length-adjustments_in contest_id db.adjustments

safe_add-sum :
    (a b : ℕ) (label : SumLabel) (s : ℤ) → safe_add (pos a) (pos b) label ≡ ok s → s ≡ pos (a + b)
unfolding safe_add ◌+ℤ◌
safe_add-sum a b label s h = ground arith

-- In a consistent store, a replay of all the facts of a contest has the version that the scoreboard
-- of the contest is at: what the appends and the adjustments counted is what the replay counts.
pub replay-version :
    (m : FloatMath) (locale_compare : String → String → Ordering) (db : SubmissionTables)
    (contest_id : String) (facts : ContestScoringFacts) (r : ContestScoringReplay)
    → IsConsistent db
    → load db contest_id none ≡ ok facts
    → replay_contest_scoring m locale_compare facts ≡ ok r
    → r.fact_version ≡ pos (version_in contest_id db.versions)
replay-version m locale_compare db contest_id facts r c h k =
    let (solves, adjustments) = load-facts db contest_id none facts h in
    let run = replay-IsRun m locale_compare facts r k in
    safe_add-sum (length (official_solves locale_compare facts.solves)) (length facts.adjustments)
      SumLabel.fact_version r.fact_version run.scored.version
    ∙ ap pos (
        ap₂ (λ x y. x + y)
          (ap (λ s. length (official_solves locale_compare s)) solves
            ∙ length-official_solves locale_compare db contest_id)
          (ap length adjustments ∙ length-loaded_adjustments db contest_id)
        ∙ sym (c.versioned contest_id))
