-- ===== src/Submissions/Replay/Check.antt =====
-- The checks of a replay on the identifiers, the solves and the submissions
-- (apps/web/server/domains/submissions/scoring-replay.ts).
pub mod Unique
pub mod Solves
pub mod Covered
use sauryctf.Prelude.{
  String, Bool, true, false, not, ◌&&◌, ◌||◌, Option, none, some, List, [], ◌∷◌, ◌++◌,
}
use sauryctf.Prelude.Int.{pos, leb_ℤ, is_safe_integer}
use sauryctf.Prelude.Date.{same_time}
use sauryctf.Prelude.Keys.{eqb, string_key, pair_key}
use sauryctf.Prelude.Dict.{Dict, get, has, set, contains, add}
use sauryctf.Prelude.Result.{Result, ok, err, throw_if, ◌>>◌, ◌>>=◌, for_each}
use sauryctf.Submissions.Replay.Facts.{
  ChallengeFact, ParticipationFact, SubmissionFact, SolveFact, FactKind, ReplayError, is_official,
  is_correct, require_valid_date, duplicate_id, solve_challenge_unknown,
  solve_participation_unknown, solve_mismatch, solve_order_invalid, duplicate_pair,
  duplicate_solve_submission, submission_challenge_unknown, submission_participation_unknown,
  correct_submission_unsolved,
}

-- `uniqueById`: the map from identifiers to facts, or an error at the first that is there already.
module _ {A : Type 0} (id : A → String) (kind : FactKind) where
  unfoldable pub add_unique : Dict String A → A → Result ReplayError (Dict String A)
  add_unique result fact = do
    throw_if (has (id fact) result) (duplicate_id kind (id fact))
    ok (set (id fact) fact result)

  unfoldable pub unique_by_id : List A → Result ReplayError (Dict String A)
  unfolding add_unique
  unique_by_id facts = for_each add_unique facts []

-- What the loop over the official solves builds up.
pub record SolveState : Type 0 where
  pub solves_by_challenge : Dict String (List SolveFact)
  pub solved_pairs : List (String × String)
  pub solved_submission_ids : List String

abbrev pub no_solves : SolveState
no_solves = record { solves_by_challenge = []; solved_pairs = []; solved_submission_ids = [] }

-- The key of a pair: the program joins the two identifiers by a NUL, which no identifier of the
-- database holds.
abbrev pub pair_of : SolveFact → String × String
pair_of solve = (solve.participation_id, solve.challenge_id)

-- `map.get(key) ?? []`.
abbrev pub solves_of : String → Dict String (List SolveFact) → List SolveFact
solves_of key d = elim (get key d) [ none ↦ [] | some solves ↦ solves ]

unfoldable pub matches_submission : SolveFact → Option SubmissionFact → Bool
matches_submission solve none = false
matches_submission solve (some submission) =
    is_official submission.mode
    && is_correct submission.result
    && eqb submission.challenge_id solve.challenge_id
    && eqb submission.participation_id solve.participation_id
    && same_time submission.submitted_at solve.solved_at

module _ (challenges : Dict String ChallengeFact) (participations : Dict String ParticipationFact)
    (submissions : Dict String SubmissionFact) where
  unfoldable pub check_solve : SolveState → SolveFact → Result ReplayError SolveState
  check_solve s solve = do
    throw_if (not (has solve.challenge_id challenges)) (solve_challenge_unknown solve.id)
    throw_if (not (has solve.participation_id participations))
        (solve_participation_unknown solve.id)
    throw_if (not (matches_submission solve (get solve.submission_id submissions)))
        (solve_mismatch solve.id)
    throw_if (not (is_safe_integer solve.solve_order) || leb_ℤ solve.solve_order (pos 0))
        (solve_order_invalid solve.id)
    require_valid_date solve.solved_at FactKind.solve solve.id
    throw_if (contains s.solved_pairs (pair_of solve)) (duplicate_pair (pair_of solve))
    throw_if (contains s.solved_submission_ids solve.submission_id)
        (duplicate_solve_submission solve.submission_id)
    ok (record {
      solves_by_challenge =
          set solve.challenge_id (solves_of solve.challenge_id s.solves_by_challenge ++ solve ∷ [])
            s.solves_by_challenge;
      solved_pairs = add (pair_of solve) s.solved_pairs;
      solved_submission_ids = add solve.submission_id s.solved_submission_ids;
    })

  unfoldable pub check_solves : List SolveFact → Result ReplayError SolveState
  unfolding check_solve
  check_solves solves = for_each check_solve solves no_solves

  unfoldable pub check_submission :
      List String → Unit {0} → SubmissionFact → Result ReplayError (Unit {0})
  check_submission solved_submission_ids _ submission = do
    require_valid_date submission.submitted_at FactKind.submission submission.id
    throw_if (not (has submission.challenge_id challenges))
        (submission_challenge_unknown submission.id)
    throw_if (not (has submission.participation_id participations))
        (submission_participation_unknown submission.id)
    throw_if
        (is_official submission.mode
          && is_correct submission.result
          && not (contains solved_submission_ids submission.id))
        (correct_submission_unsolved submission.id)

  unfoldable pub check_submissions :
      List String → List SubmissionFact → Result ReplayError (Unit {0})
  unfolding check_submission
  check_submissions solved_submission_ids facts =
      for_each (check_submission solved_submission_ids) facts tt
