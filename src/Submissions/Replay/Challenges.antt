-- ===== src/Submissions/Replay/Challenges.antt =====
-- The score of each challenge in a replay
-- (apps/web/server/domains/submissions/scoring-replay.ts).
pub mod Laws
use sauryctf.Prelude.{
  ℕ, suc, String, Bool, not, Option, none, some, List, [], ◌∷◌, ◌++◌, Ordering, length,
}
use sauryctf.Prelude.Int.{ℤ, pos, eqb_ℤ}
use sauryctf.Prelude.Keys.{string_key}
use sauryctf.Prelude.Dict.{Dict, set, values}
use sauryctf.Prelude.Sort.{to_sorted}
use sauryctf.Prelude.Result.{Result, ok, err, throw_if, ◌>>◌, ◌>>=◌, for_each}
use sauryctf.Submissions.Scoring.{ScoringInputError, FloatMath, calculate_challenge_score}
use sauryctf.Submissions.Replay.Facts.{
  ChallengeFact, SolveFact, ReplayError, scoring_input, solve_order_gap, compare_solve_facts,
  to_iso_string,
}
use sauryctf.Submissions.Replay.Check.{solves_of}

pub record FirstSolve : Type 0 where
  pub solve_id : String
  pub submission_id : String
  pub participation_id : String
  pub solved_at : ℕ

-- `ReplayedChallengeScore`.
pub record ChallengeScore : Type 0 where
  pub challenge_id : String
  pub official_solve_count : ℕ
  pub current_points : ℤ
  pub first_solve : Option FirstSolve

-- What the loop over the challenges builds up.
pub record ScoreState : Type 0 where
  pub challenge_scores : List ChallengeScore
  pub challenge_points : Dict String ℤ

-- The loop over `solves.entries()`: the solve at `index` has the order `index + 1`.
unfoldable pub check_orders : String → ℕ → List SolveFact → Result ReplayError (Unit {0})
check_orders challenge_id index [] = ok tt
check_orders challenge_id index (solve ∷ solves) =
    throw_if (not (eqb_ℤ solve.solve_order (pos (suc index)))) (solve_order_gap challenge_id)
    >> check_orders challenge_id (suc index) solves

-- What `calculateChallengeScore` throws leaves the replay as it is.
abbrev pub scored : Result ScoringInputError ℤ → Result ReplayError ℤ
scored (ok points) = ok points
scored (err e) = err (scoring_input e)

unfoldable pub first_solve_of : List SolveFact → Result ReplayError (Option FirstSolve)
first_solve_of [] = ok none
first_solve_of (first ∷ solves) = do
  solved_at ← to_iso_string first.solved_at
  ok (
      some (record {
        solve_id = first.id;
        submission_id = first.submission_id;
        participation_id = first.participation_id;
        solved_at = solved_at;
      }))

module _ (locale_compare : String → String → Ordering) where
  abbrev pub by_challenge_id : ChallengeFact → ChallengeFact → Ordering
  by_challenge_id a b = locale_compare a.id b.id

module _ (m : FloatMath) (locale_compare : String → String → Ordering) where
  unfoldable pub score_challenge :
      Dict String (List SolveFact) → ScoreState → ChallengeFact → Result ReplayError ScoreState
  score_challenge solves_by_challenge s challenge = do
    let solves =
        to_sorted (compare_solve_facts locale_compare) (solves_of challenge.id solves_by_challenge)
    check_orders challenge.id 0 solves
    current_points ←
        scored (calculate_challenge_score m challenge.scoring_policy (pos (length solves)))
    first ← first_solve_of solves
    ok (record {
      challenge_scores =
          s.challenge_scores
          ++ record {
            challenge_id = challenge.id;
            official_solve_count = length solves;
            current_points = current_points;
            first_solve = first;
          }
            ∷ [];
      challenge_points = set challenge.id current_points s.challenge_points;
    })

  unfoldable pub score_challenges :
      Dict String ChallengeFact → Dict String (List SolveFact) → Result ReplayError ScoreState
  unfolding score_challenge
  score_challenges challenges solves_by_challenge =
      for_each (score_challenge solves_by_challenge)
        (to_sorted (by_challenge_id locale_compare) (values challenges))
        (record { challenge_scores = []; challenge_points = [] })
