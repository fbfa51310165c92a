-- ===== src/Submissions/Replay/Totals.antt =====
-- The score of each participation in a replay
-- (apps/web/server/domains/submissions/scoring-replay.ts).
pub mod Credit
pub mod Loops
pub mod Laws
use sauryctf.Prelude.{
  ℕ, ◌+◌, String, Bool, not, ◌||◌, Option, none, some, List, [], ◌∷◌, ◌++◌, Ordering, map, ltb,
  if◌then◌else◌,
}
use sauryctf.Prelude.Int.{ℤ, pos, eqb_ℤ, is_safe_integer}
use sauryctf.Prelude.Date.{Date, at, invalid}
use sauryctf.Prelude.Keys.{string_key}
use sauryctf.Prelude.Dict.{Dict, get, set, values}
use sauryctf.Prelude.Order.{◌or_then◌}
use sauryctf.Prelude.Sort.{to_sorted}
use sauryctf.Prelude.Result.{Result, ok, err, throw_if, ◌>>◌, ◌>>=◌, for_each, map_result}
use sauryctf.Submissions.Replay.Facts.{
  ParticipationFact, ParticipationStatus, SolveFact, ScoreAdjustmentFact, FactKind, SumLabel,
  ReplayError, unsafe_sum, undefined_value, adjustment_participation_unknown,
  adjustment_delta_invalid, scoring_timestamp_invalid, safe_add, require_valid_date, to_iso_string,
  compare_solve_facts, compare_adjustment_facts,
}

-- The accumulator of one participation.
pub record Accumulator : Type 0 where
  pub participation : ParticipationFact
  pub official_solve_count : ℕ
  pub solves : List SolveFact
  pub solve_points : ℤ
  pub adjustment_points : ℤ
  pub last_scoring_at : Option Date

abbrev pub accumulator_of : ParticipationFact → Accumulator
accumulator_of participation = record {
  participation = participation;
  official_solve_count = 0;
  solves = [];
  solve_points = pos 0;
  adjustment_points = pos 0;
  last_scoring_at = none;
}

-- `new Map(participations.values().map(p => [p.id, …]))`.
unfoldable pub accumulators_of : List ParticipationFact → Dict String Accumulator
accumulators_of [] = []
accumulators_of (p ∷ ps) = (p.id, accumulator_of p) ∷ accumulators_of ps

-- `laterDate`: a candidate that is no valid date is an error.
unfoldable pub later_date : Option Date → Date → Result ReplayError (Option Date)
later_date current invalid = err scoring_timestamp_invalid
later_date none (at u) = ok (some (at u))
later_date (some (at t)) (at u) = ok (some (at (if ltb t u then u else t)))
later_date (some invalid) (at u) = ok (some invalid)

-- `safeAdd` where the second summand may be `undefined`: the sum is then NaN, which is not safe.
abbrev pub safe_add_option : ℤ → Option ℤ → SumLabel → Result ReplayError ℤ
safe_add_option left (some right) label = safe_add left right label
safe_add_option left none label = err (unsafe_sum label)

-- What the two loops do to the accumulator that they find.
unfoldable pub credit_solve :
    Dict String ℤ → SolveFact → Accumulator → Result ReplayError Accumulator
credit_solve challenge_points solve a = do
  solve_points ←
      safe_add_option a.solve_points (get solve.challenge_id challenge_points) SumLabel.solve_points
  last ← later_date a.last_scoring_at solve.solved_at
  ok (record a {
    official_solve_count = a.official_solve_count + 1;
    solves = a.solves ++ solve ∷ [];
    solve_points = solve_points;
    last_scoring_at = last;
  })

unfoldable pub credit_adjustment :
    ScoreAdjustmentFact → Accumulator → Result ReplayError Accumulator
credit_adjustment adjustment a = do
  throw_if (not (is_safe_integer adjustment.points_delta) || eqb_ℤ adjustment.points_delta (pos 0))
      (adjustment_delta_invalid adjustment.id)
  require_valid_date adjustment.created_at FactKind.score_adjustment adjustment.id
  adjustment_points ←
      safe_add a.adjustment_points adjustment.points_delta SumLabel.adjustment_points
  last ← later_date a.last_scoring_at adjustment.created_at
  ok (record a { adjustment_points = adjustment_points; last_scoring_at = last })

-- Look an accumulator up, change it and put it back; the loops change the object in place.
unfoldable pub update_at :
    String
    → ReplayError
    → (Accumulator → Result ReplayError Accumulator)
    → Dict String Accumulator
    → Result ReplayError (Dict String Accumulator)
update_at key missing change d = elim (get key d) [
  | none ↦ err missing
  | some a ↦ change a >>= λ a'. ok (set key a' d)
]

unfoldable pub add_solve :
    Dict String ℤ
    → Dict String Accumulator
    → SolveFact
    → Result ReplayError (Dict String Accumulator)
unfolding update_at credit_solve
add_solve challenge_points d solve =
    update_at solve.participation_id undefined_value (credit_solve challenge_points solve) d

unfoldable pub add_adjustment :
    Dict String Accumulator → ScoreAdjustmentFact → Result ReplayError (Dict String Accumulator)
unfolding update_at credit_adjustment
add_adjustment d adjustment =
    update_at adjustment.participation_id (adjustment_participation_unknown adjustment.id)
      (credit_adjustment adjustment) d

pub record SolveSummary : Type 0 where
  pub solve_id : String
  pub challenge_id : String
  pub solved_at : ℕ

-- `ReplayedParticipationScore`.
pub record ParticipationScore : Type 0 where
  pub participation_id : String
  pub team_id : String
  pub team_name : String
  pub division_id : Option String
  pub status : ParticipationStatus
  pub solves : List SolveSummary
  pub official_solve_count : ℕ
  pub solve_points : ℤ
  pub adjustment_points : ℤ
  pub total_points : ℤ
  pub last_scoring_at : Option ℕ

abbrev pub summary_of : SolveFact → Result ReplayError SolveSummary
summary_of solve = do
  solved_at ← to_iso_string solve.solved_at
  ok (record { solve_id = solve.id; challenge_id = solve.challenge_id; solved_at = solved_at })

-- `lastScoringAt?.toISOString() ?? null`.
abbrev pub optional_iso_string : Option Date → Result ReplayError (Option ℕ)
optional_iso_string none = ok none
optional_iso_string (some d) = do t ← to_iso_string d; ok (some t)

module _ (locale_compare : String → String → Ordering) where
  abbrev pub by_challenge : SolveFact → SolveFact → Ordering
  by_challenge a b =
      locale_compare a.challenge_id b.challenge_id or_then compare_solve_facts locale_compare a b

  unfoldable pub participation_score : Accumulator → Result ReplayError ParticipationScore
  participation_score a = do
    total ← safe_add a.solve_points a.adjustment_points SumLabel.total_points
    solves ← map_result summary_of (to_sorted by_challenge a.solves)
    last ← optional_iso_string a.last_scoring_at
    ok (record {
      participation_id = a.participation.id;
      team_id = a.participation.team_id;
      team_name = a.participation.team_name;
      division_id = a.participation.division_id;
      status = a.participation.status;
      solves = solves;
      official_solve_count = a.official_solve_count;
      solve_points = a.solve_points;
      adjustment_points = a.adjustment_points;
      total_points = total;
      last_scoring_at = last;
    })

  abbrev pub by_participation_id : ParticipationScore → ParticipationScore → Ordering
  by_participation_id a b = locale_compare a.participation_id b.participation_id

  -- The two loops over the accumulators, and the list of scores that is made of them.
  unfoldable pub participation_scores :
      Dict String ℤ
      → List ParticipationFact
      → List SolveFact
      → List ScoreAdjustmentFact
      → Result ReplayError (List ParticipationScore)
  unfolding accumulators_of add_solve add_adjustment participation_score
  participation_scores challenge_points participations official_solves adjustments = do
    d ← for_each (add_solve challenge_points) official_solves (accumulators_of participations)
    d' ← for_each add_adjustment (to_sorted (compare_adjustment_facts locale_compare) adjustments) d
    scores ← map_result participation_score (values d')
    ok (to_sorted by_participation_id scores)
