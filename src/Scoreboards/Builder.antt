-- ===== src/Scoreboards/Builder.antt =====
-- `ScoreboardBuilder` (apps/web/server/domains/scoreboards/builder.ts): the rows and columns of a
-- board, made from a replay.
pub mod Laws
use sauryctf.Prelude.{
  ℕ, suc, String, Bool, true, false, not, ◌&&◌, ◌||◌, ◌==◌, Option, none, some, List, [], ◌∷◌, ◌++◌,
  map, map_from, length, Ordering, if◌then◌else◌,
}
use sauryctf.Prelude.Int.{ℤ}
use sauryctf.Prelude.Keys.{eqb, string_key}
use sauryctf.Prelude.Dict.{contains, add}
use sauryctf.Prelude.Blank.{is_blank}
use sauryctf.Prelude.Sort.{to_sorted}
use sauryctf.Prelude.Result.{Result, ok, err, throw_if, for_each, ◌>>◌, ◌>>=◌}
use sauryctf.Submissions.Replay.Facts.{is_accepted}
use sauryctf.Submissions.Replay.Challenges.{ChallengeScore, FirstSolve}
use sauryctf.Submissions.Replay.Totals.{ParticipationScore, SolveSummary}
use sauryctf.Submissions.Replay.Ranking.{compare_replayed_participation_scores}
use sauryctf.Submissions.Replay.Run.{ContestScoringReplay}

pub data ScoreboardScope : Type 0 where
  overall : ScoreboardScope
  division : String → ScoreboardScope

pub record ScoreboardChallengeColumn : Type 0 where
  pub challenge_id : String
  pub official_solve_count : ℕ
  pub current_points : ℤ
  pub first_solve_participation_id : Option String

pub record ScoreboardRow : Type 0 where
  pub rank : ℕ
  pub participation_id : String
  pub team_id : String
  pub team_name : String
  pub division_id : Option String
  pub total_points : ℤ
  pub solve_points : ℤ
  pub adjustment_points : ℤ
  pub official_solve_count : ℕ
  pub last_scoring_at : Option ℕ
  pub solves : List SolveSummary

pub record ScoreboardReadModel : Type 0 where
  pub schema : String
  pub scope : ScoreboardScope
  pub scope_key : String
  pub challenges : List ScoreboardChallengeColumn
  pub rows : List ScoreboardRow

-- `ScoreboardBuildInputError`, by its messages.
pub data BuildError : Type 0 where
  division_blank : BuildError
  duplicate_participation inconsistent_solves unknown_challenge : String → BuildError
  duplicate_challenge : String → BuildError

abbrev pub is_blank_scope : ScoreboardScope → Bool
is_blank_scope overall = false
is_blank_scope (division id) = is_blank id

abbrev pub scope_key_of : ScoreboardScope → String
scope_key_of overall = "overall"
scope_key_of (division id) = id

-- `scope.type === 'overall' || divisionId === scope.divisionId`.
abbrev pub in_scope : ScoreboardScope → Option String → Bool
in_scope overall d = true
in_scope (division id) none = false
in_scope (division id) (some d) = eqb d id

abbrev pub is_candidate : ScoreboardScope → ParticipationScore → Bool
is_candidate scope score = is_accepted score.status && in_scope scope score.division_id

-- The set that the filter's callback changes, with the scores kept so far.
pub record Selection : Type 0 where
  pub seen : List String
  pub candidates : List ParticipationScore

unfoldable pub select_candidate :
    ScoreboardScope → Selection → ParticipationScore → Result BuildError Selection
select_candidate scope s score = do
  throw_if (contains s.seen score.participation_id) (duplicate_participation score.participation_id)
  ok (record {
    seen = add score.participation_id s.seen;
    candidates = if is_candidate scope score then s.candidates ++ score ∷ [] else s.candidates;
  })

unfoldable pub validate_solve :
    String → List String → List String → SolveSummary → Result BuildError (List String)
validate_solve participation_id challenge_ids solved solve = do
  throw_if (not (contains challenge_ids solve.challenge_id)) (unknown_challenge participation_id)
  throw_if (contains solved solve.challenge_id) (duplicate_challenge participation_id)
  ok (add solve.challenge_id solved)

unfoldable pub validate_solves :
    List String → Unit {0} → ParticipationScore → Result BuildError (Unit {0})
unfolding validate_solve
validate_solves challenge_ids _ score = do
  throw_if (not (length score.solves == score.official_solve_count))
      (inconsistent_solves score.participation_id)
  _ ← for_each (validate_solve score.participation_id challenge_ids) score.solves []
  ok tt

abbrev pub row_of : ℕ → ParticipationScore → ScoreboardRow
row_of index score = record {
  rank = suc index;
  participation_id = score.participation_id;
  team_id = score.team_id;
  team_name = score.team_name;
  division_id = score.division_id;
  total_points = score.total_points;
  solve_points = score.solve_points;
  adjustment_points = score.adjustment_points;
  official_solve_count = score.official_solve_count;
  last_scoring_at = score.last_scoring_at;
  solves = score.solves;
}

abbrev pub column_of : ChallengeScore → ScoreboardChallengeColumn
column_of challenge = record {
  challenge_id = challenge.challenge_id;
  official_solve_count = challenge.official_solve_count;
  current_points = challenge.current_points;
  first_solve_participation_id = elim challenge.first_solve [
    | none ↦ none
    | some solve ↦ some solve.participation_id
  ];
}

module _ (locale_compare : String → String → Ordering) where
  abbrev pub by_column_id : ChallengeScore → ChallengeScore → Ordering
  by_column_id a b = locale_compare a.challenge_id b.challenge_id

  -- The board of the candidates that passed the checks.
  unfoldable pub board_of :
      ContestScoringReplay → ScoreboardScope → List ParticipationScore → ScoreboardReadModel
  board_of replay scope candidates = record {
    schema = "scoreboard.v1";
    scope = scope;
    scope_key = scope_key_of scope;
    challenges = map column_of (to_sorted by_column_id replay.challenge_scores);
    rows =
        map_from row_of 0
          (to_sorted (compare_replayed_participation_scores locale_compare) candidates);
  }

  unfoldable pub build :
      ContestScoringReplay → ScoreboardScope → Result BuildError ScoreboardReadModel
  build replay scope = do
    throw_if (is_blank_scope scope) division_blank
    selected ←
        for_each (select_candidate scope) replay.participation_scores
          (record { seen = []; candidates = [] })
    for_each (validate_solves (map (λ c. c.challenge_id) replay.challenge_scores))
        selected.candidates tt
    ok (board_of replay scope selected.candidates)
