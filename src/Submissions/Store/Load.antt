-- ===== src/Submissions/Store/Load.antt =====
-- `load` of apps/web/server/infrastructure/db/scoring-replay-repository.ts: the facts of a contest,
-- all of them or those before a time. The identifiers are UUIDs in their canonical form, which the
-- database orders as texts.
use Prim.Native.String.{compare as compare_text}
use sauryctf.Prelude.{
  ℕ, String, Bool, true, not, ◌&&◌, Option, none, some, is_some, List, map, filter, ltb, compare,
  Ordering,
}
use sauryctf.Prelude.Int.{pos}
use sauryctf.Prelude.Date.{at}
use sauryctf.Prelude.Keys.{eqb}
use sauryctf.Prelude.Order.{◌or_then◌}
use sauryctf.Prelude.Sort.{to_sorted}
use sauryctf.Prelude.Table.{find, or_throw}
use sauryctf.Prelude.Result.{Result, ok, throw_if, map_result, ◌>>◌, ◌>>=◌}
use sauryctf.Submissions.Scoring.{is_scoring_policy}
use sauryctf.Submissions.Replay.Facts.{
  SubmissionMode, ChallengeFact, ParticipationFact, SubmissionFact, SolveFact, ScoreAdjustmentFact,
  ContestScoringFacts,
}
use sauryctf.Submissions.Store.Tables.{
  ContestRow, ParticipationRow, ChallengeRow, SubmissionRow, SolveRow, ScoreAdjustmentRow,
  SubmissionTables, StoreError, store_contest_not_found, policy_invalid,
}
use sauryctf.Submissions.Store.Admission.{find_team}

-- `$2 IS NULL OR time < $2`.
abbrev pub is_fact_before : Option ℕ → ℕ → Bool
is_fact_before none time = true
is_fact_before (some t) time = ltb time t

-- The order of the column `mode`.
abbrev pub compare_mode : SubmissionMode → SubmissionMode → Ordering
compare_mode SubmissionMode.official SubmissionMode.practice = Ordering.lt
compare_mode SubmissionMode.practice SubmissionMode.official = Ordering.gt
compare_mode _ _ = Ordering.eq

abbrev pub solve_row_order : SolveRow → SolveRow → Ordering
solve_row_order a b =
    compare_mode a.mode b.mode
    or_then compare_text a.contest_challenge_id b.contest_challenge_id
    or_then compare a.solve_order b.solve_order
    or_then compare a.solved_at b.solved_at
    or_then compare_text a.id b.id

abbrev pub submission_row_order : SubmissionRow → SubmissionRow → Ordering
submission_row_order a b = compare a.submitted_at b.submitted_at or_then compare_text a.id b.id

abbrev pub adjustment_row_order : ScoreAdjustmentRow → ScoreAdjustmentRow → Ordering
adjustment_row_order a b = compare a.created_at b.created_at or_then compare_text a.id b.id

unfoldable pub challenge_fact : ChallengeRow → Result StoreError ChallengeFact
challenge_fact row = do
  throw_if (not (is_scoring_policy row.scoring_policy)) policy_invalid
  ok (record { id = row.id; scoring_policy = row.scoring_policy })

abbrev pub participation_fact : SubmissionTables → ParticipationRow → ParticipationFact
participation_fact db row = record {
  id = row.id;
  team_id = row.team_id;
  team_name = elim (find_team db row.team_id) [ none ↦ "" | some t ↦ t.name ];
  division_id = row.division_id;
  status = row.status;
}

abbrev pub submission_fact : SubmissionRow → SubmissionFact
submission_fact row = record {
  id = row.id;
  challenge_id = row.contest_challenge_id;
  participation_id = row.participation_id;
  mode = row.mode;
  result = row.result;
  submitted_at = at row.submitted_at;
}

abbrev pub solve_fact : SolveRow → SolveFact
solve_fact row = record {
  id = row.id;
  submission_id = row.submission_id;
  challenge_id = row.contest_challenge_id;
  participation_id = row.participation_id;
  mode = row.mode;
  solve_order = pos row.solve_order;
  solved_at = at row.solved_at;
}

abbrev pub adjustment_fact : ScoreAdjustmentRow → ScoreAdjustmentFact
adjustment_fact row = record {
  id = row.id;
  participation_id = row.participation_id;
  points_delta = row.points_delta;
  created_at = at row.created_at;
}

-- The rows of the three queries over the facts, before their order.
abbrev pub solves_in : SubmissionTables → String → Option ℕ → List SolveRow
solves_in db contest_id before =
    filter (λ (s : SolveRow). eqb s.contest_id contest_id && is_fact_before before s.solved_at)
      db.solves

abbrev pub adjustments_in : SubmissionTables → String → Option ℕ → List ScoreAdjustmentRow
adjustments_in db contest_id before =
    filter
      (λ (a : ScoreAdjustmentRow).
        eqb a.contest_id contest_id && is_fact_before before a.created_at)
      db.adjustments

abbrev pub submissions_in : SubmissionTables → String → Option ℕ → List SubmissionRow
submissions_in db contest_id before =
    filter
      (λ (s : SubmissionRow). eqb s.contest_id contest_id && is_fact_before before s.submitted_at)
      db.submissions

abbrev pub challenges_in : SubmissionTables → String → List ChallengeRow
challenges_in db contest_id =
    to_sorted (λ (a b : ChallengeRow). compare_text a.id b.id)
      (filter (λ (c : ChallengeRow). eqb c.contest_id contest_id) db.challenges)

-- A participation without a team is not joined.
abbrev pub participations_in : SubmissionTables → String → List ParticipationRow
participations_in db contest_id =
    to_sorted (λ (a b : ParticipationRow). compare_text a.id b.id)
      (filter
        (λ (p : ParticipationRow). eqb p.contest_id contest_id && is_some (find_team db p.team_id))
        db.participations)

unfoldable pub load : SubmissionTables → String → Option ℕ → Result StoreError ContestScoringFacts
unfolding challenge_fact
load db contest_id facts_before = do
  _ ← or_throw (find (λ (c : ContestRow). eqb c.id contest_id) db.contests) store_contest_not_found
  challenges ← map_result challenge_fact (challenges_in db contest_id)
  ok (record {
    challenges = challenges;
    participations = map (participation_fact db) (participations_in db contest_id);
    submissions =
        map submission_fact
          (to_sorted submission_row_order (submissions_in db contest_id facts_before));
    solves = map solve_fact (to_sorted solve_row_order (solves_in db contest_id facts_before));
    adjustments =
        map adjustment_fact
          (to_sorted adjustment_row_order (adjustments_in db contest_id facts_before));
  })
