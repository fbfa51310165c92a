-- ===== src/Submissions/Replay/Ranking.antt =====
-- The order of the scores and the ranking
-- (apps/web/server/domains/submissions/scoring-replay.ts).
pub mod Laws
use sauryctf.Prelude.{ℕ, suc, String, Option, none, some, List, Ordering, compare, filter, map_from}
use sauryctf.Prelude.Int.{ℤ, compare_ℤ}
use sauryctf.Prelude.Order.{◌or_then◌}
use sauryctf.Prelude.Sort.{to_sorted}
use sauryctf.Submissions.Replay.Facts.{is_accepted}
use sauryctf.Submissions.Replay.Totals.{ParticipationScore}

-- `ReplayedRankSummary`.
pub record RankSummary : Type 0 where
  pub rank : ℕ
  pub participation_id : String
  pub team_id : String
  pub total_points : ℤ
  pub last_scoring_at : Option ℕ

-- The order of `nullableTimestamp`, where a missing time is infinite.
abbrev pub compare_nullable : Option ℕ → Option ℕ → Ordering
compare_nullable none none = Ordering.eq
compare_nullable none (some t) = Ordering.gt
compare_nullable (some t) none = Ordering.lt
compare_nullable (some t) (some u) = compare t u

abbrev pub rank_summary : ℕ → ParticipationScore → RankSummary
rank_summary index score = record {
  rank = suc index;
  participation_id = score.participation_id;
  team_id = score.team_id;
  total_points = score.total_points;
  last_scoring_at = score.last_scoring_at;
}

module _ (locale_compare : String → String → Ordering) where
  -- `compareReplayedParticipationScores`: more points first, then the earlier last score.
  unfoldable pub compare_replayed_participation_scores :
      ParticipationScore → ParticipationScore → Ordering
  compare_replayed_participation_scores a b =
      compare_ℤ b.total_points a.total_points
      or_then compare_nullable a.last_scoring_at b.last_scoring_at
      or_then locale_compare a.team_id b.team_id
      or_then locale_compare a.participation_id b.participation_id

  unfoldable pub ranking_summary : List ParticipationScore → List RankSummary
  ranking_summary scores = map_from rank_summary 0 (
      to_sorted compare_replayed_participation_scores
        (filter (λ score. is_accepted score.status) scores))
