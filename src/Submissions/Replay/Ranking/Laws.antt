-- ===== src/Submissions/Replay/Ranking/Laws.antt =====
-- The order and the contents of the ranking
-- (apps/web/server/domains/submissions/scoring-replay.ts).
use sauryctf.Prelude.{
  ℕ, suc, String, Option, none, some, ◌≡◌, ◌≢◌, refl, List, [], ◌∷◌, All, Ordering, filter,
  map_from, arith,
}
use sauryctf.Prelude.Int.{◌≤ℤ◌}
use sauryctf.Prelude.Order.{
  Before, IsComparator, swap, or_then-IsComparator, on-IsComparator, swap-IsComparator,
  compare_ℤ-IsComparator,
}
use sauryctf.Prelude.Sort.{to_sorted, IsAscending, to_sorted-IsAscending, to_sorted-perm}
use sauryctf.Submissions.Replay.Facts.{is_accepted}
use sauryctf.Submissions.Replay.Totals.{ParticipationScore}
use sauryctf.Submissions.Replay.Ranking.{
  RankSummary, compare_nullable, rank_summary, compare_replayed_participation_scores,
  ranking_summary,
}
use mathlib.Core.List.{Perm}

compare_nullable-IsComparator : IsComparator compare_nullable
compare_nullable-IsComparator = record {
  anti = λ a b. nullable_anti a b;
  trans = λ a b c p q. nullable_trans a b c p q;
}
  where
    nullable_anti : (a b : Option ℕ) → compare_nullable b a ≡ swap (compare_nullable a b)
    nullable_anti none none = refl
    nullable_anti none (some u) = refl
    nullable_anti (some t) none = refl
    nullable_anti (some t) (some u) = ground arith

    nullable_trans :
        (a b c : Option ℕ)
        → Before compare_nullable a b
        → Before compare_nullable b c
        → Before compare_nullable a c
    nullable_trans a b c p q = ground arith

-- An entry of the ranking is not behind another: it has more points, or as many and no later last
-- score.
abbrev pub NotBehind : RankSummary → RankSummary → Type 0
NotBehind x y =
    (y.total_points ≤ℤ x.total_points)
    × (x.total_points ≡ y.total_points
        → compare_nullable x.last_scoring_at y.last_scoring_at ≢ Ordering.gt)

-- The ranks run on from an index, and no entry is behind a later one.
abbrev pub IsRanking : ℕ → List RankSummary → Type 0
IsRanking i [] = Unit
IsRanking i (x ∷ xs) = (x.rank ≡ suc i) × All (NotBehind x) xs × IsRanking (suc i) xs

module _ {locale_compare : String → String → Ordering}
    (collation : IsComparator locale_compare) where
  pub compare_scores-IsComparator :
      IsComparator (compare_replayed_participation_scores locale_compare)
  unfolding compare_replayed_participation_scores
  compare_scores-IsComparator =
      or_then-IsComparator
        (swap-IsComparator (on-IsComparator (λ x. x.total_points) compare_ℤ-IsComparator))
        (or_then-IsComparator
          (on-IsComparator (λ x. x.last_scoring_at) compare_nullable-IsComparator)
          (or_then-IsComparator (on-IsComparator (λ x. x.team_id) collation)
            (on-IsComparator (λ x. x.participation_id) collation)))

  NotBehind-of_Before :
      (i j : ℕ) (x y : ParticipationScore)
      → Before (compare_replayed_participation_scores locale_compare) x y
      → NotBehind (rank_summary i x) (rank_summary j y)
  unfolding compare_replayed_participation_scores
  NotBehind-of_Before i j x y h = (ground arith, λ e. ground arith)

  All-NotBehind :
      (i j : ℕ) (x : ParticipationScore) (ys : List ParticipationScore)
      → All (Before (compare_replayed_participation_scores locale_compare) x) ys
      → All (NotBehind (rank_summary i x)) (map_from rank_summary j ys)
  All-NotBehind i j x [] h = tt
  All-NotBehind i j x (y ∷ ys) h =
      (NotBehind-of_Before i j x y h.0, All-NotBehind i (suc j) x ys h.1)

  pub ascending-IsRanking :
      (i : ℕ) (xs : List ParticipationScore)
      → IsAscending (compare_replayed_participation_scores locale_compare) xs
      → IsRanking i (map_from rank_summary i xs)
  ascending-IsRanking i [] h = tt
  ascending-IsRanking i (x ∷ xs) h =
      (refl, All-NotBehind i (suc i) x xs h.0, ascending-IsRanking (suc i) xs h.1)

  -- The ranking of some scores lists the accepted ones, each once, in order.
  pub ranking_summary-IsRanking :
      (scores : List ParticipationScore)
      → IsRanking 0 (ranking_summary locale_compare scores)
        × ((ranked : List ParticipationScore) × (ranking_summary locale_compare scores
              ≡ map_from rank_summary 0 ranked)
            × Perm ranked (filter (λ x. is_accepted x.status) scores))
  unfolding ranking_summary
  ranking_summary-IsRanking scores =
      let accepted = filter (λ (x : ParticipationScore). is_accepted x.status) scores in
      let cmp = compare_replayed_participation_scores locale_compare in
      (
        ascending-IsRanking 0 (to_sorted cmp accepted)
            (to_sorted-IsAscending compare_scores-IsComparator accepted),
        (to_sorted cmp accepted, refl, to_sorted-perm cmp accepted),
      )
