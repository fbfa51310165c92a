-- ===== src/Scoreboards/Replayed.antt =====
-- The boards of replays (apps/web/server/domains/scoreboards/builder.ts with
-- apps/web/server/domains/submissions/scoring-replay.ts).
use mathlib.Core.Path.{subst}
use sauryctf.Prelude.{
  String, true, false, ◌≡◌, refl, sym, ap, ◌∙◌, List, [], ◌∷◌, map, length, filter, length-map,
  length-filter, count, All, All₂-map, All₂-imp, All-of_All₂, All-of_map, All-map, All-filter,
  All-imp, Ordering, arith,
}
use sauryctf.Prelude.Keys.{eqb, eqb_iff, string_key, pair_key}
use sauryctf.Prelude.Dict.{contains}
use sauryctf.Prelude.Distinct.{IsDistinct, IsDistinct-to_sorted, contains-to_sorted, get-keyed}
use sauryctf.Prelude.Sort.{to_sorted, All-to_sorted, length-to_sorted}
use sauryctf.Prelude.Result.{ok, ok-inj, map_result, map_result-each}
use sauryctf.Submissions.Scoring.{FloatMath}
use sauryctf.Submissions.Replay.Facts.{
  ContestScoringFacts, SolveFact, ChallengeFact, ParticipationFact,
}
use sauryctf.Submissions.Replay.Check.{pair_of}
use sauryctf.Submissions.Replay.Totals.{
  ParticipationScore, SolveSummary, summary_of, by_challenge, by_participation_id,
}
use sauryctf.Submissions.Replay.Challenges.{ChallengeScore, by_challenge_id}
use sauryctf.Submissions.Replay.Ranking.{ranking_summary}
use sauryctf.Submissions.Replay.Run.Steps.{replay-IsRun}
use sauryctf.Submissions.Replay.Run.{ContestScoringReplay, official_solves, replay_contest_scoring}
use sauryctf.Submissions.Replay.Run.Laws.{
  IsConsistent, replay-IsConsistent, replay-challenge_scores, replay-participation_scores,
}
use sauryctf.Scoreboards.Builder.{
  ScoreboardScope, overall, ScoreboardReadModel, is_blank_scope, is_candidate, board_of, build,
}
use sauryctf.Scoreboards.Builder.Laws.{IsListed, build-ok, entry_of, overall_rows}

not_solved :
    (p c : String) (xs : List SolveFact)
    → contains (map pair_of xs) (p, c) ≡ false
    → contains (map (λ s. s.challenge_id) (filter (λ s. eqb s.participation_id p) xs)) c ≡ false
not_solved p c [] h = refl
not_solved p c (x ∷ xs) h =
    ground (arith, eqb_iff x.participation_id p, eqb_iff p x.participation_id, not_solved p c xs)

-- Of distinct pairs, those of one participation have distinct challenges.
solved_distinct :
    (p : String) (xs : List SolveFact)
    → IsDistinct (map pair_of xs)
    → IsDistinct (map (λ s. s.challenge_id) (filter (λ s. eqb s.participation_id p) xs))
solved_distinct p [] h = tt
solved_distinct p (x ∷ xs) h = ground (
  arith,
  eqb_iff x.participation_id p,
  not_solved p x.challenge_id xs,
  solved_distinct p xs h.1,
  λ (e : x.participation_id ≡ p). ap (λ q. contains (map pair_of xs) (q, x.challenge_id)) e,
)

summary_of-challenge :
    (s : SolveFact) (y : SolveSummary) → summary_of s ≡ ok y → y.challenge_id ≡ s.challenge_id
summary_of-challenge s y h = ground arith

module _ (locale_compare : String → String → Ordering) where
  module _ (solves : List SolveFact) (ids : List String)
      (known : All (λ s. contains ids s.challenge_id ≡ true) solves)
      (once : IsDistinct (map pair_of solves)) where
    abbrev own : String → List SolveFact
    own p = filter (λ s. eqb s.participation_id p) solves

    -- The listed solves of a score fit its count and the challenges.
    listed :
        (p : String) (x : ParticipationScore)
        → map_result summary_of (to_sorted (by_challenge locale_compare) (own p)) ≡ ok x.solves
        → x.official_solve_count ≡ count (λ s. eqb s.participation_id p) solves
        → IsListed ids x
    listed p x h n =
        let cmp = by_challenge locale_compare in
        let sorted = to_sorted cmp (own p) in
        let same : map (λ y. y.challenge_id) x.solves ≡ map (λ s. s.challenge_id) sorted =
          All₂-map (λ (s : SolveFact). s.challenge_id) (λ (y : SolveSummary). y.challenge_id) sorted
            x.solves
            (All₂-imp _ _ sorted x.solves summary_of-challenge
              (map_result-each summary_of sorted x.solves h)) in
        record {
          counted =
              sym (length-map (λ (y : SolveSummary). y.challenge_id) x.solves)
              ∙ ap length same
              ∙ length-map (λ (s : SolveFact). s.challenge_id) sorted
              ∙ length-to_sorted cmp (own p)
              ∙ length-filter (λ (s : SolveFact). eqb s.participation_id p) solves
              ∙ sym n;
          known =
              All-of_map (λ (y : SolveSummary). y.challenge_id) (λ c. contains ids c ≡ true)
                x.solves
                (subst (All (λ c. contains ids c ≡ true)) (sym same) (
                  All-map (λ (s : SolveFact). s.challenge_id) (λ c. contains ids c ≡ true) sorted
                    (All-to_sorted cmp (λ s. contains ids s.challenge_id ≡ true) (own p)
                      (All-filter (λ s. contains ids s.challenge_id ≡ true)
                        (λ s. eqb s.participation_id p) solves known))));
          distinct = subst IsDistinct (sym same) (
              IsDistinct-to_sorted (λ s. s.challenge_id) cmp (own p)
                (solved_distinct p solves once));
        }

module _ (m : FloatMath) (locale_compare : String → String → Ordering) where
  module _ (facts : ContestScoringFacts) (r : ContestScoringReplay)
      (h : replay_contest_scoring m locale_compare facts ≡ ok r) where
    consistent : IsConsistent locale_compare facts
    consistent = replay-IsConsistent m locale_compare facts r h

    abbrev column_ids : List String
    column_ids = map (λ c. c.challenge_id) r.challenge_scores

    solves_known :
        All
          (λ s. contains column_ids s.challenge_id ≡ true)
          (official_solves locale_compare facts.solves)
    solves_known =
        let sorted = to_sorted (by_challenge_id locale_compare) facts.challenges in
        let ids : column_ids ≡ map (λ c. c.id) sorted =
          All₂-map (λ (c : ChallengeFact). c.id) (λ (x : ChallengeScore). x.challenge_id) sorted
            r.challenge_scores
            (All₂-imp _ _ sorted r.challenge_scores (λ c x i. i.same_id)
              (replay-challenge_scores m locale_compare facts r h)) in
        All-imp _ _ (official_solves locale_compare facts.solves)
          (λ s i.
            ap (λ l. contains l s.challenge_id) ids
            ∙ contains-to_sorted (λ c. c.id) (by_challenge_id locale_compare) facts.challenges
                s.challenge_id
            ∙ sym (get-keyed (λ c. c.id) s.challenge_id facts.challenges)
            ∙ i.challenge_known)
          consistent.solves_sound

    scores-IsDistinct : IsDistinct (map (λ x. x.participation_id) r.participation_scores)
    scores-IsDistinct =
        let (scores, sorted, all) = replay-participation_scores m locale_compare facts r h in
        let ids : map (λ x. x.participation_id) scores ≡ map (λ p. p.id) facts.participations =
          All₂-map (λ (p : ParticipationFact). p.id)
            (λ (x : ParticipationScore). x.participation_id) facts.participations scores
            (All₂-imp _ _ facts.participations scores (λ p x i. i.0.participation) all) in
        subst (λ l. IsDistinct (map (λ (x : ParticipationScore). x.participation_id) l))
          (sym sorted)
          (IsDistinct-to_sorted (λ x. x.participation_id) (by_participation_id locale_compare)
            scores (subst IsDistinct (sym ids) consistent.participation_ids))

    scores-IsListed : All (IsListed column_ids) r.participation_scores
    scores-IsListed =
        let (scores, sorted, all) = replay-participation_scores m locale_compare facts r h in
        subst (All (IsListed column_ids)) (sym sorted) (
          All-to_sorted (by_participation_id locale_compare) (IsListed column_ids) scores (
            All-of_All₂ _ (IsListed column_ids) facts.participations scores
              (λ p x i.
                listed locale_compare (official_solves locale_compare facts.solves) column_ids
                  solves_known consistent.solved_once p.id x i.1 i.0.solve_count)
              all))

    -- A successful replay has a board for every scope but a blank division: none of the checks of
    -- the builder fails on it, and the board's rows are made of the accepted participations of the
    -- scope.
    pub replay-build :
        (scope : ScoreboardScope)
        → is_blank_scope scope ≡ false
        → build locale_compare r scope
          ≡ ok
              (board_of locale_compare r scope (filter (is_candidate scope) r.participation_scores))
    replay-build scope named =
        build-ok locale_compare r scope named scores-IsDistinct scores-IsListed

    run_ranking : r.ranking_summary ≡ ranking_summary locale_compare r.participation_scores
    run_ranking = (replay-IsRun m locale_compare facts r h).scored.ranking

    -- The overall board of a successful replay shows the replay's own ranking: the same ranks,
    -- participations, teams, points and times, in the same order.
    pub replay-overall :
        (b : ScoreboardReadModel)
        → build locale_compare r overall ≡ ok b
        → map entry_of b.rows ≡ r.ranking_summary
    replay-overall b made =
        let board =
          board_of locale_compare r overall
            (filter (is_candidate overall) r.participation_scores) in
        let same : board ≡ b = ok-inj (replay-build overall refl) made in
        ap (λ (z : ScoreboardReadModel). map entry_of z.rows) (sym same)
        ∙ overall_rows locale_compare r
        ∙ sym run_ranking
