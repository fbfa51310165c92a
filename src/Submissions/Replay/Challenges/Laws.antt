-- ===== src/Submissions/Replay/Challenges/Laws.antt =====
-- What the loop over the challenges computes
-- (apps/web/server/domains/submissions/scoring-replay.ts).
use sauryctf.Prelude.{
  ℕ, suc, String, false, none, ◌≡◌, refl, sym, ap, ◌∙◌, List, [], ◌∷◌, ◌++◌, map, All₂, Ordering,
  length, arith, none_of_is_some,
}
use sauryctf.Prelude.Int.{ℤ, pos, eqb_ℤ_iff}
use sauryctf.Prelude.Keys.{string_key}
use sauryctf.Prelude.Dict.{Dict, get, set, contains, values, set_new}
use sauryctf.Prelude.Distinct.{
  IsDistinct, index, index-append, get-index, IsDistinct-middle, IsDistinct-to_sorted,
}
use sauryctf.Prelude.Sort.{to_sorted, length-to_sorted}
use sauryctf.Prelude.Result.{Result, ok, err, bind-eq-ok, for_each}
use sauryctf.Submissions.Scoring.{ScoringInputError, FloatMath, calculate_challenge_score}
use sauryctf.Submissions.Replay.Facts.{ChallengeFact, SolveFact, compare_solve_facts}
use sauryctf.Submissions.Replay.Check.{solves_of}
use sauryctf.Submissions.Replay.Challenges.{
  ChallengeScore, ScoreState, check_orders, first_solve_of, scored, score_challenge,
  score_challenges, by_challenge_id,
}
use mathlib.Core.Path.{subst}
use mathlib.Core.List.{append-nil, append_assoc, map-append}

-- The orders of the solves run on from an index without a gap.
abbrev pub HasOrders : ℕ → List SolveFact → Type 0
HasOrders i [] = Unit
HasOrders i (x ∷ xs) = (x.solve_order ≡ pos (suc i)) × HasOrders (suc i) xs

scored-ok : (r : Result ScoringInputError ℤ) {v : ℤ} → scored r ≡ ok v → r ≡ ok v
scored-ok (ok w) h = cc
scored-ok (err e) h = cc

check_orders-ok :
    (c : String) (i : ℕ) (xs : List SolveFact) (u : Unit {0})
    → check_orders c i xs ≡ ok u
    → HasOrders i xs
unfolding check_orders
check_orders-ok c i [] u h = tt
check_orders-ok c i (x ∷ xs) u h =
    ground (arith, eqb_ℤ_iff x.solve_order (pos (suc i)), check_orders-ok c (suc i) xs u)

-- The points of each challenge by its identifier.
abbrev pub points_of : List ChallengeScore → Dict String ℤ
points_of = index (λ x. x.challenge_id) (λ x. x.current_points)

points-snoc :
    (s t : ScoreState) (x : ChallengeScore) (k : String)
    → x.challenge_id ≡ k
    → contains (map (λ y. y.challenge_id) s.challenge_scores) k ≡ false
    → s.challenge_points ≡ points_of s.challenge_scores
    → t.challenge_scores ≡ s.challenge_scores ++ x ∷ []
    → t.challenge_points ≡ set k x.current_points s.challenge_points
    → t.challenge_points ≡ points_of t.challenge_scores
points-snoc s t x k same fresh p grown put =
    let gone : get k (points_of s.challenge_scores) ≡ none =
      none_of_is_some _
        (get-index (λ y. y.challenge_id) (λ y. y.current_points) k s.challenge_scores ∙ fresh) in
    put
    ∙ ap (set k x.current_points) p
    ∙ set_new k x.current_points (points_of s.challenge_scores) gone
    ∙ ap (λ i. points_of s.challenge_scores ++ (i, x.current_points) ∷ []) (sym same)
    ∙ sym (index-append (λ y. y.challenge_id) (λ y. y.current_points) s.challenge_scores (x ∷ []))
    ∙ ap points_of (sym grown)

ids-snoc :
    (l l' : List ChallengeScore) (x : ChallengeScore) (c : ChallengeFact) (cs : List ChallengeFact)
    → x.challenge_id ≡ c.id
    → l' ≡ l ++ x ∷ []
    → IsDistinct (map (λ y. y.challenge_id) l ++ map (λ y. y.id) (c ∷ cs))
    → IsDistinct (map (λ y. y.challenge_id) l' ++ map (λ y. y.id) cs)
ids-snoc l l' x c cs same grown d =
    subst (λ y. IsDistinct y)
      (sym (
        ap (λ y. map (λ z. z.challenge_id) y ++ map (λ z. z.id) cs) grown
        ∙ ap (λ y. y ++ map (λ z. z.id) cs) (map-append (λ z. z.challenge_id) l (x ∷ []))
        ∙ append_assoc (map (λ z. z.challenge_id) l) (x.challenge_id ∷ []) (map (λ z. z.id) cs)
        ∙ ap (λ i. map (λ z. z.challenge_id) l ++ i ∷ map (λ z. z.id) cs) same))
      d

module _ (m : FloatMath) (locale_compare : String → String → Ordering) where
  -- The score of a challenge, given its solves.
  pub record IsScoreOf (solves : List SolveFact) (c : ChallengeFact) (x : ChallengeScore)
      : Type 0 where
    pub same_id : x.challenge_id ≡ c.id
    pub count : x.official_solve_count ≡ length solves
    pub points :
        calculate_challenge_score m c.scoring_policy (pos x.official_solve_count)
        ≡ ok x.current_points
    pub orders : HasOrders 0 (to_sorted (compare_solve_facts locale_compare) solves)
    pub first :
        first_solve_of (to_sorted (compare_solve_facts locale_compare) solves) ≡ ok x.first_solve

  module _ (by : Dict String (List SolveFact)) where
    score_challenge-ok :
        (s s' : ScoreState) (c : ChallengeFact)
        → score_challenge m locale_compare by s c ≡ ok s'
        → (x : ChallengeScore) × IsScoreOf (solves_of c.id by) c x
          × (s'.challenge_scores ≡ s.challenge_scores ++ x ∷ [])
          × (s'.challenge_points ≡ set c.id x.current_points s.challenge_points)
    unfolding score_challenge
    score_challenge-ok s s' c h =
        let solves = to_sorted (compare_solve_facts locale_compare) (solves_of c.id by) in
        let (u, orders, h₁) = bind-eq-ok (check_orders c.id 0 solves) _ h in
        let (points, priced, h₂) =
          bind-eq-ok (scored (calculate_challenge_score m c.scoring_policy (pos (length solves)))) _
            h₁ in
        let (first, found, h₃) = bind-eq-ok (first_solve_of solves) _ h₂ in
        let len = length-to_sorted (compare_solve_facts locale_compare) (solves_of c.id by) in
        (
          record {
            challenge_id = c.id;
            official_solve_count = length solves;
            current_points = points;
            first_solve = first;
          },
          record {
            same_id = refl;
            count = len;
            points = scored-ok _ priced;
            orders = check_orders-ok c.id 0 solves u orders;
            first = found;
          },
          cc,
          cc,
        )

    score-from :
        (cs : List ChallengeFact) (s s' : ScoreState)
        → for_each (score_challenge m locale_compare by) cs s ≡ ok s'
        → s.challenge_points ≡ points_of s.challenge_scores
        → IsDistinct (map (λ x. x.challenge_id) s.challenge_scores ++ map (λ c. c.id) cs)
        → (xs : List ChallengeScore) × All₂ (λ c x. IsScoreOf (solves_of c.id by) c x) cs xs
          × (s'.challenge_scores ≡ s.challenge_scores ++ xs)
          × (s'.challenge_points ≡ points_of s'.challenge_scores)
    score-from [] s s' h p d =
        let e : s ≡ s' = cc in
        (
          [],
          tt,
          sym (append-nil _ ∙ ap (λ t. t.challenge_scores) e),
          subst (λ t. t.challenge_points ≡ points_of t.challenge_scores) e p,
        )
    score-from (c ∷ cs) s s' h p d =
        let (t, e, h') = bind-eq-ok (score_challenge m locale_compare by s c) _ h in
        let (x, good, grown, put) = score_challenge-ok s t c e in
        let fresh =
          IsDistinct-middle (map (λ y. y.challenge_id) s.challenge_scores) c.id (map (λ y. y.id) cs)
            d in
        let p' = points-snoc s t x c.id good.same_id fresh p grown put in
        let d' = ids-snoc s.challenge_scores t.challenge_scores x c cs good.same_id grown d in
        let (xs, all, e₁, e₂) = score-from cs t s' h' p' d' in
        (
          x ∷ xs,
          (good, all),
          e₁ ∙ ap (λ l. l ++ xs) grown ∙ append_assoc s.challenge_scores (x ∷ []) xs,
          e₂,
        )

    -- The scores stand in the order of the challenges' identifiers, each is the score of its
    -- challenge, and the map of points is the one that they give.
    pub score_challenges-ok :
        (d : Dict String ChallengeFact) (s : ScoreState)
        → score_challenges m locale_compare d by ≡ ok s
        → IsDistinct (map (λ c. c.id) (values d))
        → All₂
            (λ c x. IsScoreOf (solves_of c.id by) c x)
            (to_sorted (by_challenge_id locale_compare) (values d))
            s.challenge_scores
          × (s.challenge_points ≡ points_of s.challenge_scores)
    unfolding score_challenges
    score_challenges-ok d s h k =
        let (xs, all, e₁, e₂) =
          score-from (to_sorted (by_challenge_id locale_compare) (values d)) _ s h refl
            (IsDistinct-to_sorted (λ c. c.id) (by_challenge_id locale_compare) (values d) k) in
        (
          subst
              (λ l.
                All₂ (λ c x. IsScoreOf (solves_of c.id by) c x)
                  (to_sorted (by_challenge_id locale_compare) (values d)) l)
              (sym e₁) all,
          e₂,
        )
