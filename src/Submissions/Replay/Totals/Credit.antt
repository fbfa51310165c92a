-- ===== src/Submissions/Replay/Totals/Credit.antt =====
-- What one solve and one adjustment do to an accumulator, and what a list of them does
-- (apps/web/server/domains/submissions/scoring-replay.ts).
use sauryctf.Prelude.{
  String, ◌+◌, true, Option, none, some, ◌≡◌, refl, sym, List, [], ◌∷◌, ◌++◌, filter, count, ltb,
  is_some, arith, ◌⊎◌, inl, inr, if◌then◌else◌,
}
use sauryctf.Prelude.Int.{ℤ, pos, ◌+ℤ◌, +ℤ_assoc, +ℤ_zero, zero_+ℤ}
use sauryctf.Prelude.Date.{Date, at, invalid}
use sauryctf.Prelude.Keys.{eqb, string_key}
use sauryctf.Prelude.Dict.{Dict, get}
use sauryctf.Prelude.Sum.{sum_by}
use sauryctf.Prelude.Result.{ok, err}
use sauryctf.Submissions.Replay.Facts.{
  SolveFact, scoring_timestamp_invalid, ScoreAdjustmentFact, safe_add,
}
use sauryctf.Submissions.Replay.Totals.{Accumulator, credit_solve, credit_adjustment, later_date}
use mathlib.Core.List.{append-nil, append_assoc}

-- The later of the two dates, and the new one where there was none.
abbrev pub later : Option Date → Date → Option Date
later none d = some d
later (some (at t)) (at u) = some (at (if ltb t u then u else t))
later (some (at t)) invalid = some (at t)
later (some invalid) d = some invalid

-- The points of a challenge, 0 for one that is not known.
abbrev pub points_at : Dict String ℤ → String → ℤ
points_at points c = elim (get c points) [ none ↦ pos 0 | some v ↦ v ]

abbrev pub with_solve : Dict String ℤ → SolveFact → Accumulator → Accumulator
with_solve points x a = record a {
  official_solve_count = a.official_solve_count + 1;
  solves = a.solves ++ x ∷ [];
  solve_points = a.solve_points +ℤ points_at points x.challenge_id;
  last_scoring_at = later a.last_scoring_at x.solved_at;
}

abbrev pub with_adjustment : ScoreAdjustmentFact → Accumulator → Accumulator
with_adjustment x a = record a {
  adjustment_points = a.adjustment_points +ℤ x.points_delta;
  last_scoring_at = later a.last_scoring_at x.created_at;
}

later_date-cases :
    (l : Option Date) (d : Date)
    → (later_date l d ≡ ok (later l d)) ⊎ (later_date l d ≡ err scoring_timestamp_invalid)
unfolding later_date
later_date-cases none (at u) = inl refl
later_date-cases (some (at t)) (at u) = inl refl
later_date-cases (some invalid) (at u) = inl refl
later_date-cases none invalid = inr refl
later_date-cases (some l) invalid = inr refl

pub credit_solve-ok :
    (points : Dict String ℤ) (x : SolveFact) (a : Accumulator) {a' : Accumulator}
    → credit_solve points x a ≡ ok a'
    → (a' ≡ with_solve points x a) × (is_some (get x.challenge_id points) ≡ true)
unfolding credit_solve safe_add
credit_solve-ok points x a h = ground (arith, later_date-cases a.last_scoring_at x.solved_at)

pub credit_adjustment-ok :
    (x : ScoreAdjustmentFact) (a : Accumulator) {a' : Accumulator}
    → credit_adjustment x a ≡ ok a'
    → a' ≡ with_adjustment x a
unfolding credit_adjustment safe_add
credit_adjustment-ok x a h = ground (arith, later_date-cases a.last_scoring_at x.created_at)

-- What the solves and the adjustments of one participation, picked from a list, do to it.
abbrev pub with_solves : Dict String ℤ → List SolveFact → String → Accumulator → Accumulator
with_solves points [] i a = a
with_solves points (x ∷ xs) i a =
    with_solves points xs i (if eqb x.participation_id i then with_solve points x a else a)

abbrev pub with_adjustments : List ScoreAdjustmentFact → String → Accumulator → Accumulator
with_adjustments [] i a = a
with_adjustments (x ∷ xs) i a =
    with_adjustments xs i (if eqb x.participation_id i then with_adjustment x a else a)

-- The sum of the points of a participation's solves, and that of its adjustments.
abbrev pub sum_points : Dict String ℤ → String → List SolveFact → ℤ
sum_points points i =
    sum_by λ x. if eqb x.participation_id i then points_at points x.challenge_id else pos 0

abbrev pub sum_adjustments : String → List ScoreAdjustmentFact → ℤ
sum_adjustments i = sum_by λ x. if eqb x.participation_id i then x.points_delta else pos 0

module _ (points : Dict String ℤ) (i : String) where
  pub solve_points-with_solves :
      (xs : List SolveFact) (a : Accumulator)
      → (with_solves points xs i a).solve_points ≡ a.solve_points +ℤ sum_points points i xs
  solve_points-with_solves [] a = sym (+ℤ_zero a.solve_points)
  solve_points-with_solves (x ∷ xs) a = ground (
    arith,
    solve_points-with_solves xs a,
    solve_points-with_solves xs (with_solve points x a),
    +ℤ_assoc a.solve_points (points_at points x.challenge_id) (sum_points points i xs),
    zero_+ℤ (sum_points points i xs),
  )

  pub solves-with_solves :
      (xs : List SolveFact) (a : Accumulator)
      → (with_solves points xs i a).solves ≡ a.solves ++ filter (λ x. eqb x.participation_id i) xs
  solves-with_solves [] a = sym (append-nil a.solves)
  solves-with_solves (x ∷ xs) a = ground (
    arith,
    solves-with_solves xs a,
    solves-with_solves xs (with_solve points x a),
    append_assoc a.solves (x ∷ []) (filter (λ y. eqb y.participation_id i) xs),
  )

  pub count-with_solves :
      (xs : List SolveFact) (a : Accumulator)
      → (with_solves points xs i a).official_solve_count
        ≡ a.official_solve_count + count (λ x. eqb x.participation_id i) xs
  count-with_solves [] a = omega arith
  count-with_solves (x ∷ xs) a =
      ground (arith, count-with_solves xs a, count-with_solves xs (with_solve points x a))

  -- Solves leave the participation and its adjustments alone.
  pub kept-with_solves :
      (xs : List SolveFact) (a : Accumulator)
      → ((with_solves points xs i a).participation ≡ a.participation)
        × ((with_solves points xs i a).adjustment_points ≡ a.adjustment_points)
  kept-with_solves [] a = (refl, refl)
  kept-with_solves (x ∷ xs) a =
      ground (arith, kept-with_solves xs a, kept-with_solves xs (with_solve points x a))

module _ (i : String) where
  pub adjustment_points-with_adjustments :
      (xs : List ScoreAdjustmentFact) (a : Accumulator)
      → (with_adjustments xs i a).adjustment_points ≡ a.adjustment_points +ℤ sum_adjustments i xs
  adjustment_points-with_adjustments [] a = sym (+ℤ_zero a.adjustment_points)
  adjustment_points-with_adjustments (x ∷ xs) a = ground (
    arith,
    adjustment_points-with_adjustments xs a,
    adjustment_points-with_adjustments xs (with_adjustment x a),
    +ℤ_assoc a.adjustment_points x.points_delta (sum_adjustments i xs),
    zero_+ℤ (sum_adjustments i xs),
  )

  -- Adjustments leave all else of the accumulator alone but the time of the last score.
  pub kept-with_adjustments :
      (xs : List ScoreAdjustmentFact) (a : Accumulator)
      → ((with_adjustments xs i a).participation ≡ a.participation)
        × ((with_adjustments xs i a).solve_points ≡ a.solve_points)
        × ((with_adjustments xs i a).solves ≡ a.solves)
        × ((with_adjustments xs i a).official_solve_count ≡ a.official_solve_count)
  kept-with_adjustments [] a = (refl, refl, refl, refl)
  kept-with_adjustments (x ∷ xs) a =
      ground (arith, kept-with_adjustments xs a, kept-with_adjustments xs (with_adjustment x a))
