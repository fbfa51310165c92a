-- ===== src/Submissions/Scoring.antt =====
-- apps/web/server/domains/submissions/scoring.ts and the scoring policies of
-- apps/web/shared/contracts/challenges.ts. Points and counts are integers; the arithmetic of
-- doubles is the parameter `FloatMath`.
pub mod Bounds
use sauryctf.Prelude.{Bool, true, false, ◌&&◌, ◌||◌, not, if◌then◌else◌, ◌≡◌}
use sauryctf.Prelude.Int.{ℤ, pos, ◌-ℤ◌, ◌≤ℤ◌, leb_ℤ, eqb_ℤ, ltb_ℤ, is_safe_integer, min_ℤ, max_ℤ}
use sauryctf.Prelude.Result.{Result, ok, err, throw_if, ◌>>◌, ◌>>=◌}

-- `fixed-v1` with its points, and `decay-v1` with its initial points, minimum points and decay.
pub data ScoringPolicy : Type 0 where
  fixed_v1 : ℤ → ScoringPolicy
  decay_v1 : ℤ → ℤ → ℤ → ScoringPolicy

-- `z.number().int().positive().max(1_000_000)`, and the same with zero.
abbrev pub is_points : ℤ → Bool
is_points n = leb_ℤ (pos 1) n && leb_ℤ n (pos 1_000_000)

abbrev pub is_points_or_zero : ℤ → Bool
is_points_or_zero n = leb_ℤ (pos 0) n && leb_ℤ n (pos 1_000_000)

-- `challengeScoringPolicySchema`.
unfoldable pub is_scoring_policy : ScoringPolicy → Bool
is_scoring_policy (fixed_v1 points) = is_points points
is_scoring_policy (decay_v1 initial minimum decay) =
    is_points initial && is_points_or_zero minimum && is_points decay && leb_ℤ minimum initial

-- The operations on finite IEEE 754 doubles that the score is computed with. Where it computes them,
-- the policy is parsed and the count is a safe integer above 1: `div` has a divisor from 1 to a
-- million, `exp` an argument below 0, and `mul` and `add` have factors and summands between 0 and a
-- million, so no intermediate value is infinite or NaN, and `Math.floor` gives an integer. Of other
-- arguments the operations are not asked.
pub record FloatMath : Type 1 where
  pub Float : Type 0
  pub of_ℤ : ℤ → Float
  pub add : Float → Float → Float
  pub mul : Float → Float → Float
  pub div : Float → Float → Float
  pub exp : Float → Float
  pub floor : Float → ℤ

pub data ScoringInputError : Type 0 where
  invalid_policy invalid_solve_count : ScoringInputError

module _ (m : FloatMath) where
  open m use {Float, of_ℤ, add, mul, div, exp, floor}

  -- `Math.floor` of the decayed value.
  unfoldable pub decayed : ℤ → ℤ → ℤ → ℤ → ℤ
  decayed initial minimum decay count = floor (
      add (of_ℤ minimum)
        (mul (of_ℤ (initial -ℤ minimum)) (exp (div (of_ℤ (pos 1 -ℤ count)) (of_ℤ decay)))))

  -- The value of a policy that has been parsed, at a valid count.
  unfoldable pub policy_value : ScoringPolicy → ℤ → ℤ
  policy_value (fixed_v1 points) count = points
  policy_value (decay_v1 initial minimum decay) count =
      if leb_ℤ count (pos 1) || eqb_ℤ initial minimum
      then initial
      else max_ℤ minimum (min_ℤ initial (decayed initial minimum decay count))

  unfoldable pub calculate_challenge_score : ScoringPolicy → ℤ → Result ScoringInputError ℤ
  calculate_challenge_score policy count = do
    throw_if (not (is_scoring_policy policy)) invalid_policy
    throw_if (not (is_safe_integer count) || ltb_ℤ count (pos 0)) invalid_solve_count
    ok (policy_value policy count)
