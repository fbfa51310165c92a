-- ===== src/Submissions/Scoring/Bounds.antt =====
-- Bounds of a challenge's value (apps/web/server/domains/submissions/scoring.ts).
use sauryctf.Prelude.{true, false, ◌≡◌, arith}
use sauryctf.Prelude.Int.{negsuc, int_laws, ◌-ℤ◌, leb_ℤ, ℤ, pos, ◌≤ℤ◌, is_safe_integer}
use sauryctf.Prelude.Result.{ok}
use sauryctf.Submissions.Scoring.{
  ScoringPolicy, fixed_v1, decay_v1, is_scoring_policy, FloatMath, policy_value,
  calculate_challenge_score,
}

-- The least and the greatest value of a policy.
abbrev pub lowest : ScoringPolicy → ℤ
lowest (fixed_v1 points) = points
lowest (decay_v1 initial minimum decay) = minimum

abbrev pub highest : ScoringPolicy → ℤ
highest (fixed_v1 points) = points
highest (decay_v1 initial minimum decay) = initial

-- The doubles are asked for a value of a parsed policy only above one solve: the span is between 0
-- and a million, the exponent is below 0, and the decay is between 1 and a million.
decay_arguments :
    (initial minimum decay count : ℤ)
    → is_scoring_policy (decay_v1 initial minimum decay) ≡ true
    → leb_ℤ count (pos 1) ≡ false
    → (pos 0 ≤ℤ initial -ℤ minimum)
      × (initial -ℤ minimum ≤ℤ pos 1_000_000)
      × (pos 1 -ℤ count ≤ℤ negsuc 0)
      × (pos 1 ≤ℤ decay)
      × (decay ≤ℤ pos 1_000_000)
unfolding is_scoring_policy
decay_arguments initial minimum decay count valid later =
    let ordered : minimum ≤ℤ initial = ground arith in
    let from_zero : pos 0 ≤ℤ minimum = ground arith in
    let small : initial ≤ℤ pos 1_000_000 = ground arith in
    let above : pos 2 ≤ℤ count = ground arith in
    (omega int_laws, omega int_laws, omega int_laws, ground arith, ground arith)

module _ (m : FloatMath) where
  -- Of a valid policy and a safe count that is not negative a score is computed, whatever finite
  -- doubles the arithmetic gives; it lies between the policy's least and greatest value, so between
  -- 0 and a million.
  pub score_bounds :
      (p : ScoringPolicy) (n : ℤ)
      → is_scoring_policy p ≡ true
      → is_safe_integer n ≡ true
      → pos 0 ≤ℤ n
      → (v : ℤ) × (calculate_challenge_score m p n ≡ ok v)
        × (lowest p ≤ℤ v)
        × (v ≤ℤ highest p)
        × (pos 0 ≤ℤ v)
        × (v ≤ℤ pos 1_000_000)
  unfolding calculate_challenge_score policy_value is_scoring_policy
  score_bounds (fixed_v1 points) n hp hs hn =
      (points, ground arith, ground arith, ground arith, ground arith, ground arith)
  score_bounds (decay_v1 i l d) n hp hs hn = (
    policy_value m (decay_v1 i l d) n,
    ground arith,
    ground arith,
    ground arith,
    ground arith,
    ground arith,
  )
