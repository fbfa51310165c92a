-- ===== src/Tests/Score.antt =====
-- The value of a challenge, with the coarse doubles of `Tests/Replay.antt`.
use sauryctf.Prelude.{◌≡◌, refl, arith}
use sauryctf.Prelude.Int.{ℤ, pos, ◌≤ℤ◌}
use sauryctf.Prelude.Result.{ok}
use sauryctf.Submissions.Scoring.{ScoringPolicy, is_scoring_policy, calculate_challenge_score}
use sauryctf.Submissions.Scoring.Bounds.{lowest, highest, score_bounds}
use sauryctf.Tests.Replay.{coarse}

abbrev web : ScoringPolicy
web = ScoringPolicy.decay_v1 (pos 500) (pos 100) (pos 10)

score_bounds_example :
    (v : ℤ) × (calculate_challenge_score coarse web (pos 7) ≡ ok v)
    × (lowest web ≤ℤ v)
    × (v ≤ℤ highest web)
    × (pos 0 ≤ℤ v)
    × (v ≤ℤ pos 1_000_000)
unfolding is_scoring_policy
score_bounds_example = score_bounds coarse web (pos 7) refl refl (omega arith)
