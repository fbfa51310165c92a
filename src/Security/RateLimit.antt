-- ===== src/Security/RateLimit.antt =====
-- `MemoryRateLimitStore` (apps/web/server/infrastructure/security/rate-limit.ts): windows that
-- count the requests of a bucket. The clock is an argument.
pub mod Windows
use sauryctf.Prelude.{
  ℕ, String, Bool, leb, ◌+◌, ◌-◌, max, Option, none, some, List, [], ◌∷◌, if◌then◌else◌,
}
use sauryctf.Prelude.Keys.{string_key}
use sauryctf.Prelude.Dict.{Dict, get, set}

pub record RateLimitDecision : Type 0 where
  pub allowed : Bool
  pub limit : ℕ
  pub remaining : ℕ
  pub retry_after_ms : ℕ

pub record RateLimitPolicy : Type 0 where
  pub bucket : String
  pub limit : ℕ
  pub window_ms : ℕ

pub record MemoryWindow : Type 0 where
  pub count : ℕ
  pub expires_at : ℕ

abbrev pub new_window : ℕ → RateLimitPolicy → MemoryWindow
new_window now policy = record { count = 0; expires_at = now + policy.window_ms }

-- The window that a request falls into: the bucket's, unless it is over.
abbrev pub window_at : ℕ → RateLimitPolicy → Option MemoryWindow → MemoryWindow
window_at now policy none = new_window now policy
window_at now policy (some w) = if leb w.expires_at now then new_window now policy else w

abbrev pub counted : MemoryWindow → MemoryWindow
counted w = record w { count = w.count + 1 }

-- The differences do not go below 0: a window is not over, or opens at `now`.
abbrev pub decision_of : ℕ → RateLimitPolicy → MemoryWindow → RateLimitDecision
decision_of now policy w = record {
  allowed = leb w.count policy.limit;
  limit = policy.limit;
  remaining = policy.limit - w.count;
  retry_after_ms = max 1 (w.expires_at - now);
}

-- The body of `consumeMany`, for one policy.
unfoldable pub consume :
    ℕ → Dict String MemoryWindow → RateLimitPolicy → Dict String MemoryWindow × RateLimitDecision
consume now windows policy =
    let w = counted (window_at now policy (get policy.bucket windows)) in
    (set policy.bucket w windows, decision_of now policy w)

unfoldable pub consume_many :
    ℕ
    → Dict String MemoryWindow
    → List RateLimitPolicy
    → Dict String MemoryWindow × List RateLimitDecision
unfolding consume
consume_many now windows [] = (windows, [])
consume_many now windows (p ∷ ps) =
    let (windows₁, d) = consume now windows p in
    let (windows₂, ds) = consume_many now windows₁ ps in (windows₂, d ∷ ds)
