-- ===== src/Tests/Windows.antt =====
-- Three requests of one bucket in its window, with one of another between them.
use sauryctf.Prelude.{◌≡◌, refl, [], ◌∷◌, inl, min, true, false, arith}
use sauryctf.Security.RateLimit.{RateLimitPolicy, consume, consume_many}
use sauryctf.Security.RateLimit.Windows.{allowed_of, window_limit}

abbrev login : RateLimitPolicy
login = record { bucket = "login"; limit = 2; window_ms = 1000 }

abbrev other : RateLimitPolicy
other = record { bucket = "flag"; limit = 9; window_ms = 60 }

window_limit_example :
    allowed_of "login" [] ((1000, login) ∷ (1001, login) ∷ (1500, other) ∷ (1999, login) ∷ [])
    ≡ min 3 2
window_limit_example =
    window_limit "login" 1000 login ((1001, login) ∷ (1500, other) ∷ (1999, login) ∷ []) [] refl
      (inl refl) ((λ _. (refl, omega arith)), ((λ h. cc), ((λ _. (refl, omega arith)), tt)))

retry_after :
    (consume_many 1000 [] (login ∷ login ∷ login ∷ [])).1
    ≡ record { allowed = true; limit = 2; remaining = 1; retry_after_ms = 1000 }
      ∷ record { allowed = true; limit = 2; remaining = 0; retry_after_ms = 1000 }
      ∷ record { allowed = false; limit = 2; remaining = 0; retry_after_ms = 1000 }
      ∷ []
unfolding consume_many consume
retry_after = refl
