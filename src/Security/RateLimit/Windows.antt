-- ===== src/Security/RateLimit/Windows.antt =====
-- How many requests a window lets through
-- (apps/web/server/infrastructure/security/rate-limit.ts).
use sauryctf.Prelude.{
  ℕ, suc, String, true, false, ◌≡◌, refl, sym, ap, ◌∙◌, leb, ◌+◌, ◌-◌, ◌<◌, ◌≤◌, min, none, some,
  List, [], ◌∷◌, All, Bool-cases, ◌⊎◌, inl, inr, arith, count, if◌then◌else◌,
}
use sauryctf.Prelude.Keys.{eqb, eqb_iff, string_key}
use sauryctf.Prelude.Dict.{Dict, get, get-set}
use sauryctf.Security.RateLimit.{
  RateLimitPolicy, MemoryWindow, window_at, new_window, counted, consume,
}

-- Requests in the order of their arrival, each with the time of the clock.
abbrev pub Requests : Type 0
Requests = List (ℕ × RateLimitPolicy)

-- How many requests of a bucket are allowed, from a state of the store on.
abbrev pub allowed_of : String → Dict String MemoryWindow → Requests → ℕ
allowed_of b windows [] = 0
allowed_of b windows ((now, p) ∷ rs) =
    let r = consume now windows p in
    let rest = allowed_of b r.0 rs in
    if eqb b p.bucket then (if r.1.allowed then suc rest else rest) else rest

abbrev pub calls_of : String → Requests → ℕ
calls_of b = count (λ (r : ℕ × RateLimitPolicy). eqb b r.1.bucket)

-- The requests of a bucket have one limit and come before an end.
abbrev pub IsBefore : String → ℕ → ℕ → ℕ × RateLimitPolicy → Type 0
IsBefore b limit end r = eqb b r.1.bucket ≡ true → (r.1.limit ≡ limit) × (r.0 < end)

module _ (b : String) where
  consume-other :
      (now : ℕ) (windows : Dict String MemoryWindow) (p : RateLimitPolicy)
      → eqb b p.bucket ≡ false
      → get b (consume now windows p).0 ≡ get b windows
  unfolding consume
  consume-other now windows p h = get-set b p.bucket _ windows ∙ rw h refl

  window_at-live :
      (now : ℕ) (p : RateLimitPolicy) (w : MemoryWindow)
      → now < w.expires_at
      → window_at now p (some w) ≡ w
  window_at-live now p w live = ground arith

  consume-live :
      (now : ℕ) (windows : Dict String MemoryWindow) (p : RateLimitPolicy) (w : MemoryWindow)
      → eqb b p.bucket ≡ true
      → get b windows ≡ some w
      → now < w.expires_at
      → (get b (consume now windows p).0
          ≡ some (record { count = w.count + 1; expires_at = w.expires_at }))
        × ((consume now windows p).1.allowed ≡ leb (w.count + 1) p.limit)
  unfolding consume
  consume-live now windows p w h there live =
      let e = (eqb_iff b p.bucket).0 h in
      let found : get p.bucket windows ≡ some w = ap (λ k. get k windows) (sym e) ∙ there in
      let kept : window_at now p (get p.bucket windows) ≡ w =
        ap (window_at now p) found ∙ window_at-live now p w live in
      (
        get-set b p.bucket _ windows ∙ rw h (ap (λ z. some (counted z)) kept),
        ap (λ (z : MemoryWindow). leb (z.count + 1) p.limit) kept,
      )

  -- While a window lasts, the requests of its bucket are allowed up to what is left of the limit.
  window-allowed :
      (limit : ℕ) (rs : Requests) (windows : Dict String MemoryWindow) (w : MemoryWindow)
      → get b windows ≡ some w
      → All (IsBefore b limit w.expires_at) rs
      → allowed_of b windows rs ≡ min (calls_of b rs) (limit - w.count)
  window-allowed limit [] windows w there before = ground arith
  window-allowed limit ((now, p) ∷ rs) windows w there before = elim (Bool-cases (eqb b p.bucket)) [
    | inl mine ↦
        let (same, early) = before.0 mine in
        let (put, said) = consume-live now windows p w mine there early in
        let later =
          window-allowed limit rs (consume now windows p).0
            (record { count = w.count + 1; expires_at = w.expires_at }) put before.1 in
        rw (mine, said, later) (ground (arith, same))
    | inr other ↦
        let later =
          window-allowed limit rs (consume now windows p).0 w
            (consume-other now windows p other ∙ there) before.1 in
        rw (other, later) refl
  ]

  -- The bucket has no window at a time: it has none at all, or the one it has is over.
  abbrev pub IsClosed : ℕ → Dict String MemoryWindow → Type 0
  IsClosed now windows =
      (get b windows ≡ none)
      ⊎ ((w : MemoryWindow) × (get b windows ≡ some w) × (w.expires_at ≤ now))

  window_at-closed :
      (now : ℕ) (windows : Dict String MemoryWindow) (p : RateLimitPolicy)
      → IsClosed now windows
      → window_at now p (get b windows) ≡ new_window now p
  window_at-closed now windows p (inl gone) = ap (window_at now p) gone
  window_at-closed now windows p (inr (w, there, over)) = ap (window_at now p) there ∙ over_window
    where
      over_window : window_at now p (some w) ≡ new_window now p
      over_window = ground arith

  consume-closed :
      (now : ℕ) (windows : Dict String MemoryWindow) (p : RateLimitPolicy)
      → eqb b p.bucket ≡ true
      → IsClosed now windows
      → (get b (consume now windows p).0
          ≡ some (record { count = 1; expires_at = now + p.window_ms }))
        × ((consume now windows p).1.allowed ≡ leb 1 p.limit)
  unfolding consume
  consume-closed now windows p h closed =
      let e = (eqb_iff b p.bucket).0 h in
      let opened : window_at now p (get p.bucket windows) ≡ new_window now p =
        ap (λ k. window_at now p (get k windows)) (sym e) ∙ window_at-closed now windows p closed in
      (
        get-set b p.bucket _ windows ∙ rw h (ap (λ z. some (counted z)) opened),
        ap (λ (z : MemoryWindow). leb (z.count + 1) p.limit) opened,
      )

  -- From the request that opens a window until the window is over, as many requests of the bucket
  -- are allowed as the limit says, or all when they are fewer, whatever requests of other buckets
  -- come between them, when the bucket's requests have one limit.
  pub window_limit :
      (now : ℕ) (p : RateLimitPolicy) (rs : Requests) (windows : Dict String MemoryWindow)
      → eqb b p.bucket ≡ true
      → IsClosed now windows
      → All (IsBefore b p.limit (now + p.window_ms)) rs
      → allowed_of b windows ((now, p) ∷ rs) ≡ min (calls_of b ((now, p) ∷ rs)) p.limit
  window_limit now p rs windows mine closed before =
      let (put, said) = consume-closed now windows p mine closed in
      let later =
        window-allowed p.limit rs (consume now windows p).0
          (record { count = 1; expires_at = now + p.window_ms }) put before in
      rw (mine, said, later) (ground arith)
