-- ===== src/Submissions/Store/Laws/Orders.antt =====
-- The orders of the solves (apps/web/server/infrastructure/db/submission-repository.ts).
use sauryctf.Prelude.{
  ℕ, suc, ◌≤◌, String, Bool, true, false, ◌&&◌, ◌==◌, List, [], ◌∷◌, ◌++◌, any, count, count-append,
  Bool-cases, inl, inr, ◌≡◌, refl, ap, arith,
}
use sauryctf.Prelude.Keys.{eqb_iff}
use sauryctf.Submissions.Replay.Facts.{SubmissionMode}
use sauryctf.Submissions.Store.Tables.{SolveRow, same_mode}
use sauryctf.Submissions.Store.Append.{in_group}

-- Each solve's order counts the solves of its challenge and mode that were there before it.
abbrev pub IsCounted : List SolveRow → List SolveRow → Type 0
IsCounted earlier [] = Unit
IsCounted earlier (s ∷ ss) =
    (s.solve_order ≡ suc (count (in_group s.contest_challenge_id s.mode) earlier))
    × IsCounted (earlier ++ s ∷ []) ss

same_mode-eq : (a b : SubmissionMode) → same_mode a b ≡ true → a ≡ b
same_mode-eq SubmissionMode.official SubmissionMode.official h = refl
same_mode-eq SubmissionMode.practice SubmissionMode.practice h = refl
same_mode-eq SubmissionMode.official SubmissionMode.practice h = cc
same_mode-eq SubmissionMode.practice SubmissionMode.official h = cc

-- Rows of one group count the same rows.
count-in_group :
    (c : String) (m : SubmissionMode) (s : SolveRow) (xs : List SolveRow)
    → in_group c m s ≡ true
    → count (in_group s.contest_challenge_id s.mode) xs ≡ count (in_group c m) xs
count-in_group c m s xs h =
    let same : s.contest_challenge_id ≡ c = ground (arith, eqb_iff s.contest_challenge_id c) in
    let mode : s.mode ≡ m = ground (arith, same_mode-eq s.mode m) in
    cc (ap (λ k. count (in_group k s.mode) xs) same, ap (λ k. count (in_group c k) xs) mode)

count-shift :
    (p : SolveRow → Bool) (earlier : List SolveRow) (x : SolveRow) (xs : List SolveRow)
    → count p ((earlier ++ x ∷ []) ++ xs) ≡ count p (earlier ++ x ∷ xs)
count-shift p earlier x xs = ground (
  arith,
  count-append p (earlier ++ x ∷ []) xs,
  count-append p earlier (x ∷ []),
  count-append p earlier (x ∷ xs),
)

pub IsCounted-snoc :
    (earlier xs : List SolveRow) (s : SolveRow)
    → IsCounted earlier xs
    → s.solve_order ≡ suc (count (in_group s.contest_challenge_id s.mode) (earlier ++ xs))
    → IsCounted earlier (xs ++ s ∷ [])
IsCounted-snoc earlier [] s d h =
    (ground (arith, count-append (in_group s.contest_challenge_id s.mode) earlier []), tt)
IsCounted-snoc earlier (x ∷ xs) s d h = (
  d.0,
  IsCounted-snoc (earlier ++ x ∷ []) xs s d.1
      (ground (arith, count-shift (in_group s.contest_challenge_id s.mode) earlier x xs)),
)

-- An order above the count is free.
pub any-order_free :
    (c : String) (m : SubmissionMode) (n : ℕ) (earlier xs : List SolveRow)
    → IsCounted earlier xs
    → suc (count (in_group c m) (earlier ++ xs)) ≤ n
    → any (λ (s : SolveRow). in_group c m s && s.solve_order == n) xs ≡ false
any-order_free c m n earlier [] d h = refl
any-order_free c m n earlier (x ∷ xs) d h =
    let later =
      any-order_free c m n (earlier ++ x ∷ []) xs d.1
        (omega (arith, count-shift (in_group c m) earlier x xs)) in
    elim (Bool-cases (in_group c m x)) [
      | inl here ↦ ground (
        arith,
        d.0,
        later,
        count-in_group c m x earlier here,
        count-append (in_group c m) earlier (x ∷ xs),
      )
      | inr gone ↦ rw gone later
    ]
