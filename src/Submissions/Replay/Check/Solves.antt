-- ===== src/Submissions/Replay/Check/Solves.antt =====
-- The loop over the official solves
-- (apps/web/server/domains/submissions/scoring-replay.ts).
use sauryctf.Prelude.{
  String, true, false, ◌≡◌, sym, ap, ◌∙◌, List, [], ◌∷◌, ◌++◌, map, filter, All, All-append,
  filter-append, arith, inl, inr, Bool-cases,
}
use sauryctf.Prelude.Int.{pos, ◌≤ℤ◌, is_safe_integer}
use sauryctf.Prelude.Date.{is_valid_date}
use sauryctf.Prelude.Keys.{eqb, eqb_iff, string_key, pair_key}
use sauryctf.Prelude.Dict.{Dict, get, has, set, contains, get-set}
use sauryctf.Prelude.Distinct.{IsDistinct, IsDistinct-snoc}
use sauryctf.Prelude.Result.{ok, bind-eq-ok, for_each}
use sauryctf.Submissions.Replay.Facts.{ChallengeFact, ParticipationFact, SubmissionFact, SolveFact}
use sauryctf.Submissions.Replay.Check.{
  SolveState, no_solves, pair_of, solves_of, matches_submission, check_solve, check_solves,
}
use mathlib.Core.Path.{subst}
use mathlib.Core.List.{append-nil, append_assoc, map-append}

-- Two runs of a loop that appends, one after the other.
grow :
    {B : Type 0} (f : SolveFact → B) (l : List B) (xs ys : List SolveFact) {m n : List B}
    → m ≡ l ++ map f xs
    → n ≡ m ++ map f ys
    → n ≡ l ++ map f (xs ++ ys)
grow f l xs ys p q =
    q
    ∙ ap (λ y. y ++ map f ys) p
    ∙ append_assoc l (map f xs) (map f ys)
    ∙ ap (λ y. l ++ y) (sym (map-append f xs ys))

grow_filter :
    (c : String) (l xs ys : List SolveFact) {m n : List SolveFact}
    → m ≡ l ++ filter (λ x. eqb c x.challenge_id) xs
    → n ≡ m ++ filter (λ x. eqb c x.challenge_id) ys
    → n ≡ l ++ filter (λ x. eqb c x.challenge_id) (xs ++ ys)
grow_filter c l xs ys p q =
    q
    ∙ ap (λ y. y ++ filter (λ x. eqb c x.challenge_id) ys) p
    ∙ append_assoc l _ _
    ∙ ap (λ y. l ++ y) (sym (filter-append (λ x. eqb c x.challenge_id) xs ys))

solves_of-put :
    (c : String) (x : SolveFact) (d : Dict String (List SolveFact))
    → solves_of c (set x.challenge_id (solves_of x.challenge_id d ++ x ∷ []) d)
      ≡ solves_of c d ++ filter (λ y. eqb c y.challenge_id) (x ∷ [])
solves_of-put c x d = elim (Bool-cases (eqb c x.challenge_id)) [
  | inl same ↦
      let e = (eqb_iff c x.challenge_id).0 same in
      ground (
        arith,
        get-set c x.challenge_id (solves_of x.challenge_id d ++ x ∷ []) d,
        ap (λ k. get k d) e,
      )
  | inr other ↦ ground (
    arith,
    get-set c x.challenge_id (solves_of x.challenge_id d ++ x ∷ []) d,
    append-nil (solves_of c d),
  )
]

module _ (challenges : Dict String ChallengeFact) (participations : Dict String ParticipationFact)
    (submissions : Dict String SubmissionFact) where
  -- What the loop has checked of one solve.
  pub record IsSound (solve : SolveFact) : Type 0 where
    pub challenge_known : has solve.challenge_id challenges ≡ true
    pub participation_known : has solve.participation_id participations ≡ true
    pub submission_matches : matches_submission solve (get solve.submission_id submissions) ≡ true
    pub order_safe : is_safe_integer solve.solve_order ≡ true
    pub order_positive : pos 1 ≤ℤ solve.solve_order
    pub date_valid : is_valid_date solve.solved_at ≡ true

  check_solve-ok :
      (s s' : SolveState) (solve : SolveFact)
      → check_solve challenges participations submissions s solve ≡ ok s'
      → IsSound solve
        × (contains s.solved_pairs (pair_of solve) ≡ false)
        × (contains s.solved_submission_ids solve.submission_id ≡ false)
        × (s'.solved_pairs ≡ s.solved_pairs ++ pair_of solve ∷ [])
        × (s'.solved_submission_ids ≡ s.solved_submission_ids ++ solve.submission_id ∷ [])
        × (s'.solves_by_challenge
            ≡ set solve.challenge_id
                (solves_of solve.challenge_id s.solves_by_challenge ++ solve ∷ [])
                s.solves_by_challenge)
  unfolding check_solve
  check_solve-ok s s' solve h = ground arith

  -- The state of the loop after the solves `xs`.
  record IsAfter (s : SolveState) (xs : List SolveFact) (s' : SolveState) : Type 0 where
    sound : All IsSound xs
    pairs : s'.solved_pairs ≡ s.solved_pairs ++ map pair_of xs
    submission_ids :
        s'.solved_submission_ids ≡ s.solved_submission_ids ++ map (λ x. x.submission_id) xs
    pairs_distinct : IsDistinct s.solved_pairs → IsDistinct s'.solved_pairs
    ids_distinct : IsDistinct s.solved_submission_ids → IsDistinct s'.solved_submission_ids
    by_challenge :
        (c : String)
        → solves_of c s'.solves_by_challenge
          ≡ solves_of c s.solves_by_challenge ++ filter (λ x. eqb c x.challenge_id) xs

  IsAfter-none : (s : SolveState) → IsAfter s [] s
  IsAfter-none s = record {
    sound = tt;
    pairs = sym (append-nil _);
    submission_ids = sym (append-nil _);
    pairs_distinct = λ d. d;
    ids_distinct = λ d. d;
    by_challenge = λ c. sym (append-nil _);
  }

  IsAfter-one :
      (s s' : SolveState) (x : SolveFact)
      → check_solve challenges participations submissions s x ≡ ok s'
      → IsAfter s (x ∷ []) s'
  IsAfter-one s s' x h =
      let (sound, new_pair, new_id, pairs, ids, by) = check_solve-ok s s' x h in
      record {
        sound = (sound, tt);
        pairs = pairs;
        submission_ids = ids;
        pairs_distinct =
            λ d. subst (λ y. IsDistinct y) (sym pairs) (IsDistinct-snoc _ _ d new_pair);
        ids_distinct = λ d. subst (λ y. IsDistinct y) (sym ids) (IsDistinct-snoc _ _ d new_id);
        by_challenge = λ c. ap (solves_of c) by ∙ solves_of-put c x s.solves_by_challenge;
      }

  IsAfter-append :
      (s t u : SolveState) (xs ys : List SolveFact)
      → IsAfter s xs t
      → IsAfter t ys u
      → IsAfter s (xs ++ ys) u
  IsAfter-append s t u xs ys a b = record {
    sound = All-append IsSound xs ys a.sound b.sound;
    pairs = grow pair_of s.solved_pairs xs ys a.pairs b.pairs;
    submission_ids =
        grow (λ x. x.submission_id) s.solved_submission_ids xs ys a.submission_ids b.submission_ids;
    pairs_distinct = λ d. b.pairs_distinct (a.pairs_distinct d);
    ids_distinct = λ d. b.ids_distinct (a.ids_distinct d);
    by_challenge = λ c.
        grow_filter c (solves_of c s.solves_by_challenge) xs ys (a.by_challenge c)
          (b.by_challenge c);
  }

  check_solves-from :
      (xs : List SolveFact) (s s' : SolveState)
      → for_each (check_solve challenges participations submissions) xs s ≡ ok s'
      → IsAfter s xs s'
  check_solves-from [] s s' h =
      let e : s ≡ s' = cc in subst (λ t. IsAfter s [] t) e (IsAfter-none s)
  check_solves-from (x ∷ xs) s s' h =
      let (t, e, h') =
        bind-eq-ok (check_solve challenges participations submissions s x)
          (for_each (check_solve challenges participations submissions) xs) h in
      IsAfter-append s t s' (x ∷ []) xs (IsAfter-one s t x e) (check_solves-from xs t s' h')

  -- What the loop over the solves establishes: each solve is sound, the solves of a challenge are
  -- those of the list in its order, and no participation solves a challenge twice.
  pub record IsChecked (xs : List SolveFact) (s : SolveState) : Type 0 where
    pub sound : All IsSound xs
    pub submission_ids : s.solved_submission_ids ≡ map (λ x. x.submission_id) xs
    pub pairs_distinct : IsDistinct (map pair_of xs)
    pub ids_distinct : IsDistinct (map (λ x. x.submission_id) xs)
    pub by_challenge :
        (c : String) → solves_of c s.solves_by_challenge ≡ filter (λ x. eqb c x.challenge_id) xs

  pub check_solves-IsChecked :
      (xs : List SolveFact) (s : SolveState)
      → check_solves challenges participations submissions xs ≡ ok s
      → IsChecked xs s
  unfolding check_solves
  check_solves-IsChecked xs s h =
      let a = check_solves-from xs no_solves s h in
      record {
        sound = a.sound;
        submission_ids = a.submission_ids;
        pairs_distinct = subst (λ y. IsDistinct y) a.pairs (a.pairs_distinct tt);
        ids_distinct = subst (λ y. IsDistinct y) a.submission_ids (a.ids_distinct tt);
        by_challenge = a.by_challenge;
      }
