-- ===== src/Submissions/Replay/Check/Covered.antt =====
-- The loop over the submissions
-- (apps/web/server/domains/submissions/scoring-replay.ts).
use sauryctf.Prelude.{String, true, ◌≡◌, List, [], ◌∷◌, All, arith}
use sauryctf.Prelude.Date.{is_valid_date}
use sauryctf.Prelude.Keys.{string_key, pair_key}
use sauryctf.Prelude.Dict.{Dict, has, contains}
use sauryctf.Prelude.Result.{ok, bind-eq-ok, for_each}
use sauryctf.Submissions.Replay.Facts.{
  ChallengeFact, ParticipationFact, SubmissionFact, is_official, is_correct,
}
use sauryctf.Submissions.Replay.Check.{check_submission, check_submissions}

module _ (challenges : Dict String ChallengeFact) (participations : Dict String ParticipationFact)
    (submissions : Dict String SubmissionFact) where
  -- What the loop over the submissions has checked of one.
  pub record IsCovered (ids : List String) (submission : SubmissionFact) : Type 0 where
    pub date_valid : is_valid_date submission.submitted_at ≡ true
    pub challenge_known : has submission.challenge_id challenges ≡ true
    pub participation_known : has submission.participation_id participations ≡ true
    pub solved :
        is_official submission.mode ≡ true
        → is_correct submission.result ≡ true
        → contains ids submission.id ≡ true

  check_submission-ok :
      (ids : List String) (x : SubmissionFact) (u : Unit {0})
      → check_submission challenges participations submissions ids tt x ≡ ok u
      → IsCovered ids x
  unfolding check_submission
  check_submission-ok ids x u h = record {
    date_valid = ground arith;
    challenge_known = ground arith;
    participation_known = ground arith;
    solved = λ p q. ground arith;
  }

  pub check_submissions-ok :
      (ids : List String) (xs : List SubmissionFact) (u : Unit {0})
      → check_submissions challenges participations submissions ids xs ≡ ok u
      → All (IsCovered ids) xs
  unfolding check_submissions
  check_submissions-ok ids [] u h = tt
  check_submissions-ok ids (x ∷ xs) u h =
      let (v, e, h') =
        bind-eq-ok (check_submission challenges participations submissions ids tt x)
          (for_each (check_submission challenges participations submissions ids) xs) h in
      (check_submission-ok ids x v e, check_submissions-ok ids xs u h')
