-- ===== src/Submissions/Store/Clues.antt =====
-- The detection of cheat clues in apps/web/server/infrastructure/db/submission-repository.ts. The
-- identifiers are UUIDs in their canonical form, which the database and `sort()` order as texts. A
-- fingerprint is the text of the digest, and a minute is counted from the earliest date, which lies
-- a whole number of minutes before the epoch.
use Prim.Native.String.{compare as compare_text}
use sauryctf.Prelude.{
  ℕ, String, Bool, true, false, not, ◌&&◌, none, some, List, [], ◌∷◌, ◌++◌, map, any, filter,
  length, compare, Ordering, min, max, ltb, leb, ◌+◌, ◌/◌, ◌==◌, if◌then◌else◌,
}
use sauryctf.Prelude.Keys.{eqb, string_key}
use sauryctf.Prelude.Dict.{contains}
use sauryctf.Prelude.Order.{◌or_then◌}
use sauryctf.Prelude.Sort.{to_sorted}
use sauryctf.Submissions.Replay.Facts.{SubmissionResult, is_official, is_correct}
use sauryctf.Submissions.Store.Tables.{
  SubmissionRow, CheatClueStatus, CheatClueType, ClueKey, repeat_key, shared_key, frequency_key,
  foreign_key, Evidence, CheatClueRow,
}

abbrev pub is_incorrect : SubmissionResult → Bool
is_incorrect SubmissionResult.incorrect = true
is_incorrect _ = false

-- `result IN ('correct', 'already_solved')`.
abbrev pub is_right : SubmissionResult → Bool
is_right SubmissionResult.correct = true
is_right SubmissionResult.already_solved = true
is_right _ = false

abbrev pub same_clue_key : ClueKey → ClueKey → Bool
same_clue_key (repeat_key p c f) (repeat_key p' c' f') = eqb p p' && eqb c c' && eqb f f'
same_clue_key (shared_key c f p) (shared_key c' f' p') = eqb c c' && eqb f f' && eqb p p'
same_clue_key (frequency_key p c t) (frequency_key p' c' t') = eqb p p' && eqb c c' && t == t'
same_clue_key (foreign_key s p) (foreign_key s' p') = eqb s s' && eqb p p'
same_clue_key _ _ = false

-- `min(submitted_at)` and `max(submitted_at)`, as lists of at most one time.
abbrev pub first_seen : List SubmissionRow → List ℕ
first_seen [] = []
first_seen (s ∷ ss) = elim (first_seen ss) [
  | [] ↦ s.submitted_at ∷ []
  | t ∷ ts ↦ min s.submitted_at t ∷ []
]

abbrev pub last_seen : List SubmissionRow → List ℕ
last_seen [] = []
last_seen (s ∷ ss) = elim (last_seen ss) [
  | [] ↦ s.submitted_at ∷ []
  | t ∷ ts ↦ max s.submitted_at t ∷ []
]

-- `DISTINCT ON (participation_id)`: of sorted rows the first one of each participation.
abbrev pub distinct_on : List String → List SubmissionRow → List SubmissionRow
distinct_on seen [] = []
distinct_on seen (s ∷ ss) =
    let rest = distinct_on (s.participation_id ∷ seen) ss in
    let skipped = distinct_on seen ss in
    if contains seen s.participation_id then skipped else s ∷ rest

abbrev pub by_participation_time : SubmissionRow → SubmissionRow → Ordering
by_participation_time a b =
    compare_text a.participation_id b.participation_id
    or_then compare a.submitted_at b.submitted_at
    or_then compare_text a.id b.id

abbrev pub correct_first : Bool → Bool → Ordering
correct_first true false = Ordering.lt
correct_first false true = Ordering.gt
correct_first _ _ = Ordering.eq

abbrev pub by_participation_correct : SubmissionRow → SubmissionRow → Ordering
by_participation_correct a b =
    compare_text a.participation_id b.participation_id
    or_then correct_first (is_correct a.result) (is_correct b.result)
    or_then compare a.submitted_at b.submitted_at
    or_then compare_text a.id b.id

abbrev pub by_time : SubmissionRow → SubmissionRow → Ordering
by_time a b = compare a.submitted_at b.submitted_at or_then compare_text a.id b.id

-- What `insertCheatClue` is given.
pub record ClueInput : Type 0 where
  pub key : ClueKey
  pub submission : SubmissionRow
  pub clue_type : CheatClueType
  pub evidence : Evidence

-- `fresh` gives the identifier that is generated for the clue with a key.
module _ (fresh : ClueKey → String) where
  abbrev pub clue_row : ClueInput → CheatClueRow
  clue_row input = record {
    id = fresh input.key;
    clue_key = input.key;
    contest_id = input.submission.contest_id;
    contest_challenge_id = input.submission.contest_challenge_id;
    participation_id = input.submission.participation_id;
    clue_type = input.clue_type;
    evidence = input.evidence;
    status = CheatClueStatus.opened;
    reviewed_by = none;
    review_note = none;
    reviewed_at = none;
    created_at = input.submission.submitted_at;
    updated_at = input.submission.submitted_at;
  }

  -- `INSERT … ON CONFLICT (clue_key) DO NOTHING`.
  unfoldable pub insert_cheat_clue : List CheatClueRow → ClueInput → List CheatClueRow
  insert_cheat_clue clues input =
      if any (λ (c : CheatClueRow). same_clue_key c.clue_key input.key) clues
      then clues
      else clues ++ clue_row input ∷ []

  -- The loops that insert a clue for each row.
  abbrev pub insert_clues : List CheatClueRow → List ClueInput → List CheatClueRow
  insert_clues clues [] = clues
  insert_clues clues (i ∷ is) = insert_clues (insert_cheat_clue clues i) is

  module _ (submissions : List SubmissionRow) (submission : SubmissionRow) where
    abbrev pub in_challenge : SubmissionRow → Bool
    in_challenge s =
        eqb s.contest_challenge_id submission.contest_challenge_id && is_official s.mode

    abbrev pub is_same_participation : SubmissionRow → Bool
    is_same_participation s = eqb s.participation_id submission.participation_id

    abbrev pub is_same_answer : SubmissionRow → Bool
    is_same_answer s = eqb s.answer_digest submission.answer_digest

    unfoldable pub detect_repeated_incorrect_answer : List CheatClueRow → List CheatClueRow
    detect_repeated_incorrect_answer clues =
        let matching =
          filter
            (λ s.
              in_challenge s
              && is_same_participation s
              && is_incorrect s.result
              && is_same_answer s)
            submissions in
        if ltb (length matching) 3
        then clues
        else insert_cheat_clue clues (record {
          key =
              repeat_key submission.participation_id submission.contest_challenge_id
                submission.answer_digest;
          submission = submission;
          clue_type = CheatClueType.repeated_incorrect_answer;
          evidence = record {
            kind = CheatClueType.repeated_incorrect_answer;
            answer_fingerprint = some submission.answer_digest;
            submission_ids = submission.id ∷ [];
            participation_ids = submission.participation_id ∷ [];
            matching_count = some (length matching);
            times = first_seen matching ++ last_seen matching;
          };
        })

    abbrev pub shared_input : List String → SubmissionRow → ClueInput
    shared_input related subject = record {
      key =
          shared_key submission.contest_challenge_id submission.answer_digest
            subject.participation_id;
      submission = record submission {
        id = subject.id;
        participation_id = subject.participation_id;
        submitted_at = subject.submitted_at;
      };
      clue_type = CheatClueType.shared_incorrect_answer;
      evidence = record {
        kind = CheatClueType.shared_incorrect_answer;
        answer_fingerprint = some submission.answer_digest;
        submission_ids = submission.id ∷ subject.id ∷ [];
        participation_ids = subject.participation_id ∷ related;
        matching_count = some (length related);
        times = submission.submitted_at ∷ [];
      };
    }

    unfoldable pub detect_shared_incorrect_answer : List CheatClueRow → List CheatClueRow
    detect_shared_incorrect_answer clues =
        let rows = distinct_on [] (
          to_sorted by_participation_time (
            filter (λ s. in_challenge s && is_incorrect s.result && is_same_answer s)
              submissions)) in
        let related =
          to_sorted compare_text (map (λ (s : SubmissionRow). s.participation_id) rows) in
        if ltb (length rows) 2 then clues else insert_clues clues (map (shared_input related) rows)

    unfoldable pub detect_abnormal_frequency : List CheatClueRow → List CheatClueRow
    detect_abnormal_frequency clues =
        let matching =
          filter
            (λ s.
              in_challenge s
              && is_same_participation s
              && ltb submission.submitted_at (s.submitted_at + 60_000)
              && leb s.submitted_at submission.submitted_at)
            submissions in
        if ltb (length matching) 10
        then clues
        else insert_cheat_clue clues (record {
          key =
              frequency_key submission.participation_id submission.contest_challenge_id
                (submission.submitted_at / 60_000);
          submission = submission;
          clue_type = CheatClueType.abnormal_submission_frequency;
          evidence = record {
            kind = CheatClueType.abnormal_submission_frequency;
            answer_fingerprint = none;
            submission_ids = submission.id ∷ [];
            participation_ids = submission.participation_id ∷ [];
            matching_count = some (length matching);
            times = first_seen matching ++ last_seen matching;
          };
        })

    -- `insertForeignTeamFlagClue`; the context is always the submission that is appended.
    abbrev pub foreign_input : SubmissionRow → SubmissionRow → ClueInput
    foreign_input offender owner = record {
      key = foreign_key offender.id owner.participation_id;
      submission = record submission {
        id = offender.id;
        participation_id = offender.participation_id;
        submitted_at = offender.submitted_at;
      };
      clue_type = CheatClueType.foreign_team_flag;
      evidence = record {
        kind = CheatClueType.foreign_team_flag;
        answer_fingerprint = some submission.answer_digest;
        submission_ids = offender.id ∷ owner.id ∷ [];
        participation_ids = offender.participation_id ∷ owner.participation_id ∷ [];
        matching_count = none;
        times = submission.submitted_at ∷ [];
      };
    }

    abbrev pub foreign_inputs : List ClueInput
    foreign_inputs =
        let others =
          filter (λ s. in_challenge s && is_same_answer s && not (is_same_participation s))
            submissions in
        if is_incorrect submission.result
        then map (λ owner. foreign_input submission owner)
            (distinct_on []
              (to_sorted by_participation_correct (filter (λ s. is_right s.result) others)))
        else map (λ offender. foreign_input offender submission)
            (to_sorted by_time (filter (λ s. is_incorrect s.result) others))

    unfoldable pub detect_foreign_team_flag : List CheatClueRow → List CheatClueRow
    detect_foreign_team_flag clues = insert_clues clues foreign_inputs

    -- `detectCheatClues`, from the detectors one after the other.
    unfoldable pub detect_cheat_clues : Bool → List CheatClueRow → List CheatClueRow
    detect_cheat_clues team_derived_flag clues =
        let wrong =
          if is_incorrect submission.result
          then detect_shared_incorrect_answer (detect_repeated_incorrect_answer clues)
          else clues in
        let frequent = detect_abnormal_frequency wrong in
        if team_derived_flag then detect_foreign_team_flag frequent else frequent
