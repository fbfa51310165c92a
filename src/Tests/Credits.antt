-- ===== src/Tests/Credits.antt =====
-- A flag that is credited as the first solve of its challenge.
use sauryctf.Prelude.{refl, arith}
use sauryctf.Submissions.Store.Append.{append}
use sauryctf.Submissions.Store.Laws.Publishing.{Succeeds, IsAnnounced}
use sauryctf.Submissions.Store.Succeeds.{append-Succeeds}
use sauryctf.Submissions.Store.Announced.{append-IsAnnounced}
use sauryctf.Tests.Replay.{coarse}
use sauryctf.Tests.Flags.{
  start_tables, start-IsConsistent, fresh, right_flag, answer, solved_tables, solved, admitted_flag,
  admitted,
}

append-Succeeds_example : Succeeds (append coarse start_tables start_tables fresh right_flag)
append-Succeeds_example =
    append-Succeeds coarse start_tables fresh right_flag admitted_flag start-IsConsistent
      (λ _ _ _. refl) refl refl refl admitted (omega arith) (omega arith)

append-IsAnnounced_example : IsAnnounced solved_tables
append-IsAnnounced_example =
    append-IsAnnounced coarse start_tables start_tables fresh right_flag solved_tables answer
      (λ _ _ _. refl) solved
