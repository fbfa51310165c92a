-- ===== src/Lib.antt =====
-- A model of the SauryCTF control plane's domain logic (apps/web/server/domains).
--
-- The control plane keeps the facts of a contest in PostgreSQL: challenges, participations,
-- submissions, solves and score adjustments. A scoreboard is not stored as a truth of its own: it
-- is replayed from the facts. The parts, and the files that model them:
--
--   Identity/Capabilities: capabilities.ts, the guard that each service calls first.
--   Submissions/Scoring: scoring.ts, the value of a challenge at a count of solves
--   (`calculateChallengeScore` is `calculate_challenge_score`).
--   Submissions/Replay: scoring-replay.ts. `replayContestScoring` is `replay_contest_scoring` of
--   Replay/Run; its checks are in Replay/Check, the scores of challenges in Replay/Challenges, the
--   accumulators of participations in Replay/Totals, and the ranking in Replay/Ranking. Each loop
--   of the source is a `for_each` over a state record.
--   Scoreboards/Builder: scoreboards/builder.ts, the board of a replay. Scoreboards/Replayed joins
--   it with the replay.
--   Submissions/Store: infrastructure/db/submission-repository.ts and scoring-replay-repository.ts.
--   Its tables are the lists of the record `SubmissionTables` (Store/Tables); `admitWith` is `admit`
--   of Store/Admission, `append` is in Store/Append with its cheat clues in Store/Clues,
--   `recordScoreAdjustment` in Store/Adjustments, `reviewCheatClue` in Store/Reviews, and `load` in
--   Store/Load. A call that looks its request up takes the tables of that look-up apart from those
--   of its other statements, since others may commit between them.
--   Submissions/Service: submissions/service.ts, the limits, guards and codes around the store.
--   Challenges/Policy: the flag policies of shared/contracts/challenges.ts. Challenges/Flags:
--   challenges/flag-verifier.ts, over the UTF-16 units of a text.
--   Scoreboards/Views: view-service.ts (Views/Service, Views/Read) over the snapshots of
--   infrastructure/db/scoreboard-view-repository.ts (Views/Snapshots).
--   Participations: infrastructure/db/participation-repository.ts. Its tables are the lists of the
--   record `Database` (Participations/Tables), its checks are in Participations/Eligibility, and its
--   transactions in Participations/Store and Participations/Review are functions from a database to
--   an error or a new database with an answer. Participations/Lifecycle takes them as steps.
--   Participations/Service: participations/service.ts, the guards and codes around the repository.
--   Contests/Admission: contests/admission.ts, which payloads may make a contest; of a JSON value it
--   keeps the keys that the code reads.
--   Security/RateLimit: infrastructure/security/rate-limit.ts, the windows kept in memory.
--   Prelude: what these share, among it JavaScript's `Map`, `Set`, `Date` and `toSorted`.
--   Tests: runs at concrete inputs.
--
-- How the source is read. A thrown error is the `err` of a result, with one constructor for each
-- message. Identifiers and other texts are strings. Numbers that count or score are integers, as
-- the database gives them, and the source's tests of safe integers are kept. A date is a time
-- value or the invalid date; an ISO text of a valid date stands for its time value. `Map` keeps
-- the order of insertion. `toSorted` is a stable sort; it is given whatever comparator the source
-- gives it. Loops run over lists, so there is no fuel.
--
-- What is a parameter: `localeCompare`, of which a theorem asks where it needs it that it orders
-- texts as a total preorder, and the arithmetic of finite doubles in the decay of a score (with a
-- parsed policy and a safe count no intermediate value is infinite or NaN); SHA-256 of an invite
-- code; the identifiers that the database generates; `isDeepStrictEqual` and the hashes of Node,
-- the flag keys and validators, the rate limiter of the submission service; and the clock.
-- Identifiers that the database orders are UUIDs in their canonical form, which it orders as
-- texts.
--
-- What is not modelled: HTTP, the database driver, mail, storage, telemetry, the web pages and the
-- Go worker, as they are input and output around the logic; the paged lists of participations, of
-- submissions and of cheat clues; the sharing of a build between the reads that wait for it; and
-- the other domains, among them contests, instances, teams and writeups. Row locks are not
-- modelled, since a transaction is one step.
pub mod Prelude
pub mod Identity
pub mod Challenges
pub mod Submissions
pub mod Scoreboards
pub mod Participations
pub mod Contests
pub mod Security
pub mod Tests
