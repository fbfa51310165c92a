-- ===== src/Tests/Board.antt =====
-- The boards of the replayed contest.
use sauryctf.Prelude.{◌≡◌, refl, map, filter}
use sauryctf.Prelude.Result.{ok}
use sauryctf.Submissions.Replay.Ranking.Laws.{IsRanking}
use sauryctf.Scoreboards.Builder.{
  ScoreboardReadModel, overall, division, is_candidate, board_of, build,
}
use sauryctf.Scoreboards.Builder.Laws.{entry_of, build-IsRanking}
use sauryctf.Scoreboards.Replayed.{replay-build, replay-overall}
use sauryctf.Tests.Replay.{
  coarse, initial_compare, initial_compare-IsComparator, facts, replayed, facts-replayed,
}

abbrev pub board : ScoreboardReadModel
board =
    board_of initial_compare replayed overall
      (filter (is_candidate overall) replayed.participation_scores)

replay-build_example :
    build initial_compare replayed (division "x")
    ≡ ok (
        board_of initial_compare replayed
          (division "x")
          (filter (is_candidate (division "x")) replayed.participation_scores))
replay-build_example =
    replay-build coarse initial_compare facts replayed facts-replayed (division "x") refl

pub board_built : build initial_compare replayed overall ≡ ok board
board_built = replay-build coarse initial_compare facts replayed facts-replayed overall refl

replay-overall_example : map entry_of board.rows ≡ replayed.ranking_summary
replay-overall_example =
    replay-overall coarse initial_compare facts replayed facts-replayed board board_built

build-IsRanking_example : IsRanking 0 (map entry_of board.rows) × (board.scope_key ≡ "overall")
build-IsRanking_example =
    build-IsRanking initial_compare initial_compare-IsComparator replayed overall board board_built
