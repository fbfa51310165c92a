-- ===== src/Prelude/Blank.antt =====
-- JavaScript's `trim()`, and whether a text is empty after it.
use Prim.Native.Nat.{ℕ}
use Prim.Native.Char.{code}
use Prim.Native.String.{String, [], ◌∷◌}
use mathlib.Core.Bool.{Bool, true, ◌&&◌, ◌||◌}
use sauryctf.Prelude.Tests.{leb, ◌==◌, if◌then◌else◌}

-- The white space and the line terminators of the language.
abbrev pub is_white_space : ℕ → Bool
is_white_space c =
    (leb 9 c && leb c 13)
    || c == 32
    || c == 160
    || c == 5760
    || (leb 8192 c && leb c 8202)
    || c == 8232
    || c == 8233
    || c == 8239
    || c == 8287
    || c == 12288
    || c == 65279

-- `text.trim().length === 0`.
abbrev pub is_blank : String → Bool
is_blank [] = true
is_blank (c ∷ cs) = is_white_space (code c) && is_blank cs

abbrev pub trim_start : String → String
trim_start [] = []
trim_start (c ∷ cs) = if is_white_space (code c) then trim_start cs else c ∷ cs

abbrev pub trim_end : String → String
trim_end [] = []
trim_end (c ∷ cs) = let rest = trim_end cs in if is_blank (c ∷ cs) then [] else c ∷ rest

abbrev pub trim : String → String
trim s = trim_end (trim_start s)
