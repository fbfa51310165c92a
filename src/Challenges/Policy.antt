-- ===== src/Challenges/Policy.antt =====
-- The flag policies of apps/web/shared/contracts/challenges.ts: the forms that a stored policy has,
-- and `challengeFlagPolicySchema.parse` on them.
use Prim.Native.Char.{code}
use Prim.Native.String.{String, [], ◌∷◌}
use sauryctf.Prelude.{
  ℕ, suc, Bool, true, false, ◌&&◌, ◌||◌, ◌==◌, leb, Option, none, some, if◌then◌else◌,
}
use sauryctf.Prelude.Int.{ℤ, pos, leb_ℤ, is_safe_integer}
use sauryctf.Prelude.Domain.{is_word}
use sauryctf.Prelude.Blank.{trim}

-- `static` with its digest, `team-derived` with its key version, `synchronous` with its validator.
pub data FlagPolicy : Type 0 where
  static_flag : String → FlagPolicy
  team_derived : ℤ → FlagPolicy
  synchronous : String → FlagPolicy

-- How many characters a text has; those that the patterns allow are single code units.
abbrev pub text_length : String → ℕ
text_length [] = 0
text_length (c ∷ cs) = suc (text_length cs)

-- The class [a-f0-9] with the flag `i`.
abbrev pub is_hex : ℕ → Bool
is_hex c = (leb 97 c && leb c 102) || (leb 65 c && leb c 70) || (leb 48 c && leb c 57)

abbrev pub is_hex_text : String → Bool
is_hex_text [] = true
is_hex_text (c ∷ cs) = is_hex (code c) && is_hex_text cs

-- The class [._-].
abbrev pub is_separator : ℕ → Bool
is_separator c = c == 46 || c == 95 || c == 45

-- The rest of /^[a-z0-9]+(?:[._-][a-z0-9]+)*$/u, after a word character or at a word's beginning.
abbrev pub is_name_rest : Bool → String → Bool
is_name_rest in_word [] = in_word
is_name_rest in_word (c ∷ cs) =
    (is_word (code c) && is_name_rest true cs)
    || (in_word && is_separator (code c) && is_name_rest false cs)

abbrev pub is_validator_name : String → Bool
is_validator_name name = leb (text_length name) 128 && is_name_rest false name

-- `challengeFlagPolicySchema.parse`: the trimmed policy, or nothing where it throws.
unfoldable pub parse_flag_policy : FlagPolicy → Option FlagPolicy
parse_flag_policy (static_flag digest) =
    if text_length (trim digest) == 64 && is_hex_text (trim digest)
    then some (static_flag (trim digest))
    else none
parse_flag_policy (team_derived version) =
    if is_safe_integer version && leb_ℤ (pos 1) version then some (team_derived version) else none
parse_flag_policy (synchronous validator) =
    if is_validator_name (trim validator) then some (synchronous (trim validator)) else none
