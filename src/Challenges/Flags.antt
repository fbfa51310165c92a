-- ===== src/Challenges/Flags.antt =====
-- `FlagVerifier` (apps/web/server/domains/challenges/flag-verifier.ts). A submitted flag and a format
-- are texts by their UTF-16 units, which `length`, `startsWith` and `endsWith` count. What Node does
-- on bytes is a parameter: the length in UTF-8, SHA-256, the decoding of hexadecimal digits and HMAC;
-- so are the keys and the validators, of which the first may be missing and the second may throw.
use sauryctf.Prelude.{
  ℕ, zero, suc, String, Bool, true, false, ◌&&◌, ◌||◌, ◌+◌, ◌==◌, ltb, leb, Option, none, some,
  List, [], ◌∷◌, ◌++◌, length, if◌then◌else◌,
}
use sauryctf.Prelude.Int.{ℤ}
use sauryctf.Prelude.Table.{or_throw}
use sauryctf.Prelude.Result.{Result, ok, err, throw_if, ◌>>◌, ◌>>=◌}
use sauryctf.Challenges.Policy.{FlagPolicy, static_flag, team_derived, synchronous}

abbrev pub Text : Type 0
Text = List ℕ

pub data VerifierError : Type 0 where
  flag_configuration_invalid flag_validator_failed : VerifierError

pub record FlagVerificationContext : Type 0 where
  pub contest_id : String
  pub challenge_id : String
  pub team_id : String
  pub submitted_flag : Text
  pub flag_format : Option Text
  pub policy : FlagPolicy

-- `===` on texts, `startsWith` and `endsWith`.
abbrev pub same_text : Text → Text → Bool
same_text [] [] = true
same_text (c ∷ cs) (d ∷ ds) = c == d && same_text cs ds
same_text [] (d ∷ ds) = false
same_text (c ∷ cs) [] = false

abbrev pub starts_with : Text → Text → Bool
starts_with [] text = true
starts_with (c ∷ cs) [] = false
starts_with (c ∷ cs) (d ∷ ds) = c == d && starts_with cs ds

abbrev pub ends_with : Text → Text → Bool
ends_with suffix [] = same_text suffix []
ends_with suffix (c ∷ cs) = same_text suffix (c ∷ cs) || ends_with suffix cs

abbrev pub marker : Text
marker = 46 ∷ 46 ∷ 46 ∷ []

abbrev pub drop : ℕ → Text → Text
drop zero text = text
drop (suc n) [] = []
drop (suc n) (c ∷ cs) = drop n cs

abbrev pub with_unit : ℕ → Option (Text × Text) → Option (Text × Text)
with_unit c none = none
with_unit c (some (before, after)) = some (c ∷ before, after)

-- What stands before and after the first `...`, by `indexOf` and `slice`.
unfoldable pub split_marker : Text → Option (Text × Text)
split_marker [] = none
split_marker (c ∷ cs) =
    let rest = split_marker cs in
    if starts_with marker (c ∷ cs) then some ([], drop 3 (c ∷ cs)) else with_unit c rest

abbrev pub has_marker : Text → Bool
has_marker text = elim (split_marker text) [ none ↦ false | some parts ↦ true ]

-- What the code relies on of `node:crypto` and `Buffer`; `hmac_hex` is the digest of the flag domain,
-- the contest, the challenge and the team under a key.
pub record Crypto : Type 0 where
  pub utf8_length : Text → ℕ
  pub sha256 : Text → Text
  pub hex_bytes : String → Text
  pub hmac_hex : Text → String → String → String → Text

module _ (crypto : Crypto) where
  open crypto use {utf8_length, sha256, hex_bytes, hmac_hex}

  abbrev pub constant_time_text_equal : Text → Text → Bool
  constant_time_text_equal actual expected = same_text (sha256 actual) (sha256 expected)

  abbrev pub within_input_limit : Text → Bool
  within_input_limit flag = ltb 0 (utf8_length flag) && leb (utf8_length flag) 1024

  abbrev pub matches_parts : Text → Option (Text × Text) → Text → Result VerifierError Bool
  matches_parts flag none format = ok (constant_time_text_equal flag format)
  matches_parts flag (some (prefix, suffix)) format = do
    throw_if (has_marker suffix) flag_configuration_invalid
    ok (
        ltb (length prefix + length suffix) (length flag)
        && starts_with prefix flag
        && ends_with suffix flag)

  unfoldable pub flag_matches_format : Text → Option Text → Result VerifierError Bool
  flag_matches_format flag none = ok true
  flag_matches_format flag (some []) = ok true
  flag_matches_format flag (some (c ∷ cs)) = matches_parts flag (split_marker (c ∷ cs)) (c ∷ cs)

  abbrev pub place_token : Text → Option (Text × Text) → Result VerifierError Text
  place_token token none = err flag_configuration_invalid
  place_token token (some (prefix, suffix)) = do
    throw_if (has_marker suffix) flag_configuration_invalid
    ok (prefix ++ token ++ suffix)

  unfoldable pub derive_team_flag : FlagVerificationContext → Text → Result VerifierError Text
  derive_team_flag input key = elim input.flag_format [
    | none ↦ err flag_configuration_invalid
    | some format ↦
        place_token (hmac_hex key input.contest_id input.challenge_id input.team_id)
          (split_marker format)
  ]

  module _ (keyring : ℤ → Option Text)
      (validators : String → Option (FlagVerificationContext → Option Bool)) where
    -- `key.byteLength < 32` of a key that is there.
    abbrev pub require_key : Option Text → Result VerifierError Text
    require_key none = err flag_configuration_invalid
    require_key (some key) = if ltb (length key) 32 then err flag_configuration_invalid else ok key

    abbrev pub run_validator : Bool → Bool → Option Bool → Result VerifierError Bool
    run_validator false matches_format answer = ok false
    run_validator true matches_format none = err flag_validator_failed
    run_validator true matches_format (some correct) = ok (matches_format && correct)

    -- The policies, given the candidate and whether it matches the format.
    unfoldable pub verify_policy :
        FlagVerificationContext → Text → Bool → FlagPolicy → Result VerifierError Bool
    unfolding derive_team_flag
    verify_policy input candidate matches_format (static_flag digest) =
        ok (matches_format && same_text (sha256 candidate) (hex_bytes digest))
    verify_policy input candidate matches_format (team_derived version) = do
      key ← require_key (keyring version)
      expected ← derive_team_flag input key
      ok (matches_format && constant_time_text_equal candidate expected)
    verify_policy input candidate matches_format (synchronous name) = do
      validator ← or_throw (validators name) flag_configuration_invalid
      run_validator (within_input_limit input.submitted_flag) matches_format (validator input)

    abbrev pub format_check : FlagVerificationContext → Result VerifierError Bool
    format_check input =
        if within_input_limit input.submitted_flag
        then flag_matches_format input.submitted_flag input.flag_format
        else ok false

    unfoldable pub verify : FlagVerificationContext → Result VerifierError Bool
    unfolding flag_matches_format verify_policy
    verify input = do
      matches_format ← format_check input
      verify_policy input
          (if within_input_limit input.submitted_flag then input.submitted_flag else [])
          matches_format input.policy
