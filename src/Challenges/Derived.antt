-- ===== src/Challenges/Derived.antt =====
-- The flags that are derived for teams (apps/web/server/domains/challenges/flag-verifier.ts).
use sauryctf.Prelude.{
  ◌≤◌, ◌+◌, String, Bool, true, false, ltb, Option, none, some, [], ◌∷◌, ◌++◌, length,
  length-append, ◌≡◌, refl, ap, ◌∙◌, arith, Bool-cases, inl, inr,
}
use mathlib.Core.Path.{subst}
use mathlib.Core.List.{append_assoc}
use sauryctf.Prelude.Int.{ℤ}
use sauryctf.Prelude.Result.{ok, err, bind-eq-ok, throw_if, throw_if-ok, ok-inj}
use sauryctf.Challenges.Policy.{FlagPolicy, static_flag, team_derived, synchronous}
use sauryctf.Prelude.Table.{or_throw}
use sauryctf.Challenges.Flags.{
  Text, flag_configuration_invalid, FlagVerificationContext, same_text, starts_with, ends_with,
  split_marker, has_marker, Crypto, within_input_limit, matches_parts, flag_matches_format,
  place_token, derive_team_flag, require_key, verify_policy, format_check, run_validator, verify,
}

same_text_refl : (t : Text) → same_text t t ≡ true
same_text_refl [] = refl
same_text_refl (c ∷ cs) = ground (arith, same_text_refl cs)

starts_with-append : (prefix rest : Text) → starts_with prefix (prefix ++ rest) ≡ true
starts_with-append [] rest = refl
starts_with-append (c ∷ cs) rest = ground (arith, starts_with-append cs rest)

ends_with_refl : (t : Text) → ends_with t t ≡ true
ends_with_refl [] = refl
ends_with_refl (c ∷ cs) = ground (arith, same_text_refl (c ∷ cs))

ends_with-append : (front suffix : Text) → ends_with suffix (front ++ suffix) ≡ true
ends_with-append [] suffix = ends_with_refl suffix
ends_with-append (c ∷ cs) suffix = ground (arith, ends_with-append cs suffix)

ends_with-prefixed :
    (prefix token suffix : Text) → ends_with suffix (prefix ++ token ++ suffix) ≡ true
ends_with-prefixed prefix token suffix = ends_with-append (prefix ++ token) suffix

starts_with-prefixed :
    (prefix token suffix : Text) → starts_with prefix (prefix ++ token ++ suffix) ≡ true
starts_with-prefixed prefix token suffix =
    ap (starts_with prefix) (append_assoc prefix token suffix)
    ∙ starts_with-append prefix (token ++ suffix)

longer :
    (prefix token suffix : Text)
    → 1 ≤ length token
    → ltb (length prefix + length suffix) (length (prefix ++ token ++ suffix)) ≡ true
longer prefix token suffix h =
    ground (arith, length-append (prefix ++ token) suffix, length-append prefix token)

module _ (crypto : Crypto) where
  -- A placed token matches the format that it was placed in.
  place_token-matches :
      (token format expected : Text) (parts : Option (Text × Text))
      → 1 ≤ length token
      → place_token crypto token parts ≡ ok expected
      → matches_parts crypto expected parts format ≡ ok true
  place_token-matches token format expected none long h = cc
  place_token-matches token format expected (some (prefix, suffix)) long h =
      let (u, e, h₁) = bind-eq-ok (throw_if (has_marker suffix) flag_configuration_invalid) _ h in
      let is : prefix ++ token ++ suffix ≡ expected = ok-inj refl h₁ in
      let one = throw_if-ok (has_marker suffix) flag_configuration_invalid u e in
      subst (λ (flag : Text). matches_parts crypto flag (some (prefix, suffix)) format ≡ ok true) is
        (rw
          (
            one,
            starts_with-prefixed prefix token suffix,
            ends_with-prefixed prefix token suffix,
            longer prefix token suffix long,
          )
          refl)

  -- The derived flag of a format matches the format.
  derived-matches :
      (token expected : Text) (format : Option Text)
      → 1 ≤ length token
      → (elim format [
        | none ↦ err flag_configuration_invalid
        | some f ↦ place_token crypto token (split_marker f)
      ])
        ≡ ok expected
      → flag_matches_format crypto expected format ≡ ok true
  unfolding flag_matches_format
  derived-matches token expected none long h = cc
  derived-matches token expected (some []) long h = refl
  derived-matches token expected (some (c ∷ cs)) long h =
      place_token-matches token (c ∷ cs) expected (split_marker (c ∷ cs)) long h

  derived-format :
      (input : FlagVerificationContext) (key : Text)
      → 1 ≤ length (crypto.hmac_hex key input.contest_id input.challenge_id input.team_id)
      → derive_team_flag crypto input key ≡ ok input.submitted_flag
      → flag_matches_format crypto input.submitted_flag input.flag_format ≡ ok true
  unfolding derive_team_flag
  derived-format input key long derived =
      derived-matches (crypto.hmac_hex key input.contest_id input.challenge_id input.team_id)
        input.submitted_flag input.flag_format long derived

  module _ (keyring : ℤ → Option Text)
      (validators : String → Option (FlagVerificationContext → Option Bool)) where
    -- Under a team-derived policy, the flag that is derived for the team under the policy's key is
    -- accepted, where the key has at least 32 bytes, the digest is not empty, and the flag is within
    -- the limit of bytes.
    pub verify-derived :
        (input : FlagVerificationContext) (version : ℤ) (key : Text)
        → input.policy ≡ team_derived version
        → keyring version ≡ some key
        → 32 ≤ length key
        → 1 ≤ length (crypto.hmac_hex key input.contest_id input.challenge_id input.team_id)
        → within_input_limit crypto input.submitted_flag ≡ true
        → derive_team_flag crypto input key ≡ ok input.submitted_flag
        → verify crypto keyring validators input ≡ ok true
    unfolding verify verify_policy
    verify-derived input version key policy keyed wide long within derived =
        let matched = derived-format input key long derived in
        let kept : require_key crypto keyring validators (some key) ≡ ok key = ground arith in
        rw
          (
            within,
            matched,
            policy,
            keyed,
            kept,
            derived,
            same_text_refl (crypto.sha256 input.submitted_flag),
          )
          refl

    policy-matches :
        (input : FlagVerificationContext) (candidate : Text) (matches_format : Bool)
        (policy : FlagPolicy)
        → verify_policy crypto keyring validators input candidate matches_format policy ≡ ok true
        → matches_format ≡ true
    unfolding verify_policy
    policy-matches input candidate true policy h = refl
    policy-matches input candidate false (static_flag digest) h = cc
    policy-matches input candidate false (team_derived version) h =
        let (key, e, h₁) =
          bind-eq-ok (require_key crypto keyring validators (keyring version)) _ h in
        let (expected, e', h₂) = bind-eq-ok (derive_team_flag crypto input key) _ h₁ in cc
    policy-matches input candidate false (synchronous name) h =
        let (validator, e, h₁) =
          bind-eq-ok (or_throw (validators name) flag_configuration_invalid) _ h in
        run-matches (within_input_limit crypto input.submitted_flag) (validator input) h₁
      where
        run-matches :
            (within : Bool) (answer : Option Bool)
            → run_validator crypto keyring validators within false answer ≡ ok true
            → false ≡ true
        run-matches false answer h = cc
        run-matches true none h = cc
        run-matches true (some correct) h = cc

    -- Whatever the policy, a flag is accepted only if it has between 1 and 1024 bytes and matches the
    -- format of the challenge.
    pub verify-accepted :
        (input : FlagVerificationContext)
        → verify crypto keyring validators input ≡ ok true
        → (within_input_limit crypto input.submitted_flag ≡ true)
          × (flag_matches_format crypto input.submitted_flag input.flag_format ≡ ok true)
    unfolding verify
    verify-accepted input h =
        let (m, e, h₁) = bind-eq-ok (format_check crypto keyring validators input) _ h in
        let matched = policy-matches input _ m input.policy h₁ in
        elim (Bool-cases (within_input_limit crypto input.submitted_flag)) [
          | inl within ↦ (within, rw within at e ∙ ap ok matched)
          | inr outside ↦ let k = rw outside at e in absurd cc
        ]
