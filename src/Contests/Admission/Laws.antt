-- ===== src/Contests/Admission/Laws.antt =====
-- The payloads that are let through, described by their keys
-- (apps/web/server/domains/contests/admission.ts).
use sauryctf.Prelude.{String, false, ◌≡◌, ◌↔◌, refl, Option, none, some, List, [], ◌∷◌, All, arith}
use sauryctf.Prelude.Keys.{eqb_iff, string_key}
use sauryctf.Prelude.Dict.{get, contains}
use sauryctf.Prelude.Result.{Result, ok, err, for_each, ◌>>◌}
use sauryctf.Contests.Admission.{
  ContestAdmissionSource, api, import, Payload, fields, no_fields, mode_keys, service_keys,
  field_names, contest_keys, reject_mode_keys, reject_key, reject_service_key, reject_contest,
  assert_implicit_jeopardy_contest_payload,
}

-- None of the keys is forbidden.
abbrev pub IsFree : List String → List String → Type 0
IsFree forbidden = All (λ k. contains forbidden k ≡ false)

abbrev pub IsFreeInside : List String → Option (List String) → Type 0
IsFreeInside forbidden none = Unit
IsFreeInside forbidden (some ks) = IsFree forbidden ks

-- No key of the payload names a mode; of an imported one, no key of the payload or of its contest
-- names a mode or a service.
abbrev pub IsImplicit : Payload → ContestAdmissionSource → Type 0
IsImplicit no_fields source = Unit
IsImplicit (fields root) api = IsFree mode_keys (field_names root)
IsImplicit (fields root) import =
    IsFree mode_keys (field_names root)
    × IsFreeInside mode_keys (contest_keys (get "contest" root))
    × IsFree service_keys (field_names root)
    × IsFreeInside service_keys (contest_keys (get "contest" root))

-- No forbidden key stands among the keys.
abbrev IsAbsent : List String → List String → Type 0
IsAbsent ks = All (λ f. contains ks f ≡ false)

IsAbsent-nil : (fs : List String) → IsAbsent [] fs
IsAbsent-nil [] = tt
IsAbsent-nil (f ∷ fs) = (refl, IsAbsent-nil fs)

IsAbsent-cons :
    (k : String) (ks fs : List String)
    → IsAbsent (k ∷ ks) fs ↔ ((contains fs k ≡ false) × IsAbsent ks fs)
IsAbsent-cons k ks [] = ground arith
IsAbsent-cons k ks (f ∷ fs) = ground (arith, IsAbsent-cons k ks fs, eqb_iff f k, eqb_iff k f)

IsAbsent-iff : (ks fs : List String) → IsAbsent ks fs ↔ IsFree fs ks
IsAbsent-iff [] fs = (λ _. tt, λ _. IsAbsent-nil fs)
IsAbsent-iff (k ∷ ks) fs = ground (arith, IsAbsent-cons k ks fs, IsAbsent-iff ks fs)

reject_keys_iff :
    (ks : List String) (prefix : String) (fs : List String)
    → (for_each (reject_key ks prefix) fs tt ≡ ok tt) ↔ IsAbsent ks fs
reject_keys_iff ks prefix [] = (λ _. tt, λ _. refl)
reject_keys_iff ks prefix (f ∷ fs) = ground (arith, reject_keys_iff ks prefix fs)

reject_service_iff :
    (root ks fs : List String)
    → (for_each (reject_service_key root (some ks)) fs tt ≡ ok tt)
      ↔ (IsAbsent root fs × IsAbsent ks fs)
reject_service_iff root ks [] = (λ _. (tt, tt), λ _. refl)
reject_service_iff root ks (f ∷ fs) = ground (arith, reject_service_iff root ks fs)

reject_root_iff :
    (root fs : List String)
    → (for_each (reject_service_key root none) fs tt ≡ ok tt) ↔ IsAbsent root fs
reject_root_iff root [] = (λ _. tt, λ _. refl)
reject_root_iff root (f ∷ fs) = ground (arith, reject_root_iff root fs)

-- Two checks in a row let through what each lets through.
then_iff :
    {E : Type 0} (m k : Result E (Unit {0})) → ((m >> k) ≡ ok tt) ↔ ((m ≡ ok tt) × (k ≡ ok tt))
then_iff (ok u) k = (λ h. (refl, h), λ p. p.1)
then_iff (err e) k = ((λ h. cc), (λ p. cc))

reject_mode_keys_iff :
    (ks : List String) (prefix : String)
    → (reject_mode_keys ks prefix ≡ ok tt) ↔ IsFree mode_keys ks
unfolding reject_mode_keys
reject_mode_keys_iff ks prefix = (
  (λ h. (IsAbsent-iff ks mode_keys).0 ((reject_keys_iff ks prefix mode_keys).0 h)),
  (λ f. (reject_keys_iff ks prefix mode_keys).1 ((IsAbsent-iff ks mode_keys).1 f)),
)

reject_contest_iff :
    (contest : Option (List String))
    → (reject_contest contest ≡ ok tt) ↔ IsFreeInside mode_keys contest
reject_contest_iff none = ((λ _. tt), (λ _. refl))
reject_contest_iff (some ks) = reject_mode_keys_iff ks "contest."

service_keys_iff :
    (root : List String) (contest : Option (List String))
    → (for_each (reject_service_key root contest) service_keys tt ≡ ok tt)
      ↔ (IsFree service_keys root × IsFreeInside service_keys contest)
service_keys_iff root none = (
  (λ h. ((IsAbsent-iff root service_keys).0 ((reject_root_iff root service_keys).0 h), tt)),
  (λ f. (reject_root_iff root service_keys).1 ((IsAbsent-iff root service_keys).1 f.0)),
)
service_keys_iff root (some ks) = (
  (λ h.
      let (a, b) = (reject_service_iff root ks service_keys).0 h in
      ((IsAbsent-iff root service_keys).0 a, (IsAbsent-iff ks service_keys).0 b)),
  (λ f.
      (reject_service_iff root ks service_keys).1
        ((IsAbsent-iff root service_keys).1 f.0, (IsAbsent-iff ks service_keys).1 f.1)),
)

module _ (root : List String) (contest : Option (List String)) where
  imported_iff :
      ((reject_mode_keys root ""
          >> (reject_contest contest >> for_each (reject_service_key root contest) service_keys tt))
        ≡ ok tt)
      ↔ (IsFree mode_keys root
          × IsFreeInside mode_keys contest
          × IsFree service_keys root
          × IsFreeInside service_keys contest)
  imported_iff =
      let loop = for_each (reject_service_key root contest) service_keys tt in
      let outer = then_iff (reject_mode_keys root "") (reject_contest contest >> loop) in
      let inner = then_iff (reject_contest contest) loop in
      let m = reject_mode_keys_iff root "" in
      let c = reject_contest_iff contest in
      let s = service_keys_iff root contest in
      (
        (λ h.
            let (h₁, h₂) = outer.0 h in
            let (h₃, h₄) = inner.0 h₂ in (m.0 h₁, c.0 h₃, (s.0 h₄).0, (s.0 h₄).1)),
        (λ f. outer.1 (m.1 f.0, inner.1 (c.1 f.1, s.1 (f.2, f.3)))),
      )

-- A payload is let through exactly when no key of it names a mode and, where it is imported, no key
-- of its contest names a mode and no key of either names a service.
pub admission_iff :
    (payload : Payload) (source : ContestAdmissionSource)
    → (assert_implicit_jeopardy_contest_payload payload source ≡ ok tt) ↔ IsImplicit payload source
unfolding assert_implicit_jeopardy_contest_payload
admission_iff no_fields source = (λ _. tt, λ _. refl)
admission_iff (fields root) api = reject_mode_keys_iff (field_names root) ""
admission_iff (fields root) import =
    imported_iff (field_names root) (contest_keys (get "contest" root))
