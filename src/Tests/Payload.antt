-- ===== src/Tests/Payload.antt =====
-- An imported contest with a service in it.
use sauryctf.Prelude.{◌≡◌, ◌↔◌, refl, [], ◌∷◌}
use sauryctf.Prelude.Result.{ok, err}
use sauryctf.Contests.Admission.{
  import, api, Payload, fields, keys, no_keys, unsupported, reject_mode_keys,
  assert_implicit_jeopardy_contest_payload,
}
use sauryctf.Contests.Admission.Laws.{IsImplicit, admission_iff}

abbrev with_service : Payload
with_service = fields (("title", no_keys) ∷ ("contest", keys ("name" ∷ "vpn" ∷ [])) ∷ [])

refused :
    assert_implicit_jeopardy_contest_payload with_service import
    ≡ err (unsupported "contest." "vpn")
unfolding assert_implicit_jeopardy_contest_payload reject_mode_keys
refused = refl

admission_iff_example :
    (assert_implicit_jeopardy_contest_payload with_service api ≡ ok tt)
    ↔ IsImplicit with_service api
admission_iff_example = admission_iff with_service api
