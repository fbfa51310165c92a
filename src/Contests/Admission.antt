-- ===== src/Contests/Admission.antt =====
-- Which payloads may make a contest (apps/web/server/domains/contests/admission.ts).
pub mod Laws
use sauryctf.Prelude.{String, Bool, true, false, Option, none, some, List, [], ◌∷◌, map, ◌&&◌}
use sauryctf.Prelude.Keys.{string_key}
use sauryctf.Prelude.Dict.{Dict, get, contains}
use sauryctf.Prelude.Result.{Result, ok, err, throw_if, for_each, ◌>>◌, ◌>>=◌}

pub data ContestAdmissionSource : Type 0 where
  api import : ContestAdmissionSource

-- What is read of an unknown value inside the payload: whether it is an object, and its keys.
pub data Inner : Type 0 where
  keys : List String → Inner
  no_keys : Inner

-- What is read of the payload.
pub data Payload : Type 0 where
  fields : Dict String Inner → Payload
  no_fields : Payload

-- `ContestModeUnsupportedError`, with the field as the prefix and the key.
pub data ContestModeUnsupported : Type 0 where
  unsupported : String → String → ContestModeUnsupported

abbrev pub mode_keys : List String
mode_keys = "mode" ∷ "contest_mode" ∷ "competition_mode" ∷ []

abbrev pub service_keys : List String
service_keys = "services" ∷ "ticks" ∷ "vpn" ∷ "checkers" ∷ "terminal" ∷ []

abbrev pub reject_key :
    List String → String → Unit {0} → String → Result ContestModeUnsupported (Unit {0})
reject_key value prefix _ key = throw_if (contains value key) (unsupported prefix key)

unfoldable pub reject_mode_keys : List String → String → Result ContestModeUnsupported (Unit {0})
reject_mode_keys value prefix = for_each (reject_key value prefix) mode_keys tt

-- `record(root.contest)`, by its keys.
abbrev pub contest_keys : Option Inner → Option (List String)
contest_keys none = none
contest_keys (some no_keys) = none
contest_keys (some (keys ks)) = some ks

abbrev pub field_names : Dict String Inner → List String
field_names [] = []
field_names ((k, v) ∷ d) = k ∷ field_names d

abbrev pub reject_service_key :
    List String
    → Option (List String)
    → Unit {0}
    → String
    → Result ContestModeUnsupported (Unit {0})
reject_service_key root none _ key = reject_key root "" tt key
reject_service_key root (some contest) _ key = do
  reject_key root "" tt key
  reject_key contest "contest." tt key

abbrev pub reject_contest : Option (List String) → Result ContestModeUnsupported (Unit {0})
reject_contest none = ok tt
reject_contest (some contest) = reject_mode_keys contest "contest."

unfoldable pub assert_implicit_jeopardy_contest_payload :
    Payload → ContestAdmissionSource → Result ContestModeUnsupported (Unit {0})
assert_implicit_jeopardy_contest_payload no_fields source = ok tt
assert_implicit_jeopardy_contest_payload (fields root) api = reject_mode_keys (field_names root) ""
assert_implicit_jeopardy_contest_payload (fields root) import = do
  reject_mode_keys (field_names root) ""
  reject_contest (contest_keys (get "contest" root))
  for_each (reject_service_key (field_names root) (contest_keys (get "contest" root))) service_keys
      tt
