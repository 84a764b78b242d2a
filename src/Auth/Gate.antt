-- ===== src/Auth/Gate.antt =====
-- RequireSession and RequireKey of auth/middleware.go, up to the call of the handler. The Limiter's
-- verdict on a key, where there is a Limiter, is an argument, and what is written to the response is
-- left out but for the code of the refusal.
pub mod Safe
mod Tests
use huawei_api.Base.{
  ℕ, String, Bool, true, false, not, ◌&&◌, ◌||◌, if◌then◌else◌, Option, none, some, List, [], ◌∷◌,
}
use huawei_api.Base.Text.{Text, text_eq, trim_space, is_empty, cut, lower}
use huawei_api.Auth.Keys.{
  AuthErr, bad_key, key_revoked, Answer, accepted, denied, KeysDb, Key, has_scope, authenticate,
}
use huawei_api.Auth.Sessions.{
  SessionReply, given, failed, Session, AuthDb, look_up, check_csrf, csrf_required,
}

pub data DenialCode : Type 0 where
  unauthorized csrf_invalid rate_limited revoked scope_missing : DenialCode

pub data Gate {ℓ} (A : Type ℓ) : Type ℓ where
  served : A → Gate A
  refused : DenialCode → Gate A

-- What the middleware reads of a request.
pub record Incoming : Type 0 where
  pub method : Text
  pub cookie : Text
  pub csrf_header : Text
  pub authorization : Text

abbrev pub gate_session : Bool → Incoming → SessionReply Session → Gate Session
gate_session exempt req (failed why) = refused unauthorized
gate_session exempt req (given s) =
    if csrf_required req.method && not exempt && not (check_csrf s req.csrf_header)
    then refused csrf_invalid
    else served s

-- RequireSession
unfoldable pub require_session :
    (Text → String) → ℕ → AuthDb → Bool → Incoming → AuthDb × Gate Session
require_session digest now db exempt req =
    let (db', answer) = look_up digest now db req.cookie in (db', gate_session exempt req answer)

abbrev bearer : Text
bearer = b'b' ∷ b'e' ∷ b'a' ∷ b'r' ∷ b'e' ∷ b'r' ∷ []

abbrev pub after_scheme : Text × Option Text → Text
after_scheme (scheme, none) = []
after_scheme (scheme, some token) = if text_eq (lower scheme) bearer then trim_space token else []

-- BearerToken
abbrev pub bearer_token : Text → Text
bearer_token header =
    let h = trim_space header in if is_empty h then [] else after_scheme (cut b' ' h)

abbrev pub within_rate : Option (String → Bool) → Key → Bool
within_rate none k = true
within_rate (some allows) k = allows k.id

abbrev pub gate_key : Option (String → Bool) → Text → Answer Key → Gate Key
gate_key limiter scope (denied key_revoked) = refused revoked
gate_key limiter scope (denied why) = refused unauthorized
gate_key limiter scope (accepted k) =
    if not (within_rate limiter k)
    then refused rate_limited
    else if not (is_empty scope) && not (has_scope k scope)
    then refused scope_missing
    else served k

-- RequireKey
unfoldable pub require_key :
    (Text → String → Bool)
    → ℕ
    → KeysDb
    → Option (String → Bool)
    → Text
    → Incoming
    → KeysDb × Gate Key
require_key verify now db limiter scope req =
    let token = bearer_token req.authorization in
    let (db', answer) = authenticate verify now db token in
    if is_empty token then (db, refused unauthorized) else (db', gate_key limiter scope answer)
