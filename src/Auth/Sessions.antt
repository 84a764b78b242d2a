-- ===== src/Auth/Sessions.antt =====
-- auth/session.go with its tables auth_users and auth_sessions, and auth/csrf.go. `verify` is Verify of
-- a password and a stored hash, `digest` the hash of a session's secret; what crypto/rand and Hash give
-- is an argument. Times are milliseconds. A statement that the database cannot carry out is left out.
pub mod Open
pub mod Live
pub mod Ended
pub mod Users
mod Tests
use huawei_api.Base.{
  ℕ, ◌+◌, ◌/◌, String, Bool, true, false, not, ◌&&◌, ◌||◌, ltb, leb, str_eq, if◌then◌else◌, length,
  keep, any, map, Option, none, some, List, [], ◌∷◌, ◌++◌,
}
use huawei_api.Base.Int.{ℤ, pos, leb_ℤ, pos_part}
use huawei_api.Base.Text.{Text, text_eq, trim_space, is_empty, lower, upper}

pub data SessionErr : Type 0 where
  no_session session_expired session_conflict bad_credentials bad_hash weak_password no_username
        bad_csrf :
      SessionErr

pub data SessionReply {ℓ} (A : Type ℓ) : Type ℓ where
  given : A → SessionReply A
  failed : SessionErr → SessionReply A

-- Session, and a row of auth_sessions.
pub record Session : Type 0 where
  pub id : String
  pub username : Text
  pub csrf_token : Text
  pub created_at : ℕ
  pub expires_at : ℕ
  pub last_seen_at : ℕ

-- A row of auth_users.
pub record User : Type 0 where
  pub username : Text
  pub password_hash : String
  pub created_at : ℕ
  pub updated_at : ℕ

pub record AuthDb : Type 0 where
  pub users : List User
  pub sessions : List Session

-- Session.Valid
abbrev pub valid : Session → ℕ → Bool
valid s now = not (str_eq s.id "") && ltb now s.expires_at

-- NewSessions: the time to live in nanoseconds, 12 hours if none is given.
abbrev pub session_ttl : ℤ → ℕ
session_ttl ttl = if leb_ℤ ttl (pos 0) then 43200000000000 else pos_part ttl

abbrev pub user_key : Text → Text
user_key name = trim_space (lower name)

abbrev pub named : Text → User → Bool
named name u = text_eq u.username name

-- INSERT … ON CONFLICT(username) DO UPDATE
abbrev pub upsert_user : User → List User → List User
upsert_user u us =
    if any (named u.username) us
    then map
        (λ o.
          if named u.username o
          then record o { password_hash = u.password_hash; updated_at = u.updated_at }
          else o)
        us
    else us ++ (u ∷ [])

-- SetPassword once the password is hashed.
abbrev pub store_password : ℕ → AuthDb → Text → Option String → AuthDb × SessionReply (Unit {0})
store_password now db name none = (db, failed bad_hash)
store_password now db name (some hash) =
    let u : User = record {
      username = name;
      password_hash = hash;
      created_at = now;
      updated_at = now;
    } in
    (record db { users = upsert_user u db.users }, given tt)

-- SetPassword; `hash` is what Hash of the password gives.
unfoldable pub set_password :
    ℕ → AuthDb → Text → Text → Option String → AuthDb × SessionReply (Unit {0})
set_password now db name password hash =
    if is_empty (user_key name)
    then (db, failed no_username)
    else if ltb (length password) 8
    then (db, failed weak_password)
    else store_password now db (user_key name) hash

-- HasUsers
abbrev pub has_users : AuthDb → Bool
has_users db = ltb 0 (length db.users)

abbrev pub user_named : List User → Text → Option User
user_named [] name = none
user_named (u ∷ us) name = let rest = user_named us name in if named name u then some u else rest

-- Authenticate once the row is read; the decoy of an unknown user does not reach the answer.
abbrev pub check_password :
    (Text → String → SessionReply (Unit {0})) → Text → Option User → SessionReply (Unit {0})
check_password verify password none = failed bad_credentials
check_password verify password (some u) = verify password u.password_hash

-- Sessions.Authenticate
unfoldable pub login :
    (Text → String → SessionReply (Unit {0})) → AuthDb → Text → Text → SessionReply (Unit {0})
login verify db name password = check_password verify password (user_named db.users (user_key name))

abbrev pub has_id : String → Session → Bool
has_id id s = str_eq s.id id

abbrev pub session_by_id : List Session → String → Option Session
session_by_id [] id = none
session_by_id (s ∷ ss) id = let rest = session_by_id ss id in if has_id id s then some s else rest

-- Issue of a new secret, given by its digest, and a new CSRF token.
unfoldable pub issue : ℕ → ℕ → AuthDb → String → Text → Text → AuthDb × SessionReply Session
issue ttl now db id csrf name =
    let s : Session = record {
      id = id;
      username = user_key name;
      csrf_token = csrf;
      created_at = now;
      expires_at = now + ttl / 1000000;
      last_seen_at = now;
    } in
    if any (has_id id) db.sessions
    then (db, failed session_conflict)
    else (record db { sessions = db.sessions ++ (s ∷ []) }, given s)

-- DELETE of one id, and UPDATE of its last_seen_at.
abbrev pub without_id : String → List Session → List Session
without_id id = keep (λ s. not (has_id id s))

abbrev pub seen_now : ℕ → String → List Session → List Session
seen_now now id = map (λ s. if has_id id s then record s { last_seen_at = now } else s)

-- Lookup once the row is read.
abbrev pub look_row : ℕ → AuthDb → String → Option Session → AuthDb × SessionReply Session
look_row now db id none = (db, failed no_session)
look_row now db id (some s) =
    if leb s.expires_at now
    then (record db { sessions = without_id id db.sessions }, failed session_expired)
    else if ltb (s.last_seen_at + 60000) now
    then (
      record db { sessions = seen_now now id db.sessions },
      given (record s { last_seen_at = now }),
    )
    else (db, given s)

-- Lookup
unfoldable pub look_up : (Text → String) → ℕ → AuthDb → Text → AuthDb × SessionReply Session
look_up digest now db secret =
    if is_empty (trim_space secret)
    then (db, failed no_session)
    else look_row now db (digest secret) (session_by_id db.sessions (digest secret))

-- Revoke
unfoldable pub revoke : (Text → String) → AuthDb → Text → AuthDb
revoke digest db secret =
    if is_empty (trim_space secret)
    then db
    else record db { sessions = without_id (digest secret) db.sessions }

-- RevokeUser
unfoldable pub revoke_user : AuthDb → Text → AuthDb
revoke_user db name = record db {
  sessions = keep (λ s. not (text_eq s.username (user_key name))) db.sessions;
}

-- Sweep, with the number of rows it removes.
unfoldable pub sweep_sessions : ℕ → AuthDb → AuthDb × ℕ
sweep_sessions now db = (
  record db { sessions = keep (λ s. not (leb s.expires_at now)) db.sessions },
  length (keep (λ s. leb s.expires_at now) db.sessions),
)

-- CheckCSRF
abbrev pub check_csrf : Session → Text → Bool
check_csrf s got = not (is_empty s.csrf_token) && text_eq s.csrf_token (trim_space got)

-- CSRFRequired: every method but GET, HEAD and OPTIONS.
abbrev pub csrf_required : Text → Bool
csrf_required method =
    let m = upper method in
    not (
      text_eq m (b'G' ∷ b'E' ∷ b'T' ∷ [])
      || text_eq m (b'H' ∷ b'E' ∷ b'A' ∷ b'D' ∷ [])
      || text_eq m (b'O' ∷ b'P' ∷ b'T' ∷ b'I' ∷ b'O' ∷ b'N' ∷ b'S' ∷ []))
