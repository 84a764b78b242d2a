-- ===== src/Auth/Gate/Tests.antt =====
-- Requests at the door (auth/middleware.go).
use huawei_api.Base.{
  ◌≡◌, refl, String, Bool, true, false, not, ◌||◌, ltb, str_eq, if◌then◌else◌, IsIn, none, some, [],
  ◌∷◌, ◌++◌,
}
use huawei_api.Base.Text.{Text, text_eq, trim_space, is_empty}
use huawei_api.Auth.Keys.{
  KeyRow, KeysDb, Key, key_prefix, scope_rotate, scan_key, has_scope, is_none, first_verified,
  authenticate,
}
use huawei_api.Auth.Sessions.{given, Session, AuthDb, look_up, check_csrf, csrf_required}
use huawei_api.Auth.Gate.{Incoming, require_session, bearer_token, within_rate, require_key}
use huawei_api.Auth.Gate.Safe.{require_session_safe, require_key_safe}

abbrev cookie_k : Text
cookie_k = b'k' ∷ []

abbrev hash_cookie : Text → String
hash_cookie t = if text_eq t cookie_k then "hk" else "other"

abbrev open_session : Session
open_session = record {
  id = "hk";
  username = b'a' ∷ [];
  csrf_token = b'c' ∷ [];
  created_at = 1000;
  expires_at = 9000;
  last_seen_at = 1000;
}

abbrev signed_in : AuthDb
signed_in = record { users = []; sessions = open_session ∷ [] }

abbrev key_header : Text
key_header = b'B' ∷ b'e' ∷ b'a' ∷ b'r' ∷ b'e' ∷ b'r' ∷ b' ' ∷ key_prefix ++ (b'z' ∷ [])

abbrev a_post : Incoming
a_post = record {
  method = b'P' ∷ b'O' ∷ b'S' ∷ b'T' ∷ [];
  cookie = cookie_k;
  csrf_header = b' ' ∷ b'c' ∷ [];
  authorization = key_header;
}

require_session_safe_example :
    ((look_up hash_cookie 2000 signed_in cookie_k).1 ≡ given open_session)
    × (ltb 2000 open_session.expires_at ≡ true)
    × (not (csrf_required a_post.method) || false || check_csrf open_session a_post.csrf_header
        ≡ true)
unfolding require_session look_up str_eq
require_session_safe_example =
    require_session_safe hash_cookie 2000 signed_in false a_post open_session refl

abbrev row_z : KeyRow
row_z = record {
  id = "z";
  name = b'z' ∷ [];
  prefix = key_prefix ++ (b'z' ∷ []);
  secret_hash = "hz";
  customer_id = none;
  scopes = scope_rotate;
  proxy_ids = [];
  last_used_at = none;
  revoked_at = none;
  created_at = 1;
}

abbrev row_y : KeyRow
row_y = record row_z { id = "y"; secret_hash = "hy" }

abbrev two_keys : KeysDb
two_keys = record { keys = row_y ∷ row_z ∷ []; tokens = [] }

abbrev fits_z : Text → String → Bool
fits_z secret hash = str_eq hash "hz"

abbrev key_z : Key
key_z = record {
  id = "z";
  name = b'z' ∷ [];
  prefix = key_prefix ++ (b'z' ∷ []);
  customer_id = none;
  scopes = scope_rotate ∷ [];
  proxy_ids = [];
  last_used_at = none;
  revoked_at = none;
  created_at = 1;
}

require_key_safe_example :
    (row : KeyRow) × IsIn row two_keys.keys
    × (fits_z (trim_space (bearer_token a_post.authorization)) row.secret_hash ≡ true)
    × (is_none row.revoked_at ≡ true)
    × (scan_key row ≡ key_z)
    × (within_rate (some (λ id. str_eq id "z")) key_z ≡ true)
    × (is_empty scope_rotate || has_scope key_z scope_rotate ≡ true)
unfolding require_key authenticate first_verified scan_key str_eq
require_key_safe_example =
    require_key_safe fits_z 9 two_keys (some (λ id. str_eq id "z")) scope_rotate a_post key_z refl
