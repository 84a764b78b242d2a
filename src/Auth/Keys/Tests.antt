-- ===== src/Auth/Keys/Tests.antt =====
-- Keys that are created, used and revoked (auth/apikey.go).
use huawei_api.Base.{
  ℕ, ◌≡◌, refl, inl, String, Bool, false, str_eq, if◌then◌else◌, none, List, [], ◌∷◌, ◌++◌,
}
use huawei_api.Base.Text.{Text, text_eq}
use huawei_api.Auth.Keys.{
  KeysDb, Key, key_prefix, scope_rotate, scope_status, scan_key, NewKey, Fresh, create_with,
  collect_scopes, create_key, revoke_key, first_verified, authenticate, create_link_token,
}
use huawei_api.Auth.Keys.Revoked.{KeyCall, keys_step, keys_run, revoked_shuts_out}
use huawei_api.Auth.Keys.Created.{Opens, created_authenticates}

abbrev empty_db : KeysDb
empty_db = record { keys = []; tokens = [] }

abbrev body_a : Text
body_a = b'q' ∷ b'w' ∷ b'e' ∷ b'r' ∷ b't' ∷ b'y' ∷ b'1' ∷ b'2' ∷ b'3' ∷ []

abbrev body_b : Text
body_b = b'z' ∷ b'x' ∷ b'c' ∷ b'v' ∷ b'b' ∷ b'n' ∷ b'1' ∷ b'2' ∷ b'3' ∷ []

abbrev shop : NewKey
shop = record {
  name = b's' ∷ b'h' ∷ b'o' ∷ b'p' ∷ [];
  customer_id = none;
  scopes = (b' ' ∷ scope_rotate) ∷ scope_status ∷ scope_rotate ∷ [];
  proxy_ids = (b'p' ∷ b'1' ∷ []) ∷ (b'p' ∷ b'2' ∷ []) ∷ [];
}

abbrev fits : Text → String → Bool
fits secret hash =
    if text_eq secret (key_prefix ++ body_a)
    then str_eq hash "ha"
    else if text_eq secret (key_prefix ++ body_b)
    then str_eq hash "hb"
    else false

abbrev hash_of : Text → String
hash_of secret = if text_eq secret body_a then "la" else "lb"

abbrev fresh_a : Fresh
fresh_a = record { id = "a"; body = body_a; hash = "ha" }

abbrev fresh_b : Fresh
fresh_b = record { id = "b"; body = body_b; hash = "hb" }

abbrev one_key : KeysDb
unfolding create_key create_with collect_scopes
one_key = (create_key 5 fresh_a empty_db shop).0

abbrev shop_key : Key
shop_key = record {
  id = "b";
  name = b's' ∷ b'h' ∷ b'o' ∷ b'p' ∷ [];
  prefix = key_prefix ++ (b'z' ∷ b'x' ∷ b'c' ∷ b'v' ∷ b'b' ∷ b'n' ∷ b'1' ∷ b'2' ∷ []);
  customer_id = none;
  scopes = scope_rotate ∷ scope_status ∷ [];
  proxy_ids = (b'p' ∷ b'1' ∷ []) ∷ (b'p' ∷ b'2' ∷ []) ∷ [];
  last_used_at = none;
  revoked_at = none;
  created_at = 6;
}

created_authenticates_example :
    Opens fits 9 (create_key 6 fresh_b one_key shop).0 shop_key (key_prefix ++ body_b)
unfolding create_key create_with collect_scopes scan_key str_eq
created_authenticates_example =
    created_authenticates fits 6 9 "b" "hb" b'z'
      (b'x' ∷ b'c' ∷ b'v' ∷ b'b' ∷ b'n' ∷ b'1' ∷ b'2' ∷ b'3' ∷ []) one_key shop
      (refl, (refl, (refl, (refl, (refl, (refl, (refl, (refl, (refl, tt))))))))) refl refl
      (
        ((refl, (refl, tt)), (refl, (refl, tt)), refl),
        (((refl, (refl, tt)), (refl, (refl, tt)), refl), tt),
      )
      shop_key (key_prefix ++ body_b) refl

abbrev calls_after : List (ℕ × KeyCall)
calls_after = (8, KeyCall.creates_link "t" "la" "a") ∷ (9, KeyCall.creates fresh_b shop) ∷ []

revoked_shuts_out_example : str_eq "b" "a" ≡ false
unfolding create_key create_with collect_scopes scan_key str_eq authenticate first_verified keys_run
    keys_step revoke_key create_link_token
revoked_shuts_out_example =
    revoked_shuts_out fits hash_of 7 one_key "a" calls_after refl 10 (key_prefix ++ body_b)
      (record shop_key { created_at = 9 }) (inl refl)
