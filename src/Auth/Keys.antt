-- ===== src/Auth/Keys.antt =====
-- auth/apikey.go with its tables (auth/store.go). `verify` is Verify of a secret and a stored hash,
-- `digest` the hash of a link's secret; what crypto/rand and Hash give stands in `Fresh`. A statement
-- that the database cannot carry out is left out.
pub mod Revoked
pub mod Created
mod Tests
use huawei_api.Base.{
  ℕ, String, Bool, true, false, not, ◌&&◌, ◌||◌, leb, str_eq, if◌then◌else◌, length, keep, any, map,
  Option, none, some, List, [], ◌∷◌, ◌++◌,
}
use huawei_api.Base.Text.{Text, text_eq, trim_space, is_empty, split, join, has_prefix, take, drop}

pub data AuthErr : Type 0 where
  bad_key key_revoked token_revoked invalid_request no_such_row conflicting : AuthErr

pub data Answer {ℓ} (A : Type ℓ) : Type ℓ where
  accepted : A → Answer A
  denied : AuthErr → Answer A

-- A row of api_keys.
pub record KeyRow : Type 0 where
  pub id : String
  pub name : Text
  pub prefix : Text
  pub secret_hash : String
  pub customer_id : Option String
  pub scopes : Text
  pub proxy_ids : Text
  pub last_used_at : Option ℕ
  pub revoked_at : Option ℕ
  pub created_at : ℕ

-- A row of link_tokens.
pub record TokenRow : Type 0 where
  pub id : String
  pub api_key_id : String
  pub token_hash : String
  pub last_used_at : Option ℕ
  pub revoked_at : Option ℕ
  pub created_at : ℕ

pub record KeysDb : Type 0 where
  pub keys : List KeyRow
  pub tokens : List TokenRow

-- Key, without its link tokens.
pub record Key : Type 0 where
  pub id : String
  pub name : Text
  pub prefix : Text
  pub customer_id : Option String
  pub scopes : List Text
  pub proxy_ids : List Text
  pub last_used_at : Option ℕ
  pub revoked_at : Option ℕ
  pub created_at : ℕ

abbrev pub is_none {ℓ} : {A : Type ℓ} → Option A → Bool
is_none none = true
is_none (some a) = false

abbrev pub one_of : List Text → Text → Bool
one_of ts t = any (λ s. text_eq s t) ts

-- Key.HasScope
abbrev pub has_scope : Key → Text → Bool
has_scope k scope = one_of k.scopes scope

-- Key.CoversProxy
abbrev pub covers_proxy : Key → Text → Bool
covers_proxy k proxy_id = is_empty k.proxy_ids || one_of k.proxy_ids proxy_id

abbrev pub trimmed_parts : List Text → List Text
trimmed_parts [] = []
trimmed_parts (t ∷ ts) =
    let rest = trimmed_parts ts in if is_empty (trim_space t) then rest else trim_space t ∷ rest

-- joinList
abbrev pub join_list : List Text → Text
join_list ts = join b',' (trimmed_parts ts)

-- splitList
abbrev pub split_list : Text → List Text
split_list t = if is_empty (trim_space t) then [] else trimmed_parts (split b',' t)

-- scanKey
unfoldable pub scan_key : KeyRow → Key
scan_key r = record {
  id = r.id;
  name = r.name;
  prefix = r.prefix;
  customer_id = r.customer_id;
  scopes = split_list r.scopes;
  proxy_ids = split_list r.proxy_ids;
  last_used_at = r.last_used_at;
  revoked_at = r.revoked_at;
  created_at = r.created_at;
}

-- "dgl_live_"
abbrev pub key_prefix : Text
key_prefix = b'd' ∷ b'g' ∷ b'l' ∷ b'_' ∷ b'l' ∷ b'i' ∷ b'v' ∷ b'e' ∷ b'_' ∷ []

abbrev pub scope_rotate : Text
scope_rotate = b'r' ∷ b'o' ∷ b't' ∷ b'a' ∷ b't' ∷ b'e' ∷ []

abbrev pub scope_status : Text
scope_status = b's' ∷ b't' ∷ b'a' ∷ b't' ∷ b'u' ∷ b's' ∷ []

-- ValidScope
abbrev pub valid_scope : Text → Bool
valid_scope = one_of (scope_rotate ∷ scope_status ∷ [])

pub record NewKey : Type 0 where
  pub name : Text
  pub customer_id : Option String
  pub scopes : List Text
  pub proxy_ids : List Text

-- The id, the random body of the secret, and the hash of the secret.
pub record Fresh : Type 0 where
  pub id : String
  pub body : Text
  pub hash : String

abbrev pub with_scope : List Text → Text → List Text
with_scope scopes s = if is_empty s || one_of scopes s then scopes else scopes ++ (s ∷ [])

-- The loop of Create over the scopes.
pub collect_scopes : List Text → List Text → Answer (List Text)
collect_scopes scopes [] = accepted scopes
collect_scopes scopes (s ∷ ss) =
    let t = trim_space s in
    let rest = collect_scopes (with_scope scopes t) ss in
    if is_empty t || valid_scope t then rest else denied invalid_request

-- `label` of a body; the bodies are ASCII.
abbrev pub label_of : Text → Text
label_of body = take 8 body

-- nullText
abbrev pub null_text : Option String → Option String
null_text none = none
null_text (some s) = if str_eq s "" then none else some s

abbrev pub new_row : ℕ → Fresh → NewKey → List Text → KeyRow
new_row now fresh req scopes = record {
  id = fresh.id;
  name = trim_space req.name;
  prefix = key_prefix ++ label_of fresh.body;
  secret_hash = fresh.hash;
  customer_id = null_text req.customer_id;
  scopes = join_list scopes;
  proxy_ids = join_list req.proxy_ids;
  last_used_at = none;
  revoked_at = none;
  created_at = now;
}

abbrev pub key_named : String → KeyRow → Bool
key_named id r = str_eq r.id id

-- Create once the scopes are collected: the row, and the key and the secret that are returned.
pub create_with : ℕ → Fresh → KeysDb → NewKey → List Text → KeysDb × Answer (Key × Text)
create_with now fresh db req scopes =
    let row = new_row now fresh req scopes in
    if is_empty scopes
    then (db, denied invalid_request)
    else if any (key_named fresh.id) db.keys
    then (db, denied conflicting)
    else (
      record db { keys = db.keys ++ (row ∷ []) },
      accepted (
        record (scan_key row) {
          customer_id = req.customer_id;
          scopes = scopes;
          proxy_ids = req.proxy_ids;
        },
        key_prefix ++ fresh.body,
      ),
    )

abbrev pub on_scopes :
    KeysDb
    → (List Text → KeysDb × Answer (Key × Text))
    → Answer (List Text)
    → KeysDb × Answer (Key × Text)
on_scopes db go (accepted scopes) = go scopes
on_scopes db go (denied why) = (db, denied why)

-- Create
unfoldable pub create_key : ℕ → Fresh → KeysDb → NewKey → KeysDb × Answer (Key × Text)
unfolding create_with collect_scopes
create_key now fresh db req =
    let done = on_scopes db (create_with now fresh db req) (collect_scopes [] req.scopes) in
    if is_empty (trim_space req.name) then (db, denied invalid_request) else done

-- An UPDATE of the keys with an id.
abbrev pub at_key : String → (KeyRow → KeyRow) → KeysDb → KeysDb
at_key id f db = record db { keys = map (λ r. if key_named id r then f r else r) db.keys }

-- Revoke: a revocation stands.
abbrev pub revoked_row : ℕ → KeyRow → KeyRow
revoked_row now r = record r {
  revoked_at = if is_none r.revoked_at then some now else r.revoked_at;
}

unfoldable pub revoke_key : ℕ → KeysDb → String → KeysDb × Answer (Unit {0})
revoke_key now db id = (
  at_key id (revoked_row now) db,
  if any (key_named id) db.keys then accepted tt else denied no_such_row,
)

-- touchKey
abbrev pub touch_key : ℕ → String → KeysDb → KeysDb
touch_key now id = at_key id (λ r. record r { last_used_at = some now })

-- The loop of Authenticate over the candidates.
unfoldable pub first_verified :
    (Text → String → Bool) → ℕ → KeysDb → Text → List KeyRow → KeysDb × Answer Key
first_verified verify now db secret [] = (db, denied bad_key)
first_verified verify now db secret (c ∷ cs) =
    let rest = first_verified verify now db secret cs in
    if not (verify secret c.secret_hash)
    then rest
    else if is_none c.revoked_at
    then (touch_key now c.id db, accepted (scan_key c))
    else (db, denied key_revoked)

-- candidates
abbrev pub candidates : KeysDb → Text → List KeyRow
candidates db prefix = keep (λ r. text_eq r.prefix prefix) db.keys

-- Authenticate
unfoldable pub authenticate : (Text → String → Bool) → ℕ → KeysDb → Text → KeysDb × Answer Key
unfolding first_verified
authenticate verify now db given =
    let secret = trim_space given in
    if not (has_prefix secret key_prefix) || leb (length secret) 9
    then (db, denied bad_key)
    else first_verified verify now db secret
        (candidates db (key_prefix ++ label_of (drop 9 secret)))

-- The first row that Get and AuthenticateLink read.
abbrev pub key_by_id : List KeyRow → String → Option KeyRow
key_by_id [] id = none
key_by_id (r ∷ rs) id = let rest = key_by_id rs id in if key_named id r then some r else rest

abbrev pub token_by_hash : List TokenRow → String → Option TokenRow
token_by_hash [] h = none
token_by_hash (t ∷ ts) h =
    let rest = token_by_hash ts h in if str_eq t.token_hash h then some t else rest

-- CreateLinkToken, under a new id and with the hash of a new secret.
unfoldable pub create_link_token : ℕ → String → String → KeysDb → String → KeysDb × Answer TokenRow
create_link_token now id hash db key_id =
    let row : TokenRow = record {
      id = id;
      api_key_id = key_id;
      token_hash = hash;
      last_used_at = none;
      revoked_at = none;
      created_at = now;
    } in
    if not (any (key_named key_id) db.keys)
    then (db, denied no_such_row)
    else if any (λ t. str_eq t.id id || str_eq t.token_hash hash) db.tokens
    then (db, denied conflicting)
    else (record db { tokens = db.tokens ++ (row ∷ []) }, accepted row)

abbrev pub at_token : String → (TokenRow → TokenRow) → KeysDb → KeysDb
at_token id f db = record db { tokens = map (λ t. if str_eq t.id id then f t else t) db.tokens }

-- RevokeLinkToken
unfoldable pub revoke_link_token : ℕ → KeysDb → String → KeysDb × Answer (Unit {0})
revoke_link_token now db id = (
  at_token id
      (λ t. record t { revoked_at = if is_none t.revoked_at then some now else t.revoked_at }) db,
  if any (λ t. str_eq t.id id) db.tokens then accepted tt else denied no_such_row,
)

-- TouchLinkToken
abbrev pub touch_link_token : ℕ → String → KeysDb → KeysDb
touch_link_token now id = at_token id (λ t. record t { last_used_at = some now })

-- AuthenticateLink once the key of the token is read.
abbrev pub linked_key : TokenRow → Option KeyRow → Answer (TokenRow × Key)
linked_key tok none = denied no_such_row
linked_key tok (some r) =
    if is_none r.revoked_at then accepted (tok, scan_key r) else denied key_revoked

abbrev pub linked : KeysDb → Option TokenRow → Answer (TokenRow × Key)
linked db none = denied bad_key
linked db (some tok) =
    if is_none tok.revoked_at
    then linked_key tok (key_by_id db.keys tok.api_key_id)
    else denied token_revoked

-- AuthenticateLink, which writes nothing.
unfoldable pub authenticate_link : (Text → String) → KeysDb → Text → Answer (TokenRow × Key)
authenticate_link digest db given =
    let secret = trim_space given in
    if is_empty secret then denied bad_key else linked db (token_by_hash db.tokens (digest secret))
