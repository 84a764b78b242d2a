-- ===== src/Auth/Keys/Revoked.antt =====
-- A key of auth/apikey.go that has been revoked.
use huawei_api.Base.{
  ℕ, ◌≡◌, refl, ◌⊎◌, inl, inr, String, Bool, true, false, not, ◌&&◌, ◌||◌, leb, str_eq, str_eq→≡,
  if◌then◌else◌, Bool-cases, length, any, any-keep, map, Option, none, some, List, [], ◌∷◌, ◌++◌,
  arith,
}
use huawei_api.Base.Text.{Text, text_eq, trim_space, is_empty, has_prefix, drop}
use huawei_api.Auth.Keys.{
  Answer, accepted, denied, KeyRow, TokenRow, KeysDb, Key, is_none, scan_key, key_prefix, label_of,
  NewKey, Fresh, collect_scopes, key_named, new_row, create_with, on_scopes, create_key, at_key,
  revoked_row, revoke_key, first_verified, candidates, authenticate, key_by_id, token_by_hash,
  create_link_token, revoke_link_token, touch_link_token, linked_key, linked, authenticate_link,
}

pub data KeyCall : Type 0 where
  creates : Fresh → NewKey → KeyCall
  revokes : String → KeyCall
  authenticates : Text → KeyCall
  creates_link : String → String → String → KeyCall
  revokes_link : String → KeyCall
  touches_link : String → KeyCall

-- The tables after a call at a time.
unfoldable pub keys_step : (Text → String → Bool) → KeysDb → ℕ × KeyCall → KeysDb
keys_step verify db (now, creates fresh req) = (create_key now fresh db req).0
keys_step verify db (now, revokes id) = (revoke_key now db id).0
keys_step verify db (now, authenticates secret) = (authenticate verify now db secret).0
keys_step verify db (now, creates_link id hash key_id) = (create_link_token now id hash db key_id).0
keys_step verify db (now, revokes_link id) = (revoke_link_token now db id).0
keys_step verify db (now, touches_link id) = touch_link_token now id db

unfoldable pub keys_run : (Text → String → Bool) → KeysDb → List (ℕ × KeyCall) → KeysDb
unfolding keys_step
keys_run verify db [] = db
keys_run verify db (c ∷ cs) = keys_run verify (keys_step verify db c) cs

abbrev open_key : String → KeyRow → Bool
open_key id r = key_named id r && is_none r.revoked_at

-- The key is there, and revoked.
abbrev IsShut : String → List KeyRow → Type 0
IsShut id rows = (any (key_named id) rows ≡ true) × (any (open_key id) rows ≡ false)

-- A change that keeps the id and lifts no revocation.
abbrev Keeps : (KeyRow → KeyRow) → Type 0
Keeps f =
    (r : KeyRow)
    → ((f r).id ≡ r.id) × (is_none (f r).revoked_at ≡ true → is_none r.revoked_at ≡ true)

any_named-map :
    (id j : String) (f : KeyRow → KeyRow) (rows : List KeyRow)
    → Keeps f
    → any (key_named id) (map (λ r. if key_named j r then f r else r) rows)
      ≡ any (key_named id) rows
any_named-map id j f [] k = refl
any_named-map id j f (r ∷ rows) k = ground (arith, (k r).0, any_named-map id j f rows k)

any_open-map :
    (id j : String) (f : KeyRow → KeyRow) (rows : List KeyRow)
    → Keeps f
    → any (open_key id) rows ≡ false
    → any (open_key id) (map (λ r. if key_named j r then f r else r) rows) ≡ false
any_open-map id j f [] k h = refl
any_open-map id j f (r ∷ rows) k h = ground (arith, (k r).0, (k r).1, any_open-map id j f rows k)

at_key-IsShut :
    (id j : String) (f : KeyRow → KeyRow) (db : KeysDb)
    → Keeps f
    → IsShut id db.keys
    → IsShut id (at_key j f db).keys
at_key-IsShut id j f db k h =
    (rw (any_named-map id j f db.keys k) h.0, any_open-map id j f db.keys k h.1)

any-concat {ℓ} :
    {A : Type ℓ} (p : A → Bool) (xs : List A) (x : A) → any p (xs ++ (x ∷ [])) ≡ any p xs || p x
any-concat p [] x = ground arith
any-concat p (y ∷ xs) x = ground (arith, any-concat p xs x)

other_id :
    (id j : String) (rows : List KeyRow)
    → any (key_named id) rows ≡ true
    → any (key_named j) rows ≡ false
    → str_eq j id ≡ false
other_id id j [] h n = absurd (cc)
other_id id j (r ∷ rows) h n = ground (arith, other_id id j rows, str_eq→≡ j id, str_eq→≡ r.id id)

create_with-IsShut :
    (id : String) (now : ℕ) (fresh : Fresh) (db : KeysDb) (req : NewKey) (scopes : List Text)
    → IsShut id db.keys
    → IsShut id (create_with now fresh db req scopes).0.keys
unfolding create_with
create_with-IsShut id now fresh db req scopes h = elim (Bool-cases (is_empty scopes)) [
  | inl e ↦ rw e h
  | inr e ↦ elim (Bool-cases (any (key_named fresh.id) db.keys)) [
    | inl taken ↦ rw (e, taken) h
    | inr new ↦
        let row = new_row now fresh req scopes in
        let apart = other_id id fresh.id db.keys h.0 new in
        rw (e, new)
          (
            ground (arith, any-concat (key_named id) db.keys row),
            ground (arith, any-concat (open_key id) db.keys row, apart),
          )
  ]
]

create_key-IsShut :
    (id : String) (now : ℕ) (fresh : Fresh) (db : KeysDb) (req : NewKey)
    → IsShut id db.keys
    → IsShut id (create_key now fresh db req).0.keys
unfolding create_key
create_key-IsShut id now fresh db req h = elim (Bool-cases (is_empty (trim_space req.name))) [
  | inl blank ↦ rw blank h
  | inr named ↦ rw named (go (collect_scopes [] req.scopes))
]
  where
    go : (m : Answer (List Text)) → IsShut id (on_scopes db (create_with now fresh db req) m).0.keys
    go (accepted scopes) = create_with-IsShut id now fresh db req scopes h
    go (denied why) = h

first_verified-IsShut :
    (id : String) (verify : Text → String → Bool) (now : ℕ) (db : KeysDb) (secret : Text)
    (cs : List KeyRow)
    → IsShut id db.keys
    → IsShut id (first_verified verify now db secret cs).0.keys
unfolding first_verified
first_verified-IsShut id verify now db secret [] h = h
first_verified-IsShut id verify now db secret (c ∷ cs) h =
    elim (Bool-cases (verify secret c.secret_hash)) [
      | inr e ↦ rw e (first_verified-IsShut id verify now db secret cs h)
      | inl e ↦ elim (Bool-cases (is_none c.revoked_at)) [
        | inl live ↦
            rw (e, live)
              (at_key-IsShut id c.id (λ r. record r { last_used_at = some now }) db
                (λ r. (refl, λ q. q)) h)
        | inr gone ↦ rw (e, gone) h
      ]
    ]

authenticate-IsShut :
    (id : String) (verify : Text → String → Bool) (now : ℕ) (db : KeysDb) (secret : Text)
    → IsShut id db.keys
    → IsShut id (authenticate verify now db secret).0.keys
unfolding authenticate
authenticate-IsShut id verify now db given h =
    let secret = trim_space given in
    elim (Bool-cases (not (has_prefix secret key_prefix) || leb (length secret) 9)) [
      | inl bad ↦ rw bad h
      | inr good ↦ rw good (first_verified-IsShut id verify now db secret _ h)
    ]

keys-create_link_token :
    (now : ℕ) (id hash : String) (db : KeysDb) (key_id : String)
    → (create_link_token now id hash db key_id).0.keys ≡ db.keys
unfolding create_link_token
keys-create_link_token now id hash db key_id = ground arith

keys_step-IsShut :
    (id : String) (verify : Text → String → Bool) (db : KeysDb) (c : ℕ × KeyCall)
    → IsShut id db.keys
    → IsShut id (keys_step verify db c).keys
unfolding keys_step revoke_key revoke_link_token
keys_step-IsShut id verify db (now, creates fresh req) h = create_key-IsShut id now fresh db req h
keys_step-IsShut id verify db (now, revokes j) h =
    at_key-IsShut id j (revoked_row now) db (λ r. (refl, ground arith)) h
keys_step-IsShut id verify db (now, authenticates secret) h =
    authenticate-IsShut id verify now db secret h
keys_step-IsShut id verify db (now, creates_link j hash key_id) h =
    rw (keys-create_link_token now j hash db key_id) h
keys_step-IsShut id verify db (now, revokes_link j) h = h
keys_step-IsShut id verify db (now, touches_link j) h = h

keys_run-IsShut :
    (id : String) (verify : Text → String → Bool) (db : KeysDb) (cs : List (ℕ × KeyCall))
    → IsShut id db.keys
    → IsShut id (keys_run verify db cs).keys
unfolding keys_run
keys_run-IsShut id verify db [] h = h
keys_run-IsShut id verify db (c ∷ cs) h =
    keys_run-IsShut id verify (keys_step verify db c) cs (keys_step-IsShut id verify db c h)

first_verified_open :
    (verify : Text → String → Bool) (now : ℕ) (db : KeysDb) (secret : Text) (cs : List KeyRow)
    (id : String) (k : Key)
    → any (open_key id) cs ≡ false
    → (first_verified verify now db secret cs).1 ≡ accepted k
    → str_eq k.id id ≡ false
unfolding first_verified scan_key
first_verified_open verify now db secret [] id k h e = absurd (cc)
first_verified_open verify now db secret (c ∷ cs) id k h e =
    ground (arith, first_verified_open verify now db secret cs id k)

key_by_id_open :
    (rows : List KeyRow) (id j : String) (r : KeyRow)
    → any (open_key id) rows ≡ false
    → key_by_id rows j ≡ some r
    → is_none r.revoked_at ≡ true
    → str_eq r.id id ≡ false
key_by_id_open [] id j r h e l = absurd (cc)
key_by_id_open (x ∷ rows) id j r h e l = ground (arith, key_by_id_open rows id j r)

linked_key_open :
    (rows : List KeyRow) (tok : TokenRow) (m : Option KeyRow) (id : String) (t : TokenRow) (k : Key)
    → any (open_key id) rows ≡ false
    → key_by_id rows tok.api_key_id ≡ m
    → linked_key tok m ≡ accepted (t, k)
    → str_eq k.id id ≡ false
unfolding scan_key
linked_key_open rows tok none id t k h f e = absurd (cc)
linked_key_open rows tok (some r) id t k h f e =
    ground (arith, key_by_id_open rows id tok.api_key_id r h f)

linked_open :
    (db : KeysDb) (m : Option TokenRow) (id : String) (t : TokenRow) (k : Key)
    → any (open_key id) db.keys ≡ false
    → linked db m ≡ accepted (t, k)
    → str_eq k.id id ≡ false
linked_open db none id t k h e = absurd (cc)
linked_open db (some tok) id t k h e = elim (Bool-cases (is_none tok.revoked_at)) [
  | inl live ↦
      linked_key_open db.keys tok (key_by_id db.keys tok.api_key_id) id t k h refl
        (ground (arith, live))
  | inr gone ↦ absurd (ground (arith, gone))
]

module _ (verify : Text → String → Bool) (digest : Text → String) (now : ℕ) (db : KeysDb)
    (id : String) (cs : List (ℕ × KeyCall)) where
  revoked-IsShut :
      any (key_named id) db.keys ≡ true
      → IsShut id (keys_run verify (revoke_key now db id).0 cs).keys
  unfolding revoke_key
  revoked-IsShut here = keys_run-IsShut id verify (at_key id (revoked_row now) db) cs (
    rw (any_named-map id id (revoked_row now) db.keys (λ r. (refl, ground arith))) here,
    all_shut db.keys,
  )
    where
      all_shut :
          (rows : List KeyRow)
          → any (open_key id) (map (λ r. if key_named id r then revoked_row now r else r) rows)
            ≡ false
      all_shut [] = refl
      all_shut (r ∷ rows) = ground (arith, all_shut rows)

  -- Once a key has been revoked, no secret is accepted as that key, and no link token is accepted for
  -- it, whatever calls come after.
  pub revoked_shuts_out :
      any (key_named id) db.keys ≡ true
      → (later : ℕ) (secret : Text) (k : Key)
      → ((authenticate verify later (keys_run verify (revoke_key now db id).0 cs) secret).1
          ≡ accepted k)
        ⊎ ((tok : TokenRow) × (authenticate_link digest
                (keys_run verify (revoke_key now db id).0 cs)
                secret
              ≡ accepted (tok, k)))
      → str_eq k.id id ≡ false
  unfolding authenticate
  revoked_shuts_out here later given k (inl e) =
      let db' = keys_run verify (revoke_key now db id).0 cs in
      let secret = trim_space given in
      let prefix = key_prefix ++ label_of (drop 9 secret) in
      elim (Bool-cases (not (has_prefix secret key_prefix) || leb (length secret) 9)) [
        | inl bad ↦ absurd (ground (arith, bad))
        | inr good ↦
            first_verified_open verify later db' secret (candidates db' prefix) id k
              (any-keep (open_key id) (λ r. text_eq r.prefix prefix) db'.keys
                (revoked-IsShut here).1)
              (ground (arith, good))
      ]
  revoked_shuts_out here later given k (inr (tok, e)) =
      let db' = keys_run verify (revoke_key now db id).0 cs in
      unfold authenticate_link in
      elim (Bool-cases (is_empty (trim_space given))) [
        | inl bad ↦ absurd (ground (arith, bad))
        | inr good ↦
            linked_open db' (token_by_hash db'.tokens (digest (trim_space given))) id tok k
              (revoked-IsShut here).1 (ground (arith, good))
      ]
