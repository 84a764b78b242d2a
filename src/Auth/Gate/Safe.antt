-- ===== src/Auth/Gate/Safe.antt =====
-- Whom RequireSession and RequireKey of auth/middleware.go let through.
use huawei_api.Base.{
  ℕ, ◌+◌, ◌≡◌, sym, ap, ◌∙◌, inl, inr, String, Bool, true, false, not, ◌&&◌, ◌||◌, ltb, leb,
  Bool-cases, length, IsIn, in_front, further, IsIn-keep, Option, none, some, List, [], ◌∷◌, ◌++◌,
  arith,
}
use huawei_api.Base.Text.{Text, text_eq, trim_space, is_empty, has_prefix, drop}
use huawei_api.Auth.Keys.{
  bad_key, key_revoked, token_revoked, invalid_request, no_such_row, conflicting, Answer, accepted,
  denied, KeysDb, KeyRow, Key, is_none, scan_key, key_prefix, label_of, first_verified, candidates,
  has_scope, authenticate,
}
use huawei_api.Auth.Sessions.{
  SessionReply, given, failed, Session, AuthDb, session_by_id, look_row, look_up, check_csrf,
  csrf_required,
}
use huawei_api.Auth.Gate.{
  served, Incoming, gate_session, require_session, bearer_token, within_rate, gate_key, require_key,
}

unexpired :
    (now : ℕ) (r s : Session) → r ≡ s → leb r.expires_at now ≡ false → ltb now s.expires_at ≡ true
unexpired now r s e h =
    let ends : r.expires_at ≡ s.expires_at = ap (λ x. x.expires_at) e in ground (arith, ends, h)

look_row_live :
    (now : ℕ) (db : AuthDb) (id : String) (o : Option Session) (s : Session)
    → (look_row now db id o).1 ≡ given s
    → ltb now s.expires_at ≡ true
look_row_live now db id none s e = absurd (cc)
look_row_live now db id (some r) s e = elim (Bool-cases (leb r.expires_at now)) [
  | inl late ↦ absurd (ground (arith, e, late))
  | inr good ↦ elim (Bool-cases (ltb (r.last_seen_at + 60000) now)) [
    | inl old ↦
        let done : given (record r { last_seen_at = now }) ≡ given s =
          ground (arith, e, good, old) in
        unexpired now (record r { last_seen_at = now }) s (cc) good
    | inr fresh ↦
        let done : given r ≡ given s = ground (arith, e, good, fresh) in unexpired now r s (cc) good
  ]
]

look_up_live :
    (digest : Text → String) (now : ℕ) (db : AuthDb) (secret : Text) (s : Session)
    → (look_up digest now db secret).1 ≡ given s
    → ltb now s.expires_at ≡ true
unfolding look_up
look_up_live digest now db secret s e = elim (Bool-cases (is_empty (trim_space secret))) [
  | inl blank ↦ absurd (ground (arith, e, blank))
  | inr text ↦
      look_row_live now db (digest secret) (session_by_id db.sessions (digest secret)) s
        (ground (arith, e, text))
]

gate_session_safe :
    (exempt : Bool) (req : Incoming) (a : SessionReply Session) (s : Session)
    → gate_session exempt req a ≡ served s
    → (a ≡ given s)
      × (not (csrf_required req.method) || exempt || check_csrf s req.csrf_header ≡ true)
gate_session_safe exempt req (failed why) s e = absurd (cc)
gate_session_safe exempt req (given r) s e =
    elim (Bool-cases
      (csrf_required req.method && not exempt && not (check_csrf r req.csrf_header))) [
        | inl bad ↦ absurd (ground (arith, e, bad))
        | inr good ↦
            let done : served r ≡ served s = ground (arith, e, good) in
            let same : r ≡ s = cc in
            let pass : not (csrf_required req.method) || exempt || check_csrf r req.csrf_header
                ≡ true =
              ground (arith, good) in
            (
              ap given same,
              ap (λ x. not (csrf_required req.method) || exempt || check_csrf x req.csrf_header)
                    (sym same)
                  ∙ pass,
            )
      ]

-- RequireSession lets a request through only with a session that Lookup gives for its cookie and that
-- has not come to its end, and with that session's CSRF token if the method needs one and the request
-- is not exempt.
pub require_session_safe :
    (digest : Text → String) (now : ℕ) (db : AuthDb) (exempt : Bool) (req : Incoming) (s : Session)
    → (require_session digest now db exempt req).1 ≡ served s
    → ((look_up digest now db req.cookie).1 ≡ given s)
      × (ltb now s.expires_at ≡ true)
      × (not (csrf_required req.method) || exempt || check_csrf s req.csrf_header ≡ true)
unfolding require_session
require_session_safe digest now db exempt req s e =
    let found = gate_session_safe exempt req (look_up digest now db req.cookie).1 s e in
    (found.0, look_up_live digest now db req.cookie s found.0, found.1)

gate_key_safe :
    (limiter : Option (String → Bool)) (scope : Text) (a : Answer Key) (k : Key)
    → gate_key limiter scope a ≡ served k
    → (a ≡ accepted k)
      × (within_rate limiter k ≡ true)
      × (is_empty scope || has_scope k scope ≡ true)
gate_key_safe limiter scope (denied bad_key) k e = absurd (cc)
gate_key_safe limiter scope (denied key_revoked) k e = absurd (cc)
gate_key_safe limiter scope (denied token_revoked) k e = absurd (cc)
gate_key_safe limiter scope (denied invalid_request) k e = absurd (cc)
gate_key_safe limiter scope (denied no_such_row) k e = absurd (cc)
gate_key_safe limiter scope (denied conflicting) k e = absurd (cc)
gate_key_safe limiter scope (accepted r) k e = elim (Bool-cases (within_rate limiter r)) [
  | inr over ↦ absurd (ground (arith, e, over))
  | inl within ↦ elim (Bool-cases (not (is_empty scope) && not (has_scope r scope))) [
    | inl bad ↦ absurd (ground (arith, e, within, bad))
    | inr good ↦
        let done : served r ≡ served k = ground (arith, e, within, good) in
        let same : r ≡ k = cc in
        let scoped : is_empty scope || has_scope r scope ≡ true = ground (arith, good) in
        (
          ap accepted same,
          ap (within_rate limiter) (sym same) ∙ within,
          ap (λ x. is_empty scope || has_scope x scope) (sym same) ∙ scoped,
        )
  ]
]

first_verified_row :
    (verify : Text → String → Bool) (now : ℕ) (db : KeysDb) (secret : Text) (cs : List KeyRow)
    (k : Key)
    → (first_verified verify now db secret cs).1 ≡ accepted k
    → (row : KeyRow) × IsIn row cs
      × (verify secret row.secret_hash ≡ true)
      × (is_none row.revoked_at ≡ true)
      × (scan_key row ≡ k)
unfolding first_verified
first_verified_row verify now db secret [] k e = absurd (cc)
first_verified_row verify now db secret (c ∷ cs) k e =
    elim (Bool-cases (verify secret c.secret_hash)) [
      | inr unfit ↦
          let found = first_verified_row verify now db secret cs k (ground (arith, e, unfit)) in
          (found.0, further found.1, found.2, found.3, found.4)
      | inl fits ↦ elim (Bool-cases (is_none c.revoked_at)) [
        | inr gone ↦ absurd (ground (arith, e, fits, gone))
        | inl live ↦
            let done : accepted (scan_key c) ≡ accepted k = ground (arith, e, fits, live) in
            (c, in_front, fits, live, cc)
      ]
    ]

authenticate_row :
    (verify : Text → String → Bool) (now : ℕ) (db : KeysDb) (token : Text) (k : Key)
    → (authenticate verify now db token).1 ≡ accepted k
    → (row : KeyRow) × IsIn row db.keys
      × (verify (trim_space token) row.secret_hash ≡ true)
      × (is_none row.revoked_at ≡ true)
      × (scan_key row ≡ k)
unfolding authenticate
authenticate_row verify now db token k e =
    let secret = trim_space token in
    let prefix = key_prefix ++ label_of (drop 9 secret) in
    elim (Bool-cases (not (has_prefix secret key_prefix) || leb (length secret) 9)) [
      | inl bad ↦ absurd (ground (arith, bad))
      | inr good ↦
          let found =
            first_verified_row verify now db secret (candidates db prefix) k
              (ground (arith, good)) in
          (
            found.0,
            IsIn-keep (λ r. text_eq r.prefix prefix) found.0 db.keys found.1,
            found.2,
            found.3,
            found.4,
          )
    ]

-- RequireKey lets a request through only with a key that stands in the table, whose stored hash the
-- bearer token of the request fits, which has not been revoked, which is within its rate where there is
-- a Limiter, and which has the scope that is asked for.
pub require_key_safe :
    (verify : Text → String → Bool) (now : ℕ) (db : KeysDb) (limiter : Option (String → Bool))
    (scope : Text) (req : Incoming) (k : Key)
    → (require_key verify now db limiter scope req).1 ≡ served k
    → (row : KeyRow) × IsIn row db.keys
      × (verify (trim_space (bearer_token req.authorization)) row.secret_hash ≡ true)
      × (is_none row.revoked_at ≡ true)
      × (scan_key row ≡ k)
      × (within_rate limiter k ≡ true)
      × (is_empty scope || has_scope k scope ≡ true)
unfolding require_key
require_key_safe verify now db limiter scope req k e =
    let token = bearer_token req.authorization in
    elim (Bool-cases (is_empty token)) [
      | inl none_sent ↦ absurd (ground (arith, e, none_sent))
      | inr sent ↦
          let safe =
            gate_key_safe limiter scope (authenticate verify now db token).1 k
              (ground (arith, e, sent)) in
          let found = authenticate_row verify now db token k safe.0 in
          (found.0, found.1, found.2, found.3, found.4, safe.1, safe.2)
    ]
