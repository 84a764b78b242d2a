-- ===== src/Auth/Sessions/Ended.antt =====
-- A session of auth/session.go that has been revoked.
use huawei_api.Base.{
  ℕ, ◌+◌, ◌≡◌, refl, ap, inl, inr, String, Bool, true, false, not, ltb, leb, str_eq, Bool-cases,
  any, any-keep, Option, none, some, List, [], ◌∷◌, ◌++◌, All, arith,
}
use huawei_api.Base.Text.{Text, text_eq, trim_space, is_empty}
use huawei_api.Auth.Sessions.{
  failed, no_session, Session, AuthDb, user_key, has_id, session_by_id, issue, without_id, seen_now,
  look_row, look_up, revoke, revoke_user, sweep_sessions,
}
use huawei_api.Auth.Sessions.Live.{
  SessionCall, issues, looks_up, revokes, revokes_user, sweeps, sessions_step, sessions_run,
}

any-seen :
    (now : ℕ) (j id : String) (ss : List Session)
    → any (has_id id) ss ≡ false
    → any (has_id id) (seen_now now j ss) ≡ false
any-seen now j id [] h = refl
any-seen now j id (s ∷ ss) h = ground (arith, any-seen now j id ss)

any-issued :
    (ss : List Session) (id : String) (s : Session)
    → any (has_id id) ss ≡ false
    → str_eq s.id id ≡ false
    → any (has_id id) (ss ++ (s ∷ [])) ≡ false
any-issued [] id s h o = ground (arith, o)
any-issued (r ∷ ss) id s h o = ground (arith, any-issued ss id s)

any-without : (ss : List Session) (id : String) → any (has_id id) (without_id id ss) ≡ false
any-without [] id = refl
any-without (s ∷ ss) id = ground (arith, any-without ss id)

absent_by_id :
    (ss : List Session) (id : String) → any (has_id id) ss ≡ false → session_by_id ss id ≡ none
absent_by_id [] id h = refl
absent_by_id (s ∷ ss) id h = ground (arith, absent_by_id ss id)

-- The call does not issue the id.
abbrev pub issues_other : String → ℕ × SessionCall → Bool
issues_other id (now, issues j csrf name) = not (str_eq j id)
issues_other id (now, looks_up secret) = true
issues_other id (now, revokes secret) = true
issues_other id (now, revokes_user name) = true
issues_other id (now, sweeps) = true

module _ (digest : Text → String) (ttl : ℕ) (id : String) where
  look_row_absent :
      (now : ℕ) (db : AuthDb) (j : String) (o : Option Session)
      → any (has_id id) db.sessions ≡ false
      → any (has_id id) (look_row now db j o).0.sessions ≡ false
  look_row_absent now db j none h = h
  look_row_absent now db j (some s) h = elim (Bool-cases (leb s.expires_at now)) [
    | inl late ↦ rw late (any-keep (has_id id) (λ r. not (has_id j r)) db.sessions h)
    | inr good ↦ elim (Bool-cases (ltb (s.last_seen_at + 60000) now)) [
      | inl old ↦ rw (good, old) (any-seen now j id db.sessions h)
      | inr fresh ↦ rw (good, fresh) h
    ]
  ]

  issue_absent :
      (now : ℕ) (db : AuthDb) (j : String) (csrf name : Text)
      → any (has_id id) db.sessions ≡ false
      → str_eq j id ≡ false
      → any (has_id id) (issue ttl now db j csrf name).0.sessions ≡ false
  unfolding issue
  issue_absent now db j csrf name h o = elim (Bool-cases (any (has_id j) db.sessions)) [
    | inl taken ↦ rw taken h
    | inr free ↦ rw free (any-issued db.sessions id _ h o)
  ]

  look_up_absent :
      (now : ℕ) (db : AuthDb) (secret : Text)
      → any (has_id id) db.sessions ≡ false
      → any (has_id id) (look_up digest now db secret).0.sessions ≡ false
  unfolding look_up
  look_up_absent now db secret h = elim (Bool-cases (is_empty (trim_space secret))) [
    | inl blank ↦ rw blank h
    | inr text ↦
        rw text
          (look_row_absent now db (digest secret) (session_by_id db.sessions (digest secret)) h)
  ]

  revoke_absent :
      (db : AuthDb) (secret : Text)
      → any (has_id id) db.sessions ≡ false
      → any (has_id id) (revoke digest db secret).sessions ≡ false
  unfolding revoke
  revoke_absent db secret h = elim (Bool-cases (is_empty (trim_space secret))) [
    | inl blank ↦ rw blank h
    | inr text ↦ rw text (any-keep (has_id id) (λ s. not (has_id (digest secret) s)) db.sessions h)
  ]

  sessions_step_absent :
      (db : AuthDb) (c : ℕ × SessionCall)
      → any (has_id id) db.sessions ≡ false
      → issues_other id c ≡ true
      → any (has_id id) (sessions_step digest ttl db c).sessions ≡ false
  unfolding sessions_step revoke_user sweep_sessions
  sessions_step_absent db (now, issues j csrf name) h p =
      issue_absent now db j csrf name h (ground arith)
  sessions_step_absent db (now, looks_up secret) h p = look_up_absent now db secret h
  sessions_step_absent db (now, revokes secret) h p = revoke_absent db secret h
  sessions_step_absent db (now, revokes_user name) h p =
      any-keep (has_id id) (λ s. not (text_eq s.username (user_key name))) db.sessions h
  sessions_step_absent db (now, sweeps) h p =
      any-keep (has_id id) (λ s. not (leb s.expires_at now)) db.sessions h

  sessions_run_absent :
      (db : AuthDb) (cs : List (ℕ × SessionCall))
      → any (has_id id) db.sessions ≡ false
      → All (λ c. issues_other id c ≡ true) cs
      → any (has_id id) (sessions_run digest ttl db cs).sessions ≡ false
  unfolding sessions_run
  sessions_run_absent db [] h p = h
  sessions_run_absent db (c ∷ cs) h p =
      sessions_run_absent (sessions_step digest ttl db c) cs (sessions_step_absent db c h p.0) p.1

-- Once the secret of a session has been revoked, a lookup of it finds no session, whatever calls come
-- between, if none issues a session under the same digest.
pub revoked_stays_out :
    (digest : Text → String) (ttl later : ℕ) (db : AuthDb) (secret : Text)
    (cs : List (ℕ × SessionCall))
    → All (λ c. issues_other (digest secret) c ≡ true) cs
    → (look_up digest later (sessions_run digest ttl (revoke digest db secret) cs) secret).1
      ≡ failed no_session
unfolding look_up revoke
revoked_stays_out digest ttl later db secret cs other =
    elim (Bool-cases (is_empty (trim_space secret))) [
      | inl blank ↦ rw blank refl
      | inr text ↦
          let db' = record db { sessions = without_id (digest secret) db.sessions } in
          let gone =
            sessions_run_absent digest ttl (digest secret) db' cs
              (any-without db.sessions (digest secret)) other in
          rw text (
            ap (λ o. (look_row later (sessions_run digest ttl db' cs) (digest secret) o).1)
              (absent_by_id (sessions_run digest ttl db' cs).sessions (digest secret) gone))
    ]
