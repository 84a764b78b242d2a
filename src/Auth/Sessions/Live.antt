-- ===== src/Auth/Sessions/Live.antt =====
-- How long a session of auth/session.go stands.
use huawei_api.Base.{
  ℕ, ◌+◌, ◌/◌, ◌≡◌, refl, sym, ap, ◌∙◌, inl, inr, String, Bool, true, false, not, ltb, leb, str_eq,
  str_eq_self, Bool-cases, any, some, List, [], ◌∷◌, ◌++◌, All, arith,
}
use huawei_api.Base.Text.{Text, text_eq, trim_space, is_empty}
use huawei_api.Auth.Sessions.{
  given, Session, AuthDb, user_key, has_id, session_by_id, issue, look_row, look_up, revoke,
  revoke_user, sweep_sessions,
}
use huawei_api.Auth.Sessions.Open.{IsOpen, keep-IsOpen, look_up-IsOpen, issue-IsOpen, revoke-IsOpen}

pub data SessionCall : Type 0 where
  issues : String → Text → Text → SessionCall
  looks_up revokes : Text → SessionCall
  revokes_user : Text → SessionCall
  sweeps : SessionCall

-- The tables after a call at a time.
unfoldable pub sessions_step : (Text → String) → ℕ → AuthDb → ℕ × SessionCall → AuthDb
sessions_step digest ttl db (now, issues id csrf name) = (issue ttl now db id csrf name).0
sessions_step digest ttl db (now, looks_up secret) = (look_up digest now db secret).0
sessions_step digest ttl db (now, revokes secret) = revoke digest db secret
sessions_step digest ttl db (now, revokes_user name) = revoke_user db name
sessions_step digest ttl db (now, sweeps) = (sweep_sessions now db).0

unfoldable pub sessions_run : (Text → String) → ℕ → AuthDb → List (ℕ × SessionCall) → AuthDb
unfolding sessions_step
sessions_run digest ttl db [] = db
sessions_run digest ttl db (c ∷ cs) = sessions_run digest ttl (sessions_step digest ttl db c) cs

-- A call that neither revokes the session nor comes at its end or later.
abbrev pub spares : (Text → String) → String → Text → ℕ → ℕ × SessionCall → Bool
spares digest id name end (now, issues j c n) = true
spares digest id name end (now, looks_up secret) = ltb now end
spares digest id name end (now, revokes secret) = not (str_eq id (digest secret))
spares digest id name end (now, revokes_user n) = not (text_eq name (user_key n))
spares digest id name end (now, sweeps) = ltb now end

module _ (digest : Text → String) (ttl : ℕ) (id : String) (name csrf : Text) (end : ℕ) where
  sessions_step-IsOpen :
      (db : AuthDb) (c : ℕ × SessionCall)
      → IsOpen id name csrf end db
      → spares digest id name end c ≡ true
      → IsOpen id name csrf end (sessions_step digest ttl db c)
  unfolding sessions_step revoke_user sweep_sessions
  sessions_step-IsOpen db (now, issues j c n) here p =
      issue-IsOpen id name csrf end db here ttl now j c n
  sessions_step-IsOpen db (now, looks_up secret) here p =
      look_up-IsOpen id name csrf end db here digest now secret p
  sessions_step-IsOpen db (now, revokes secret) here p =
      revoke-IsOpen id name csrf end db here digest secret (ground arith)
  sessions_step-IsOpen db (now, revokes_user n) here p =
      keep-IsOpen id name csrf end db here (λ s. not (text_eq s.username (user_key n)))
        (ap (λ u. not (text_eq u (user_key n))) here.2 ∙ p)
  sessions_step-IsOpen db (now, sweeps) here p =
      keep-IsOpen id name csrf end db here (λ s. not (leb s.expires_at now))
        (ap (λ e. not (leb e now)) here.4 ∙ ground arith)

  sessions_run-IsOpen :
      (db : AuthDb) (cs : List (ℕ × SessionCall))
      → IsOpen id name csrf end db
      → All (λ c. spares digest id name end c ≡ true) cs
      → IsOpen id name csrf end (sessions_run digest ttl db cs)
  unfolding sessions_run
  sessions_run-IsOpen db [] here p = here
  sessions_run-IsOpen db (c ∷ cs) here p =
      sessions_run-IsOpen (sessions_step digest ttl db c) cs (sessions_step-IsOpen db c here p.0)
        p.1

by_id-fresh :
    (ss : List Session) (s : Session)
    → any (has_id s.id) ss ≡ false
    → session_by_id (ss ++ (s ∷ [])) s.id ≡ some s
by_id-fresh [] s h = rw (str_eq_self s.id) refl
by_id-fresh (o ∷ ss) s h = elim (Bool-cases (has_id s.id o)) [
  | inl e ↦ absurd (ground (arith, h, e))
  | inr e ↦ rw e (by_id-fresh ss s (ground (arith, h, e)))
]

issue_opens :
    (ttl now : ℕ) (db : AuthDb) (id : String) (csrf user : Text) (s : Session)
    → (issue ttl now db id csrf user).1 ≡ given s
    → IsOpen id s.username s.csrf_token s.expires_at (issue ttl now db id csrf user).0
      × (s.username ≡ user_key user)
      × (s.expires_at ≡ now + ttl / 1000000)
unfolding issue
issue_opens ttl now db id csrf user s e = elim (Bool-cases (any (has_id id) db.sessions)) [
  | inl taken ↦ absurd (ground (arith, taken))
  | inr free ↦
      let row : Session = record {
        id = id;
        username = user_key user;
        csrf_token = csrf;
        created_at = now;
        expires_at = now + ttl / 1000000;
        last_seen_at = now;
      } in
      let done : given row ≡ given s = ground (arith, e, free) in
      let same : row ≡ s = cc in
      rw (free, sym same) ((row, by_id-fresh db.sessions row free, refl, refl, refl), refl, refl)
]

look_row_open :
    (now : ℕ) (id : String) (name csrf : Text) (end : ℕ) (db : AuthDb)
    → IsOpen id name csrf end db
    → ltb now end ≡ true
    → (s' : Session) × ((look_row now db id (session_by_id db.sessions id)).1 ≡ given s')
      × (s'.username ≡ name)
      × (s'.csrf_token ≡ csrf)
      × (s'.expires_at ≡ end)
look_row_open now id name csrf end db here soon =
    let good : leb here.0.expires_at now ≡ false = ground (arith, here.4, soon) in
    elim (Bool-cases (ltb (here.0.last_seen_at + 60000) now)) [
      | inl old ↦ (
        record here.0 { last_seen_at = now },
        rw (here.1, good, old) refl,
        here.2,
        here.3,
        here.4,
      )
      | inr fresh ↦ (here.0, rw (here.1, good, fresh) refl, here.2, here.3, here.4)
    ]

-- Until its end the secret of an issued session is answered with the session's user, CSRF token and
-- end, whatever calls come between, if none revokes the session, looks a secret up at its end or later,
-- or sweeps then. The secret is not blank.
pub issued_stands :
    (digest : Text → String) (ttl now later : ℕ) (db : AuthDb) (secret csrf user : Text)
    (s : Session) (cs : List (ℕ × SessionCall))
    → is_empty (trim_space secret) ≡ false
    → (issue ttl now db (digest secret) csrf user).1 ≡ given s
    → All (λ c. spares digest (digest secret) (user_key user) (now + ttl / 1000000) c ≡ true) cs
    → ltb later (now + ttl / 1000000) ≡ true
    → (s' : Session) × ((look_up digest later
          (sessions_run digest ttl (issue ttl now db (digest secret) csrf user).0 cs)
          secret).1
        ≡ given s')
      × (s'.username ≡ user_key user)
      × (s'.csrf_token ≡ s.csrf_token)
      × (s'.expires_at ≡ now + ttl / 1000000)
unfolding look_up
issued_stands digest ttl now later db secret csrf user s cs text e spared soon =
    let made = issue_opens ttl now db (digest secret) csrf user s e in
    let start : IsOpen (digest secret) (user_key user) s.csrf_token (now + ttl / 1000000)
        (issue ttl now db (digest secret) csrf user).0 =
      (made.0.0, made.0.1, made.0.2 ∙ made.1, made.0.3, made.0.4 ∙ made.2) in
    let db' = sessions_run digest ttl (issue ttl now db (digest secret) csrf user).0 cs in
    let after =
      sessions_run-IsOpen digest ttl (digest secret) (user_key user) s.csrf_token
        (now + ttl / 1000000) (issue ttl now db (digest secret) csrf user).0 cs start spared in
    rw text (
      look_row_open later (digest secret) (user_key user) s.csrf_token (now + ttl / 1000000) db'
        after soon)
