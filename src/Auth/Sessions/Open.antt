-- ===== src/Auth/Sessions/Open.antt =====
-- A session that stands in the table of auth/session.go, and the calls that leave it there.
use huawei_api.Base.{
  ℕ, ◌+◌, ◌≡◌, refl, sym, ap, ◌∙◌, inl, inr, String, Bool, true, false, not, ltb, leb, str_eq,
  str_eq→≡, if◌then◌else◌, Bool-cases, keep, any, Option, none, some, List, [], ◌∷◌, ◌++◌, arith,
}
use huawei_api.Base.Text.{Text, trim_space, is_empty}
use huawei_api.Auth.Sessions.{
  Session, AuthDb, has_id, session_by_id, issue, seen_now, look_row, look_up, revoke,
}

by_id-append :
    (ss ts : List Session) (id : String) (s : Session)
    → session_by_id ss id ≡ some s
    → session_by_id (ss ++ ts) id ≡ some s
by_id-append [] ts id s h = absurd (cc)
by_id-append (o ∷ ss) ts id s h = elim (Bool-cases (has_id id o)) [
  | inl e ↦ rw e (ground (arith, h, e))
  | inr e ↦ rw e (by_id-append ss ts id s (ground (arith, h, e)))
]

by_id-keep :
    (p : Session → Bool) (ss : List Session) (id : String) (s : Session)
    → session_by_id ss id ≡ some s
    → p s ≡ true
    → session_by_id (keep p ss) id ≡ some s
by_id-keep p [] id s h k = absurd (cc)
by_id-keep p (o ∷ ss) id s h k = elim (Bool-cases (has_id id o)) [
  | inl e ↦ let same : o ≡ s = ground (arith, h, e) in rw (ap p same ∙ k, e) (ap some same)
  | inr e ↦ elim (Bool-cases (p o)) [
    | inl q ↦ rw (q, e) (by_id-keep p ss id s (ground (arith, h, e)) k)
    | inr q ↦ rw q (by_id-keep p ss id s (ground (arith, h, e)) k)
  ]
]

by_id_has :
    (ss : List Session) (id : String) (s : Session)
    → session_by_id ss id ≡ some s
    → has_id id s ≡ true
by_id_has [] id s h = absurd (cc)
by_id_has (o ∷ ss) id s h = elim (Bool-cases (has_id id o)) [
  | inl e ↦ let same : o ≡ s = ground (arith, h, e) in ap (has_id id) (sym same) ∙ e
  | inr e ↦ by_id_has ss id s (ground (arith, h, e))
]

after_seen : ℕ → String → Session → Session
after_seen now j s = if has_id j s then record s { last_seen_at = now } else s

by_id-seen :
    (now : ℕ) (j : String) (ss : List Session) (id : String) (s : Session)
    → session_by_id ss id ≡ some s
    → session_by_id (seen_now now j ss) id ≡ some (after_seen now j s)
unfolding after_seen
by_id-seen now j [] id s h = absurd (cc)
by_id-seen now j (o ∷ ss) id s h = elim (Bool-cases (has_id id o)) [
  | inl e ↦
      let same : o ≡ s = ground (arith, h, e) in
      elim (Bool-cases (has_id j o)) [
        | inl q ↦ rw (sym same, q, e) refl
        | inr q ↦ rw (sym same, q, e) refl
      ]
  | inr e ↦
      let rest = by_id-seen now j ss id s (ground (arith, h, e)) in
      elim (Bool-cases (has_id j o)) [ inl q ↦ rw (q, e) rest | inr q ↦ rw (q, e) rest ]
]

-- The session of an id stands in the table, with its user, its CSRF token and its end.
abbrev pub IsOpen : String → Text → Text → ℕ → AuthDb → Type 0
IsOpen id name csrf end db =
    (s : Session) × (session_by_id db.sessions id ≡ some s)
    × (s.username ≡ name)
    × (s.csrf_token ≡ csrf)
    × (s.expires_at ≡ end)

module _ (id : String) (name csrf : Text) (end : ℕ) (db : AuthDb)
    (here : IsOpen id name csrf end db) where
  pub keep-IsOpen :
      (p : Session → Bool)
      → p here.0 ≡ true
      → IsOpen id name csrf end (record db { sessions = keep p db.sessions })
  keep-IsOpen p k = (here.0, by_id-keep p db.sessions id here.0 here.1 k, here.2, here.3, here.4)

  the_id : here.0.id ≡ id
  the_id = str_eq→≡ here.0.id id (by_id_has db.sessions id here.0 here.1)

  other_id : (j : String) → str_eq id j ≡ false → not (has_id j here.0) ≡ true
  other_id j e = ap (λ i. not (str_eq i j)) the_id ∙ ap not e

  seen-IsOpen :
      (now : ℕ) (j : String)
      → IsOpen id name csrf end (record db { sessions = seen_now now j db.sessions })
  unfolding after_seen
  seen-IsOpen now j = elim (Bool-cases (has_id j here.0)) [
    | inl q ↦ (
      record here.0 { last_seen_at = now },
      by_id-seen now j db.sessions id here.0 here.1
          ∙ ap (λ b. some (if b then record here.0 { last_seen_at = now } else here.0)) q,
      here.2,
      here.3,
      here.4,
    )
    | inr q ↦ (
      here.0,
      by_id-seen now j db.sessions id here.0 here.1
          ∙ ap (λ b. some (if b then record here.0 { last_seen_at = now } else here.0)) q,
      here.2,
      here.3,
      here.4,
    )
  ]

  expired_other :
      (now : ℕ) (j : String) (s : Session)
      → session_by_id db.sessions j ≡ some s
      → ltb now end ≡ true
      → leb s.expires_at now ≡ true
      → str_eq id j ≡ false
  expired_other now j s e soon late = elim (Bool-cases (str_eq id j)) [
    | inl same ↦
        let found : some here.0 ≡ some s =
          sym here.1 ∙ ap (session_by_id db.sessions) (str_eq→≡ id j same) ∙ e in
        let row : here.0 ≡ s = cc in
        let ends : s.expires_at ≡ end = ap (λ r. r.expires_at) (sym row) ∙ here.4 in
        absurd (ground (arith, soon, late, ends))
    | inr other ↦ other
  ]

  look_row-IsOpen :
      (now : ℕ) (j : String) (o : Option Session)
      → session_by_id db.sessions j ≡ o
      → ltb now end ≡ true
      → IsOpen id name csrf end (look_row now db j o).0
  look_row-IsOpen now j none e soon = here
  look_row-IsOpen now j (some s) e soon = elim (Bool-cases (leb s.expires_at now)) [
    | inl late ↦
        rw late
          (keep-IsOpen (λ r. not (has_id j r)) (other_id j (expired_other now j s e soon late)))
    | inr good ↦ elim (Bool-cases (ltb (s.last_seen_at + 60000) now)) [
      | inl old ↦ rw (good, old) (seen-IsOpen now j)
      | inr fresh ↦ rw (good, fresh) here
    ]
  ]

  pub look_up-IsOpen :
      (digest : Text → String) (now : ℕ) (secret : Text)
      → ltb now end ≡ true
      → IsOpen id name csrf end (look_up digest now db secret).0
  unfolding look_up
  look_up-IsOpen digest now secret soon = elim (Bool-cases (is_empty (trim_space secret))) [
    | inl blank ↦ rw blank here
    | inr text ↦
        rw text (
          look_row-IsOpen now (digest secret) (session_by_id db.sessions (digest secret)) refl soon)
  ]

  pub issue-IsOpen :
      (ttl now : ℕ) (j : String) (c n : Text) → IsOpen id name csrf end (issue ttl now db j c n).0
  unfolding issue
  issue-IsOpen ttl now j c n = elim (Bool-cases (any (has_id j) db.sessions)) [
    | inl taken ↦ rw taken here
    | inr free ↦
        rw free (here.0, by_id-append db.sessions _ id here.0 here.1, here.2, here.3, here.4)
  ]

  pub revoke-IsOpen :
      (digest : Text → String) (secret : Text)
      → str_eq id (digest secret) ≡ false
      → IsOpen id name csrf end (revoke digest db secret)
  unfolding revoke
  revoke-IsOpen digest secret other = elim (Bool-cases (is_empty (trim_space secret))) [
    | inl blank ↦ rw blank here
    | inr text ↦
        rw text (keep-IsOpen (λ r. not (has_id (digest secret) r)) (other_id (digest secret) other))
  ]
