-- ===== src/Auth/Sessions/Users.antt =====
-- Passwords of auth/session.go, set and checked.
use huawei_api.Base.{
  ℕ, ◌≡◌, refl, sym, ap, ◌∙◌, inl, inr, String, true, false, ltb, if◌then◌else◌, Bool-cases, length,
  any, map, some, List, [], ◌∷◌, ◌++◌, arith,
}
use huawei_api.Base.Text.{Text, text_eq, is_empty}
use huawei_api.Base.Text.Equality.{text_eq→≡, text_eq_self}
use huawei_api.Auth.Sessions.{
  SessionReply, given, User, AuthDb, user_key, named, upsert_user, set_password, user_named,
  check_password, login,
}

module _ (verify : Text → String → SessionReply (Unit {0})) (password : Text) where
  abbrev tries : List User → Text → SessionReply (Unit {0})
  tries us name = check_password verify password (user_named us name)

  abbrev rehash : User → User → User
  rehash u o =
      if named u.username o
      then record o { password_hash = u.password_hash; updated_at = u.updated_at }
      else o

  tries-rehash :
      (u : User) (us : List User)
      → any (named u.username) us ≡ true
      → tries (map (rehash u) us) u.username ≡ verify password u.password_hash
  tries-rehash u [] h = absurd (cc)
  tries-rehash u (o ∷ us) h = elim (Bool-cases (named u.username o)) [
    | inl e ↦
        let changed : User = record o {
          password_hash = u.password_hash;
          updated_at = u.updated_at;
        } in
        rw e (
          ap
            (λ b.
              check_password verify password
                (if b then some changed else user_named (map (rehash u) us) u.username))
            e)
    | inr e ↦ rw e (
        ap
          (λ b.
            check_password verify password
              (if b then some o else user_named (map (rehash u) us) u.username))
          e
        ∙ tries-rehash u us (ground (arith, h, e)))
  ]

  tries-rehash_other :
      (u : User) (us : List User) (name : Text)
      → text_eq u.username name ≡ false
      → tries (map (rehash u) us) name ≡ tries us name
  tries-rehash_other u [] name d = refl
  tries-rehash_other u (o ∷ us) name d = elim (Bool-cases (named name o)) [
    | inl q ↦
        let off : named u.username o ≡ false = elim (Bool-cases (named u.username o)) [
          | inl e ↦
              let hit : text_eq u.username name ≡ true =
                ap (λ t. text_eq t name) (sym (text_eq→≡ o.username u.username e)) ∙ q in
              absurd (ground (arith, hit, d))
          | inr e ↦ e
        ] in
        rw (off, q) refl
    | inr q ↦ elim (Bool-cases (named u.username o)) [
      | inl e ↦ rw (e, q) (tries-rehash_other u us name d)
      | inr e ↦ rw (e, q) (tries-rehash_other u us name d)
    ]
  ]

  tries-new :
      (u : User) (us : List User)
      → any (named u.username) us ≡ false
      → tries (us ++ (u ∷ [])) u.username ≡ verify password u.password_hash
  tries-new u [] h = rw (text_eq_self u.username) refl
  tries-new u (o ∷ us) h = elim (Bool-cases (named u.username o)) [
    | inl e ↦ absurd (ground (arith, h, e))
    | inr e ↦ rw e (tries-new u us (ground (arith, h, e)))
  ]

  tries-new_other :
      (u : User) (us : List User) (name : Text)
      → text_eq u.username name ≡ false
      → tries (us ++ (u ∷ [])) name ≡ tries us name
  tries-new_other u [] name d = rw d refl
  tries-new_other u (o ∷ us) name d = elim (Bool-cases (named name o)) [
    | inl q ↦ rw q refl
    | inr q ↦ rw q (tries-new_other u us name d)
  ]

  tries-upsert :
      (u : User) (us : List User) (name : Text)
      → tries (upsert_user u us) name
        ≡ (if text_eq u.username name then verify password u.password_hash else tries us name)
  tries-upsert u us name = elim (Bool-cases (any (named u.username) us)) [
    | inl there ↦ elim (Bool-cases (text_eq u.username name)) [
      | inl same ↦ rw (there, same, sym (text_eq→≡ u.username name same)) (tries-rehash u us there)
      | inr d ↦ rw (there, d) (tries-rehash_other u us name d)
    ]
    | inr new ↦ elim (Bool-cases (text_eq u.username name)) [
      | inl same ↦ rw (new, same, sym (text_eq→≡ u.username name same)) (tries-new u us new)
      | inr d ↦ rw (new, d) (tries-new_other u us name d)
    ]
  ]

-- Once a password has been set, a login of that user, however the name is written, is what Verify says
-- of the new hash, and a login of any other user is answered as before.
pub set_password-login :
    (verify : Text → String → SessionReply (Unit {0})) (now : ℕ) (db : AuthDb)
    (name password : Text) (hash : String) (who tried : Text)
    → (set_password now db name password (some hash)).1 ≡ given tt
    → login verify (set_password now db name password (some hash)).0 who tried ≡ (
        if text_eq (user_key name) (user_key who)
        then verify tried hash
        else login verify db who tried)
unfolding set_password login
set_password-login verify now db name password hash who tried e =
    elim (Bool-cases (is_empty (user_key name))) [
      | inl bad ↦ absurd (ground (arith, e, bad))
      | inr named ↦ elim (Bool-cases (ltb (length password) 8)) [
        | inl weak ↦ absurd (ground (arith, e, named, weak))
        | inr long ↦
            rw (named, long)
              (tries-upsert verify tried
                (record {
                  username = user_key name;
                  password_hash = hash;
                  created_at = now;
                  updated_at = now;
                })
                db.users (user_key who))
      ]
    ]
