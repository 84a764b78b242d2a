-- ===== src/Auth/Keys/Created.antt =====
-- A key of auth/apikey.go from its creation to its use.
use huawei_api.Base.{
  ℕ, ◌≡◌, refl, sym, ap, subst, ◌∙◌, inl, inr, String, Bool, true, false, not, ◌||◌, leb,
  if◌then◌else◌, Bool-cases, length, keep, any, any-keep, All, All-append, All-map, List, [], ◌∷◌,
  ◌++◌, arith,
}
use huawei_api.Base.Text.{Text, text_eq, is_space, trim_space, is_empty, join, has_prefix, drop}
use huawei_api.Base.Text.Split.{
  IsWithout, split-join, IsSolid, trim_space_solid, join_not_empty, join-All,
}
use huawei_api.Base.Text.Equality.{text_eq→≡, text_eq_self}
use huawei_api.Auth.Keys.{
  bad_key, Answer, accepted, denied, KeyRow, KeysDb, Key, is_none, one_of, trimmed_parts, join_list,
  split_list, scan_key, key_prefix, scope_rotate, scope_status, valid_scope, NewKey, Fresh,
  with_scope, collect_scopes, label_of, new_row, key_named, create_with, on_scopes, create_key,
  first_verified, candidates, authenticate,
}

-- What can stand in a list that is stored as a text.
abbrev pub IsClean : Text → Type 0
IsClean t = IsSolid t × IsWithout b',' t × (is_empty t ≡ false)

trimmed_parts_clean : (ts : List Text) → All IsClean ts → trimmed_parts ts ≡ ts
trimmed_parts_clean [] h = refl
trimmed_parts_clean (t ∷ ts) h =
    rw (trim_space_solid t h.0.0, h.0.2, trimmed_parts_clean ts h.1) refl

split_list-join : (ts : List Text) → All IsClean ts → split_list (join b',' ts) ≡ ts
split_list-join [] h = refl
split_list-join (t ∷ ts) h =
    let solid =
      join-All (λ c. is_space c ≡ false) b',' (t ∷ ts) refl
        (All-map IsClean IsSolid (t ∷ ts) (λ x k. k.0) h) in
    let parts = split-join b',' t ts (All-map IsClean (IsWithout b',') (t ∷ ts) (λ x k. k.1) h) in
    rw (ap is_empty (trim_space_solid (join b',' (t ∷ ts)) solid) ∙ join_not_empty b',' t ts h.0.2)
      (ap trimmed_parts parts ∙ trimmed_parts_clean (t ∷ ts) h)

-- A list of clean texts is read back as it was stored.
pub split_list-join_list : (ts : List Text) → All IsClean ts → split_list (join_list ts) ≡ ts
split_list-join_list ts h =
    ap (λ us. split_list (join b',' us)) (trimmed_parts_clean ts h) ∙ split_list-join ts h

scope-IsClean : (t : Text) → valid_scope t ≡ true → IsClean t
scope-IsClean t h = elim (Bool-cases (text_eq scope_rotate t)) [
  | inl e ↦ rw (sym (text_eq→≡ scope_rotate t e)) (ground arith, ground arith, refl)
  | inr e ↦
      let other : text_eq scope_status t ≡ true = ground (arith, h, e) in
      rw (sym (text_eq→≡ scope_status t other)) (ground arith, ground arith, refl)
]

one_scope :
    (scopes : List Text) (t : Text)
    → All IsClean scopes
    → valid_scope t ≡ true
    → All IsClean (with_scope scopes t)
one_scope scopes t h v = elim (Bool-cases (is_empty t || one_of scopes t)) [
  | inl old ↦ rw old h
  | inr new ↦ rw new (All-append IsClean scopes (t ∷ []) h (scope-IsClean t v, tt))
]

with_scope-IsClean :
    (scopes : List Text) (t : Text)
    → All IsClean scopes
    → is_empty t || valid_scope t ≡ true
    → All IsClean (with_scope scopes t)
with_scope-IsClean scopes [] h v = h
with_scope-IsClean scopes (c ∷ t) h v = one_scope scopes (c ∷ t) h v

collect_scopes-IsClean :
    (scopes ss out : List Text)
    → All IsClean scopes
    → collect_scopes scopes ss ≡ accepted out
    → All IsClean out
unfolding collect_scopes
collect_scopes-IsClean scopes [] out h e = let same : scopes ≡ out = cc in rw (sym same) h
collect_scopes-IsClean scopes (s ∷ ss) out h e =
    let t = trim_space s in
    elim (Bool-cases (is_empty t || valid_scope t)) [
      | inr bad ↦ absurd (ground (arith, bad))
      | inl good ↦
          collect_scopes-IsClean (with_scope scopes t) ss out (with_scope-IsClean scopes t h good)
            (ground (arith, good))
    ]

candidates-concat :
    (rows : List KeyRow) (row : KeyRow) (prefix : Text)
    → text_eq row.prefix prefix ≡ true
    → keep (λ r. text_eq r.prefix prefix) (rows ++ (row ∷ []))
      ≡ keep (λ r. text_eq r.prefix prefix) rows ++ (row ∷ [])
candidates-concat [] row prefix h = rw h refl
candidates-concat (r ∷ rows) row prefix h = elim (Bool-cases (text_eq r.prefix prefix)) [
  | inl e ↦ rw e (ap (λ l. r ∷ l) (candidates-concat rows row prefix h))
  | inr e ↦ rw e (candidates-concat rows row prefix h)
]

module _ (verify : Text → String → Bool) (now : ℕ) (secret : Text) where
  first_verified_last :
      (db : KeysDb) (cs : List KeyRow) (row : KeyRow)
      → any (λ r. verify secret r.secret_hash) cs ≡ false
      → verify secret row.secret_hash ≡ true
      → is_none row.revoked_at ≡ true
      → (first_verified verify now db secret (cs ++ (row ∷ []))).1 ≡ accepted (scan_key row)
  unfolding first_verified
  first_verified_last db [] row h v l = rw (v, l) refl
  first_verified_last db (c ∷ cs) row h v l = elim (Bool-cases (verify secret c.secret_hash)) [
    | inl e ↦ absurd (ground (arith, h, e))
    | inr e ↦ rw e (first_verified_last db cs row (ground (arith, h, e)) v l)
  ]

prefix-IsSolid : (body : Text) → IsSolid body → IsSolid (key_prefix ++ body)
prefix-IsSolid body h = (refl, (refl, (refl, (refl, (refl, (refl, (refl, (refl, (refl, h)))))))))

label_eq :
    (body : Text) → text_eq (key_prefix ++ label_of body) (key_prefix ++ label_of body) ≡ true
label_eq body = text_eq_self (key_prefix ++ label_of body)

long_enough : (c : ℕ) (cs : Text) → leb (length (key_prefix ++ (c ∷ cs))) 9 ≡ false
long_enough c cs = ground arith

module _ (verify : Text → String → Bool) (now : ℕ) (c : ℕ) (cs : Text) where
  abbrev the_secret : Text
  the_secret = key_prefix ++ (c ∷ cs)

  -- The secret of a row at the end of the table, if no other row fits it.
  authenticate_last :
      (db : KeysDb) (rows : List KeyRow) (row : KeyRow)
      → IsSolid (c ∷ cs)
      → row.prefix ≡ key_prefix ++ label_of (c ∷ cs)
      → db.keys ≡ rows ++ (row ∷ [])
      → any (λ r. verify the_secret r.secret_hash) rows ≡ false
      → verify the_secret row.secret_hash ≡ true
      → is_none row.revoked_at ≡ true
      → (authenticate verify now db the_secret).1 ≡ accepted (scan_key row)
  unfolding authenticate
  authenticate_last db rows row solid p grown others v l =
      let prefix = key_prefix ++ label_of (c ∷ cs) in
      let fits : text_eq row.prefix prefix ≡ true =
        ap (λ q. text_eq q prefix) p ∙ label_eq (c ∷ cs) in
      let found : keep (λ r. text_eq r.prefix prefix) db.keys
          ≡ keep (λ r. text_eq r.prefix prefix) rows ++ (row ∷ []) =
        ap (keep (λ r. text_eq r.prefix prefix)) grown ∙ candidates-concat rows row prefix fits in
      ap (λ s. (trimmed_call s).1) (trim_space_solid the_secret (prefix-IsSolid (c ∷ cs) solid))
      ∙ ap
          (λ b.
            (if b
              then (db, denied bad_key)
              else first_verified verify now db the_secret (candidates db prefix)).1)
          (long_enough c cs)
      ∙ ap (λ rs. (first_verified verify now db the_secret rs).1) found
      ∙ first_verified_last verify now the_secret db (keep (λ r. text_eq r.prefix prefix) rows) row
          (any-keep (λ r. verify the_secret r.secret_hash) (λ r. text_eq r.prefix prefix) rows
            others)
          v l
    where
      trimmed_call : Text → KeysDb × Answer Key
      trimmed_call s =
          if not (has_prefix s key_prefix) || leb (length s) 9
          then (db, denied bad_key)
          else first_verified verify now db s (candidates db (key_prefix ++ label_of (drop 9 s)))

-- The secret opens the table as the key.
abbrev pub Opens : (Text → String → Bool) → ℕ → KeysDb → Key → Text → Type 0
Opens verify now db k secret =
    (k' : Key) × ((authenticate verify now db secret).1 ≡ accepted k')
    × (k'.id ≡ k.id)
    × (k'.scopes ≡ k.scopes)
    × (k'.proxy_ids ≡ k.proxy_ids)

OpensAnswer : (Text → String → Bool) → ℕ → KeysDb × Answer (Key × Text) → Type 0
OpensAnswer verify now (db, accepted (k, secret)) = Opens verify now db k secret
OpensAnswer verify now (db, denied why) = Unit

Opens-accepted :
    (verify : Text → String → Bool) (now : ℕ) (done : KeysDb × Answer (Key × Text)) (k : Key)
    (secret : Text)
    → OpensAnswer verify now done
    → done.1 ≡ accepted (k, secret)
    → Opens verify now done.0 k secret
unfolding OpensAnswer
Opens-accepted verify now (db, a) k secret o e = subst (λ b. OpensAnswer verify now (db, b)) e o

module _ (verify : Text → String → Bool) (now later : ℕ) (id hash : String) (c : ℕ) (cs : Text)
    (db : KeysDb) (req : NewKey) (solid : IsSolid (c ∷ cs))
    (v : verify (key_prefix ++ (c ∷ cs)) hash ≡ true)
    (others : any (λ r. verify (key_prefix ++ (c ∷ cs)) r.secret_hash) db.keys ≡ false)
    (clean : All IsClean req.proxy_ids) where
  abbrev new_fresh : Fresh
  new_fresh = record { id = id; body = c ∷ cs; hash = hash }

  created_with :
      (scopes : List Text)
      → All IsClean scopes
      → OpensAnswer verify later (create_with now new_fresh db req scopes)
  unfolding create_with OpensAnswer scan_key
  created_with scopes known = elim (Bool-cases (is_empty scopes)) [
    | inl bad ↦ rw bad tt
    | inr some_scope ↦ elim (Bool-cases (any (key_named id) db.keys)) [
      | inl taken ↦ rw (some_scope, taken) tt
      | inr free ↦
          let row = new_row now new_fresh req scopes in
          rw (some_scope, free)
            (
              scan_key row,
              authenticate_last verify later c cs (record db { keys = db.keys ++ (row ∷ []) })
                  db.keys row solid refl refl others v refl,
              refl,
              split_list-join_list scopes known,
              split_list-join_list req.proxy_ids clean,
            )
    ]
  ]

  created_on :
      (a : Answer (List Text))
      → ((scopes : List Text) → a ≡ accepted scopes → All IsClean scopes)
      → OpensAnswer verify later (on_scopes db (create_with now new_fresh db req) a)
  unfolding OpensAnswer
  created_on (accepted scopes) known = created_with scopes (known scopes refl)
  created_on (denied why) known = tt

  created_answer : OpensAnswer verify later (create_key now new_fresh db req)
  unfolding create_key OpensAnswer
  created_answer = elim (Bool-cases (is_empty (trim_space req.name))) [
    | inl bad ↦ rw bad tt
    | inr named ↦ rw named (
        created_on (collect_scopes [] req.scopes)
          (λ scopes e. collect_scopes-IsClean [] req.scopes scopes tt e))
  ]

  -- If a key is created, its secret is accepted as that key, with the same scopes and proxies. The
  -- random body is not empty and without spaces, the secret fits the new hash and none that is stored,
  -- and no proxy id is empty or has a comma or a space in it.
  pub created_authenticates :
      (k : Key) (secret : Text)
      → (create_key now new_fresh db req).1 ≡ accepted (k, secret)
      → Opens verify later (create_key now new_fresh db req).0 k secret
  created_authenticates k secret e =
      Opens-accepted verify later (create_key now new_fresh db req) k secret created_answer e
