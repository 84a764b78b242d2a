-- ===== src/Auth/Sessions/Tests.antt =====
-- Users and sessions that come and go (auth/session.go).
use huawei_api.Base.{ℕ, ◌≡◌, refl, String, str_eq, if◌then◌else◌, some, List, [], ◌∷◌}
use huawei_api.Base.Text.{Text, text_eq}
use huawei_api.Auth.Sessions.{
  SessionReply, given, failed, no_session, bad_credentials, Session, AuthDb, user_key, issue,
  look_up, revoke, set_password, login,
}
use huawei_api.Auth.Sessions.Live.{
  SessionCall, issues, looks_up, revokes, revokes_user, sweeps, sessions_run, issued_stands,
}
use huawei_api.Auth.Sessions.Ended.{revoked_stays_out}
use huawei_api.Auth.Sessions.Users.{set_password-login}

abbrev no_rows : AuthDb
no_rows = record { users = []; sessions = [] }

abbrev hash_name : Text → String
hash_name t = if text_eq t (b'k' ∷ []) then "hk" else "other"

abbrev admin : Text
admin = b'A' ∷ b'd' ∷ b'm' ∷ b'i' ∷ b'n' ∷ b' ' ∷ []

abbrev guest : Text
guest = b'g' ∷ []

abbrev token_c : Text
token_c = b'c' ∷ []

abbrev twelve_hours : ℕ
twelve_hours = 43200000000000

abbrev admin_session : Session
admin_session = record {
  id = "hk";
  username = b'a' ∷ b'd' ∷ b'm' ∷ b'i' ∷ b'n' ∷ [];
  csrf_token = token_c;
  created_at = 1000;
  expires_at = 43201000;
  last_seen_at = 1000;
}

abbrev busy_day : List (ℕ × SessionCall)
busy_day =
    (2000, issues "other" token_c guest)
    ∷ (100000, looks_up (b'k' ∷ []))
    ∷ (200000, revokes_user guest)
    ∷ (300000, revokes (b'z' ∷ []))
    ∷ (400000, sweeps)
    ∷ []

issued_stands_example :
    (s' : Session) × ((look_up hash_name 43200999
        (sessions_run hash_name twelve_hours
          (issue twelve_hours 1000 no_rows "hk" token_c admin).0
          busy_day)
        (b'k' ∷ [])).1
      ≡ given s')
    × (s'.username ≡ user_key admin)
    × (s'.csrf_token ≡ token_c)
    × (s'.expires_at ≡ 43201000)
unfolding issue str_eq
issued_stands_example =
    issued_stands hash_name twelve_hours 1000 43200999 no_rows (b'k' ∷ []) token_c admin
      admin_session busy_day refl refl (refl, (refl, (refl, (refl, (refl, tt))))) refl

revoked_stays_out_example :
    (look_up hash_name 5000
      (sessions_run hash_name twelve_hours
        (revoke hash_name (issue twelve_hours 1000 no_rows "hk" token_c admin).0 (b'k' ∷ []))
        busy_day)
      (b'k' ∷ [])).1
    ≡ failed no_session
unfolding str_eq
revoked_stays_out_example =
    revoked_stays_out hash_name twelve_hours 5000
      (issue twelve_hours 1000 no_rows "hk" token_c admin).0 (b'k' ∷ []) busy_day
      (refl, (refl, (refl, (refl, (refl, tt)))))

abbrev long_word : Text
long_word = b'p' ∷ b'a' ∷ b's' ∷ b's' ∷ b'w' ∷ b'o' ∷ b'r' ∷ b'd' ∷ []

abbrev checks : Text → String → SessionReply (Unit {0})
checks t h = if text_eq t long_word then given tt else failed bad_credentials

set_password-login_example :
    login checks
      (set_password 7 no_rows admin long_word (some "h1")).0
      (b'A' ∷ b'D' ∷ b'M' ∷ b'I' ∷ b'N' ∷ [])
      long_word
    ≡ given tt
unfolding set_password
set_password-login_example =
    set_password-login checks 7 no_rows admin long_word "h1" (b'A' ∷ b'D' ∷ b'M' ∷ b'I' ∷ b'N' ∷ [])
      long_word refl
