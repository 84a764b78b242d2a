-- ===== src/Domain/Errors.antt =====
-- domain/errors.go: the sentinel errors as values, and a chain of fallible steps. The text that an
-- error is wrapped in is left out.
use huawei_api.Base.{ℕ, Bool, true, false, ◌&&◌, leb, ◌==◌, if◌then◌else◌, Option, some, none}

pub data Err : Type 0 where
  not_found conflict invalid unauthorized forbidden rate_limited expired not_implemented : Err
  op_in_progress slot_occupied no_free_slot sim_locked degraded unsupported_platform : Err

pub data Result {ℓ} (A : Type ℓ) : Type ℓ where
  ok : A → Result A
  err : Err → Result A

-- The next step runs only when the one before has returned no error.
infixl 5 ◌>>=◌ ◌>>◌
abbrev pub ◌>>=◌ {ℓ κ} :
    {Before : Type ℓ} {After : Type κ} → Result Before → (Before → Result After) → Result After
err failure >>= next = err failure
ok value >>= next = next value

abbrev pub ◌>>◌ {ℓ} : {After : Type ℓ} → Result (Unit {0}) → Result After → Result After
checked >> rest = checked >>= λ _. rest

-- `if bad { return e }`
abbrev pub refuse_if : Bool → Err → Result (Unit {0})
refuse_if true e = err e
refuse_if false e = ok tt

-- The state after a call: a call that fails changes nothing.
abbrev pub after {ℓ} : {A : Type ℓ} → A → Result A → A
after s (ok t) = t
after s (err e) = s

pub data HiLinkError : Type 0 where
  hilink_unknown unsupported need_login system_busy format busy voice_busy token_invalid :
      HiLinkError
  login_required unreachable : HiLinkError

-- HiLinkSentinel: the range of login codes first, then the table.
unfoldable pub hilink_sentinel : ℕ → Option HiLinkError
hilink_sentinel code =
    if leb 108001 code && leb code 108007
    then some HiLinkError.login_required
    else if code == 100001
    then some HiLinkError.hilink_unknown
    else if code == 100002
    then some HiLinkError.unsupported
    else if code == 100003
    then some HiLinkError.need_login
    else if code == 100004
    then some HiLinkError.system_busy
    else if code == 100005
    then some HiLinkError.format
    else if code == 112001
    then some HiLinkError.busy
    else if code == 120001
    then some HiLinkError.voice_busy
    else if code == 125001
    then some HiLinkError.token_invalid
    else if code == 125002
    then some HiLinkError.token_invalid
    else if code == 125003
    then some HiLinkError.token_invalid
    else none
