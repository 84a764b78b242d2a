-- ===== src/Store/Operations/Listing.antt =====
-- operationRepo.List of store/repo_operation.go with its filter (store/contract.go). The order of the
-- rows and the limit are left out; the callers that are modelled set no limit.
use huawei_api.Base.{
  ℕ, String, Bool, true, ◌&&◌, leb, ◌==◌, str_eq, if◌then◌else◌, keep, Option, some, none,
}
use huawei_api.Domain.Enums.{
  OpKind, kind_text, OpState, state_text, Trigger, trigger_text, SubjectType,
}
use huawei_api.Domain.Model.{Operation}
use huawei_api.Store.Operations.{Table, subject_eq}

-- An empty field does not filter: the empty text is `none` here.
pub record OperationFilter : Type 0 where
  pub kind : Option OpKind
  pub state : Option OpState
  pub trigger : Option Trigger
  pub subject_type : Option SubjectType
  pub subject_id : Option String
  pub since_ms : ℕ

abbrev pub no_filter : OperationFilter
no_filter = record {
  kind = none;
  state = none;
  trigger = none;
  subject_type = none;
  subject_id = none;
  since_ms = 0;
}

-- A condition that is left out if its field is empty.
abbrev pub unless_none {ℓ} : {A : Type ℓ} → Option A → (A → Bool) → Bool
unless_none none p = true
unless_none (some a) p = p a

-- The WHERE of List.
abbrev pub matches : OperationFilter → Operation → Bool
matches f o =
    unless_none f.kind (λ k. str_eq (kind_text o.kind) (kind_text k))
    && unless_none f.state (λ s. str_eq (state_text o.state) (state_text s))
    && unless_none f.trigger (λ t. str_eq (trigger_text o.trigger) (trigger_text t))
    && unless_none f.subject_type (λ t. subject_eq o.subject_type t)
    && unless_none f.subject_id (λ i. str_eq o.subject_id i)
    && (if f.since_ms == 0 then true else leb f.since_ms o.started_at)

-- List
unfoldable pub listed : Table → OperationFilter → Table
listed table f = keep (matches f) table
