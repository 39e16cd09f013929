-- ===== src/TenantCtx.antt =====
-- internal/tenantctx/tenantctx.go: the claims of the verified internal JWT that the request context
-- carries, and the checks on the tenant and the event that a request acts on. The JWT library is not
-- modelled: a context has its claims or none.
pub mod Laws
use tolo_observation.Common.Text.{Text, trim_space, is_empty, text_eq}
use tolo_observation.Errors.{
  sentinel, tenant_missing, tenant_mismatch, event_missing, event_mismatch,
}
use tolo_observation.Common.{
  ℕ, zero, suc, ◌≡◌, refl, Bool, true, false, Option, none, some, List, [], ◌∷◌, arith,
  if◌then◌else◌, not,
}
use tolo_observation.Common.Result.{Result, err, ok}

pub record Claims : Type 0 where
  pub subject : Text
  pub tenant_public_id : Text
  pub event_public_id : Text
  -- `claims.TokenUse == internaljwt.TokenUseEventAccess`
  pub is_event_access : Bool

-- What `internaljwt.ClaimsFromContext` returns.
abbrev pub Context : Type 0
Context = Option Claims

-- A trimmed claim, if it is not blank.
abbrev pub claim : Text → Option Text
claim value = if is_empty (trim_space value) then none else some (trim_space value)

unfoldable pub subject_from_context : Context → Option Text
subject_from_context none = none
subject_from_context (some c) = claim c.subject

unfoldable pub tenant_public_id_from_context : Context → Option Text
tenant_public_id_from_context none = none
tenant_public_id_from_context (some c) = claim c.tenant_public_id

unfoldable pub event_public_id_from_context : Context → Option Text
event_public_id_from_context none = none
event_public_id_from_context (some c) = claim c.event_public_id

unfoldable pub ensure : Context → Text → Result (Unit {0})
ensure ctx tenant = elim (tenant_public_id_from_context ctx) [
  | none ↦ err (sentinel tenant_missing)
  | some t ↦
      if is_empty t
      then err (sentinel tenant_missing)
      else if not (text_eq t tenant)
      then err (sentinel tenant_mismatch)
      else ok tt
]

unfoldable pub verify_ownership : Context → Text → Result (Unit {0})
verify_ownership ctx tenant = elim (tenant_public_id_from_context ctx) [
  | none ↦ ok tt
  | some t ↦
      if is_empty t
      then ok tt
      else if not (text_eq t tenant)
      then err (sentinel tenant_mismatch)
      else ok tt
]

unfoldable pub ensure_event : Context → Text → Result (Unit {0})
ensure_event none event = ok tt
ensure_event (some c) event = elim (event_public_id_from_context (some c)) [
  | none ↦ if c.is_event_access then err (sentinel event_missing) else ok tt
  | some e ↦ if not (text_eq e event) then err (sentinel event_mismatch) else ok tt
]
