-- ===== src/TenantCtx/Laws.antt =====
-- Which requests the checks of the tenant and the event let through.
use tolo_observation.TenantCtx.{
  Context, tenant_public_id_from_context, event_public_id_from_context, ensure, verify_ownership,
  ensure_event, Text, is_empty, trim_space, ok,
}
use tolo_observation.Common.{◌≡◌, refl, true, false, none, some, arith, ◌↔◌, ◌⊎◌, inr}
use tolo_observation.Common.Text.{text_eq_iff}

-- The context names the tenant: it has claims whose trimmed tenant is the one given, not blank.
abbrev pub NamesTenant : Context → Text → Type 0
NamesTenant none tenant = ⊥
NamesTenant (some c) tenant = (trim_space c.tenant_public_id ≡ tenant) × (is_empty tenant ≡ false)

abbrev pub HasNoTenant : Context → Type 0
HasNoTenant none = Unit
HasNoTenant (some c) = is_empty (trim_space c.tenant_public_id) ≡ true

-- `Ensure` lets a tenant through exactly if the context names it, so it refuses every tenant when
-- the context names none.
pub ensure_iff :
    (ctx : Context) (tenant : Text) → (ensure ctx tenant ≡ ok tt) ↔ NamesTenant ctx tenant
unfolding ensure tenant_public_id_from_context
ensure_iff none tenant = (λ e. cc, λ h. absurd h)
ensure_iff (some c) tenant = ground (arith, text_eq_iff (trim_space c.tenant_public_id) tenant)

-- `VerifyOwnership` lets a tenant through exactly if the context names it or names no tenant.
pub verify_ownership_iff :
    (ctx : Context) (tenant : Text)
    → (verify_ownership ctx tenant ≡ ok tt) ↔ (NamesTenant ctx tenant ⊎ HasNoTenant ctx)
unfolding verify_ownership tenant_public_id_from_context
verify_ownership_iff none tenant = (λ e. inr tt, λ h. refl)
verify_ownership_iff (some c) tenant =
    ground (arith, text_eq_iff (trim_space c.tenant_public_id) tenant)

-- The event may be acted on: the trimmed event of the claims is the one given, or it is blank and
-- the token is no event access token, or there are no claims.
abbrev pub MayActOn : Context → Text → Type 0
MayActOn none event = Unit
MayActOn (some c) event =
    ((is_empty (trim_space c.event_public_id) ≡ true) × (c.is_event_access ≡ false))
    ⊎ ((is_empty (trim_space c.event_public_id) ≡ false) × (trim_space c.event_public_id ≡ event))

-- `EnsureEvent` lets an event through exactly if the claims name it, or name no event and the token
-- is no event access token, or there are no claims.
pub ensure_event_iff :
    (ctx : Context) (event : Text) → (ensure_event ctx event ≡ ok tt) ↔ MayActOn ctx event
unfolding ensure_event event_public_id_from_context
ensure_event_iff none event = (λ e. tt, λ h. refl)
ensure_event_iff (some c) event = ground (arith, text_eq_iff (trim_space c.event_public_id) event)
