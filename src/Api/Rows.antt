-- ===== src/Api/Rows.antt =====
-- What the tenant routes begin with: `requireTenantResource` on each table
-- (server/src/services/resource.service.ts) as a step of a handler.
use ai_cctv_platform.Common.{
  ◌≡◌, refl, ap, true, false, String, ◌==◌, Option, some, none, List, first, In, includes,
}
use ai_cctv_platform.Access.Errors.{not_found}
use ai_cctv_platform.Access.Directory.{Checked, passes, fails}
use ai_cctv_platform.Tenancy.World.{World, Camera, Site, Zone, Event, Member}
use ai_cctv_platform.Tenancy.Rls.{
  TenantContext, org_visible, Run, ok, err, Handler, world_of, pure, ◌>>=◌, select,
}
use ai_cctv_platform.Tenancy.Isolation.{view, Spares, Spares-pure, Spares-bind}
use ai_cctv_platform.Tenancy.Outcomes.{Ensures, Returned}
use ai_cctv_platform.Services.Resource.{tenant_tables, require_tenant_resource}
use ai_cctv_platform.Services.Resource.Laws.{
  require_tenant_resource_hidden, require_tenant_resource_sound,
}

abbrev pub raised {ℓ} : {A : Type ℓ} → Checked A → World → Run A
raised (passes a) w = ok a w
raised (fails e) w = err e w

-- Every row that has the id is outside the handle's sight.
unfoldable pub Hides :
    {Row : Type 0} → TenantContext → (Row → String) → (Row → String) → List Row → String → Type 0
Hides {Row} db org row_id rows id =
    (r : Row) → In r rows → row_id r ≡ id → org_visible db (org r) ≡ false

module _ {Row : Type 0} (org row_id : Row → String) (table : String) (rows : World → List Row)
    (ctx : TenantContext) where
  unfoldable pub required : String → Handler Row
  unfolding require_tenant_resource
  required id w = raised (require_tenant_resource org row_id ctx table id (rows w)) w

  -- `RETURNING` of a statement on one row.
  unfoldable pub returning : String → World → Option Row
  unfolding select
  returning id w = first (select org ctx (λ r. row_id r == id) (rows w))

  pub required-Spares : {o : String} (id : String) → Spares o (required id)
  unfolding required
  required-Spares {o} id = record {
    at = λ w. raised_same (require_tenant_resource org row_id ctx table id (rows w)) w;
  }
    where
      raised_same : (c : Checked Row) (w : World) → view o (world_of (raised c w)) ≡ view o w
      raised_same (passes a) w = refl
      raised_same (fails e) w = refl

  -- A look-up changes nothing.
  pub required-Ensures :
      (id : String) {w : World} {P : World → Type 0} → P w → Ensures (required id) w (λ _ w'. P w')
  unfolding required
  required-Ensures id {w} {P} p = record {
    holds = found (require_tenant_resource org row_id ctx table id (rows w));
  }
    where
      found : (c : Checked Row) → Returned {A = Row} (λ _ w'. P w') (raised c w)
      found (passes a) = p
      found (fails e) = tt

  -- The row that a look-up finds.
  pub required_found :
      (id : String) (w : World)
      → Ensures (required id) w (λ r w'. (w' ≡ w) × In r (rows w) × (row_id r ≡ id))
  unfolding required
  required_found id w = record {
    holds = found (require_tenant_resource org row_id ctx table id (rows w)) refl;
  }
    where
      found :
          (c : Checked Row)
          → require_tenant_resource org row_id ctx table id (rows w) ≡ c
          → Returned (λ r w'. (w' ≡ w) × In r (rows w) × (row_id r ≡ id)) (raised c w)
      found (passes r) e =
          let s = require_tenant_resource_sound org row_id ctx table id (rows w) r e in
          (refl, s.0, s.1)
      found (fails x) e = tt

  -- Where every row with the id belongs to an organization that the handle does not see, what
  -- follows the look-up is not run: 404, and the state is the one before.
  pub required_hidden {ℓ} :
      {B : Type ℓ} (id : String) (k : Row → Handler B) (w : World)
      → includes tenant_tables table ≡ true
      → ((r : Row) → In r (rows w) → row_id r ≡ id → org_visible ctx (org r) ≡ false)
      → (required id >>= k) w ≡ err (not_found "Not found") w
  unfolding required ◌>>=◌
  required_hidden id k w known hidden =
      ap (λ c. elim (raised c w) [ ok a w' ↦ k a w' | err e w' ↦ err e w' ])
        (require_tenant_resource_hidden org row_id ctx table id (rows w) known hidden)

-- The tables that the routes look rows up in.
module _ (ctx : TenantContext) where
  unfoldable pub require_site : String → Handler Site
  unfolding required
  require_site = required (λ r. r.organization_id) (λ r. r.id) "sites" (λ w. w.sites) ctx

  unfoldable pub require_zone : String → Handler Zone
  unfolding required
  require_zone = required (λ r. r.organization_id) (λ r. r.id) "zones" (λ w. w.zones) ctx

  unfoldable pub require_camera : String → Handler Camera
  unfolding required
  require_camera = required (λ r. r.organization_id) (λ r. r.id) "cameras" (λ w. w.cameras) ctx

  unfoldable pub require_event : String → Handler Event
  unfolding required
  require_event = required (λ r. r.organization_id) (λ r. r.id) "events" (λ w. w.events) ctx

  unfoldable pub require_member : String → Handler Member
  unfolding required
  require_member =
      required (λ r. r.organization_id) (λ r. r.id) "organization_members" (λ w. w.members) ctx

  -- `if (zoneId) await requireTenantResource(…)`.
  abbrev pub require_zone_of : Option String → Handler (Unit {0})
  require_zone_of none = pure tt
  require_zone_of (some id) = require_zone id >>= λ zone. pure tt

  module _ {o : String} where
    pub require_site-Spares : (id : String) → Spares o (require_site id)
    unfolding require_site
    require_site-Spares id = required-Spares _ _ "sites" _ ctx id

    pub require_zone-Spares : (id : String) → Spares o (require_zone id)
    unfolding require_zone
    require_zone-Spares id = required-Spares _ _ "zones" _ ctx id

    pub require_camera-Spares : (id : String) → Spares o (require_camera id)
    unfolding require_camera
    require_camera-Spares id = required-Spares _ _ "cameras" _ ctx id

    pub require_event-Spares : (id : String) → Spares o (require_event id)
    unfolding require_event
    require_event-Spares id = required-Spares _ _ "events" _ ctx id

    pub require_member-Spares : (id : String) → Spares o (require_member id)
    unfolding require_member
    require_member-Spares id = required-Spares _ _ "organization_members" _ ctx id

    pub require_zone_of-Spares : (id : Option String) → Spares o (require_zone_of id)
    require_zone_of-Spares none = Spares-pure tt
    require_zone_of-Spares (some id) = Spares-bind (require_zone-Spares id) (λ zone. Spares-pure tt)

-- A look-up of a hidden row, by table.
module _ {ℓ} {B : Type ℓ} (ctx : TenantContext) (id : String) (w : World) where
  pub require_site_hidden :
      (k : Site → Handler B)
      → Hides ctx (λ (r : Site). r.organization_id) (λ r. r.id) w.sites id
      → (require_site ctx id >>= k) w ≡ err (not_found "Not found") w
  unfolding require_site Hides
  require_site_hidden k h =
      required_hidden (λ r. r.organization_id) (λ r. r.id) "sites" (λ w. w.sites) ctx id k w refl h

  pub require_camera_hidden :
      (k : Camera → Handler B)
      → Hides ctx (λ (r : Camera). r.organization_id) (λ r. r.id) w.cameras id
      → (require_camera ctx id >>= k) w ≡ err (not_found "Not found") w
  unfolding require_camera Hides
  require_camera_hidden k h =
      required_hidden (λ r. r.organization_id) (λ r. r.id) "cameras" (λ w. w.cameras) ctx id k w
        refl h

  pub require_event_hidden :
      (k : Event → Handler B)
      → Hides ctx (λ (r : Event). r.organization_id) (λ r. r.id) w.events id
      → (require_event ctx id >>= k) w ≡ err (not_found "Not found") w
  unfolding require_event Hides
  require_event_hidden k h =
      required_hidden (λ r. r.organization_id) (λ r. r.id) "events" (λ w. w.events) ctx id k w refl
        h

  pub require_member_hidden :
      (k : Member → Handler B)
      → Hides ctx (λ (r : Member). r.organization_id) (λ r. r.id) w.members id
      → (require_member ctx id >>= k) w ≡ err (not_found "Not found") w
  unfolding require_member Hides
  require_member_hidden k h =
      required_hidden (λ r. r.organization_id) (λ r. r.id) "organization_members" (λ w. w.members)
        ctx id k w refl h
