-- ===== src/Api/Sites.antt =====
-- server/src/routes/sites.routes.ts: sites and zones. `db` is the handle of the request, `caller`
-- what the route reads of the request's context.
use ai_cctv_platform.Common.{refl, String, Option, none, some, ◌==◌, coalesce, or_else}
use ai_cctv_platform.Tenancy.World.{Runtime, Clock, Site, Zone}
use ai_cctv_platform.Tenancy.Rls.{
  TenantContext, Run, ok, err, Handler, pure, gets, ◌>>=◌, ◌>>◌, new_id, insert_site, insert_zone,
  update_sites,
}
use ai_cctv_platform.Tenancy.Isolation.{Spares, Spares-pure, Spares-gets, Spares-bind, Spares-seq}
use ai_cctv_platform.Tenancy.Isolation.Statements.{
  BoundElsewhere, new_id-Spares, insert_site-Spares, insert_zone-Spares, update_sites-Spares,
  insert_audit_log-Spares,
}
use ai_cctv_platform.Services.Notification.{audit}
use ai_cctv_platform.Services.Cache.{Store, cache_invalidate}
use ai_cctv_platform.Api.Rows.{returning, require_site, require_site-Spares}

pub record Caller : Type 0 where
  pub organization_id : String
  pub user_id : String
  pub ip : Option String

pub record SiteInput : Type 0 where
  pub name : String
  pub address : Option String
  pub timezone : String

pub record SitePatch : Type 0 where
  pub name : Option String
  pub address : Option String
  pub timezone : Option String

pub record ZoneInput : Type 0 where
  pub site_id : String
  pub name : String
  pub geometry : String  -- as JSON

-- What a route does after its transaction: the organization's dashboard is read anew. A request
-- that fails never comes to it.
unfoldable pub refresh_dashboard {ℓ κ} :
    {A : Type ℓ} {V : Type κ} → String → Run A → Store V → Run A × Store V
unfolding cache_invalidate
refresh_dashboard org (err e w) store = (err e w, store)
refresh_dashboard org (ok a w) store =
    (ok a w, (cache_invalidate org (some "dashboard_stats") store).1)

module _ (rt : Runtime) (clock : Clock) (db : TenantContext) (caller : Caller) where
  unfoldable pub create_site : SiteInput → Handler Site
  create_site input = do
    id ← new_id rt
    let row : Site = record {
      id = id;
      organization_id = caller.organization_id;
      name = input.name;
      address = input.address;
      timezone = input.timezone;
      updated_at = clock.db_now;
    }
    insert_site db row
    audit db caller.organization_id (some caller.user_id) "site.create" "site" (some id) caller.ip
    pure row

  unfoldable pub patch_site : SitePatch → Site → Site
  patch_site input r = record r {
    name = coalesce input.name r.name;
    address = or_else input.address r.address;
    timezone = coalesce input.timezone r.timezone;
    updated_at = clock.db_now;
  }

  unfoldable pub update_site : String → SitePatch → Handler (Option Site)
  unfolding require_site patch_site returning
  update_site id input = do
    _ ← require_site db id
    update_sites db (λ r. r.id == id) (patch_site input)
    row ← gets (returning (λ r. r.organization_id) (λ r. r.id) "sites" (λ w. w.sites) db id)
    audit db caller.organization_id none "site.update" "site" (some id) caller.ip
    pure row

  unfoldable pub create_zone : ZoneInput → Handler Zone
  unfolding require_site
  create_zone input = do
    _ ← require_site db input.site_id
    id ← new_id rt
    let row : Zone = record {
      id = id;
      organization_id = caller.organization_id;
      site_id = input.site_id;
      name = input.name;
      geometry = input.geometry;
    }
    insert_zone db row
    audit db caller.organization_id none "zone.create" "zone" (some id) caller.ip
    pure row

  module _ {o : String} (b : BoundElsewhere db o) where
    pub create_site-Spares : (input : SiteInput) → Spares o (create_site input)
    unfolding create_site audit
    create_site-Spares input = Spares-bind (new_id-Spares rt) (λ id.
        Spares-seq (insert_site-Spares b _)
          (Spares-seq (insert_audit_log-Spares b _) (Spares-pure _)))

    pub update_site-Spares : (id : String) (input : SitePatch) → Spares o (update_site id input)
    unfolding update_site patch_site audit
    update_site-Spares id input = Spares-bind (require_site-Spares db id) (λ row.
        Spares-seq (update_sites-Spares b _ _ (λ r. refl)) (
          Spares-bind (Spares-gets _)
            (λ row. Spares-seq (insert_audit_log-Spares b _) (Spares-pure _))))

    pub create_zone-Spares : (input : ZoneInput) → Spares o (create_zone input)
    unfolding create_zone audit
    create_zone-Spares input = Spares-bind (require_site-Spares db input.site_id) (λ row.
        Spares-bind (new_id-Spares rt) (λ id.
          Spares-seq (insert_zone-Spares b _)
            (Spares-seq (insert_audit_log-Spares b _) (Spares-pure _))))
