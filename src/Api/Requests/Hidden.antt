-- ===== src/Api/Requests/Hidden.antt =====
-- A request that names a row of another organization is answered as if the row did not exist.
use ai_cctv_platform.Common.{◌≡◌, ap, ◌∙◌, Bool, true, false, some, if◌then◌else◌}
use ai_cctv_platform.Access.Errors.{Error, not_found}
use ai_cctv_platform.Access.Guards.{RequestContext, tenant_db, bind_tenant, tenant_context}
use ai_cctv_platform.Access.Sessions.{Membership}
use ai_cctv_platform.Ai.Types.{is_safety_security_type}
use ai_cctv_platform.Tenancy.World.{World, Runtime, Clock}
use ai_cctv_platform.Tenancy.Rls.{TenantContext, Handler, ok, err, ◌>>=◌, with_tenant, committed}
use ai_cctv_platform.Api.Rows.{
  Hides, require_site_hidden, require_camera_hidden, require_event_hidden, require_member_hidden,
  require_site, require_camera, require_event, require_member,
}
use ai_cctv_platform.Api.Sites.{Caller, update_site, create_zone}
use ai_cctv_platform.Api.Cameras.{create_camera, update_camera}
use ai_cctv_platform.Api.Members.{update_member, remove_member}
use ai_cctv_platform.Api.Events.{update_status, add_note, evidence_url, ingest_safety, ingest_base}
use ai_cctv_platform.Api.Requests.{
  TenantRequest, site_create, site_update, zone_create, camera_create, camera_update, member_invite,
  member_update, member_remove, event_status, event_note, event_evidence, event_ingest, Signing,
  in_tenant, Answer, route,
}

-- The row that a request is about, where it names one, is hidden.
unfoldable pub NamesHidden : TenantContext → World → TenantRequest → Type 0
unfolding Hides
NamesHidden db w (site_create _) = ⊥
NamesHidden db w (site_update id _) = Hides db (λ r. r.organization_id) (λ r. r.id) w.sites id
NamesHidden db w (zone_create input) =
    Hides db (λ r. r.organization_id) (λ r. r.id) w.sites input.site_id
NamesHidden db w (camera_create input) =
    Hides db (λ r. r.organization_id) (λ r. r.id) w.sites input.site_id
NamesHidden db w (camera_update id _) = Hides db (λ r. r.organization_id) (λ r. r.id) w.cameras id
NamesHidden db w (member_invite _ _) = ⊥
NamesHidden db w (member_update id _ _) = Hides db (λ r. r.organization_id) (λ r. r.id) w.members id
NamesHidden db w (member_remove id) = Hides db (λ r. r.organization_id) (λ r. r.id) w.members id
NamesHidden db w (event_status id _) = Hides db (λ r. r.organization_id) (λ r. r.id) w.events id
NamesHidden db w (event_note id _) = Hides db (λ r. r.organization_id) (λ r. r.id) w.events id
NamesHidden db w (event_evidence id _) = Hides db (λ r. r.organization_id) (λ r. r.id) w.events id
NamesHidden db w (event_ingest input) =
    Hides db (λ r. r.organization_id) (λ r. r.id) w.cameras input.camera_id

abbrev missing : Error
missing = not_found "Not found"

module _ (rt : Runtime) (clock : Clock) (signing : Signing) (ctx : RequestContext) (caller : Caller)
    (m : Membership) (joined : ctx.membership ≡ some m) (w : World) where
  db : TenantContext
  db = tenant_context ctx.user m

  in_tenant-missing :
      {A : Type 0} (fn : TenantContext → Handler A) (answer : A → Handler Answer)
      → fn (tenant_context ctx.user m) w ≡ err missing w
      → in_tenant rt clock signing ctx fn answer w ≡ err missing w
  unfolding tenant_db with_tenant committed ◌>>=◌
  in_tenant-missing fn answer h =
      ap (λ c. (bind_tenant ctx.user c fn >>= answer) w) joined
      ∙ ap (λ r. elim (committed r w) [ ok a w' ↦ answer a w' | err e w' ↦ err e w' ]) h

  Run-if :
      (b : Bool) (x y : Handler Answer)
      → x w ≡ err missing w
      → y w ≡ err missing w
      → (if b then x else y) w ≡ err missing w
  Run-if true x y h k = h
  Run-if false x y h k = k

  -- A request about a row that only other organizations have, on a handle of the caller's own, is
  -- answered 404 and changes nothing: no row, no object, no message, not even an audit entry.
  pub route_hidden :
      (request : TenantRequest)
      → NamesHidden (tenant_context ctx.user m) w request
      → route rt clock signing ctx caller request w ≡ err (not_found "Not found") w
  unfolding route NamesHidden update_site create_zone create_camera update_camera update_member
      remove_member update_status add_note evidence_url ingest_safety ingest_base require_site
      require_camera require_event require_member db
  route_hidden (site_create input) h = absurd h
  route_hidden (member_invite email role) h = absurd h
  route_hidden (site_update id input) h = in_tenant-missing _ _ (require_site_hidden db id w _ h)
  route_hidden (zone_create input) h =
      in_tenant-missing _ _ (require_site_hidden db input.site_id w _ h)
  route_hidden (camera_create input) h =
      in_tenant-missing _ _ (require_site_hidden db input.site_id w _ h)
  route_hidden (camera_update id input) h =
      in_tenant-missing _ _ (require_camera_hidden db id w _ h)
  route_hidden (member_update id role status) h =
      in_tenant-missing _ _ (require_member_hidden db id w _ h)
  route_hidden (member_remove id) h = in_tenant-missing _ _ (require_member_hidden db id w _ h)
  route_hidden (event_status id status) h = in_tenant-missing _ _ (require_event_hidden db id w _ h)
  route_hidden (event_note id text) h = in_tenant-missing _ _ (require_event_hidden db id w _ h)
  route_hidden (event_evidence id evidence) h =
      in_tenant-missing _ _ (require_event_hidden db id w _ h)
  route_hidden (event_ingest input) h =
      Run-if (is_safety_security_type input.event_type) _ _
        (in_tenant-missing _ _ (require_camera_hidden db input.camera_id w _ h))
        (in_tenant-missing _ _ (require_camera_hidden db input.camera_id w _ h))
