-- ===== src/Api/Objects/Viewers.antt =====
-- Who is given which stream (server/src/routes/storage.routes.ts).
use mathlib.Core.Option.{some-injective}
use ai_cctv_platform.Common.{
  false, ℕ, ◌≡◌, sym, ap, ◌∙◌, true, String, Option, some, none, ◌==◌, ◌&&◌, In, arith, eq_iff,
  refl, find-In, first, truthy, Bool-cases, inl, inr,
}
use ai_cctv_platform.Services.Resource.Laws.{first-filter-eq-find}
use ai_cctv_platform.Access.Directory.{Directory, Primitives, MemberRow}
use ai_cctv_platform.Access.Guards.{RequestContext, is_active, tenant_db, tenant_context}
use ai_cctv_platform.Access.Guards.Admission.{get_membership-In}
use ai_cctv_platform.Access.Sessions.{Membership, get_membership}
use ai_cctv_platform.Api.Objects.Expiry.{QueryNumber, is_past, stream_digest, verify_stream}
use ai_cctv_platform.Tenancy.World.{World, Camera}
use ai_cctv_platform.Tenancy.Rls.{
  TenantContext, org_visible, ok, select, with_tenant, committed, run_handlers,
}
use ai_cctv_platform.Api.Objects.{sent}
use ai_cctv_platform.Api.Objects.Playback.{
  PlaybackQuery, PlaybackInfo, site_id_of, camera_site, play, play_as, playback,
}

-- A site that is found is the site of a stored camera with the id, which the handle sees.
camera_site-In :
    (db : TenantContext) (cam : String) (w : World) (site_id : String)
    → camera_site db cam w ≡ some site_id
    → (c : Camera) × In c w.cameras
      × (c.id ≡ cam)
      × (c.site_id ≡ site_id)
      × (org_visible db c.organization_id ≡ true)
unfolding camera_site select
camera_site-In db cam w site_id h =
    found (first (select (λ (c : Camera). c.organization_id) db (λ c. c.id == cam) w.cameras)) refl
      h
  where
    found :
        (o : Option Camera)
        → first (select (λ (c : Camera). c.organization_id) db (λ c. c.id == cam) w.cameras) ≡ o
        → site_id_of o ≡ some site_id
        → (c : Camera) × In c w.cameras
          × (c.id ≡ cam)
          × (c.site_id ≡ site_id)
          × (org_visible db c.organization_id ≡ true)
    found none e k = ground (arith, k)
    found (some c) e k =
        let (stored, test) =
          find-In (λ (c : Camera). org_visible db c.organization_id && c.id == cam) w.cameras
            (sym (first-filter-eq-find _ w.cameras) ∙ e) in
        let t : (c.id ≡ cam) × (org_visible db c.organization_id ≡ true) =
          ground (arith, test, eq_iff c.id cam) in
        (c, stored, t.0, some-injective _ _ k, t.1)

truthy-some : (o : Option String) (s : String) → truthy o ≡ some s → o ≡ some s
truthy-some none s h = h
truthy-some (some t) s h = ground (arith, h)

module _ (prims : Primitives) (secret : String) (now : ℕ) (q : PlaybackQuery) where
  good_token :
      (org cam site_id sid : String) (exp : QueryNumber) (sig : String)
      → verify_stream prims secret now org cam site_id sid exp sig ≡ true
      → (is_past now exp ≡ false) × (stream_digest prims secret org cam site_id sid exp ≡ sig)
  unfolding verify_stream
  good_token org cam site_id sid exp sig h =
      ground (arith, h, eq_iff (stream_digest prims secret org cam site_id sid exp) sig)

  play-sent :
      (o : Option String) (info : PlaybackInfo)
      → play prims secret now q o ≡ sent info
      → (site_id : String) × (o ≡ some site_id)
        × (verify_stream prims secret now q.org q.cam site_id q.sid q.exp q.sig ≡ true)
  play-sent none info h = ground (arith, h)
  play-sent (some site_id) info h = (site_id, refl, ground (arith, h))

  play_as-sent :
      (ctx : RequestContext) (o : Option Membership) (w w' : World) (info : PlaybackInfo)
      → play_as prims secret now q ctx o w ≡ ok (sent info) w'
      → (m : Membership) × (o ≡ some m)
        × (is_active m.status ≡ true)
        × (w' ≡ w)
        × (play prims secret now q (truthy (camera_site (tenant_context ctx.user m) q.cam w))
            ≡ sent info)
  unfolding tenant_db with_tenant committed run_handlers
  play_as-sent ctx none w w' info h = ground (arith, h)
  play_as-sent ctx (some m) w w' info h = elim (Bool-cases (is_active m.status)) [
    | inr a ↦ ground (arith, a, h)
    | inl a ↦ (m, refl, ground (arith, a, h), ground (arith, a, h), ground (arith, a, h))
  ]

  -- Who is given a stream is an active member of the organization that the request names; the
  -- expiry has not passed, and the token is the digest of that organization, of a stored camera of
  -- it with the named id, of the site the camera stands in, of the session and of the expiry;
  -- nothing is stored.
  pub playback_sound :
      (dir : Directory) (ctx : RequestContext) (w w' : World) (info : PlaybackInfo)
      → playback prims secret now q dir ctx w ≡ ok (sent info) w'
      → ((member : MemberRow) × In member dir.members
          × (member.user_id ≡ ctx.user.id)
          × (member.organization_id ≡ q.org)
          × (is_active member.status ≡ true))
        × ((c : Camera) × In c w.cameras
            × (c.id ≡ q.cam)
            × (c.organization_id ≡ q.org)
            × (is_past now q.exp ≡ false)
            × (stream_digest prims secret q.org q.cam c.site_id q.sid q.exp ≡ q.sig))
        × (w' ≡ w)
  unfolding playback org_visible
  playback_sound dir ctx w w' info h =
      let (m, found, up, kept, played) =
        play_as-sent ctx (get_membership ctx.user.id q.org dir) w w' info h in
      let (member, stored, user, org, same, role, status) =
        get_membership-In ctx.user.id q.org dir found in
      let db = tenant_context ctx.user m in
      let (site_id, some_site, good) = play-sent _ info played in
      let (c, in_table, id, site, seen) =
        camera_site-In db q.cam w site_id (truthy-some _ _ some_site) in
      let visible : c.organization_id ≡ m.organization_id =
        ground (arith, seen, eq_iff c.organization_id m.organization_id) in
      (
        (member, stored, user, org, sym (ap is_active status) ∙ up),
        (
          c,
          in_table,
          id,
          visible ∙ same ∙ org,
          (good_token q.org q.cam site_id q.sid q.exp q.sig good).0,
          ap (λ s. stream_digest prims secret q.org q.cam s q.sid q.exp) site
              ∙ (good_token q.org q.cam site_id q.sid q.exp q.sig good).1,
        ),
        kept,
      )
