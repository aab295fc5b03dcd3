-- ===== src/Api/Requests/Isolation.antt =====
-- What no request of another organization's member can change.
use mathlib.Core.Path.{subst}
use ai_cctv_platform.Common.{
  ◌≡◌, ◌≢◌, refl, sym, ap, ◌∙◌, true, String, Option, none, some, Lacks, In, arith,
}
use ai_cctv_platform.Access.Directory.{MemberRow, Directory, Checked, passes, fails}
use ai_cctv_platform.Access.Sessions.{Membership}
use ai_cctv_platform.Access.Guards.{
  RequestContext, is_active, admit, tenant_db, bind_tenant, tenant_context, organization_of,
  get_current_organization,
}
use ai_cctv_platform.Access.Guards.Admission.{admit_sound}
use ai_cctv_platform.Tenancy.World.{World, Runtime, Clock}
use ai_cctv_platform.Tenancy.Rls.{TenantContext, Handler, world_of, ◌>>=◌}
use ai_cctv_platform.Tenancy.Isolation.{
  view, Spares, Spares-pure, Spares-throw, Spares-if, Spares-bind, Spares-seq,
}
use ai_cctv_platform.Tenancy.Isolation.Statements.{with_tenant-Spares}
use ai_cctv_platform.Api.Rows.{raised}
use ai_cctv_platform.Api.Sites.{Caller, create_site-Spares, update_site-Spares, create_zone-Spares}
use ai_cctv_platform.Api.Isolation.{
  IsApart, create_camera-Spares, update_camera-Spares, add_member-Spares, update_member-Spares,
  remove_member-Spares, update_status-Spares, add_note-Spares, evidence_url-Spares,
  resolve_user-Spares, ingest_safety-Spares, ingest_base-Spares, announce-Spares,
}
use ai_cctv_platform.Api.Requests.{
  TenantRequest, site_create, site_update, zone_create, camera_create, camera_update, member_invite,
  member_update, member_remove, event_status, event_note, event_evidence, event_ingest,
  permission_of, Signing, in_tenant, Answer, route, serve, answered, handle,
}

organization_of-member :
    (membership : Option Membership) (org : String) (m : Membership)
    → organization_of membership ≡ passes org
    → membership ≡ some m
    → m.organization_id ≡ org
organization_of-member none org m h e = ground (arith, e)
organization_of-member (some n) org m h e = ground (arith, h, e, ap (λ x. organization_of x) e)

member_of :
    (membership : Option Membership) (org : String)
    → organization_of membership ≡ passes org
    → (m : Membership) × (membership ≡ some m)
member_of none org h = ground (arith, h)
member_of (some m) org h = (m, refl)

module _ (rt : Runtime) (clock : Clock) (signing : Signing) (ctx : RequestContext)
    {o : String} where
  bind-Spares :
      {A : Type 0} (fn : TenantContext → Handler A) (membership : Option Membership)
      → ((m : Membership) → membership ≡ some m → Spares o (fn (tenant_context ctx.user m)))
      → Spares o (bind_tenant ctx.user membership fn)
  bind-Spares fn none safe = Spares-throw _
  bind-Spares fn (some m) safe = with_tenant-Spares _ fn (safe m refl)

  module _ (caller : Caller)
      (f : (m : Membership)
        → ctx.membership ≡ some m
        → IsApart (tenant_context ctx.user m) caller.organization_id o)
      (apart : caller.organization_id ≢ o) where
    in_tenant-Spares :
        {A : Type 0} (fn : TenantContext → Handler A) (answer : A → Handler Answer)
        → ((db : TenantContext) → IsApart db caller.organization_id o → Spares o (fn db))
        → ((a : A) → Spares o (answer a))
        → Spares o (in_tenant rt clock signing ctx fn answer)
    unfolding tenant_db
    in_tenant-Spares fn answer safe after =
        Spares-bind (bind-Spares fn ctx.membership (λ m e. safe _ (f m e))) after

    route-Spares : (request : TenantRequest) → Spares o (route rt clock signing ctx caller request)
    unfolding route
    route-Spares (site_create input) =
        in_tenant-Spares _ _ (λ db a. create_site-Spares rt clock db caller a.bound input)
          (λ r. Spares-pure _)
    route-Spares (site_update id input) =
        in_tenant-Spares _ _ (λ db a. update_site-Spares rt clock db caller a.bound id input)
          (λ r. Spares-pure _)
    route-Spares (zone_create input) =
        in_tenant-Spares _ _ (λ db a. create_zone-Spares rt clock db caller a.bound input)
          (λ r. Spares-pure _)
    route-Spares (camera_create input) =
        in_tenant-Spares _ _ (λ db a. create_camera-Spares rt clock caller a.bound input)
          (λ r. Spares-pure _)
    route-Spares (camera_update id input) =
        in_tenant-Spares _ _ (λ db a. update_camera-Spares rt clock caller a.bound id input)
          (λ r. Spares-pure _)
    route-Spares (member_invite email role) = Spares-bind (resolve_user-Spares rt _) (λ user_id.
        in_tenant-Spares _ _ (λ db a. add_member-Spares rt clock caller a.bound user_id role)
          (λ r. Spares-pure _))
    route-Spares (member_update id role status) =
        in_tenant-Spares _ _ (λ db a. update_member-Spares rt clock caller a.bound id role status)
          (λ r. Spares-pure _)
    route-Spares (member_remove id) =
        in_tenant-Spares _ _ (λ db a. remove_member-Spares rt clock caller a.bound id)
          (λ r. Spares-pure _)
    route-Spares (event_status id status) =
        in_tenant-Spares _ _ (λ db a. update_status-Spares rt clock caller a.bound id status)
          (λ r. Spares-pure _)
    route-Spares (event_note id text) =
        in_tenant-Spares _ _ (λ db a. add_note-Spares rt clock caller a.bound id text)
          (λ r. Spares-pure _)
    route-Spares (event_evidence id evidence_id) =
        in_tenant-Spares _ _
          (λ db a.
            evidence_url-Spares rt clock caller a.bound signing.prims signing.key signing.ttl id
              evidence_id)
          (λ r. Spares-pure _)
    route-Spares (event_ingest input) =
        Spares-if _
          (in_tenant-Spares _ _ (λ db a. ingest_safety-Spares rt clock caller a input)
            (λ r. Spares-pure _))
          (in_tenant-Spares _ _ (λ db a. ingest_base-Spares rt clock caller a input)
            (λ r. Spares-seq (announce-Spares _ r apart) (Spares-pure _)))

  raised-Spares :
      {A B : Type 0} (c : Checked A) (k : A → Handler B)
      → ((a : A) → c ≡ passes a → Spares o (k a))
      → Spares o (raised c >>= k)
  unfolding ◌>>=◌
  raised-Spares (fails e) k h = record { at = λ w. refl }
  raised-Spares (passes a) k h = record { at = λ w. (h a refl).at w }

  serve-Spares :
      ((m : Membership)
        → ctx.membership ≡ some m
        → (m.organization_id ≢ o) × Lacks b'/' m.organization_id)
      → Lacks b'/' o
      → (ip : Option String) (request : TenantRequest)
      → Spares o (serve rt clock signing ctx ip request)
  unfolding serve get_current_organization
  serve-Spares members plain_other ip request = raised-Spares _ _ (λ org h.
      let (m, e) = member_of ctx.membership org h in
      let same : m.organization_id ≡ org = organization_of-member ctx.membership org m h e in
      route-Spares _
        (λ n en. record {
          bound = record { scoped = refl; apart = (members n en).0 };
          same = organization_of-member ctx.membership org n h en;
          plain = subst (Lacks b'/') same (members m e).1;
          plain_other = plain_other;
        })
        (λ eq. (members m e).0 (same ∙ eq)) request)

module _ (rt : Runtime) (clock : Clock) (signing : Signing) (secret : String)
    (cookie : Option String) (dir : Directory) (o : String)
    (plain : (member : MemberRow) → In member dir.members → Lacks b'/' member.organization_id)
    (plain_other : Lacks b'/' o) (ip : Option String) (request : TenantRequest) where
  admitted : Checked RequestContext
  admitted = (admit signing.prims secret clock.date_now (permission_of request) cookie dir).0

  answered-Spares :
      (c : Checked RequestContext)
      → admitted ≡ c
      → ((ctx : RequestContext) (member : MemberRow)
          → admitted ≡ passes ctx
          → In member dir.members
          → member.user_id ≡ ctx.user.id
          → is_active member.status ≡ true
          → member.organization_id ≢ o)
      → Spares o (answered rt clock signing c ip request)
  unfolding admitted
  answered-Spares (fails e) h stranger = Spares-throw e
  answered-Spares (passes ctx) h stranger =
      let a =
        admit_sound signing.prims secret clock.date_now (permission_of request) cookie dir ctx h in
      let apart =
        stranger ctx a.member h a.member_stored (a.of_user ∙ ap (λ u. u.id) (sym a.same_user))
          a.joined in
      serve-Spares rt clock signing ctx
        (λ m e. (
          (λ same. apart (sym (a.bound m e) ∙ same)),
          subst (Lacks b'/') (sym (a.bound m e)) (plain a.member a.member_stored),
        ))
        plain_other ip request

  -- Whatever request comes with whatever cookie, from admission to the last message, and also where
  -- it is refused, what an organization owns stays as it was, if the user whom the cookie admits is
  -- not an active member of it, for organization ids without slashes.
  pub handle-isolation :
      ((ctx : RequestContext) (member : MemberRow)
        → (admit signing.prims secret clock.date_now (permission_of request) cookie dir).0
          ≡ passes ctx
        → In member dir.members
        → member.user_id ≡ ctx.user.id
        → is_active member.status ≡ true
        → member.organization_id ≢ o)
      → (w : World)
      → view o (world_of (handle rt clock signing secret cookie dir ip request w)) ≡ view o w
  unfolding handle admitted
  handle-isolation stranger w = (answered-Spares _ refl stranger).at w
