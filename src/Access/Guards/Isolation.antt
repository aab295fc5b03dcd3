-- ===== src/Access/Guards/Isolation.antt =====
-- What a tenant route's handle cannot reach.
use ai_cctv_platform.Common.{ℕ, ◌≡◌, ◌≢◌, refl, sym, ap, ◌∙◌, true, String, Option, some, none, In}
use ai_cctv_platform.Access.Rbac.{Permission}
use ai_cctv_platform.Access.Directory.{MemberRow, Directory, Primitives, passes}
use ai_cctv_platform.Access.Sessions.{AuthUser, Membership}
use ai_cctv_platform.Access.Guards.{RequestContext, is_active, admit, bind_tenant, tenant_db}
use ai_cctv_platform.Access.Guards.Admission.{admit_sound}
use ai_cctv_platform.Tenancy.World.{World}
use ai_cctv_platform.Tenancy.Rls.{TenantContext, Handler, world_of}
use ai_cctv_platform.Tenancy.Isolation.{view, Spares, Spares-throw}
use ai_cctv_platform.Tenancy.Isolation.Statements.{BoundElsewhere, with_tenant-Spares}

module _ {A : Type 0} (o : String) (fn : TenantContext → Handler A)
    (safe : (tc : TenantContext) → BoundElsewhere tc o → Spares o (fn tc)) where
  bind_tenant-Spares :
      (user : AuthUser) (membership : Option Membership)
      → ((m : Membership) → membership ≡ some m → m.organization_id ≢ o)
      → Spares o (bind_tenant user membership fn)
  bind_tenant-Spares user none apart = Spares-throw _
  bind_tenant-Spares user (some m) apart =
      with_tenant-Spares _ fn (safe _ (record { scoped = refl; apart = apart m refl }))

  -- A request that passes the checks of a tenant route leaves, whatever callback it runs on its
  -- handle, the state of every organization in which its user has no active membership, if the
  -- callback leaves it on every handle bound to another organization.
  pub admit_isolation :
      (prims : Primitives) (secret : String) (now : ℕ) (permission : Permission)
      (cookie : Option String) (dir : Directory) (ctx : RequestContext)
      → (admit prims secret now permission cookie dir).0 ≡ passes ctx
      → ((member : MemberRow)
          → In member dir.members
          → member.user_id ≡ ctx.user.id
          → is_active member.status ≡ true
          → member.organization_id ≢ o)
      → (w : World) → view o (world_of (tenant_db (some ctx) fn w)) ≡ view o w
  unfolding tenant_db
  admit_isolation prims secret now permission cookie dir ctx h stranger w =
      let a = admit_sound prims secret now permission cookie dir ctx h in
      let mine = a.of_user ∙ ap (λ u. u.id) (sym a.same_user) in
      (bind_tenant-Spares ctx.user ctx.membership (λ m e same.
          stranger a.member a.member_stored mine a.joined (sym (a.bound m e) ∙ same))).at
        w
