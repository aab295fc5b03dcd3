-- ===== src/Access/Guards/Admission.antt =====
-- What a request that passes the checks of a tenant route has shown.
use mathlib.Core.Option.{some-injective, none-ne-some, some-ne-none}
use mathlib.Core.Path.{subst}
use ai_cctv_platform.Common.{
  ℕ, ◌≤◌, ◌≡◌, refl, sym, ap, ◌∙◌, Bool, true, String, Option, some, none, eq_iff, truthy,
  Bool-cases, Option-cases, inl, inr, arith, In, find-In, join, In-join, if◌then◌else◌, ltb,
}
use ai_cctv_platform.Access.Rbac.{Permission, role_has_permission}
use ai_cctv_platform.Access.Directory.{
  UserRow, SessionRow, MemberRow, Directory, Primitives, Checked, passes, fails,
}
use ai_cctv_platform.Access.Sessions.{
  auth_user, ResolvedSession, Membership, membership_of, select_session, resolve_row,
  resolve_session, destroy_session, select_membership, get_membership,
}
use ai_cctv_platform.Access.Guards.{
  RequestContext, is_active, read_session_cookie, active_only, membership_in, context_of,
  authenticate, require_auth, active_member, require_organization_membership, permitted,
  require_permission, kept, followed, admit,
}

passes-injective : {A : Type 0} {a b : A} → passes a ≡ passes b → a ≡ b
passes-injective h = ground arith

kept-passes :
    (c : Checked Membership) {ctx' ctx : RequestContext}
    → kept ctx' c ≡ passes ctx
    → (ctx' ≡ ctx) × ((m : Membership) × (c ≡ passes m))
kept-passes (fails e) h = ground arith
kept-passes (passes m) {ctx'} {ctx} h = (ground arith, (m, refl))

followed-passes :
    (c : Checked RequestContext) (k : RequestContext → Checked Membership) {ctx : RequestContext}
    → followed c k ≡ passes ctx
    → (c ≡ passes ctx) × ((m : Membership) × (k ctx ≡ passes m))
followed-passes (fails e) k h = ground arith
followed-passes (passes ctx') k {ctx} h =
    let (same, (m, e)) = kept-passes (k ctx') h in (ap passes same, (m, ap k (sym same) ∙ e))

permitted-passes :
    (p : Permission) (o : Option Membership) {m : Membership}
    → permitted p o ≡ passes m
    → (o ≡ some m) × (role_has_permission m.role p ≡ true)
permitted-passes p none h = ground arith
permitted-passes p (some m') h = ground arith

active_member-passes :
    (o : Option Membership) {m : Membership}
    → active_member o ≡ passes m
    → (o ≡ some m) × (is_active m.status ≡ true)
active_member-passes none h = ground arith
active_member-passes (some m') h = ground arith

truthy-some : (o : Option String) {s : String} → truthy o ≡ some s → o ≡ some s
truthy-some none h = h
truthy-some (some s') h = ground arith

resolve_row-some :
    (now : ℕ) (session_id : String) (row : Option (SessionRow × UserRow)) (dir : Directory)
    {r : ResolvedSession}
    → (resolve_row now session_id row dir).0 ≡ some r
    → (s : SessionRow) × (u : UserRow) × (row ≡ some (s, u))
      × (now ≤ s.expires_at)
      × (r ≡ record { session_id = s.id; user = auth_user u; active_org_id = s.active_org_id })
unfolding resolve_row
resolve_row-some now session_id none dir {r} h = absurd (none-ne-some r h)
resolve_row-some now session_id (some (s, u)) dir {r} h = elim (Bool-cases (ltb s.expires_at now)) [
  | inl e ↦ absurd (some-ne-none r (sym h ∙ ap (λ b. (pick b).0) e))
  | inr e ↦
      (s, u, refl, ground (arith, e), sym (some-injective _ r (sym (ap (λ b. (pick b).0) e) ∙ h)))
]
  where
    pick : Bool → Option ResolvedSession × Directory
    pick b = if b then (none, destroy_session session_id dir) else (
      some (record { session_id = s.id; user = auth_user u; active_org_id = s.active_org_id }),
      dir,
    )

context_of-passes :
    (o : Option ResolvedSession) (dir : Directory) {ctx : RequestContext}
    → (context_of (o, dir)).0 ≡ passes ctx
    → (r : ResolvedSession) × (o ≡ some r)
      × (ctx.user ≡ r.user)
      × (ctx.session_id ≡ r.session_id)
      × (ctx.membership ≡ membership_in r.user.id (truthy r.active_org_id) dir)
unfolding context_of
context_of-passes none dir h = ground arith
context_of-passes (some r) dir h =
    let same = passes-injective h in
    (
      r,
      refl,
      ap (λ c. c.user) (sym same),
      ap (λ c. c.session_id) (sym same),
      ap (λ c. c.membership) (sym same),
    )

active_only-some :
    (o : Option Membership) {m : Membership}
    → active_only o ≡ some m
    → (o ≡ some m) × (is_active m.status ≡ true)
unfolding active_only
active_only-some none h = ground arith
active_only-some (some m') h = ground arith

membership_in-some :
    (user_id : String) (org : Option String) (dir : Directory) {m : Membership}
    → membership_in user_id org dir ≡ some m
    → (o : String) × (org ≡ some o)
      × (get_membership user_id o dir ≡ some m)
      × (is_active m.status ≡ true)
unfolding membership_in active_only
membership_in-some user_id none dir {m} h = absurd (none-ne-some m h)
membership_in-some user_id (some o) dir h =
    let (found, up) = active_only-some (get_membership user_id o dir) h in (o, refl, found, up)

-- What stands in the tables behind a request: the session that its cookie names, the session's
-- user, and that user's active membership with a role that holds the permission.
pub record Admitted (prims : Primitives) (secret : String) (now : ℕ) (permission : Permission)
    (cookie : Option String) (dir : Directory) (ctx : RequestContext) : Type 0 where
  pub session : SessionRow
  pub user : UserRow
  pub member : MemberRow
  pub session_stored : In session dir.sessions
  pub user_stored : In user dir.users
  pub member_stored : In member dir.members
  pub named : read_session_cookie prims secret cookie ≡ some session.id
  pub lasts : now ≤ session.expires_at
  pub of_session : user.id ≡ session.user_id
  pub of_user : member.user_id ≡ user.id
  pub selected : session.active_org_id ≡ some member.organization_id
  pub joined : is_active member.status ≡ true
  pub permits : role_has_permission member.role permission ≡ true
  pub same_user : ctx.user ≡ auth_user user
  pub bound :
      (m : Membership) → ctx.membership ≡ some m → m.organization_id ≡ member.organization_id

select_session-In :
    (session_id : String) (dir : Directory) {s : SessionRow} {u : UserRow}
    → select_session session_id dir ≡ some (s, u)
    → In s dir.sessions × In u dir.users × (u.id ≡ s.user_id) × (s.id ≡ session_id)
unfolding select_session
select_session-In session_id dir {s} {u} h =
    let (stored, test) = find-In _ (join dir.sessions dir.users) h in
    let (hs, hu) = In-join dir.sessions dir.users stored in
    let e : (u.id ≡ s.user_id) × (s.id ≡ session_id) =
      ground (arith, test, eq_iff u.id s.user_id, eq_iff s.id session_id) in
    (hs, hu, e.0, e.1)

pub get_membership-In :
    (user_id organization_id : String) (dir : Directory) {m : Membership}
    → get_membership user_id organization_id dir ≡ some m
    → (member : MemberRow) × In member dir.members
      × (member.user_id ≡ user_id)
      × (member.organization_id ≡ organization_id)
      × (m.organization_id ≡ member.organization_id)
      × (m.role ≡ member.role)
      × (m.status ≡ member.status)
unfolding get_membership select_membership
get_membership-In user_id organization_id dir {m} h =
    elim (Option-cases (select_membership user_id organization_id dir)) [
      | inl e ↦ absurd (none-ne-some m (sym (ap membership_of e) ∙ h))
      | inr ((member, org), e) ↦
          let same = some-injective _ m (sym (ap membership_of e) ∙ h) in
          let (stored, test) = find-In _ (join dir.members dir.organizations) e in
          let t : (member.user_id ≡ user_id) × (member.organization_id ≡ organization_id) = ground (
            arith,
            test,
            eq_iff member.user_id user_id,
            eq_iff member.organization_id organization_id,
          ) in
          (
            member,
            (In-join dir.members dir.organizations stored).0,
            t.0,
            t.1,
            ap (λ k. k.organization_id) (sym same),
            ap (λ k. k.role) (sym same),
            ap (λ k. k.status) (sym same),
          )
    ]

authenticate-passes :
    (now : ℕ) (sid : Option String) (dir : Directory) {ctx : RequestContext}
    → (authenticate now sid dir).0 ≡ passes ctx
    → (session_id : String) × (s : SessionRow) × (u : UserRow) × (sid ≡ some session_id)
      × (select_session session_id dir ≡ some (s, u))
      × (now ≤ s.expires_at)
      × (ctx.user ≡ auth_user u)
      × (ctx.membership
          ≡ membership_in u.id (truthy s.active_org_id) (resolve_session now session_id dir).1)
unfolding authenticate resolve_session
authenticate-passes now none dir h = ground arith
authenticate-passes now (some session_id) dir h =
    let (r, e, user, _, membership) =
      context_of-passes (resolve_session now session_id dir).0
        (resolve_session now session_id dir).1 h in
    let (s, u, row, lasts, same) =
      resolve_row-some now session_id (select_session session_id dir) dir e in
    (
      session_id,
      s,
      u,
      refl,
      row,
      lasts,
      user ∙ ap (λ r. r.user) same,
      membership
          ∙ ap
              (λ r.
                membership_in r.user.id (truthy r.active_org_id)
                  (resolve_session now session_id dir).1)
              same,
    )

-- Dropping an expired session leaves the memberships.
resolve_row_members :
    (now : ℕ) (session_id : String) (row : Option (SessionRow × UserRow)) (dir : Directory)
    → (resolve_row now session_id row dir).1.members ≡ dir.members
unfolding resolve_row destroy_session
resolve_row_members now session_id none dir = refl
resolve_row_members now session_id (some (s, u)) dir = ground arith

module _ (prims : Primitives) (secret : String) (now : ℕ) (permission : Permission)
    (cookie : Option String) (dir : Directory) where
  -- A request that the chain of a tenant route lets through carries a cookie that names a stored
  -- session, which has not expired, of a stored user, whose membership in the session's active
  -- organization is stored, ACTIVE, and of a role that holds the permission; the context's
  -- organization is that one.
  pub admit_sound :
      (ctx : RequestContext)
      → (admit prims secret now permission cookie dir).0 ≡ passes ctx
      → Admitted prims secret now permission cookie dir ctx
  unfolding admit require_auth require_organization_membership require_permission resolve_session
  admit_sound ctx h =
      let (h₁, (m, e)) = followed-passes _ _ h in
      let (h₂, _) = followed-passes _ _ h₁ in
      let (membership, permits) = permitted-passes permission ctx.membership e in
      let (id, s, u, sid, row, lasts, user, kept_as) =
        authenticate-passes now (truthy (read_session_cookie prims secret cookie)) dir h₂ in
      let (org, org_e, found, up) =
        membership_in-some u.id (truthy s.active_org_id) (resolve_session now id dir).1
          (sym kept_as ∙ membership) in
      let (hs, hu, own, s_id) = select_session-In id dir row in
      let (member, hm, of_user, of_org, m_org, m_role, m_status) =
        get_membership-In u.id org (resolve_session now id dir).1 found in
      record {
        session = s;
        user = u;
        member = member;
        session_stored = hs;
        user_stored = hu;
        member_stored =
            subst (In member) (resolve_row_members now id (select_session id dir) dir) hm;
        named = truthy-some _ sid ∙ ap some (sym s_id);
        lasts = lasts;
        of_session = own;
        of_user = of_user;
        selected = truthy-some s.active_org_id org_e ∙ ap some (sym of_org);
        joined = ap is_active (sym m_status) ∙ up;
        permits = ap (λ r. role_has_permission r permission) (sym m_role) ∙ permits;
        same_user = user;
        bound = λ m' e'.
            ap (λ k. k.organization_id) (some-injective m' m (sym e' ∙ membership)) ∙ m_org;
      }
