-- ===== src/Access/Sessions.antt =====
-- server/src/services/auth.service.ts and server/src/services/membership.service.ts: who a session
-- belongs to, and what a user is in an organization.
pub mod Laws
mod Examples
use ai_cctv_platform.Common.{
  ℕ, ◌+◌, ◌*◌, Bool, true, false, ◌&&◌, not, String, Option, some, none, List, [], ◌∷◌, ◌++◌, ◌==◌,
  ltb, map, filter, find, join, if◌then◌else◌, coalesce,
}
use ai_cctv_platform.Access.Errors.{unauthorized}
use ai_cctv_platform.Access.Rbac.{OrgRole}
use ai_cctv_platform.Access.Directory.{
  UserRow, OrganizationRow, SessionRow, MemberStatus, MemberRow, Directory, Primitives, Checked,
  passes, fails,
}

pub record AuthUser : Type 0 where
  pub id : String
  pub email : String
  pub full_name : String
  pub is_platform_admin : Bool

pub record ResolvedSession : Type 0 where
  pub session_id : String
  pub user : AuthUser
  pub active_org_id : Option String

pub record Membership : Type 0 where
  pub organization_id : String
  pub organization_name : String
  pub organization_slug : String
  pub role : OrgRole
  pub status : MemberStatus

abbrev pub auth_user : UserRow → AuthUser
auth_user u = record {
  id = u.id;
  email = u.email;
  full_name = u.full_name;
  is_platform_admin = u.is_platform_admin;
}

-- The hash that a login of nobody is verified against.
abbrev pub dummy_hash : String
dummy_hash =
    "$argon2id$v=19$m=65536,t=3,p=4$AAAAAAAAAAAAAAAAAAAAAA$AAAAAAAAAAAAAAAAAAAAAAAAAAAAAAAAAAAAAAAAAAA"

unfoldable pub select_user : Primitives → String → Directory → Option UserRow
select_user prims email dir =
    find (λ (u : UserRow). prims.lower u.email == prims.normalize_email email) dir.users

abbrev pub hash_of : Option UserRow → String
hash_of none = dummy_hash
hash_of (some u) = u.password_hash

abbrev pub login_as : Option UserRow → Bool → Checked AuthUser
login_as none verified = fails (unauthorized "Invalid email or password")
login_as (some u) verified =
    if verified then passes (auth_user u) else fails (unauthorized "Invalid email or password")

unfoldable pub login : Primitives → String → String → Directory → Checked AuthUser
unfolding select_user
login prims email password dir =
    let row = select_user prims email dir in
    login_as row (prims.verify_password (hash_of row) password)

-- `ttl_hours` is the configured life of a session; `now` is `Date.now()`.
unfoldable pub create_session :
    Primitives → (ttl_hours now : ℕ) → String → Option String → Directory → String × Directory
create_session prims ttl_hours now user_id active_org_id dir =
    let id = prims.session_uuid dir.issued in
    let row : SessionRow = record {
      id = id;
      user_id = user_id;
      active_org_id = active_org_id;
      expires_at = now + ttl_hours * 3600 * 1000;
    } in
    (id, record dir { sessions = dir.sessions ++ row ∷ []; issued = dir.issued + 1 })

unfoldable pub destroy_session : String → Directory → Directory
destroy_session session_id dir = record dir {
  sessions = filter (λ (s : SessionRow). not (s.id == session_id)) dir.sessions;
}

unfoldable pub set_active_org : String → String → Directory → Directory
set_active_org session_id org_id dir = record dir {
  sessions =
      map
        (λ (s : SessionRow).
          if s.id == session_id then record s { active_org_id = some org_id } else s)
        dir.sessions;
}

-- sessions s JOIN users u ON u.id = s.user_id WHERE s.id = $1.
unfoldable pub select_session : String → Directory → Option (SessionRow × UserRow)
select_session session_id dir =
    find (λ (r : SessionRow × UserRow). r.1.id == r.0.user_id && r.0.id == session_id)
      (join dir.sessions dir.users)

-- The session that a row stands for, unless it has expired, and the tables after.
unfoldable pub resolve_row :
    ℕ → String → Option (SessionRow × UserRow) → Directory → Option ResolvedSession × Directory
unfolding destroy_session
resolve_row now session_id none dir = (none, dir)
resolve_row now session_id (some (s, u)) dir =
    if ltb s.expires_at now then (none, destroy_session session_id dir) else (
      some (record { session_id = s.id; user = auth_user u; active_org_id = s.active_org_id }),
      dir,
    )

unfoldable pub resolve_session : ℕ → String → Directory → Option ResolvedSession × Directory
unfolding select_session resolve_row
resolve_session now session_id dir = resolve_row now session_id (select_session session_id dir) dir

abbrev pub membership_of : Option (MemberRow × OrganizationRow) → Option Membership
membership_of none = none
membership_of (some (m, o)) = some (record {
  organization_id = m.organization_id;
  organization_name = o.name;
  organization_slug = o.slug;
  role = m.role;
  status = m.status;
})

unfoldable pub select_membership :
    String → String → Directory → Option (MemberRow × OrganizationRow)
select_membership user_id organization_id dir =
    find
      (λ (r : MemberRow × OrganizationRow).
        r.1.id == r.0.organization_id
        && (r.0.user_id == user_id && r.0.organization_id == organization_id))
      (join dir.members dir.organizations)

unfoldable pub get_membership : String → String → Directory → Option Membership
unfolding select_membership
get_membership user_id organization_id dir =
    membership_of (select_membership user_id organization_id dir)
