-- ===== src/Access/Directory.antt =====
-- The tables behind sessions and memberships (server/src/db/migrations/0001_init.sql): users,
-- organizations, sessions and organization_members, and what Node's libraries provide.
use ai_cctv_platform.Common.{ℕ, Bool, String, Option, List}
use ai_cctv_platform.Access.Errors.{Error}
use ai_cctv_platform.Access.Rbac.{OrgRole}

pub record UserRow : Type 0 where
  pub id : String
  pub email : String
  pub full_name : String
  pub is_platform_admin : Bool
  pub password_hash : String

pub record OrganizationRow : Type 0 where
  pub id : String
  pub name : String
  pub slug : String

pub record SessionRow : Type 0 where
  pub id : String
  pub user_id : String
  pub active_org_id : Option String
  pub expires_at : ℕ

pub data MemberStatus : Type 0 where
  active invited suspended : MemberStatus

pub record MemberRow : Type 0 where
  pub organization_id : String
  pub user_id : String
  pub role : OrgRole
  pub status : MemberStatus

pub record Directory : Type 0 where
  pub users : List UserRow
  pub organizations : List OrganizationRow
  pub sessions : List SessionRow
  pub members : List MemberRow
  pub issued : ℕ  -- how many session ids were given out

-- The libraries' part: `createHmac('sha256', key).update(text).digest('hex')`,
-- `Buffer.from(text, 'hex')`, argon2's verification, the decimal form of a number, `trim().toLowerCase()`, SQL's `lower`, and
-- the ids of new sessions.
pub record Primitives : Type 0 where
  pub hmac : String → String → String
  pub from_hex : String → List ℕ
  pub verify_password : String → String → Bool
  pub normalize_email : String → String
  pub lower : String → String
  pub decimal : ℕ → String
  pub session_uuid : ℕ → String

-- What a middleware does with a request: it goes on with an answer, or it passes an error on.
pub data Checked {ℓ} (A : Type ℓ) : Type ℓ where
  passes : A → Checked A
  fails : Error → Checked A
