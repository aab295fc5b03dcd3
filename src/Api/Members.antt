-- ===== src/Api/Members.antt =====
-- server/src/routes/members.routes.ts: members are invited, changed and removed. `users` is the
-- table of all organizations' users, which the route of invitations reads and writes unbound.
pub mod Laws
use ai_cctv_platform.Common.{
  ℕ, ◌+◌, String, Bool, true, false, Option, none, some, List, [], ◌∷◌, ◌++◌, ◌==◌, coalesce,
  is_some, find, first, any, if◌then◌else◌,
}
use ai_cctv_platform.Access.Errors.{conflict, bad_request}
use ai_cctv_platform.Access.Rbac.{OrgRole}
use ai_cctv_platform.Access.Directory.{UserRow, MemberStatus, invited}
use ai_cctv_platform.Tenancy.World.{World, Runtime, Clock, Member}
use ai_cctv_platform.Tenancy.Rls.{
  TenantContext, Run, ok, Handler, pure, throw, gets, ◌>>=◌, ◌>>◌, select, new_id, insert_member,
  update_members, delete_members,
}
use ai_cctv_platform.Services.Notification.{audit}
use ai_cctv_platform.Api.Rows.{returning, require_member}
use ai_cctv_platform.Api.Sites.{Caller}

module _ (rt : Runtime) where
  unfoldable pub select_user : String → World → Option UserRow
  select_user email w = find (λ (u : UserRow). rt.lower u.email == email) w.users

  unfoldable pub insert_user : String → Handler String
  unfolding new_id
  insert_user email = gets (λ w. w.issued) >>= λ draw. new_id rt >>= λ token. new_id rt >>= λ id.
      (λ w. ok id (record w {
        users =
            w.users
            ++ record {
              id = id;
              email = email;
              full_name = rt.before_at email;
              is_platform_admin = false;
              password_hash = rt.hash_random draw;
            }
              ∷ [];
      }))

  unfoldable pub user_or_new : String → Option UserRow → Handler String
  unfolding insert_user
  user_or_new email (some u) = pure u.id
  user_or_new email none = insert_user email

  -- The id of the user with an address, who is created where there is none.
  unfoldable pub resolve_user : String → Handler String
  unfolding select_user user_or_new
  resolve_user email = gets (select_user email) >>= λ u. user_or_new email u

module _ (rt : Runtime) (clock : Clock) (db : TenantContext) (caller : Caller) where
  unfoldable pub select_members : String → World → List Member
  unfolding select
  select_members user_id w =
      select (λ (m : Member). m.organization_id) db (λ m. m.user_id == user_id) w.members

  unfoldable pub new_member : String → String → OrgRole → Member
  new_member id user_id role = record {
    id = id;
    organization_id = caller.organization_id;
    user_id = user_id;
    role = role;
    status = invited;
    updated_at = clock.db_now;
  }

  -- The transaction of an invitation.
  unfoldable pub add_member : String → OrgRole → Handler Member
  unfolding select_members new_member
  add_member user_id role = do
    dup ← gets (select_members user_id)
    if is_some (first dup)
        then throw (conflict "User is already a member of this organization")
        else pure tt
    id ← new_id rt
    insert_member db (new_member id user_id role)
    audit db caller.organization_id (some caller.user_id) "member.invite" "member" (some id)
        caller.ip
    pure (new_member id user_id role)

  unfoldable pub patch_member : Option OrgRole → Option MemberStatus → Member → Member
  patch_member role status r = record r {
    role = coalesce role r.role;
    status = coalesce status r.status;
    updated_at = clock.db_now;
  }

  unfoldable pub update_member :
      String → Option OrgRole → Option MemberStatus → Handler (Option Member)
  unfolding require_member patch_member returning
  update_member id role status = do
    _ ← require_member db id
    update_members db (λ r. r.id == id) (patch_member role status)
    row ← gets (
        returning (λ r. r.organization_id) (λ r. r.id) "organization_members" (λ w. w.members) db
          id)
    audit db caller.organization_id none "member.update" "member" (some id) caller.ip
    pure row

  unfoldable pub remove_member : String → Handler (Unit {0})
  unfolding require_member
  remove_member id = require_member db id >>= λ m.
      if m.user_id == caller.user_id
      then throw (bad_request "You cannot remove yourself")
      else delete_members db (λ r. r.id == id)
        >> audit db caller.organization_id (some caller.user_id) "member.remove" "member" (some id)
            caller.ip

-- What the routes of members do in a transaction.
pub data MemberRequest : Type 0 where
  add : String → OrgRole → MemberRequest
  change : String → Option OrgRole → Option MemberStatus → MemberRequest
  remove : String → MemberRequest

unfoldable pub serve_member :
    Runtime → Clock → TenantContext → Caller → MemberRequest → Handler (Unit {0})
unfolding add_member update_member remove_member
serve_member rt clock db caller (add user_id role) =
    add_member rt clock db caller user_id role >>= λ m. pure tt
serve_member rt clock db caller (change id role status) =
    update_member rt clock db caller id role status >>= λ m. pure tt
serve_member rt clock db caller (remove id) = remove_member rt clock db caller id
