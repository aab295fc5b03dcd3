-- ===== src/Access/Guards/Examples.antt =====
-- Tests of the checks before a tenant route, and their theorems at concrete inputs.
use ai_cctv_platform.Common.{
  ◌≡◌, ◌≢◌, refl, true, false, String, some, [], ◌∷◌, In, here, there, arith, eq_iff,
}
use ai_cctv_platform.Access.Errors.{forbidden, unauthorized}
use ai_cctv_platform.Access.Rbac.{operator, events_handle, members_manage}
use ai_cctv_platform.Access.Directory.{UserRow, MemberRow, active, Directory, passes, fails}
use ai_cctv_platform.Access.Tokens.Examples.{prims}
use ai_cctv_platform.Access.Tokens.{verify_session_id}
use ai_cctv_platform.Access.Sessions.{auth_user, resolve_session, get_membership}
use ai_cctv_platform.Access.Guards.{RequestContext, is_active, admit}
use ai_cctv_platform.Access.Guards.Admission.{Admitted, admit_sound}
use ai_cctv_platform.Ai.Types.{resolved}
use ai_cctv_platform.Tenancy.Rls.{TenantContext, Handler, update_events}

abbrev pub user : UserRow
user = record {
  id = "u1";
  email = "o@a";
  full_name = "O";
  is_platform_admin = false;
  password_hash = "pw";
}

abbrev pub member : MemberRow
member = record { organization_id = "a"; user_id = "u1"; role = operator; status = active }

abbrev pub dir : Directory
dir = record {
  users = user ∷ [];
  organizations = record { id = "a"; name = "A"; slug = "a" } ∷ [];
  sessions = record { id = "s1"; user_id = "u1"; active_org_id = some "a"; expires_at = 500 } ∷ [];
  members = member ∷ [];
  issued = 1;
}

abbrev pub context : RequestContext
context = record {
  user = auth_user user;
  session_id = "s1";
  membership = some (record {
    organization_id = "a";
    organization_name = "A";
    organization_slug = "a";
    role = operator;
    status = active;
  });
}

pub admitted : (admit prims "k" 400 events_handle (some "s1.5e") dir).0 ≡ passes context
unfolding admit verify_session_id resolve_session get_membership
admitted = refl

forged :
    (admit prims "k" 400 events_handle (some "s1.7a") dir).0
    ≡ fails (unauthorized "Authentication required")
unfolding admit verify_session_id resolve_session get_membership
forged = refl

expired :
    (admit prims "k" 501 events_handle (some "s1.5e") dir).0
    ≡ fails (unauthorized "Session expired or invalid")
unfolding admit verify_session_id resolve_session get_membership
expired = refl

not_permitted :
    (admit prims "k" 400 members_manage (some "s1.5e") dir).0
    ≡ fails (forbidden "Your role (OPERATOR) lacks permission: members:manage")
unfolding admit verify_session_id resolve_session get_membership
not_permitted = refl

admit_sound_example : Admitted prims "k" 400 events_handle (some "s1.5e") dir context
admit_sound_example = admit_sound prims "k" 400 events_handle (some "s1.5e") dir context admitted

abbrev org_a : String
org_a = "a"

abbrev org_b : String
org_b = "b"

apart : org_a ≢ org_b
apart = ground (arith, eq_iff org_a org_b)

-- UPDATE events SET status = 'RESOLVED'.
abbrev resolve_all : TenantContext → Handler (Unit {0})
resolve_all tc = update_events tc (λ r. true) (λ r. record r { status = resolved })

only_a :
    (m : MemberRow)
    → In m dir.members
    → m.user_id ≡ "u1"
    → is_active m.status ≡ true
    → m.organization_id ≢ org_b
only_a m here own up = apart
only_a m (there rest) own up = elim rest [ ]
