-- ===== src/Services/Resource/Examples.antt =====
-- Tests of the lookup by id, and its theorems at concrete inputs. A row is its organization.
use ai_cctv_platform.Common.{◌≡◌, refl, true, false, String, [], ◌∷◌, In}
use ai_cctv_platform.Tenancy.Rls.{org_visible}
use ai_cctv_platform.Tenancy.Fixtures.{tenant_a}
use ai_cctv_platform.Services.Resource.{is_uuid, require_tenant_resource}
use ai_cctv_platform.Services.Resource.Laws.{require_tenant_resource_sound}

abbrev uuid : String
uuid = "0f8fad5b-d9cb-469f-a165-70867728950E"

abbrev row_a : String
row_a = "a"

abbrev row_b : String
row_b = "b"

abbrev org_of : String → String
org_of row = row

abbrev id_of : String → String
id_of row = uuid

malformed : is_uuid "0f8fad5b-d9cb-469f-a165-70867728950" ≡ false
unfolding is_uuid
malformed = refl

require_tenant_resource_sound_example :
    In row_a (row_b ∷ row_a ∷ [])
    × (id_of row_a ≡ uuid)
    × (org_visible tenant_a (org_of row_a) ≡ true)
unfolding require_tenant_resource org_visible
require_tenant_resource_sound_example =
    require_tenant_resource_sound org_of id_of tenant_a "cameras" uuid (row_b ∷ row_a ∷ []) row_a
      refl
