-- ===== src/Tenancy/Rls/Examples.antt =====
-- The theorem on unbound handles at a concrete input. A row is its organization.
use ai_cctv_platform.Common.{String}

abbrev org_of : String → String
org_of row = row
