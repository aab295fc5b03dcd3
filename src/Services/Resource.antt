-- ===== src/Services/Resource.antt =====
-- server/src/services/resource.service.ts: one row of a tenant table by its id, or a 404.
pub mod Laws
mod Examples
use Prim.Native.Char.{code}
use Prim.Native.String.{[], ◌∷◌}
use ai_cctv_platform.Common.{
  ℕ, zero, suc, Bool, true, false, ◌&&◌, ◌||◌, not, String, Option, some, none, List, ◌==◌, ◌⧺◌,
  eqb, leb, first, includes, if◌then◌else◌,
}
use ai_cctv_platform.Access.Errors.{Error, other, not_found}
use ai_cctv_platform.Access.Directory.{Checked, passes, fails}
use ai_cctv_platform.Tenancy.Rls.{TenantContext, select}

unfoldable pub tenant_tables : List String
tenant_tables = List.◌∷◌ "sites" (
    List.◌∷◌ "zones" (
      List.◌∷◌ "cameras" (
        List.◌∷◌ "ai_rules" (
          List.◌∷◌ "events" (
            List.◌∷◌ "event_detections" (
              List.◌∷◌ "event_evidence" (
                List.◌∷◌ "notification_rules" (
                  List.◌∷◌ "notifications" (
                    List.◌∷◌ "reports" (
                      List.◌∷◌ "subscriptions" (
                        List.◌∷◌ "invoices" (
                          List.◌∷◌ "audit_logs" (
                            List.◌∷◌ "organization_members" (
                              List.◌∷◌ "ai_models" (
                                List.◌∷◌ "zone_schedules" (
                                  List.◌∷◌ "monitored_objects" (
                                    List.◌∷◌ "incident_notes" (
                                      List.◌∷◌ "alert_cooldowns" (
                                        List.◌∷◌ "camera_health_events"
                                          (List.◌∷◌ "inference_stats" List.[]))))))))))))))))))))

-- [0-9a-f], in either case.
unfoldable pub is_hex_digit : ℕ → Bool
is_hex_digit n = leb b'0' n && leb n b'9' || leb b'a' n && leb n b'f' || leb b'A' n && leb n b'F'

-- What follows `n` hex digits.
unfoldable pub after_hex : ℕ → String → Option String
unfolding is_hex_digit
after_hex zero s = some s
after_hex (suc n) [] = none
after_hex (suc n) (c ∷ s) = let rest = after_hex n s in if is_hex_digit (code c) then rest else none

abbrev pub after_dash : Option String → Option String
after_dash none = none
after_dash (some []) = none
after_dash (some (c ∷ s)) = if eqb (code c) b'-' then some s else none

abbrev pub then_hex : ℕ → Option String → Option String
then_hex n none = none
then_hex n (some s) = after_hex n s

abbrev pub is_end : Option String → Bool
is_end none = false
is_end (some s) = s == ""

unfoldable pub is_uuid : String → Bool
unfolding after_hex
is_uuid s = is_end (
    then_hex 12 (
      after_dash (
        then_hex 4
          (after_dash (then_hex 4 (after_dash (then_hex 4 (after_dash (after_hex 8 s)))))))))

module _ {Row : Type 0} (org row_id : Row → String) (ctx : TenantContext) where
  abbrev pub found_or_404 : Option Row → Checked Row
  found_or_404 none = fails (not_found "Not found")
  found_or_404 (some row) = passes row

  -- `rows` are the rows of the table that the name stands for.
  unfoldable pub require_tenant_resource : String → String → List Row → Checked Row
  unfolding tenant_tables is_uuid select
  require_tenant_resource table id rows =
      if not (includes tenant_tables table)
      then fails (other ("requireTenantResource: unknown table " ⧺ table))
      else if not (is_uuid id)
      then fails (not_found "Not found")
      else found_or_404 (first (select org ctx (λ r. row_id r == id) rows))
