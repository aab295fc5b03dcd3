-- ===== src/Services/Notification.antt =====
-- server/src/services/notification.service.ts and audit.service.ts.
pub mod Isolation
use ai_cctv_platform.Common.{ℕ, ◌+◌, List, [], ◌∷◌, String, Option, ltb, if◌then◌else◌, ◌⧺◌}
use ai_cctv_platform.Ai.Types.{
  EventType, EventSeverity, info, low, medium, high, critical, type_name,
}
use ai_cctv_platform.Tenancy.World.{Notification, NotificationRule}
use ai_cctv_platform.Tenancy.Rls.{
  TenantContext, Handler, pure, gets, ◌>>=◌, ◌>>◌, select, insert_notification, insert_audit_log,
}

unfoldable pub severity_rank : EventSeverity → ℕ
severity_rank info = 0
severity_rank low = 1
severity_rank medium = 2
severity_rank high = 3
severity_rank critical = 4

unfoldable pub severity_name : EventSeverity → String
severity_name info = "INFO"
severity_name low = "LOW"
severity_name medium = "MEDIUM"
severity_name high = "HIGH"
severity_name critical = "CRITICAL"

module _ (ctx : TenantContext) (organization_id : String) where
  -- The body of the loop over the rules, and the loop, which counts what it sent.
  unfoldable pub send_all :
      String → EventSeverity → EventType → List NotificationRule → ℕ → Handler ℕ
  unfolding severity_rank severity_name type_name
  send_all event_id severity event_type [] sent = pure sent
  send_all event_id severity event_type (rule ∷ rules) sent =
      let row : Notification = record {
        organization_id = organization_id;
        event_id = event_id;
        notification_rule_id = rule.id;
        channel = rule.channel;
        target = rule.target;
        message = severity_name severity ⧺ " " ⧺ type_name event_type ⧺ " detected";
      } in
      let next =
        insert_notification ctx row >> send_all event_id severity event_type rules (sent + 1) in
      let skipped = send_all event_id severity event_type rules sent in
      if ltb (severity_rank severity) (severity_rank rule.min_severity) then skipped else next

  unfoldable pub dispatch_notifications : String → EventSeverity → EventType → Handler ℕ
  unfolding send_all select
  dispatch_notifications event_id severity event_type = do
    rules ← gets (λ w.
        select (λ (r : NotificationRule). r.organization_id) ctx (λ r. r.enabled)
          w.notification_rules)
    send_all event_id severity event_type rules 0

  unfoldable pub audit :
      Option String → String → String → Option String → Option String → Handler (Unit {0})
  audit user_id action resource resource_id ip = insert_audit_log ctx (record {
    organization_id = organization_id;
    user_id = user_id;
    action = action;
    resource = resource;
    resource_id = resource_id;
    ip = ip;
  })
