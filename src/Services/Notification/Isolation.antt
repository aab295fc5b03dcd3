-- ===== src/Services/Notification/Isolation.antt =====
-- Notifications and audit entries of one organization leave every other organization's state.
use ai_cctv_platform.Common.{ℕ, ◌+◌, String, Option, List, [], ◌∷◌, ltb}
use ai_cctv_platform.Ai.Types.{EventType, EventSeverity}
use ai_cctv_platform.Tenancy.World.{NotificationRule}
use ai_cctv_platform.Tenancy.Rls.{TenantContext}
use ai_cctv_platform.Tenancy.Isolation.{
  Spares, Spares-pure, Spares-gets, Spares-if, Spares-bind, Spares-seq,
}
use ai_cctv_platform.Tenancy.Isolation.Statements.{
  BoundElsewhere, insert_notification-Spares, insert_audit_log-Spares,
}
use ai_cctv_platform.Services.Notification.{severity_rank, send_all, dispatch_notifications, audit}

module _ {ctx : TenantContext} {o : String} (b : BoundElsewhere ctx o) (org : String) where
  send_all-Spares :
      (event_id : String) (severity : EventSeverity) (type : EventType)
      (rules : List NotificationRule) (sent : ℕ)
      → Spares o (send_all ctx org event_id severity type rules sent)
  unfolding send_all
  send_all-Spares event_id severity type [] sent = Spares-pure sent
  send_all-Spares event_id severity type (rule ∷ rules) sent =
      Spares-if (ltb (severity_rank severity) (severity_rank rule.min_severity))
        (send_all-Spares event_id severity type rules sent)
        (Spares-seq (insert_notification-Spares b _)
          (send_all-Spares event_id severity type rules (sent + 1)))

  pub dispatch_notifications-Spares :
      (event_id : String) (severity : EventSeverity) (type : EventType)
      → Spares o (dispatch_notifications ctx org event_id severity type)
  unfolding dispatch_notifications
  dispatch_notifications-Spares event_id severity type =
      Spares-bind (Spares-gets _) (λ rules. send_all-Spares event_id severity type rules 0)

  pub audit-Spares :
      (user_id : Option String) (action resource : String) (resource_id ip : Option String)
      → Spares o (audit ctx org user_id action resource resource_id ip)
  unfolding audit
  audit-Spares user_id action resource resource_id ip = insert_audit_log-Spares b _
