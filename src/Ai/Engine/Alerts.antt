-- ===== src/Ai/Engine/Alerts.antt =====
-- What an alert of the engine sends.
use mathlib.Core.List.{append-nil, append_assoc}
use ai_cctv_platform.Common.{
  ℕ, ◌+◌, ◌≡◌, refl, sym, ap, ◌∙◌, Bool, true, false, String, ◌⧺◌, some, List, [], ◌∷◌, ◌++◌,
  if◌then◌else◌, ltb, leb, length, filter, map, arith,
}
use ai_cctv_platform.Ai.Types.{EventType, EventSeverity, type_name}
use ai_cctv_platform.Tenancy.World.{
  World, Runtime, Clock, NotificationRule, Notification, AuditLog, Published, incident,
}
use ai_cctv_platform.Tenancy.Rls.{
  TenantContext, org_visible, select, insert_notification, insert_audit_log, publish,
}
use ai_cctv_platform.Tenancy.Triples.{
  Yields, Yields-pure, Yields-weaken, Yields-bind, Yields-seq, Yields-read, Yields-if, Yields-write,
  Yields-insert,
}
use ai_cctv_platform.Services.Notification.{
  severity_rank, severity_name, send_all, dispatch_notifications, audit,
}
use ai_cctv_platform.Ai.Engine.{DetectionSignal, realtime_type_for, alert}

-- The rules that a severity reaches.
abbrev pub reached : EventSeverity → List NotificationRule → List NotificationRule
reached severity rules =
    filter (λ (r : NotificationRule). leb (severity_rank r.min_severity) (severity_rank severity))
      rules

reached_low :
    (severity : EventSeverity) (rule : NotificationRule) (rules : List NotificationRule)
    → ltb (severity_rank severity) (severity_rank rule.min_severity) ≡ true
    → reached severity (rule ∷ rules) ≡ reached severity rules
reached_low severity rule rules h = ground (arith, h)

reached_high :
    (severity : EventSeverity) (rule : NotificationRule) (rules : List NotificationRule)
    → ltb (severity_rank severity) (severity_rank rule.min_severity) ≡ false
    → reached severity (rule ∷ rules) ≡ rule ∷ reached severity rules
reached_high severity rule rules h = ground (arith, h)

zero_add : (n : ℕ) → 0 + n ≡ n
zero_add n = omega arith

module _ (ctx : TenantContext) (signal : DetectionSignal) where
  -- The enabled rules of the organization that a severity reaches.
  abbrev pub due : EventSeverity → World → List NotificationRule
  due severity w = reached severity (
      select (λ (r : NotificationRule). r.organization_id) ctx (λ r. r.enabled)
        w.notification_rules)

  abbrev pub notice : String → EventType → EventSeverity → NotificationRule → Notification
  notice event_id type severity rule = record {
    organization_id = signal.organization_id;
    event_id = event_id;
    notification_rule_id = rule.id;
    channel = rule.channel;
    target = rule.target;
    message = severity_name severity ⧺ " " ⧺ type_name type ⧺ " detected";
  }

  abbrev pub entry : String → String → AuditLog
  entry event_id action = record {
    organization_id = signal.organization_id;
    user_id = signal.actor_user_id;
    action = action;
    resource = "event";
    resource_id = some event_id;
    ip = signal.ip;
  }

  abbrev pub message : String → EventType → EventSeverity → Published
  message event_id type severity = record {
    organization_id = signal.organization_id;
    kind = realtime_type_for type;
    payload = incident event_id type severity signal.camera_id;
  }

  -- One notification for each rule that is due, one audit entry, and one message to the hub.
  pub record Sent (event_id : String) (type : EventType) (severity : EventSeverity)
      (action : String) (n : ℕ) (w w' : World) : Type 0 where
    pub notifications :
        w'.notifications ≡ w.notifications ++ map (notice event_id type severity) (due severity w)
    pub notified : n ≡ length (due severity w)
    pub audit_logs : w'.audit_logs ≡ w.audit_logs ++ entry event_id action ∷ []
    pub published : w'.published ≡ w.published ++ message event_id type severity ∷ []

module _ (rt : Runtime) (clock : Clock) (ctx : TenantContext) (signal : DetectionSignal)
    (visible : org_visible ctx signal.organization_id ≡ true) where
  abbrev Noticed :
      String → EventType → EventSeverity → List NotificationRule → ℕ → World → ℕ → World → Type 0
  Noticed event_id type severity rules sent w n w' =
      (n ≡ sent + length (reached severity rules))
      × (w'.notifications
          ≡ w.notifications
            ++ map (notice ctx signal event_id type severity) (reached severity rules))
      × (w'.audit_logs ≡ w.audit_logs)
      × (w'.published ≡ w.published)

  send_all-Noticed :
      (event_id : String) (severity : EventSeverity) (type : EventType)
      (rules : List NotificationRule) (sent : ℕ) (w : World)
      → Yields
          (send_all ctx signal.organization_id event_id severity type rules sent)
          w
          (Noticed event_id type severity rules sent w)
  unfolding send_all insert_notification
  send_all-Noticed event_id severity type [] sent w =
      Yields-pure sent ((omega arith), sym (append-nil w.notifications), refl, refl)
  send_all-Noticed event_id severity type (rule ∷ rules) sent w =
      let tell = map (notice ctx signal event_id type severity) in
      Yields-if (ltb (severity_rank severity) (severity_rank rule.min_severity))
        (λ h.
          let e = sym (reached_low severity rule rules h) in
          Yields-weaken (send_all-Noticed event_id severity type rules sent w) (λ n w' p. (
            p.0 ∙ ap (λ rs. sent + length rs) e,
            p.1 ∙ ap (λ rs. w.notifications ++ tell rs) e,
            p.2,
            p.3,
          )))
        (λ h.
          let e = sym (reached_high severity rule rules h) in
          Yields-seq
            {P = λ v.
              (v.notifications
                ≡ w.notifications ++ notice ctx signal event_id type severity rule ∷ [])
              × (v.audit_logs ≡ w.audit_logs)
              × (v.published ≡ w.published)}
            (Yields-insert ctx _ w _ visible (refl, refl, refl))
            (λ v q.
              Yields-weaken (send_all-Noticed event_id severity type rules (sent + 1) v) (λ n w' p.
                (
                  (omega (arith, p.0, ap (λ (rs : List NotificationRule). length rs) e)),
                  p.1
                      ∙ ap (λ ns. ns ++ tell (reached severity rules)) q.0
                      ∙ append_assoc w.notifications
                          (notice ctx signal event_id type severity rule ∷ [])
                          (tell (reached severity rules))
                      ∙ ap (λ rs. w.notifications ++ tell rs) e,
                  p.2 ∙ q.1,
                  p.3 ∙ q.2,
                ))))

  pub alert-Sent :
      (event_id : String) (type : EventType) (severity : EventSeverity) (created : Bool) (w : World)
      → Yields (alert rt clock ctx signal event_id type severity created) w (λ n w'.
        Sent ctx signal event_id type severity
          (if created then "incident.create" else "incident.upgrade")
          n
          w
          w')
  unfolding alert dispatch_notifications audit insert_audit_log publish
  alert-Sent event_id type severity created w =
      let row =
        entry ctx signal event_id (if created then "incident.create" else "incident.upgrade") in
      let news = message ctx signal event_id type severity in
      Yields-bind (Yields-read _ _ (send_all-Noticed event_id severity type _ 0 w)) (λ n w' p.
        Yields-seq
          {P = λ v.
            (v.notifications ≡ w'.notifications)
            × (v.audit_logs ≡ w'.audit_logs ++ row ∷ [])
            × (v.published ≡ w'.published)}
          (Yields-insert ctx _ w' _ visible (refl, refl, refl))
          (λ v q.
            Yields-seq
              {P = λ x.
                (x.notifications ≡ v.notifications)
                × (x.audit_logs ≡ v.audit_logs)
                × (x.published ≡ v.published ++ news ∷ [])}
              (Yields-write _ refl (refl, refl, refl))
              (λ x r. Yields-pure n (record {
                notifications = r.0 ∙ q.0 ∙ p.1;
                notified = p.0 ∙ zero_add _;
                audit_logs = r.1 ∙ q.1 ∙ ap (λ ls. ls ++ row ∷ []) p.2;
                published = r.2 ∙ ap (λ ms. ms ++ news ∷ []) (q.2 ∙ p.3);
              }))))
