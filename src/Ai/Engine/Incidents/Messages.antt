-- ===== src/Ai/Engine/Incidents/Messages.antt =====
-- The messages of a detection: notifications, audit entries and news for the hub.
use ai_cctv_platform.Common.{
  ℕ, ◌≡◌, refl, ap, ◌∙◌, Bool, true, false, ◌||◌, String, Option, some, none, ◌++◌, List, [], ◌∷◌,
  length, if◌then◌else◌, map, arith,
}
use ai_cctv_platform.Ai.Types.{EventType, EventSeverity, critical, fire_and_smoke}
use ai_cctv_platform.Tenancy.World.{World, Runtime, Clock, AiRule, NotificationRule}
use ai_cctv_platform.Tenancy.Rls.{TenantContext, org_visible, select}
use ai_cctv_platform.Tenancy.Triples.{
  Yields, Yields-pure, Yields-bind, Yields-seq, Yields-if, Yields-weaken,
}
use ai_cctv_platform.Ai.Engine.{DetectionSignal, DetectionResult, severity_of, finish, raise_on}
use ai_cctv_platform.Ai.Engine.Alerts.{reached, due, notice, entry, message, Sent, alert-Sent}
use ai_cctv_platform.Ai.Engine.Silence.{
  Quiet, Quiet-refl, Quiet-trans, update_incident-Quiet, create_incident-Quiet,
  upsert_cooldown-Quiet,
}

abbrev pub action_of : Bool → String
action_of created = if created then "incident.create" else "incident.upgrade"

module _ (rt : Runtime) (clock : Clock) (ctx : TenantContext) (signal : DetectionSignal)
    (visible : org_visible ctx signal.organization_id ≡ true) where
  -- An alert is told to every rule that is due, in the audit log and on the hub, as what the
  -- answer says; without one nothing is told.
  pub record Told (w : World) (r : DetectionResult) (w' : World) : Type 0 where
    pub alert :
        r.alerted ≡ true
        → Sent ctx signal r.event_id r.event_type r.severity (action_of r.created) r.notified w w'
    pub silence : r.alerted ≡ false → Quiet w w' × (r.notified ≡ 0)

  -- What the answer names.
  pub record Named (rule : Option AiRule) (r : DetectionResult) : Type 0 where
    pub type :
        r.event_type ≡ (if r.upgraded_to_fire_and_smoke then fire_and_smoke else signal.event_type)
    pub severity :
        r.severity ≡ (if r.upgraded_to_fire_and_smoke then critical else severity_of rule signal)

  Sent-Quiet :
      {id action : String} {type : EventType} {severity : EventSeverity} {n : ℕ} {u v w : World}
      → Quiet u v
      → Sent ctx signal id type severity action n v w
      → Sent ctx signal id type severity action n u w
  Sent-Quiet {id} {action} {type} {severity} {n} {u} {v} q s =
      let over = λ (rules : List NotificationRule).
        reached severity
          (select (λ (r : NotificationRule). r.organization_id) ctx (λ r. r.enabled) rules) in
      record {
        notifications =
            s.notifications
            ∙ ap (λ rs. v.notifications ++ map (notice ctx signal id type severity) (over rs))
                q.rules
            ∙ ap (λ ns. ns ++ map (notice ctx signal id type severity) (due ctx signal severity u))
                q.notifications;
        notified = s.notified ∙ ap (λ rs. length (over rs)) q.rules;
        audit_logs = s.audit_logs ∙ ap (λ ls. ls ++ entry ctx signal id action ∷ []) q.audit_logs;
        published =
            s.published ∙ ap (λ ms. ms ++ message ctx signal id type severity ∷ []) q.published;
      }

  finish-Told :
      (rule : Option AiRule) (id : String) (is_new is_upgraded : Bool) (w : World)
      → Yields
          (finish rt clock ctx signal rule id is_new is_upgraded)
          w
          (λ r w'. Told w r w' × Named rule r)
  unfolding finish
  finish-Told rule id is_new is_upgraded w =
      let type = if is_upgraded then fire_and_smoke else signal.event_type in
      let severity = if is_upgraded then critical else severity_of rule signal in
      Yields-seq (upsert_cooldown-Quiet rt clock ctx signal visible _ id _ w) (λ v q.
        Yields-bind
          {P = λ n x.
            ((is_new || is_upgraded) ≡ true
              → Sent ctx signal id type severity (action_of is_new) n v x)
            × ((is_new || is_upgraded) ≡ false → Quiet v x × (n ≡ 0))}
          (Yields-if (is_new || is_upgraded)
            (λ e.
              Yields-weaken (alert-Sent rt clock ctx signal visible id type severity is_new v)
                (λ n x s. ((λ _. s), (λ f. ground (arith, e, f)))))
            (λ e. Yields-pure 0 ((λ f. ground (arith, e, f)), (λ _. (Quiet-refl v, refl)))))
          (λ n x p. Yields-pure _ (
            record {
              alert = λ e. Sent-Quiet q (p.0 e);
              silence = λ e. (Quiet-trans q (p.1 e).0, (p.1 e).1);
            },
            record { type = refl; severity = refl },
          )))

  Told-Quiet : {u v w : World} {r : DetectionResult} → Quiet u v → Told v r w → Told u r w
  Told-Quiet q t = record {
    alert = λ e. Sent-Quiet q (t.alert e);
    silence = λ e. (Quiet-trans q (t.silence e).0, (t.silence e).1);
  }

  pub raise_on-Told :
      (rule : Option AiRule) (w : World) (active : Option String)
      → Yields (raise_on rt clock ctx signal rule active) w (λ r w'. Told w r w' × Named rule r)
  unfolding raise_on
  raise_on-Told rule w none =
      Yields-bind (create_incident-Quiet rt clock ctx signal visible rule w) (λ id v q.
        Yields-weaken (finish-Told rule id true false v) (λ r x t. (Told-Quiet q t.0, t.1)))
  raise_on-Told rule w (some id) =
      Yields-bind (update_incident-Quiet rt clock ctx signal visible id w) (λ up v q.
        Yields-weaken (finish-Told rule id false up v) (λ r x t. (Told-Quiet q t.0, t.1)))
