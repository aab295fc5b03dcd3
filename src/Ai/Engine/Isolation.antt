-- ===== src/Ai/Engine/Isolation.antt =====
-- A detection of one organization leaves every other organization's rows, objects and messages.
use ai_cctv_platform.Common.{
  ◌≡◌, refl, ◌∙◌, ◌≢◌, Bool, true, false, String, Option, some, none, Lacks, ◌||◌, ℕ,
}
use ai_cctv_platform.Ai.Types.{EventType, EventSeverity}
use ai_cctv_platform.Tenancy.World.{World, Runtime, Clock, AiRule}
use ai_cctv_platform.Tenancy.Rls.{TenantContext, world_of}
use ai_cctv_platform.Tenancy.Isolation.{
  view, Spares, Spares-pure, Spares-throw, Spares-gets, Spares-if, Spares-when, Spares-bind,
  Spares-seq,
}
use ai_cctv_platform.Tenancy.Isolation.Statements.{
  BoundElsewhere, insert_event-Spares, insert_cooldown-Spares, update_events-Spares,
  update_cooldowns-Spares, new_id-Spares, publish-Spares,
}
use ai_cctv_platform.Services.Evidence.{store_evidence-Spares}
use ai_cctv_platform.Services.Notification.Isolation.{dispatch_notifications-Spares, audit-Spares}
use ai_cctv_platform.Ai.Engine.{
  DetectionSignal, attach_evidence, maybe_attach, maybe_attach_evidence, correlate, update_incident,
  create_incident, upsert_cooldown, alert, finish, raise_on, raise_incident, process_detection,
}

-- The handle is bound to the signal's organization, which is not `o`; ids hold no slash.
pub record IsForeign (ctx : TenantContext) (signal : DetectionSignal) (o : String) : Type 0 where
  pub bound : BoundElsewhere ctx o
  pub same : ctx.organization_id ≡ signal.organization_id
  pub plain : Lacks b'/' signal.organization_id
  pub plain_other : Lacks b'/' o

module _ (rt : Runtime) (clock : Clock) (ctx : TenantContext) (signal : DetectionSignal)
    {o : String} (f : IsForeign ctx signal o) where
  apart : signal.organization_id ≢ o
  apart e = f.bound.apart (f.same ∙ e)

  maybe_attach-Spares :
      (snapshot : Option String) (event_id : String)
      → Spares o (maybe_attach rt clock ctx signal snapshot event_id)
  unfolding maybe_attach attach_evidence
  maybe_attach-Spares none event_id = Spares-pure tt
  maybe_attach-Spares (some content) event_id =
      store_evidence-Spares rt ctx f.bound _ _ _ _ _ _ f.plain f.plain_other apart

  maybe_attach_evidence-Spares :
      (event_id : String) → Spares o (maybe_attach_evidence rt clock ctx signal event_id)
  unfolding maybe_attach_evidence
  maybe_attach_evidence-Spares event_id = maybe_attach-Spares signal.snapshot event_id

  correlate-Spares : (event_id : String) → Spares o (correlate rt clock ctx signal event_id)
  unfolding correlate
  correlate-Spares event_id = Spares-bind (Spares-gets _) (λ row.
      Spares-seq (Spares-when _ (update_events-Spares f.bound _ _ (λ r. refl))) (Spares-pure _))

  update_incident-Spares :
      (event_id : String) → Spares o (update_incident rt clock ctx signal event_id)
  unfolding update_incident
  update_incident-Spares event_id = Spares-bind (correlate-Spares event_id) (λ upgraded.
      Spares-seq (maybe_attach_evidence-Spares event_id)
        (Spares-seq (update_events-Spares f.bound _ _ (λ r. refl)) (Spares-pure upgraded)))

  create_incident-Spares :
      (rule : Option AiRule) → Spares o (create_incident rt clock ctx signal rule)
  unfolding create_incident
  create_incident-Spares rule = Spares-bind (new_id-Spares rt) (λ event_id.
      Spares-seq (insert_event-Spares f.bound _)
        (Spares-seq (maybe_attach_evidence-Spares event_id) (Spares-pure event_id)))

  alert-Spares :
      (event_id : String) (type : EventType) (severity : EventSeverity) (created : Bool)
      → Spares o (alert rt clock ctx signal event_id type severity created)
  unfolding alert
  alert-Spares event_id type severity created =
      Spares-bind (dispatch_notifications-Spares f.bound _ event_id severity type) (λ notified.
        Spares-seq (audit-Spares f.bound _ _ _ _ _ _)
          (Spares-seq (publish-Spares _ apart) (Spares-pure notified)))

  upsert_cooldown-Spares :
      (key event_id : String) (expires_at : ℕ)
      → Spares o (upsert_cooldown rt clock ctx signal key event_id expires_at)
  unfolding upsert_cooldown
  upsert_cooldown-Spares key event_id expires_at = Spares-bind (Spares-gets _) (λ row.
      Spares-if _ (update_cooldowns-Spares f.bound _ _ (λ r. refl))
        (insert_cooldown-Spares f.bound _))

  finish-Spares :
      (rule : Option AiRule) (event_id : String) (created upgraded : Bool)
      → Spares o (finish rt clock ctx signal rule event_id created upgraded)
  unfolding finish
  finish-Spares rule event_id created upgraded = Spares-seq (upsert_cooldown-Spares _ event_id _) (
      Spares-bind
        (Spares-if (created || upgraded) (alert-Spares event_id _ _ created) (Spares-pure 0))
        (λ notified. Spares-pure _))

  raise_on-Spares :
      (rule : Option AiRule) (active : Option String)
      → Spares o (raise_on rt clock ctx signal rule active)
  unfolding raise_on
  raise_on-Spares rule none =
      Spares-bind (create_incident-Spares rule) (λ id. finish-Spares rule id true false)
  raise_on-Spares rule (some id) =
      Spares-bind (update_incident-Spares id) (λ up. finish-Spares rule id false up)

  raise_incident-Spares :
      (rule : Option AiRule) → Spares o (raise_incident rt clock ctx signal rule)
  unfolding raise_incident
  raise_incident-Spares rule = Spares-bind (Spares-gets _) (λ cd. raise_on-Spares rule _)

  pub process_detection-Spares : Spares o (process_detection rt clock ctx signal)
  unfolding process_detection
  process_detection-Spares = Spares-bind (Spares-gets _) (λ rule.
      Spares-if _ (Spares-throw _) (Spares-if _ (Spares-pure _) (raise_incident-Spares rule)))

  -- Whatever a detection does on a handle bound to its own organization, and also where it throws,
  -- what any other organization owns stays as it was: its rows in every table, its objects and the
  -- messages sent to it, for organization ids without slashes.
  pub process_detection-isolation :
      (w : World) → view o (world_of (process_detection rt clock ctx signal w)) ≡ view o w
  process_detection-isolation w = process_detection-Spares.at w
