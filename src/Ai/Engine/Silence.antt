-- ===== src/Ai/Engine/Silence.antt =====
-- The steps of the engine that send nothing.
use ai_cctv_platform.Common.{
  ℕ, ◌≡◌, refl, ◌∙◌, Bool, true, String, ◌==◌, Option, some, none, is_some,
}
use ai_cctv_platform.Tenancy.World.{World, Runtime, Clock, AiRule, Event, Cooldown}
use ai_cctv_platform.Tenancy.Rls.{
  TenantContext, org_visible, update_events, update_cooldowns, insert_event, insert_evidence,
  insert_cooldown, put_object, new_id,
}
use ai_cctv_platform.Tenancy.Triples.{
  Yields, Yields-pure, Yields-bind, Yields-seq, Yields-read, Yields-if, Yields-write, Yields-insert,
  Yields-when,
}
use ai_cctv_platform.Services.Evidence.{store_evidence}
use ai_cctv_platform.Ai.Engine.{
  DetectionSignal, attach_evidence, maybe_attach, maybe_attach_evidence, correlate, update_incident,
  create_incident, upsert_cooldown, extend_cooldown, select_cooldown,
}

-- What is told to anyone is as it was, and so are the rules of whom to tell.
pub record Quiet (w w' : World) : Type 0 where
  pub notifications : w'.notifications ≡ w.notifications
  pub audit_logs : w'.audit_logs ≡ w.audit_logs
  pub published : w'.published ≡ w.published
  pub rules : w'.notification_rules ≡ w.notification_rules

pub Quiet-refl : (w : World) → Quiet w w
Quiet-refl w = record { notifications = refl; audit_logs = refl; published = refl; rules = refl }

pub Quiet-trans : {u v w : World} → Quiet u v → Quiet v w → Quiet u w
Quiet-trans h k = record {
  notifications = k.notifications ∙ h.notifications;
  audit_logs = k.audit_logs ∙ h.audit_logs;
  published = k.published ∙ h.published;
  rules = k.rules ∙ h.rules;
}

module _ (rt : Runtime) (clock : Clock) (ctx : TenantContext) (signal : DetectionSignal)
    (visible : org_visible ctx signal.organization_id ≡ true) where
  maybe_attach-Quiet :
      (snapshot : Option String) (event_id : String) (w : World)
      → Yields (maybe_attach rt clock ctx signal snapshot event_id) w (λ _ w'. Quiet w w')
  unfolding maybe_attach attach_evidence store_evidence put_object new_id insert_evidence
  maybe_attach-Quiet none event_id w = Yields-pure tt (Quiet-refl w)
  maybe_attach-Quiet (some content) event_id w =
      Yields-seq {P = Quiet w}
        (Yields-write _ refl
          (record { notifications = refl; audit_logs = refl; published = refl; rules = refl }))
        (λ w' k.
          Yields-bind {P = λ _ v. Quiet w' v}
            (record {
              value = _;
              after = _;
              runs = refl;
              post = record {
                notifications = refl;
                audit_logs = refl;
                published = refl;
                rules = refl;
              };
            })
            (λ id v q. Yields-insert ctx _ v _ visible (
              Quiet-trans k (
                Quiet-trans q (record {
                  notifications = refl;
                  audit_logs = refl;
                  published = refl;
                  rules = refl;
                })))))

  attach_evidence-Quiet :
      (event_id : String) (w : World)
      → Yields (maybe_attach_evidence rt clock ctx signal event_id) w (λ _ w'. Quiet w w')
  unfolding maybe_attach_evidence
  attach_evidence-Quiet event_id w = maybe_attach-Quiet signal.snapshot event_id w

  update_events-Quiet :
      (p : Event → Bool) (f : Event → Event) (w : World)
      → Yields (update_events ctx p f) w (λ _ w'. Quiet w w')
  unfolding update_events
  update_events-Quiet p f w =
      Yields-write _ refl
        (record { notifications = refl; audit_logs = refl; published = refl; rules = refl })

  pub update_incident-Quiet :
      (event_id : String) (w : World)
      → Yields (update_incident rt clock ctx signal event_id) w (λ _ w'. Quiet w w')
  unfolding update_incident correlate
  update_incident-Quiet event_id w =
      Yields-bind {P = λ _ v. Quiet w v}
        (Yields-read _ _ (
          Yields-seq {P = Quiet w}
            (Yields-when _ (λ _. update_events-Quiet _ _ w) (λ _. Quiet-refl w))
            (λ v q. Yields-pure _ q)))
        (λ upgraded v q. Yields-seq (attach_evidence-Quiet event_id v) (λ x k.
          Yields-seq (update_events-Quiet _ _ x)
            (λ y h. Yields-pure upgraded (Quiet-trans q (Quiet-trans k h)))))

  pub create_incident-Quiet :
      (rule : Option AiRule) (w : World)
      → Yields (create_incident rt clock ctx signal rule) w (λ _ w'. Quiet w w')
  unfolding create_incident new_id insert_event
  create_incident-Quiet rule w =
      Yields-bind {P = λ _ v. Quiet w v}
        (record {
          value = _;
          after = _;
          runs = refl;
          post = record { notifications = refl; audit_logs = refl; published = refl; rules = refl };
        })
        (λ id v q.
          Yields-seq {P = λ x. Quiet v x}
            (Yields-insert ctx _ v _ visible
              (record { notifications = refl; audit_logs = refl; published = refl; rules = refl }))
            (λ x h.
              Yields-seq (attach_evidence-Quiet id x)
                (λ y k. Yields-pure id (Quiet-trans q (Quiet-trans h k)))))

  update_cooldowns-Quiet :
      (p : Cooldown → Bool) (f : Cooldown → Cooldown) (w : World)
      → Yields (update_cooldowns ctx p f) w (λ _ w'. Quiet w w')
  unfolding update_cooldowns
  update_cooldowns-Quiet p f w =
      Yields-write _ refl
        (record { notifications = refl; audit_logs = refl; published = refl; rules = refl })

  insert_cooldown-Quiet :
      (row : Cooldown) (w : World)
      → org_visible ctx row.organization_id ≡ true
      → Yields (insert_cooldown ctx row) w (λ _ w'. Quiet w w')
  unfolding insert_cooldown
  insert_cooldown-Quiet row w sees =
      Yields-insert ctx _ w _ sees
        (record { notifications = refl; audit_logs = refl; published = refl; rules = refl })

  pub upsert_cooldown-Quiet :
      (key event_id : String) (expires_at : ℕ) (w : World)
      → Yields (upsert_cooldown rt clock ctx signal key event_id expires_at) w (λ _ w'. Quiet w w')
  unfolding upsert_cooldown
  upsert_cooldown-Quiet key event_id expires_at w = Yields-read _ _ (
      Yields-if (is_some (select_cooldown rt clock ctx signal key w))
        (λ _.
          update_cooldowns-Quiet (λ r. r.cooldown_key == key)
            (extend_cooldown rt clock ctx signal event_id expires_at) w)
        (λ _. insert_cooldown-Quiet _ w visible))
