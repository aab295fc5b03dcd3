-- ===== src/Ai/Engine/Incidents/Outcome.antt =====
-- The new incident, the cooldown window, and the answer.
use mathlib.Core.Option
use ai_cctv_platform.Common.{
  ℕ, ◌+◌, ◌*◌, ◌≡◌, refl, ap, ◌∙◌, Bool, true, ◌||◌, String, ◌==◌, eq_refl, Option, some, none, [],
  ◌∷◌, ◌++◌, if◌then◌else◌, first, is_some, or_else, coalesce,
}
use ai_cctv_platform.Ai.Types.{open_, critical}
use ai_cctv_platform.Tenancy.World.{World, Runtime, Clock, AiRule, Event, Cooldown}
use ai_cctv_platform.Tenancy.Rls.{
  TenantContext, org_visible, select, update_cooldowns, insert_event, insert_cooldown, new_id,
}
use ai_cctv_platform.Tenancy.Rls.Queries.{first-select-update, first-select-concat}
use ai_cctv_platform.Tenancy.Triples.{
  Yields, Yields-pure, Yields-bind, Yields-seq, Yields-read, Yields-if, Yields-write, Yields-insert,
}
use ai_cctv_platform.Ai.Engine.{
  DetectionSignal, DetectionResult, select_cooldown, create_incident, extend_cooldown,
  upsert_cooldown, finish, severity_of, rule_id_of, cooldown_key, cooldown_seconds_of,
}
use ai_cctv_platform.Ai.Engine.Steps.{Kept, Kept-refl, maybe_attach_evidence-Kept, alert-Kept}

module _ (rt : Runtime) (clock : Clock) (ctx : TenantContext) (signal : DetectionSignal)
    (visible : org_visible ctx signal.organization_id ≡ true) where
  -- The row that a new incident is stored as.
  abbrev pub new_event : Option AiRule → String → Event
  new_event rule event_id = record {
    id = event_id;
    organization_id = signal.organization_id;
    site_id = signal.site_id;
    camera_id = signal.camera_id;
    ai_rule_id = or_else signal.ai_rule_id (rule_id_of rule);
    event_type = signal.event_type;
    severity = severity_of rule signal;
    confidence = signal.confidence;
    status = open_;
    correlation_id = none;
    metadata = coalesce signal.metadata "{}";
    occurred_at = clock.db_now;
    updated_at = clock.db_now;
  }

  pub record Created (rule : Option AiRule) (event_id : String) (w w' : World) : Type 0 where
    pub fresh : event_id ≡ rt.uuid w.issued
    pub events : w'.events ≡ w.events ++ new_event rule event_id ∷ []
    pub cooldowns : w'.cooldowns ≡ w.cooldowns
    pub ai_rules : w'.ai_rules ≡ w.ai_rules

  pub create_incident-Created :
      (rule : Option AiRule) (w : World)
      → Yields (create_incident rt clock ctx signal rule) w (λ id w'. Created rule id w w')
  unfolding create_incident new_id insert_event
  create_incident-Created rule w =
      let id = rt.uuid w.issued in
      Yields-bind {P = λ i w'. (i ≡ id) × Kept w w'}
        (record {
          value = id;
          after = _;
          runs = refl;
          post = (refl, record { events = refl; cooldowns = refl; ai_rules = refl });
        })
        (λ i w' p.
          Yields-seq {P = Created rule i w}
            (Yields-insert ctx _ w' _ visible (record {
              fresh = p.0;
              events = ap (λ es. es ++ new_event rule i ∷ []) p.1.events;
              cooldowns = p.1.cooldowns;
              ai_rules = p.1.ai_rules;
            }))
            (λ w'' c.
              Yields-seq (maybe_attach_evidence-Kept rt clock ctx signal visible i w'') (λ x k.
                Yields-pure i (record {
                  fresh = c.fresh;
                  events = k.events ∙ c.events;
                  cooldowns = k.cooldowns ∙ c.cooldowns;
                  ai_rules = k.ai_rules ∙ c.ai_rules;
                }))))

  -- The window of the key points at the incident until `expires_at`.
  pub record Windowed (key event_id : String) (expires_at : ℕ) (w w' : World) : Type 0 where
    pub row : Cooldown
    pub found : select_cooldown rt clock ctx signal key w' ≡ some row
    pub points : row.event_id ≡ some event_id
    pub until : row.expires_at ≡ expires_at
    pub events : w'.events ≡ w.events
    pub ai_rules : w'.ai_rules ≡ w.ai_rules

  upsert_on :
      (key event_id : String) (expires_at : ℕ) (w : World) (cd : Option Cooldown)
      → select_cooldown rt clock ctx signal key w ≡ cd
      → Yields
          (if is_some cd
            then update_cooldowns ctx
                (λ r. r.cooldown_key == key)
                (extend_cooldown rt clock ctx signal event_id expires_at)
            else insert_cooldown ctx (record {
              organization_id = signal.organization_id;
              cooldown_key = key;
              event_id = some event_id;
              last_alert_at = clock.db_now;
              expires_at = expires_at;
            }))
          w
          (λ _ w'. Windowed key event_id expires_at w w')
  unfolding select_cooldown update_cooldowns extend_cooldown insert_cooldown
  upsert_on key event_id expires_at w none e = Yields-insert ctx _ w _ visible (record {
    row = _;
    found =
        first-select-concat (λ (r : Cooldown). r.organization_id) ctx _ w.cooldowns _ e visible
          (eq_refl key);
    points = refl;
    until = refl;
    events = refl;
    ai_rules = refl;
  })
  upsert_on key event_id expires_at w (some row) e = Yields-write _ refl (record {
    row = extend_cooldown rt clock ctx signal event_id expires_at row;
    found =
        first-select-update (λ (r : Cooldown). r.organization_id) ctx (λ r. r.cooldown_key == key)
          (extend_cooldown rt clock ctx signal event_id expires_at) (λ r. refl) (λ r. refl)
          w.cooldowns
        ∙ ap (Option.map (extend_cooldown rt clock ctx signal event_id expires_at)) e;
    points = refl;
    until = refl;
    events = refl;
    ai_rules = refl;
  })

  upsert_cooldown-Windowed :
      (key event_id : String) (expires_at : ℕ) (w : World)
      → Yields
          (upsert_cooldown rt clock ctx signal key event_id expires_at)
          w
          (λ _ w'. Windowed key event_id expires_at w w')
  unfolding upsert_cooldown
  upsert_cooldown-Windowed key event_id expires_at w =
      Yields-read _ _ (upsert_on key event_id expires_at w _ refl)

  -- The answer, and the window that the next detection will meet.
  pub record Answered (rule : Option AiRule) (id : String) (is_new is_upgraded : Bool) (w : World)
      (r : DetectionResult) (w' : World) : Type 0 where
    pub event_id : r.event_id ≡ id
    pub created : r.created ≡ is_new
    pub upgraded : r.upgraded_to_fire_and_smoke ≡ is_upgraded
    pub alerted : r.alerted ≡ (is_new || is_upgraded)
    pub severity : r.severity ≡ (if is_upgraded then critical else severity_of rule signal)
    pub window :
        Windowed
          (cooldown_key signal.camera_id signal.event_type)
          id
          (clock.date_now + cooldown_seconds_of rule * 1000)
          w
          w'

  Windowed-Kept :
      {key id : String} {until : ℕ} {u v w : World}
      → Windowed key id until u v
      → Kept v w
      → Windowed key id until u w
  unfolding select_cooldown
  Windowed-Kept {key} x k = record {
    row = x.row;
    found =
        ap
          (λ cs.
            first
              (select (λ (r : Cooldown). r.organization_id) ctx (λ r. r.cooldown_key == key) cs))
          k.cooldowns
        ∙ x.found;
    points = x.points;
    until = x.until;
    events = k.events ∙ x.events;
    ai_rules = k.ai_rules ∙ x.ai_rules;
  }

  pub finish-Answered :
      (rule : Option AiRule) (id : String) (is_new is_upgraded : Bool) (w : World)
      → Yields
          (finish rt clock ctx signal rule id is_new is_upgraded)
          w
          (Answered rule id is_new is_upgraded w)
  unfolding finish
  finish-Answered rule id is_new is_upgraded w =
      Yields-seq (upsert_cooldown-Windowed _ id _ w) (λ w' x.
        Yields-bind {P = λ _ w''. Kept w' w''}
          (Yields-if (is_new || is_upgraded)
            (λ _. alert-Kept rt clock ctx signal visible id _ _ is_new w')
            (λ _. Yields-pure 0 (Kept-refl w')))
          (λ notified w'' k. Yields-pure _ (record {
            event_id = refl;
            created = refl;
            upgraded = refl;
            alerted = refl;
            severity = refl;
            window = Windowed-Kept x k;
          })))
