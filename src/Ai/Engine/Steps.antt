-- ===== src/Ai/Engine/Steps.antt =====
-- What each step of `processDetection` does to events, cooldowns and rules, and that it returns.
use mathlib.Core.Option
use ai_cctv_platform.Tenancy.Rls.Queries.{first-select-update, length-update}
use ai_cctv_platform.Common.{
  ℕ, ◌+◌, ◌≡◌, refl, ap, ◌∙◌, Bool, true, false, ◌&&◌, String, ◌==◌, Option, some, none, List, [],
  ◌∷◌, if◌then◌else◌, ltb, length, first,
}
use ai_cctv_platform.Ai.Types.{EventType, EventSeverity, is_fire_type}
use ai_cctv_platform.Tenancy.World.{World, Runtime, Clock, NotificationRule, Event}
use ai_cctv_platform.Tenancy.Rls.{
  TenantContext, org_visible, select, when, update_events, insert_evidence, insert_notification,
  insert_audit_log, put_object, publish, new_id,
}
use ai_cctv_platform.Tenancy.Triples.{
  Yields, Yields-pure, Yields-gets, Yields-weaken, Yields-bind, Yields-seq, Yields-read, Yields-if,
  Yields-write, Yields-insert,
}
use ai_cctv_platform.Services.Evidence.{store_evidence}
use ai_cctv_platform.Services.Notification.{severity_rank, send_all, dispatch_notifications, audit}
use ai_cctv_platform.Ai.Engine.{
  DetectionSignal, attach_evidence, maybe_attach, maybe_attach_evidence, correlate, should_upgrade,
  select_event, upgrade_event, touch_event, update_incident, alert,
}

-- The tables that the engine decides by are as they were.
pub record Kept (w w' : World) : Type 0 where
  pub events : w'.events ≡ w.events
  pub cooldowns : w'.cooldowns ≡ w.cooldowns
  pub ai_rules : w'.ai_rules ≡ w.ai_rules

pub Kept-refl : (w : World) → Kept w w
Kept-refl w = record { events = refl; cooldowns = refl; ai_rules = refl }

pub Kept-trans : {u v w : World} → Kept u v → Kept v w → Kept u w
Kept-trans h k = record {
  events = k.events ∙ h.events;
  cooldowns = k.cooldowns ∙ h.cooldowns;
  ai_rules = k.ai_rules ∙ h.ai_rules;
}

module _ (rt : Runtime) (clock : Clock) (ctx : TenantContext) (signal : DetectionSignal)
    (visible : org_visible ctx signal.organization_id ≡ true) where
  maybe_attach-Kept :
      (snapshot : Option String) (event_id : String) (w : World)
      → Yields (maybe_attach rt clock ctx signal snapshot event_id) w (λ _ w'. Kept w w')
  unfolding maybe_attach attach_evidence store_evidence put_object new_id insert_evidence
  maybe_attach-Kept none event_id w = Yields-pure tt (Kept-refl w)
  maybe_attach-Kept (some content) event_id w =
      Yields-seq {P = Kept w}
        (let k = Kept-refl w in
          Yields-write _ refl
            (record { events = k.events; cooldowns = k.cooldowns; ai_rules = k.ai_rules }))
        (λ w' k.
          Yields-bind {P = λ _. Kept w}
            (record {
              value = _;
              after = _;
              runs = refl;
              post = record { events = k.events; cooldowns = k.cooldowns; ai_rules = k.ai_rules };
            })
            (λ id w'' q.
              Yields-insert ctx _ w'' _ visible
                (record { events = q.events; cooldowns = q.cooldowns; ai_rules = q.ai_rules })))

  pub maybe_attach_evidence-Kept :
      (event_id : String) (w : World)
      → Yields (maybe_attach_evidence rt clock ctx signal event_id) w (λ _ w'. Kept w w')
  unfolding maybe_attach_evidence
  maybe_attach_evidence-Kept event_id w = maybe_attach-Kept signal.snapshot event_id w

  send_all-Kept :
      (event_id : String) (severity : EventSeverity) (type : EventType)
      (rules : List NotificationRule) (sent : ℕ) (w : World)
      → Yields
          (send_all ctx signal.organization_id event_id severity type rules sent)
          w
          (λ _ w'. Kept w w')
  unfolding send_all insert_notification
  send_all-Kept event_id severity type [] sent w = Yields-pure sent (Kept-refl w)
  send_all-Kept event_id severity type (rule ∷ rules) sent w =
      let later = send_all-Kept event_id severity type rules (sent + 1) in
      let skipped = send_all-Kept event_id severity type rules sent w in
      Yields-if (ltb (severity_rank severity) (severity_rank rule.min_severity)) (λ _. skipped)
        (λ _.
          Yields-seq {P = Kept w}
            (let k = Kept-refl w in
              Yields-insert ctx _ w _ visible
                (record { events = k.events; cooldowns = k.cooldowns; ai_rules = k.ai_rules }))
            (λ w' k. Yields-weaken (later w') (λ _ w'' k'. Kept-trans k k')))

  pub alert-Kept :
      (event_id : String) (type : EventType) (severity : EventSeverity) (created : Bool) (w : World)
      → Yields (alert rt clock ctx signal event_id type severity created) w (λ _ w'. Kept w w')
  unfolding alert dispatch_notifications audit insert_audit_log publish
  alert-Kept event_id type severity created w =
      Yields-bind {P = λ _ w'. Kept w w'}
        (Yields-bind {P = λ _ w'. Kept w w'} (Yields-gets _ (Kept-refl w)) (λ rules w' k.
          Yields-weaken (send_all-Kept event_id severity type rules 0 w')
            (λ _ w'' k'. Kept-trans k k')))
        (λ notified w' k.
          Yields-seq {P = Kept w}
            (Yields-insert ctx _ w' _ visible
              (record { events = k.events; cooldowns = k.cooldowns; ai_rules = k.ai_rules }))
            (λ w'' k.
              Yields-seq {P = Kept w}
                (Yields-write _ refl
                  (record { events = k.events; cooldowns = k.cooldowns; ai_rules = k.ai_rules }))
                (λ w''' k'. Yields-pure notified k')))

  unfoldable pub decision : String → World → Bool
  decision event_id w =
      is_fire_type signal.event_type
      && should_upgrade clock.date_now signal (select_event rt clock ctx signal event_id w)

  -- The incident's row, an upgrade included; cooldowns and rules as they were.
  pub record Updated (event_id : String) (w : World) (f : Event → Event) (w' : World) : Type 0 where
    pub row :
        select_event rt clock ctx signal event_id w'
        ≡ Option.map f (select_event rt clock ctx signal event_id w)
    pub count : length w'.events ≡ length w.events
    pub cooldowns : w'.cooldowns ≡ w.cooldowns
    pub ai_rules : w'.ai_rules ≡ w.ai_rules

  update_events-Updated :
      (event_id : String) (f : Event → Event) (w : World)
      → ((r : Event) → (f r).organization_id ≡ r.organization_id)
      → ((r : Event) → (f r).id ≡ r.id)
      → Yields (update_events ctx (λ r. r.id == event_id) f) w (λ _ w'. Updated event_id w f w')
  unfolding update_events select_event
  update_events-Updated event_id f w keeps_org keeps_id = Yields-write _ refl (record {
    row =
        first-select-update _ ctx (λ r. r.id == event_id) f keeps_org
          (λ r. ap (λ i. i == event_id) (keeps_id r)) w.events;
    count = length-update _ ctx _ f w.events;
    cooldowns = refl;
    ai_rules = refl;
  })

  map_id {ℓ} : {A : Type ℓ} (o : Option A) → o ≡ Option.map (λ a. a) o
  map_id none = refl
  map_id (some a) = refl

  map_after {ℓ} :
      {A : Type ℓ} (f g : A → A) (o : Option A)
      → Option.map g (Option.map f o) ≡ Option.map (λ a. g (f a)) o
  map_after f g none = refl
  map_after f g (some a) = refl

  Updated-refl : (event_id : String) (w : World) → Updated event_id w (λ r. r) w
  Updated-refl event_id w = record {
    row = map_id _;
    count = refl;
    cooldowns = refl;
    ai_rules = refl;
  }

  abbrev pub corrected : Bool → Event → Event
  corrected upgraded r = if upgraded then upgrade_event rt clock ctx signal r else r

  when_upgrade :
      (event_id : String) (b : Bool) (w : World)
      → Yields
          (when b (update_events ctx (λ r. r.id == event_id) (upgrade_event rt clock ctx signal)))
          w
          (λ _ w'. Updated event_id w (corrected b) w')
  unfolding when upgrade_event
  when_upgrade event_id true w =
      update_events-Updated event_id (corrected true) w (λ r. refl) (λ r. refl)
  when_upgrade event_id false w = Yields-pure tt (Updated-refl event_id w)

  correlate-Updated :
      (event_id : String) (w : World)
      → Yields (correlate rt clock ctx signal event_id) w (λ upgraded w'.
        (upgraded ≡ decision event_id w) × Updated event_id w (corrected upgraded) w')
  unfolding correlate decision
  correlate-Updated event_id w = Yields-read _ _ (
      Yields-seq (when_upgrade event_id (decision event_id w) w)
        (λ w' u. Yields-pure (decision event_id w) (refl, u)))

  abbrev pub touched : Bool → Event → Event
  touched upgraded r = touch_event rt clock ctx signal (corrected upgraded r)

  -- Through a step that keeps the tables, then an update.
  Updated-trans :
      {event_id : String} {u v w x : World} {f g : Event → Event}
      → Updated event_id u f v
      → Kept v w
      → Updated event_id w g x
      → Updated event_id u (λ r. g (f r)) x
  unfolding select_event
  Updated-trans {event_id} {f} {g} a k b = record {
    row =
        b.row
        ∙ ap
            (λ es.
              Option.map g
                (first (select (λ (r : Event). r.organization_id) ctx (λ r. r.id == event_id) es)))
            k.events
        ∙ ap (Option.map g) a.row
        ∙ map_after f g _;
    count = b.count ∙ ap length k.events ∙ a.count;
    cooldowns = b.cooldowns ∙ k.cooldowns ∙ a.cooldowns;
    ai_rules = b.ai_rules ∙ k.ai_rules ∙ a.ai_rules;
  }

  -- An active incident keeps its row, upgraded as the correlation decides and touched.
  pub update_incident-Updated :
      (event_id : String) (w : World)
      → Yields (update_incident rt clock ctx signal event_id) w (λ upgraded w'.
        (upgraded ≡ decision event_id w) × Updated event_id w (touched upgraded) w')
  unfolding update_incident touch_event
  update_incident-Updated event_id w = Yields-bind (correlate-Updated event_id w) (λ upgraded w' p.
      Yields-seq (maybe_attach_evidence-Kept event_id w') (λ w'' k.
        Yields-seq
          (update_events-Updated event_id (touch_event rt clock ctx signal) w'' (λ r. refl)
            (λ r. refl))
          (λ x t. Yields-pure upgraded (p.0, Updated-trans p.1 k t))))
