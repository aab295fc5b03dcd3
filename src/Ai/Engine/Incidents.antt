-- ===== src/Ai/Engine/Incidents.antt =====
-- What a detection amounts to: one incident for each cooldown window, and its upgrade.
mod Outcome
pub use Outcome.{new_event}
mod Messages
pub use Messages.{Told, Named, action_of, raise_on-Told}
pub mod Sequences
pub mod Detected
use mathlib.Core.Option
use ai_cctv_platform.Common.{
  ℕ, ◌+◌, ◌*◌, ◌≡◌, refl, sym, ap, ◌∙◌, Bool, true, false, String, Option, some, none, List, [],
  ◌∷◌, ◌++◌, length, first, ◌==◌, if◌then◌else◌,
}
use ai_cctv_platform.Tenancy.World.{World, Runtime, Clock, AiRule, Event, Cooldown}
use ai_cctv_platform.Tenancy.Rls.{TenantContext, org_visible, select}
use ai_cctv_platform.Tenancy.Triples.{Yields, Yields-bind, Yields-read, Yields-weaken}
use ai_cctv_platform.Ai.Engine.{
  DetectionSignal, DetectionResult, find_rule, rule_enabled, is_below_threshold, active_event,
  select_event, select_cooldown, cooldown_key, cooldown_seconds_of, raise_on, raise_incident,
  process_detection,
}
use ai_cctv_platform.Ai.Engine.Steps.{decision, touched, update_incident-Updated}
use Outcome.{Answered, create_incident-Created, finish-Answered}

module _ (rt : Runtime) (clock : Clock) (ctx : TenantContext) (signal : DetectionSignal)
    (visible : org_visible ctx signal.organization_id ≡ true) where
  -- The rule that applies, and the incident that is active for the key.
  abbrev pub rule_at : World → Option AiRule
  rule_at w = find_rule ctx signal.camera_id signal.event_type w

  abbrev pub active_at : World → Option String
  active_at w =
      active_event clock.date_now
        (select_cooldown rt clock ctx signal (cooldown_key signal.camera_id signal.event_type) w)

  -- No rule refuses the signal, and it passes the thresholds.
  pub record IsAccepted (w : World) : Type 0 where
    pub enabled : rule_enabled (rule_at w) ≡ true
    pub above : is_below_threshold (rule_at w) signal ≡ false

  -- The cooldown row that a next detection of the same key finds.
  pub record Window (w : World) (id : String) (w' : World) : Type 0 where
    pub row : Cooldown
    pub found :
        select_cooldown rt clock ctx signal (cooldown_key signal.camera_id signal.event_type) w'
        ≡ some row
    pub points : row.event_id ≡ some id
    pub until : row.expires_at ≡ clock.date_now + cooldown_seconds_of (rule_at w) * 1000

  -- A new incident: its row is appended with the fields of the signal, and it alerts.
  pub record IsNew (w : World) (r : DetectionResult) (w' : World) : Type 0 where
    pub created : r.created ≡ true
    pub alerted : r.alerted ≡ true
    pub fresh : r.event_id ≡ rt.uuid w.issued
    pub events :
        w'.events ≡ w.events ++ new_event rt clock ctx signal visible (rule_at w) r.event_id ∷ []
    pub window : Window w r.event_id w'

  -- An active incident: no row is added, its row is upgraded as the code decides, and it alerts
  -- with that.
  pub record IsUpdate (w : World) (id : String) (r : DetectionResult) (w' : World) : Type 0 where
    pub same : r.event_id ≡ id
    pub created : r.created ≡ false
    pub alerted : r.alerted ≡ decision rt clock ctx signal visible id w
    pub upgraded : r.upgraded_to_fire_and_smoke ≡ decision rt clock ctx signal visible id w
    pub row :
        select_event rt clock ctx signal id w'
        ≡ Option.map
            (touched rt clock ctx signal visible (decision rt clock ctx signal visible id w))
            (select_event rt clock ctx signal id w)
    pub count : length w'.events ≡ length w.events
    pub window : Window w id w'

  abbrev pub Raised : World → Option String → DetectionResult → World → Type 0
  Raised w none r w' = IsNew w r w'
  Raised w (some id) r w' = IsUpdate w id r w'

  raise_on-Raised :
      (w : World) (active : Option String)
      → Yields (raise_on rt clock ctx signal (rule_at w) active) w (Raised w active)
  unfolding raise_on select_event
  raise_on-Raised w none =
      Yields-bind (create_incident-Created rt clock ctx signal visible (rule_at w) w) (λ id w' c.
        Yields-weaken (finish-Answered rt clock ctx signal visible (rule_at w) id true false w')
          (λ r w'' a. record {
            created = a.created;
            alerted = a.alerted;
            fresh = a.event_id ∙ c.fresh;
            events =
                a.window.events
                ∙ c.events
                ∙ ap (λ i. w.events ++ new_event rt clock ctx signal visible (rule_at w) i ∷ [])
                    (sym a.event_id);
            window = record {
              row = a.window.row;
              found = a.window.found;
              points = a.window.points ∙ ap some (sym a.event_id);
              until = a.window.until;
            };
          }))
  raise_on-Raised w (some id) =
      Yields-bind (update_incident-Updated rt clock ctx signal visible id w) (λ up w' u.
        Yields-weaken (finish-Answered rt clock ctx signal visible (rule_at w) id false up w')
          (λ r w'' a. record {
            same = a.event_id;
            created = a.created;
            alerted = a.alerted ∙ u.0;
            upgraded = a.upgraded ∙ u.0;
            row =
                ap
                  (λ es. first (select (λ (e : Event). e.organization_id) ctx (λ e. e.id == id) es))
                  a.window.events
                ∙ u.1.row
                ∙ ap
                    (λ b.
                      Option.map (touched rt clock ctx signal visible b)
                        (select_event rt clock ctx signal id w))
                    u.0;
            count = ap length a.window.events ∙ u.1.count;
            window = record {
              row = a.window.row;
              found = a.window.found;
              points = a.window.points;
              until = a.window.until;
            };
          }))

  -- What an accepted signal amounts to, by the code's own decision.
  pub process_detection-Raised :
      (w : World)
      → IsAccepted w
      → Yields (process_detection rt clock ctx signal) w (Raised w (active_at w))
  unfolding process_detection raise_incident
  process_detection-Raised w h =
      Yields-read _ _ (rw (h.enabled, h.above) (Yields-read _ _ (raise_on-Raised w (active_at w))))

  -- What it tells, and what its answer names.
  pub process_detection-Told :
      (w : World)
      → IsAccepted w
      → Yields (process_detection rt clock ctx signal) w (λ r w'.
        Told rt clock ctx signal visible w r w' × Named rt clock ctx signal visible (rule_at w) r)
  unfolding process_detection raise_incident
  process_detection-Told w h = Yields-read _ _ (
      rw (h.enabled, h.above)
        (Yields-read _ _ (raise_on-Told rt clock ctx signal visible (rule_at w) w (active_at w))))
