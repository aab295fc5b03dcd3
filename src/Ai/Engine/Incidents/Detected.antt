-- ===== src/Ai/Engine/Incidents/Detected.antt =====
-- What a detection amounts to, said without the code's own decision.
use mathlib.Core.Option
use ai_cctv_platform.Common.{
  ℕ, ◌+◌, ◌≤◌, ◌≡◌, refl, sym, ap, ◌∙◌, Bool, true, false, ◌&&◌, Option, some, none, String, ◌↔◌,
  ◌⊎◌, inl, inr, length, arith, max, Bool-cases,
}
use ai_cctv_platform.Ai.Types.{fire, smoke, fire_and_smoke, critical, type_eq, is_fire_type}
use ai_cctv_platform.Tenancy.World.{World, Runtime, Clock, Event}
use ai_cctv_platform.Tenancy.Rls.{TenantContext, org_visible}
use ai_cctv_platform.Tenancy.Triples.{Yields, Yields-weaken, Yields-both}
use ai_cctv_platform.Ai.Engine.{
  DetectionSignal, DetectionResult, select_event, should_upgrade, process_detection, touch_event,
  upgrade_event,
}
use ai_cctv_platform.Ai.Engine.Incidents.{
  rule_at, active_at, IsAccepted, Window, Raised, IsNew, Told, Named, process_detection-Raised,
  process_detection-Told,
}
use ai_cctv_platform.Ai.Rules.Deduplication.{type_eq-eq}
use ai_cctv_platform.Ai.Engine.Steps.{decision, touched}

-- Fire and smoke, one in the incident and one in the signal, at most a minute apart.
pub record Correlates (now : ℕ) (signal : DetectionSignal) (row : Event) : Type 0 where
  pub opposite :
      ((row.event_type ≡ fire) × (signal.event_type ≡ smoke))
      ⊎ ((row.event_type ≡ smoke) × (signal.event_type ≡ fire))
  pub recent : now ≤ row.occurred_at + 60_000

should_upgrade-Correlates :
    (now : ℕ) (signal : DetectionSignal) (row : Event)
    → (is_fire_type signal.event_type && should_upgrade now signal (some row)) ≡ true
    → Correlates now signal row
unfolding should_upgrade
should_upgrade-Correlates now signal row h =
    elim (Bool-cases (type_eq row.event_type fire && type_eq signal.event_type smoke)) [
      | inl e ↦ record {
        opposite = inl (
          type_eq-eq row.event_type fire (ground (arith, e)),
          type_eq-eq signal.event_type smoke (ground (arith, e)),
        );
        recent = ground (arith, h);
      }
      | inr e ↦ record {
        opposite = inr (
          type_eq-eq row.event_type smoke (ground (arith, e, h)),
          type_eq-eq signal.event_type fire (ground (arith, e, h)),
        );
        recent = ground (arith, h);
      }
    ]

Correlates-should_upgrade :
    (now : ℕ) (signal : DetectionSignal) (row : Event)
    → Correlates now signal row
    → (is_fire_type signal.event_type && should_upgrade now signal (some row)) ≡ true
unfolding should_upgrade is_fire_type
Correlates-should_upgrade now signal row c = elim c.opposite [
  | inl p ↦ rw (p.0, p.1) (ground (arith, c.recent))
  | inr p ↦ rw (p.0, p.1) (ground (arith, c.recent))
]

-- The row of an incident that was detected again.
pub record Amended (clock : Clock) (signal : DetectionSignal) (upgraded : Bool)
    (before after : Event) : Type 0 where
  pub raised :
      upgraded ≡ true
      → (after.event_type ≡ fire_and_smoke)
        × (after.severity ≡ critical)
        × (after.confidence ≡ max before.confidence signal.confidence)
  pub kept :
      upgraded ≡ false
      → (after.event_type ≡ before.event_type)
        × (after.severity ≡ before.severity)
        × (after.confidence ≡ before.confidence)
  pub id : after.id ≡ before.id
  pub organization_id : after.organization_id ≡ before.organization_id
  pub status : after.status ≡ before.status
  pub occurred_at : after.occurred_at ≡ before.occurred_at
  pub updated_at : after.updated_at ≡ clock.db_now

module _ (rt : Runtime) (clock : Clock) (ctx : TenantContext) (signal : DetectionSignal)
    (visible : org_visible ctx signal.organization_id ≡ true) where
  -- An active incident that was detected again.
  pub record IsFollowUp (w : World) (id : String) (r : DetectionResult) (w' : World) : Type 0 where
    pub same : r.event_id ≡ id
    pub created : r.created ≡ false
    pub alerted : r.alerted ≡ r.upgraded_to_fire_and_smoke
    pub upgraded : (r.upgraded_to_fire_and_smoke ≡ true) ↔ (
        (row : Event) × (select_event rt clock ctx signal id w ≡ some row)
        × Correlates clock.date_now signal row)
    pub row :
        (before : Event)
        → select_event rt clock ctx signal id w ≡ some before
        → (after : Event) × (select_event rt clock ctx signal id w' ≡ some after)
          × Amended clock signal r.upgraded_to_fire_and_smoke before after
    pub count : length w'.events ≡ length w.events
    pub window : Window rt clock ctx signal visible w id w'

  abbrev pub Detected : World → Option String → DetectionResult → World → Type 0
  Detected w none r w' = IsNew rt clock ctx signal visible w r w'
  Detected w (some id) r w' = IsFollowUp w id r w'

  decision-Correlates :
      (w : World) (id : String)
      → decision rt clock ctx signal visible id w ≡ true
      → (row : Event) × (select_event rt clock ctx signal id w ≡ some row)
        × Correlates clock.date_now signal row
  unfolding decision should_upgrade
  decision-Correlates w id h = found (select_event rt clock ctx signal id w) refl h
    where
      found :
          (o : Option Event)
          → select_event rt clock ctx signal id w ≡ o
          → (is_fire_type signal.event_type && should_upgrade clock.date_now signal o) ≡ true
          → (row : Event) × (select_event rt clock ctx signal id w ≡ some row)
            × Correlates clock.date_now signal row
      found none e k = ground (arith, k)
      found (some row) e k = (row, e, should_upgrade-Correlates clock.date_now signal row k)

  Correlates-decision :
      (w : World) (id : String) (row : Event)
      → select_event rt clock ctx signal id w ≡ some row
      → Correlates clock.date_now signal row
      → decision rt clock ctx signal visible id w ≡ true
  unfolding decision
  Correlates-decision w id row e c =
      ap (λ o. is_fire_type signal.event_type && should_upgrade clock.date_now signal o) e
      ∙ Correlates-should_upgrade clock.date_now signal row c

  touched-Amended :
      (b : Bool) (before : Event)
      → Amended clock signal b before (touched rt clock ctx signal visible b before)
  unfolding touch_event upgrade_event
  touched-Amended true before = record {
    raised = λ e. (refl, refl, refl);
    kept = λ e. ground (arith, e);
    id = refl;
    organization_id = refl;
    status = refl;
    occurred_at = refl;
    updated_at = refl;
  }
  touched-Amended false before = record {
    raised = λ e. ground (arith, e);
    kept = λ e. (refl, refl, refl);
    id = refl;
    organization_id = refl;
    status = refl;
    occurred_at = refl;
    updated_at = refl;
  }

  Raised-Detected :
      (w : World) (active : Option String) (r : DetectionResult) (w' : World)
      → Raised rt clock ctx signal visible w active r w'
      → Detected w active r w'
  Raised-Detected w none r w' n = n
  Raised-Detected w (some id) r w' u = record {
    same = u.same;
    created = u.created;
    alerted = u.alerted ∙ sym u.upgraded;
    upgraded = (
      (λ e. decision-Correlates w id (sym u.upgraded ∙ e)),
      (λ x. u.upgraded ∙ Correlates-decision w id x.0 x.1 x.2),
    );
    row = λ before e. (
      touched rt clock ctx signal visible r.upgraded_to_fire_and_smoke before,
      u.row
          ∙ ap
              (λ b.
                Option.map (touched rt clock ctx signal visible b)
                  (select_event rt clock ctx signal id w))
              (sym u.upgraded)
          ∙ ap (Option.map (touched rt clock ctx signal visible r.upgraded_to_fire_and_smoke)) e,
      touched-Amended r.upgraded_to_fire_and_smoke before,
    );
    count = u.count;
    window = u.window;
  }

  -- An accepted signal on a handle that sees its organization returns without throwing, where no
  -- statement and no write of a file fails. Where no cooldown is running for its camera and group
  -- of types it appends exactly one incident with the signal's fields and alerts. Where one is, it
  -- adds none and answers with the active incident; the incident is upgraded, to FIRE_AND_SMOKE and
  -- CRITICAL, exactly when one of it and the signal is fire and the other smoke, at most a minute
  -- apart, keeps its type and severity otherwise, and there is an alert exactly with the upgrade.
  -- Either way the cooldown of the key then points at the incident for the rule's window. An alert
  -- stores a notification for every enabled rule that the severity reaches and an audit entry, and
  -- gives the hub one message; without an alert none of these is added.
  pub process_detection_lem :
      (w : World)
      → IsAccepted rt clock ctx signal visible w
      → Yields (process_detection rt clock ctx signal) w (λ r w'.
        Detected w (active_at rt clock ctx signal visible w) r w'
        × Told rt clock ctx signal visible w r w'
        × Named rt clock ctx signal visible (rule_at rt clock ctx signal visible w) r)
  process_detection_lem w h =
      Yields-weaken
        (Yields-both (process_detection-Raised rt clock ctx signal visible w h)
          (process_detection-Told rt clock ctx signal visible w h))
        (λ r w' p.
          (Raised-Detected w (active_at rt clock ctx signal visible w) r w' p.0, p.1.0, p.1.1))
