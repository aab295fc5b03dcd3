-- ===== src/Ai/Engine/Incidents/Sequences.antt =====
-- Two detections in a row: the second joins the incident of the first.
use mathlib.Core.Option
use mathlib.Core.Path.{subst}
use ai_cctv_platform.Common.{
  ℕ, ◌+◌, ◌*◌, ◌<◌, ◌≤◌, ◌≡◌, refl, sym, ap, ◌∙◌, true, false, ◌&&◌, String, ◌==◌, eq_refl, Option,
  some, none, length, arith, first, if◌then◌else◌,
}
use ai_cctv_platform.Ai.Types.{
  EventType, EventSeverity, fire, smoke, fire_and_smoke, critical, is_fire_type,
}
use ai_cctv_platform.Tenancy.World.{World, Runtime, Clock, Event, Cooldown}
use ai_cctv_platform.Tenancy.Rls.{TenantContext, org_visible, ok, select}
use ai_cctv_platform.Tenancy.Rls.Queries.{first-select-concat}
use ai_cctv_platform.Tenancy.Triples.{Yields, Yields-post, Yields-weaken, Yields-both}
use ai_cctv_platform.Ai.Engine.{
  DetectionSignal, DetectionResult, active_event, select_event, select_cooldown, cooldown_key,
  cooldown_seconds_of, process_detection, should_upgrade, touch_event, upgrade_event, severity_of,
}
use ai_cctv_platform.Ai.Engine.Alerts.{Sent}
use ai_cctv_platform.Ai.Engine.Steps.{decision, touched}
use ai_cctv_platform.Ai.Engine.Incidents.{
  new_event, rule_at, active_at, IsAccepted, Window, IsNew, IsUpdate, Raised,
  process_detection-Raised, process_detection-Told, action_of,
}

active_event_running :
    (now : ℕ) (row : Cooldown) {id : String}
    → row.event_id ≡ some id
    → now < row.expires_at
    → active_event now (some row) ≡ some id
unfolding active_event
active_event_running now row p h = ground arith

Sent-at :
    (ctx : TenantContext) (signal : DetectionSignal) {id id' action action' : String}
    {type type' : EventType} {severity severity' : EventSeverity} {n : ℕ} {w w' : World}
    → id ≡ id'
    → type ≡ type'
    → severity ≡ severity'
    → action ≡ action'
    → Sent ctx signal id type severity action n w w'
    → Sent ctx signal id' type' severity' action' n w w'
Sent-at ctx signal {id' = id'} {action = a} {type = t} {type' = t'} {severity = s} {severity' = s'}
      {n} {w} {w'} e f g h x =
    subst (λ k. Sent ctx signal id' t' s' k n w w') h
      (subst (λ k. Sent ctx signal id' t' k a n w w') g
        (subst (λ k. Sent ctx signal id' k s a n w w') f
          (subst (λ k. Sent ctx signal k t s a n w w') e x)))

-- Two signals of one organization's camera, the second before the first's window ends.
module _ (rt : Runtime) (ctx : TenantContext) (clock₁ clock₂ : Clock)
    (first_signal second : DetectionSignal)
    (visible₁ : org_visible ctx first_signal.organization_id ≡ true)
    (visible₂ : org_visible ctx second.organization_id ≡ true)
    (keys : cooldown_key second.camera_id second.event_type
      ≡ cooldown_key first_signal.camera_id first_signal.event_type)
    (w : World)
    (in_window : clock₂.date_now
      < clock₁.date_now
        + cooldown_seconds_of (rule_at rt clock₁ ctx first_signal visible₁ w) * 1000) where
  outlives_first :
      (active : Option String) (r : DetectionResult) {w' : World}
      → Raised rt clock₁ ctx first_signal visible₁ w active r w'
      → Window rt clock₁ ctx first_signal visible₁ w r.event_id w'
  outlives_first none r n = n.window
  outlives_first (some id) r u = record {
    row = u.window.row;
    found = u.window.found;
    points = u.window.points ∙ ap some (sym u.same);
    until = u.window.until;
  }

  active_after :
      {id : String} {w' : World}
      → Window rt clock₁ ctx first_signal visible₁ w id w'
      → active_at rt clock₂ ctx second visible₂ w' ≡ some id
  unfolding select_cooldown
  active_after {w'} x =
      ap (λ k. active_event clock₂.date_now (select_cooldown rt clock₂ ctx second k w')) keys
      ∙ ap (active_event clock₂.date_now) x.found
      ∙ active_event_running clock₂.date_now x.row x.points (omega (arith, x.until))

  -- If the first detection returned `r₁` and the second, of the same cooldown key, is accepted
  -- before the first's window ends, then the second returns too, names the same incident, creates
  -- none and adds no event.
  pub process_detection-dedup :
      (r₁ : DetectionResult) (w₁ : World)
      → IsAccepted rt clock₁ ctx first_signal visible₁ w
      → process_detection rt clock₁ ctx first_signal w ≡ ok r₁ w₁
      → IsAccepted rt clock₂ ctx second visible₂ w₁
      → Yields (process_detection rt clock₂ ctx second) w₁ (λ r₂ w₂.
        (r₂.event_id ≡ r₁.event_id) × (r₂.created ≡ false) × (length w₂.events ≡ length w₁.events))
  process_detection-dedup r₁ w₁ h₁ e h₂ =
      let raised =
        Yields-post (process_detection-Raised rt clock₁ ctx first_signal visible₁ w h₁) e in
      let active = active_after (outlives_first _ r₁ raised) in
      Yields-weaken (process_detection-Raised rt clock₂ ctx second visible₂ w₁ h₂) (λ r₂ w₂ raised₂.
        let u : IsUpdate rt clock₂ ctx second visible₂ w₁ r₁.event_id r₂ w₂ =
          rw active at raised₂ in
        (u.same, u.created, u.count))

  smoke_after_fire :
      (row : Event) (now : ℕ)
      → row.event_type ≡ fire
      → second.event_type ≡ smoke
      → now ≤ row.occurred_at + 60_000
      → (is_fire_type second.event_type && should_upgrade now second (some row)) ≡ true
  unfolding is_fire_type should_upgrade
  smoke_after_fire row now f s recent = rw (f, s) (ground arith)

  abbrev stored : String → Event
  stored id =
      new_event rt clock₁ ctx first_signal visible₁ (rule_at rt clock₁ ctx first_signal visible₁ w)
        id

  stored_found :
      (r₁ : DetectionResult) (w₁ : World)
      → IsNew rt clock₁ ctx first_signal visible₁ w r₁ w₁
      → select_event rt clock₁ ctx first_signal (rt.uuid w.issued) w ≡ none
      → select_event rt clock₂ ctx second r₁.event_id w₁ ≡ some (stored r₁.event_id)
  unfolding select_event
  stored_found r₁ w₁ n fresh =
      ap (λ es. first (select (λ (r : Event). r.organization_id) ctx (λ r. r.id == r₁.event_id) es))
        n.events
      ∙ first-select-concat (λ (r : Event). r.organization_id) ctx (λ r. r.id == r₁.event_id)
          w.events (stored r₁.event_id)
          (ap (λ i. first (select (λ (r : Event). r.organization_id) ctx (λ r. r.id == i) w.events))
              n.fresh
            ∙ fresh)
          visible₁ (eq_refl r₁.event_id)

  stored_decides :
      (id : String) (w₁ : World)
      → select_event rt clock₂ ctx second id w₁ ≡ some (stored id)
      → first_signal.event_type ≡ fire
      → second.event_type ≡ smoke
      → clock₂.date_now ≤ clock₁.db_now + 60_000
      → decision rt clock₂ ctx second visible₂ id w₁ ≡ true
  unfolding decision
  stored_decides id w₁ found is_fire is_smoke recent =
      ap (λ row. is_fire_type second.event_type && should_upgrade clock₂.date_now second row) found
      ∙ smoke_after_fire (stored id) clock₂.date_now is_fire is_smoke recent

  -- Smoke that is seen while a new fire incident's window runs, at most a minute after the fire,
  -- makes that one incident FIRE_AND_SMOKE and CRITICAL and adds no event; it alerts again, with a
  -- notification for every enabled rule that CRITICAL reaches, an audit entry of the upgrade, and a
  -- message of the incident to the hub; the id drawn for the fire was not in use.
  pub process_detection-upgrade :
      (r₁ : DetectionResult) (w₁ : World)
      → IsAccepted rt clock₁ ctx first_signal visible₁ w
      → active_at rt clock₁ ctx first_signal visible₁ w ≡ none
      → select_event rt clock₁ ctx first_signal (rt.uuid w.issued) w ≡ none
      → first_signal.event_type ≡ fire
      → second.event_type ≡ smoke
      → clock₂.date_now ≤ clock₁.db_now + 60_000
      → process_detection rt clock₁ ctx first_signal w ≡ ok r₁ w₁
      → IsAccepted rt clock₂ ctx second visible₂ w₁
      → Yields (process_detection rt clock₂ ctx second) w₁ (λ r₂ w₂.
        (r₂.event_id ≡ r₁.event_id)
        × (r₂.upgraded_to_fire_and_smoke ≡ true)
        × (r₂.alerted ≡ true)
        × (length w₂.events ≡ length w₁.events)
        × ((row : Event) × (select_event rt clock₂ ctx second r₁.event_id w₂ ≡ some row)
            × (row.event_type ≡ fire_and_smoke)
            × (row.severity ≡ critical))
        × Sent ctx second r₁.event_id fire_and_smoke critical "incident.upgrade" r₂.notified w₁ w₂)
  unfolding touch_event upgrade_event
  process_detection-upgrade r₁ w₁ h₁ idle fresh is_fire is_smoke recent e h₂ =
      let raised =
        Yields-post (process_detection-Raised rt clock₁ ctx first_signal visible₁ w h₁) e in
      let n : IsNew rt clock₁ ctx first_signal visible₁ w r₁ w₁ = rw idle at raised in
      let active = active_after n.window in
      let found = stored_found r₁ w₁ n fresh in
      let decides = stored_decides r₁.event_id w₁ found is_fire is_smoke recent in
      Yields-weaken
        (Yields-both (process_detection-Raised rt clock₂ ctx second visible₂ w₁ h₂)
          (process_detection-Told rt clock₂ ctx second visible₂ w₁ h₂))
        (λ r₂ w₂ p.
          let u : IsUpdate rt clock₂ ctx second visible₂ w₁ r₁.event_id r₂ w₂ = rw active at p.0 in
          let up = u.upgraded ∙ decides in
          (
            u.same,
            up,
            u.alerted ∙ decides,
            u.count,
            (
              touched rt clock₂ ctx second visible₂ true (stored r₁.event_id),
              u.row
                  ∙ ap
                      (λ b.
                        Option.map (touched rt clock₂ ctx second visible₂ b)
                          (select_event rt clock₂ ctx second r₁.event_id w₁))
                      decides
                  ∙ ap (Option.map (touched rt clock₂ ctx second visible₂ true)) found,
              refl,
              refl,
            ),
            Sent-at ctx second u.same
                (p.1.1.type ∙ ap (λ b. if b then fire_and_smoke else second.event_type) up)
                (p.1.1.severity
                  ∙ ap
                      (λ b.
                        if b
                        then critical
                        else severity_of (rule_at rt clock₂ ctx second visible₂ w₁) second)
                      up)
                (ap action_of u.created) (p.1.0.alert (u.alerted ∙ decides)),
          ))
