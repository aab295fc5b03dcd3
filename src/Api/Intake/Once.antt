-- ===== src/Api/Intake/Once.antt =====
-- A correlation id brings one event into an organization, however often it comes.
use mathlib.Core.Bool.{true≢false}
use mathlib.Core.Path.{subst}
use ai_cctv_platform.Common.{
  ℕ, ◌+◌, ◌≡◌, refl, sym, ap, ◌∙◌, String, true, Option, none, some, List, [], ◌∷◌, ◌++◌, eq_iff,
  eq_refl, truthy, ltb, arith,
}
use ai_cctv_platform.Ai.Types.{EventType, EventSeverity}
use ai_cctv_platform.Tenancy.World.{World, Runtime, Clock, Camera, Event, NotificationRule}
use ai_cctv_platform.Tenancy.Rls.{
  TenantContext, new_id, insert_event, insert_evidence, insert_notification, put_object,
}
use ai_cctv_platform.Tenancy.Outcomes.{
  Ensures, Ensures-weaken, Ensures-bind, Ensures-seq, Ensures-if, Ensures-insert, Ensures-pure,
  Ensures-throw, Ensures-read, Ensures-step,
}
use ai_cctv_platform.Services.Evidence.{store_evidence}
use ai_cctv_platform.Services.Notification.{severity_rank, send_all, dispatch_notifications}
use ai_cctv_platform.Api.Intake.{
  Intake, same_correlation, is_duplicate, new_event, insert_once, correlated, id_or_throw,
  existing_or_throw, inserted_or_existing, record_event, keep_content, keep_snapshot,
}

-- The events of the state are those given.
pub record HasEvents (events : List Event) (w : World) : Type 0 where
  pub same : w.events ≡ events

module _ (rt : Runtime) (clock : Clock) (db : TenantContext) {events : List Event} where
  stored-HasEvents :
      (org event_id key content : String) (w : World)
      → HasEvents events w
      → Ensures (store_evidence rt db org event_id key content) w (λ _ w'. HasEvents events w')
  unfolding store_evidence put_object new_id insert_evidence
  stored-HasEvents org event_id key content w h =
      Ensures-seq {P = HasEvents events} (Ensures-step _ _ refl (record { same = h.same })) (λ u h.
        Ensures-bind {P = λ _. HasEvents events} (Ensures-step _ _ refl (record { same = h.same }))
          (λ id v h. Ensures-insert db _ _ v (record { same = h.same })))

  send_all-HasEvents :
      (org event_id : String) (severity : EventSeverity) (type : EventType)
      (rules : List NotificationRule) (sent : ℕ) (w : World)
      → HasEvents events w
      → Ensures (send_all db org event_id severity type rules sent) w (λ _ w'. HasEvents events w')
  unfolding send_all insert_notification
  send_all-HasEvents org event_id severity type [] sent w h = Ensures-pure sent h
  send_all-HasEvents org event_id severity type (rule ∷ rules) sent w h =
      let skipped = send_all-HasEvents org event_id severity type rules sent w h in
      let next = send_all-HasEvents org event_id severity type rules (sent + 1) in
      Ensures-if (ltb (severity_rank severity) (severity_rank rule.min_severity)) (λ _. skipped)
        (λ _.
          Ensures-seq {P = HasEvents events} (Ensures-insert db _ _ w (record { same = h.same }))
            (λ u k. next u k))

  pub dispatch-HasEvents :
      (org event_id : String) (severity : EventSeverity) (type : EventType) (w : World)
      → HasEvents events w
      → Ensures
          (dispatch_notifications db org event_id severity type)
          w
          (λ _ w'. HasEvents events w')
  unfolding dispatch_notifications
  dispatch-HasEvents org event_id severity type w h =
      Ensures-read _ _ (send_all-HasEvents org event_id severity type _ 0 w h)

  module _ (cam : Camera) (input : Intake) where
    content-HasEvents :
        (event_id filename : String) (content : Option String) (w : World)
        → HasEvents events w
        → Ensures
            (keep_content rt clock db cam input event_id filename content)
            w
            (λ _ w'. HasEvents events w')
    content-HasEvents event_id filename none w h = Ensures-pure tt h
    content-HasEvents event_id filename (some content) w h =
        stored-HasEvents input.organization_id event_id _ content w h

    pub snapshot-HasEvents :
        (event_id prefix : String) (w : World)
        → HasEvents events w
        → Ensures
            (keep_snapshot rt clock db cam input event_id prefix)
            w
            (λ _ w'. HasEvents events w')
    unfolding keep_snapshot
    snapshot-HasEvents event_id prefix w h = content-HasEvents event_id _ input.snapshot w h

    named-HasEvents :
        (failure : String) (r : Option Event) (w : World)
        → HasEvents events w
        → Ensures (id_or_throw rt clock db cam input failure r) w (λ _ w'. HasEvents events w')
    named-HasEvents failure none w h = Ensures-throw _
    named-HasEvents failure (some r) w h = Ensures-pure r.id h

    existing-HasEvents :
        (failure : String) (c : Option String) (w : World)
        → HasEvents events w
        → Ensures
            (existing_or_throw rt clock db cam input failure c)
            w
            (λ _ w'. HasEvents events w')
    existing-HasEvents failure none w h = Ensures-throw _
    existing-HasEvents failure (some c) w h =
        Ensures-read _ _ (named-HasEvents failure (correlated rt clock db cam input c w) w h)

    inserted-HasEvents :
        (failure : String) (id : Option String) (w : World)
        → HasEvents events w
        → Ensures
            (inserted_or_existing rt clock db cam input failure id)
            w
            (λ _ w'. HasEvents events w')
    inserted-HasEvents failure none w h =
        existing-HasEvents failure (truthy input.correlation_id) w h
    inserted-HasEvents failure (some id) w h = Ensures-pure id h

is_duplicate-concat :
    (org c : String) (events : List Event) (r : Event)
    → r.organization_id ≡ org
    → r.correlation_id ≡ some c
    → is_duplicate org (some c) (events ++ r ∷ []) ≡ true
unfolding is_duplicate
is_duplicate-concat org c [] r same named =
    ground (arith, eq_iff r.organization_id org, same, eq_refl c, ap (same_correlation c) named)
is_duplicate-concat org c (x ∷ events) r same named =
    ground (arith, is_duplicate-concat org c events r same named)

-- The event table before and after an intake.
pub record Recorded (input : Intake) (before after : List Event) : Type 0 where
  pub repeated :
      is_duplicate input.organization_id input.correlation_id before ≡ true → after ≡ before
  pub marked :
      (c : String)
      → input.correlation_id ≡ some c
      → is_duplicate input.organization_id (some c) after ≡ true

module _ (rt : Runtime) (clock : Clock) (db : TenantContext) (cam : Camera) (input : Intake) where
  insert_once-Recorded :
      (w : World)
      → Ensures (insert_once rt clock db cam input) w (λ _ w'. Recorded input w.events w'.events)
  unfolding insert_once new_id insert_event new_event
  insert_once-Recorded w =
      Ensures-bind {P = λ _. HasEvents w.events} (Ensures-step _ _ refl (record { same = refl }))
        (λ id u h. Ensures-read _ _ (
          Ensures-if (is_duplicate input.organization_id input.correlation_id u.events)
            (λ y. Ensures-pure none (record {
              repeated = λ _. h.same;
              marked = λ c e. sym (ap (λ d. is_duplicate input.organization_id d u.events) e) ∙ y;
            }))
            (λ n.
              Ensures-seq {P = λ x. Recorded input w.events x.events}
                (Ensures-insert db _ _ u (record {
                  repeated = λ y. absurd (
                      true≢false (
                        sym y
                        ∙ sym (
                            ap (λ es. is_duplicate input.organization_id input.correlation_id es)
                              h.same)
                        ∙ n));
                  marked = λ c e. is_duplicate-concat input.organization_id c u.events _ refl e;
                }))
                (λ x k. Ensures-pure _ k))))

  pub record_event-Recorded :
      (failure : String) (w : World)
      → Ensures
          (record_event rt clock db cam input failure)
          w
          (λ _ w'. Recorded input w.events w'.events)
  unfolding record_event
  record_event-Recorded failure w = Ensures-bind (insert_once-Recorded w) (λ id u k.
      Ensures-weaken
        (inserted-HasEvents rt clock db cam input failure id u (record { same = refl }))
        (λ _ x h. subst (Recorded input w.events) (sym h.same) k))
