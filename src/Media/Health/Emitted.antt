-- ===== src/Media/Health/Emitted.antt =====
-- The rows and the message of an emitted event.
use mathlib.Core.Option.{some-injective}
use mathlib.Core.Path.{subst}
use ai_cctv_platform.Common.{
  String, ℕ, ◌≡◌, refl, ap, ◌∙◌, true, Option, some, none, [], ◌∷◌, ◌++◌, arith, if◌then◌else◌,
}
use ai_cctv_platform.Ai.Types.{
  EventType, camera_offline, camera_recovered, high, info, open_, type_name,
}
use ai_cctv_platform.Media.Status.{health_for}
use ai_cctv_platform.Media.Health.{
  HealthUpdate, is_lost, transition, select_camera, emit, emit_if, apply_to, apply_health_update,
}
use ai_cctv_platform.Tenancy.World.{World, Runtime, Camera, Event, Published, camera_state}
use ai_cctv_platform.Tenancy.Rls.{
  TenantContext, org_visible, update_cameras, insert_health_event, insert_event, insert_audit_log,
  new_id, publish,
}
use ai_cctv_platform.Tenancy.Triples.{
  Yields, Yields-pure, Yields-bind, Yields-seq, Yields-read, Yields-write, Yields-insert,
  Yields-weaken,
}
use ai_cctv_platform.Services.Notification.{audit}

module _ (rt : Runtime) (now : ℕ) (ctx : TenantContext) (u : HealthUpdate)
    (visible : org_visible ctx u.organization_id ≡ true) where
  abbrev pub news : EventType → Published
  news t = record {
    organization_id = u.organization_id;
    kind = type_name t;
    payload = camera_state u.camera_id u.status (health_for u.status);
  }

  -- One event of the type, HIGH for a loss and INFO for a recovery, and one message of that type.
  pub record EmittedAs (t : EventType) (w w' : World) : Type 0 where
    pub event : Event
    pub events : w'.events ≡ w.events ++ event ∷ []
    pub type : event.event_type ≡ t
    pub organization_id : event.organization_id ≡ u.organization_id
    pub camera_id : event.camera_id ≡ u.camera_id
    pub lost : t ≡ camera_offline → event.severity ≡ high
    pub back : t ≡ camera_recovered → event.severity ≡ info
    pub published : w'.published ≡ w.published ++ news t ∷ []

  abbrev row : String → EventType → Event
  row id t = record {
    id = id;
    organization_id = u.organization_id;
    site_id = u.site_id;
    camera_id = u.camera_id;
    ai_rule_id = none;
    event_type = t;
    severity = if is_lost t then high else info;
    confidence = 0;
    status = open_;
    correlation_id = none;
    metadata = rt.health_json u.status u.detail;
    occurred_at = now;
    updated_at = now;
  }

  emit-EmittedAs :
      (t : EventType) (w : World) → Yields (emit rt now ctx u t) w (λ _ w'. EmittedAs t w w')
  unfolding emit insert_health_event new_id insert_event audit insert_audit_log publish
  emit-EmittedAs t w =
      Yields-seq {P = λ v. (v.events ≡ w.events) × (v.published ≡ w.published)}
        (Yields-insert ctx _ w _ visible (refl, refl))
        (λ v p.
          Yields-bind {P = λ _ x. (x.events ≡ w.events) × (x.published ≡ w.published)}
            (record { value = _; after = _; runs = refl; post = p })
            (λ id x q.
              Yields-seq
                {P = λ y. (y.events ≡ w.events ++ row id t ∷ []) × (y.published ≡ w.published)}
                (Yields-insert ctx _ x _ visible (ap (λ es. es ++ row id t ∷ []) q.0, q.1))
                (λ y s.
                  Yields-seq
                    {P = λ z. (z.events ≡ w.events ++ row id t ∷ []) × (z.published ≡ w.published)}
                    (Yields-insert ctx _ y _ visible s)
                    (λ z r. Yields-write _ refl (record {
                      event = row id t;
                      events = r.0;
                      type = refl;
                      organization_id = refl;
                      camera_id = refl;
                      lost = λ e. ap (λ k. if is_lost k then high else info) e;
                      back = λ e. ap (λ k. if is_lost k then high else info) e;
                      published = ap (λ ms. ms ++ news t ∷ []) r.1;
                    })))))

  emit_if-EmittedAs :
      (o : Option EventType) (w : World)
      → Yields (emit_if rt now ctx u o) w (λ e w'. (t : EventType) → e ≡ some t → EmittedAs t w w')
  unfolding emit_if
  emit_if-EmittedAs none w = Yields-pure none (λ t e. ground (arith, e))
  emit_if-EmittedAs (some s) w =
      Yields-seq (emit-EmittedAs s w) (λ w' m.
        Yields-pure (some s) (λ t e. subst (λ k. EmittedAs k w w') (some-injective s t e) m))

  apply_to-EmittedAs :
      (prior : Camera) (w : World)
      → Yields
          (apply_to rt now ctx u (some prior))
          w
          (λ e w'. (t : EventType) → e ≡ some t → EmittedAs t w w')
  unfolding apply_to update_cameras
  apply_to-EmittedAs prior w =
      Yields-seq {P = λ v. (v.events ≡ w.events) × (v.published ≡ w.published)}
        (Yields-write _ refl (refl, refl))
        (λ v p. Yields-weaken (emit_if-EmittedAs (transition prior.status u.status) v) (λ o x h t e.
          let m = h t e in
          record {
            event = m.event;
            events = m.events ∙ ap (λ es. es ++ m.event ∷ []) p.0;
            type = m.type;
            organization_id = m.organization_id;
            camera_id = m.camera_id;
            lost = m.lost;
            back = m.back;
            published = m.published ∙ ap (λ ms. ms ++ news t ∷ []) p.1;
          }))

  pub apply_health_update-EmittedAs :
      (prior : Camera) (w : World)
      → select_camera rt now ctx u w ≡ some prior
      → Yields
          (apply_health_update rt now ctx u)
          w
          (λ e w'. (t : EventType) → e ≡ some t → EmittedAs t w w')
  unfolding apply_health_update
  apply_health_update-EmittedAs prior w e = Yields-read _ _ (rw e (apply_to-EmittedAs prior w))
