-- ===== src/Media/Health/Transitions.antt =====
-- What one report does to the camera and emits, by the functions of the code.
use mathlib.Core.Option
use ai_cctv_platform.Common.{
  ℕ, ◌+◌, ◌≡◌, refl, sym, ap, ◌∙◌, true, ◌==◌, Option, some, none, length, length-append, first,
  arith,
}
use ai_cctv_platform.Ai.Types.{EventType}
use ai_cctv_platform.Media.Health.{
  HealthUpdate, transition, refresh_camera, select_camera, emit, emit_if, apply_to,
  apply_health_update,
}
use ai_cctv_platform.Tenancy.World.{World, Runtime, Camera}
use ai_cctv_platform.Tenancy.Rls.{
  TenantContext, org_visible, select, update_cameras, insert_health_event, insert_event,
  insert_audit_log, new_id, publish,
}
use ai_cctv_platform.Tenancy.Rls.Queries.{first-select-update}
use ai_cctv_platform.Tenancy.Triples.{
  Yields, Yields-pure, Yields-bind, Yields-seq, Yields-read, Yields-write, Yields-insert,
  Yields-weaken,
}
use ai_cctv_platform.Services.Notification.{audit}

abbrev pub rows_for : Option EventType → ℕ
rows_for none = 0
rows_for (some _) = 1

-- What is emitted stores one health event, one event, one audit entry and one message, and leaves
-- the cameras.
pub record Stored (emitted : Option EventType) (w w' : World) : Type 0 where
  pub cameras : w'.cameras ≡ w.cameras
  pub health_events : length w'.health_events ≡ length w.health_events + rows_for emitted
  pub events : length w'.events ≡ length w.events + rows_for emitted
  pub audit_logs : length w'.audit_logs ≡ length w.audit_logs + rows_for emitted
  pub published : length w'.published ≡ length w.published + rows_for emitted

module _ (rt : Runtime) (now : ℕ) (ctx : TenantContext) (u : HealthUpdate)
    (visible : org_visible ctx u.organization_id ≡ true) where
  abbrev Same : (h e a : ℕ) → World → World → Type 0
  Same h e a v w =
      (v.cameras ≡ w.cameras)
      × (length v.health_events ≡ length w.health_events + h)
      × (length v.events ≡ length w.events + e)
      × (length v.audit_logs ≡ length w.audit_logs + a)
      × (length v.published ≡ length w.published + 0)

  emit-Stored :
      (t : EventType) (w : World) → Yields (emit rt now ctx u t) w (λ _ w'. Stored (some t) w w')
  unfolding emit insert_health_event new_id insert_event audit insert_audit_log publish
  emit-Stored t w =
      Yields-seq {P = λ v. Same 1 0 0 v w}
        (Yields-insert ctx _ w _ visible
          (refl, length-append w.health_events _, (omega arith), (omega arith), (omega arith)))
        (λ v p.
          Yields-bind {P = λ _ x. Same 1 0 0 x w}
            (record { value = _; after = _; runs = refl; post = p })
            (λ id x q.
              Yields-seq {P = λ y. Same 1 1 0 y w}
                (Yields-insert ctx _ x _ visible
                  (q.0, q.1, (omega (arith, length-append x.events _, q.2)), q.3, q.4))
                (λ y s.
                  Yields-seq {P = λ z. Same 1 1 1 z w}
                    (Yields-insert ctx _ y _ visible
                      (s.0, s.1, s.2, (omega (arith, length-append y.audit_logs _, s.3)), s.4))
                    (λ z r. Yields-write _ refl (record {
                      cameras = r.0;
                      health_events = r.1;
                      events = r.2;
                      audit_logs = r.3;
                      published = omega (arith, length-append z.published _, r.4);
                    })))))

  emit_if-Stored :
      (t : Option EventType) (w : World)
      → Yields (emit_if rt now ctx u t) w (λ e w'. (e ≡ t) × Stored t w w')
  unfolding emit_if
  emit_if-Stored none w = Yields-pure none (
    refl,
    record {
      cameras = refl;
      health_events = omega arith;
      events = omega arith;
      audit_logs = omega arith;
      published = omega arith;
    },
  )
  emit_if-Stored (some t) w = Yields-seq (emit-Stored t w) (λ w' s. Yields-pure (some t) (refl, s))

  -- The outcome of a report on a camera whose row was `prior`, by the code's own functions.
  pub record Applied (prior : Camera) (w : World) (emitted : Option EventType) (w' : World)
      : Type 0 where
    pub decided : emitted ≡ transition prior.status u.status
    pub camera : select_camera rt now ctx u w' ≡ some (refresh_camera rt now ctx u prior)
    pub health_events : length w'.health_events ≡ length w.health_events + rows_for emitted
    pub events : length w'.events ≡ length w.events + rows_for emitted
    pub audit_logs : length w'.audit_logs ≡ length w.audit_logs + rows_for emitted
    pub published : length w'.published ≡ length w.published + rows_for emitted

  apply_to-Applied :
      (prior : Camera) (w : World)
      → select_camera rt now ctx u w ≡ some prior
      → Yields (apply_to rt now ctx u (some prior)) w (Applied prior w)
  unfolding apply_to update_cameras select_camera refresh_camera
  apply_to-Applied prior w e =
      Yields-seq
        {P = λ v.
          (select_camera rt now ctx u v ≡ some (refresh_camera rt now ctx u prior))
          × (v.health_events ≡ w.health_events)
          × (v.events ≡ w.events)
          × (v.audit_logs ≡ w.audit_logs)
          × (v.published ≡ w.published)}
        (Yields-write _ refl (
          first-select-update (λ (r : Camera). r.organization_id) ctx (λ r. r.id == u.camera_id)
                (refresh_camera rt now ctx u) (λ r. refl) (λ r. refl) w.cameras
              ∙ ap (Option.map (refresh_camera rt now ctx u)) e,
          refl,
          refl,
          refl,
          refl,
        ))
        (λ v p. Yields-weaken (emit_if-Stored (transition prior.status u.status) v) (λ t x q.
          let rows = λ (n : ℕ). ap (λ o. n + rows_for o) (sym q.0) in
          let kept = λ (n m : ℕ) (e : n ≡ m).
            ap (λ k. k + rows_for (transition prior.status u.status)) e ∙ rows m in
          record {
            decided = q.0;
            camera =
                ap
                  (λ cs.
                    first (
                      select (λ (r : Camera). r.organization_id) ctx (λ r. r.id == u.camera_id) cs))
                  q.1.cameras
                ∙ p.0;
            health_events = q.1.health_events ∙ kept _ _ (ap (λ h. length h) p.1);
            events = q.1.events ∙ kept _ _ (ap (λ h. length h) p.2);
            audit_logs = q.1.audit_logs ∙ kept _ _ (ap (λ h. length h) p.3);
            published = q.1.published ∙ kept _ _ (ap (λ h. length h) p.4);
          }))

  pub apply_health_update-Applied :
      (prior : Camera) (w : World)
      → select_camera rt now ctx u w ≡ some prior
      → Yields (apply_health_update rt now ctx u) w (Applied prior w)
  unfolding apply_health_update
  apply_health_update-Applied prior w e = Yields-read _ _ (rw e (apply_to-Applied prior w e))
