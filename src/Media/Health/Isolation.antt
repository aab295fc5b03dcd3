-- ===== src/Media/Health/Isolation.antt =====
-- A health report of one organization leaves every other organization's state.
use ai_cctv_platform.Common.{◌≡◌, refl, ◌∙◌, String, Option, some, none}
use ai_cctv_platform.Ai.Types.{EventType}
use ai_cctv_platform.Tenancy.World.{World, Runtime, Camera}
use ai_cctv_platform.Tenancy.Rls.{TenantContext, world_of}
use ai_cctv_platform.Tenancy.Isolation.{
  view, Spares, Spares-pure, Spares-gets, Spares-bind, Spares-seq,
}
use ai_cctv_platform.Tenancy.Isolation.Statements.{
  BoundElsewhere, insert_event-Spares, insert_audit_log-Spares, insert_health_event-Spares,
  update_cameras-Spares, new_id-Spares, publish-Spares,
}
use ai_cctv_platform.Services.Notification.{audit}
use ai_cctv_platform.Media.Health.{
  HealthUpdate, refresh_camera, emit, emit_if, apply_to, apply_health_update,
}
use ai_cctv_platform.Common.{ℕ}

module _ (rt : Runtime) (now : ℕ) (ctx : TenantContext) (u : HealthUpdate) {o : String}
    (b : BoundElsewhere ctx o) (same : ctx.organization_id ≡ u.organization_id) where
  emit-Spares : (t : EventType) → Spares o (emit rt now ctx u t)
  unfolding emit audit
  emit-Spares t = Spares-seq (insert_health_event-Spares b _) (
      Spares-bind (new_id-Spares rt) (λ id.
        Spares-seq (insert_event-Spares b _)
          (Spares-seq (insert_audit_log-Spares b _) (publish-Spares _ (λ e. b.apart (same ∙ e))))))

  emit_if-Spares : (t : Option EventType) → Spares o (emit_if rt now ctx u t)
  unfolding emit_if
  emit_if-Spares none = Spares-pure none
  emit_if-Spares (some t) = Spares-seq (emit-Spares t) (Spares-pure (some t))

  apply_to-Spares : (prior : Option Camera) → Spares o (apply_to rt now ctx u prior)
  unfolding apply_to refresh_camera
  apply_to-Spares none = Spares-pure none
  apply_to-Spares (some prior) =
      Spares-seq (update_cameras-Spares b _ _ (λ r. refl)) (emit_if-Spares _)

  pub apply_health_update-Spares : Spares o (apply_health_update rt now ctx u)
  unfolding apply_health_update
  apply_health_update-Spares = Spares-bind (Spares-gets _) (λ prior. apply_to-Spares prior)

  -- A report on a handle bound to its own organization leaves what any other organization owns.
  pub apply_health_update-isolation :
      (w : World) → view o (world_of (apply_health_update rt now ctx u w)) ≡ view o w
  apply_health_update-isolation w = apply_health_update-Spares.at w
