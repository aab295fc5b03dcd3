-- ===== src/Media/Health/Flapping.antt =====
-- Lists of reports of one camera, and what they emit.
use ai_cctv_platform.Common.{
  ℕ, ◌+◌, ◌≡◌, refl, sym, ap, ◌∙◌, true, false, String, Option, some, none, List, [], ◌∷◌, All,
  arith, if◌then◌else◌,
}
use ai_cctv_platform.Ai.Types.{EventType, camera_offline, camera_recovered, type_eq}
use ai_cctv_platform.Media.Status.{CameraStatus, is_offline_status}
use ai_cctv_platform.Media.Health.{
  HealthUpdate, transition, select_camera, refresh_camera, apply_all,
}
use ai_cctv_platform.Media.Health.Transitions.{apply_health_update-Applied}
use ai_cctv_platform.Tenancy.World.{World, Runtime, Camera}
use ai_cctv_platform.Tenancy.Rls.{TenantContext, org_visible}
use ai_cctv_platform.Tenancy.Triples.{Yields, Yields-pure, Yields-bind, Yields-weaken}

-- What the statuses of a list of reports call for, from a status on.
abbrev pub emissions : CameraStatus → List CameraStatus → List (Option EventType)
emissions prev [] = []
emissions prev (s ∷ ss) = transition prev s ∷ emissions s ss

-- How often a type was emitted.
unfoldable pub emitted : EventType → List (Option EventType) → ℕ
unfolding type_eq
emitted t [] = 0
emitted t (none ∷ es) = emitted t es
emitted t (some u ∷ es) = (if type_eq u t then 1 else 0) + emitted t es

abbrev pub statuses : List (ℕ × HealthUpdate) → List CameraStatus
statuses [] = []
statuses ((now, u) ∷ us) = u.status ∷ statuses us

-- A report of the camera `c` of the organization `o`.
abbrev pub IsOf : String → String → ℕ × HealthUpdate → Type 0
IsOf o c p = (p.1.organization_id ≡ o) × (p.1.camera_id ≡ c)

-- The row of the camera `c` that a query by its id finds.
abbrev pub seen_as : Runtime → TenantContext → (base : HealthUpdate) → World → Option Camera
seen_as rt ctx base w = select_camera rt 0 ctx base w

module _ (rt : Runtime) (ctx : TenantContext) (base : HealthUpdate)
    (visible : org_visible ctx base.organization_id ≡ true) where
  same_camera :
      (now : ℕ) (u : HealthUpdate) (w : World)
      → u.camera_id ≡ base.camera_id
      → select_camera rt now ctx u w ≡ seen_as rt ctx base w
  unfolding select_camera
  same_camera now u w e = rw e

  -- The reports emit what the sequence of their statuses calls for, one after the other.
  pub apply_all_lem :
      (us : List (ℕ × HealthUpdate)) (prior : Camera) (w : World)
      → All (IsOf base.organization_id base.camera_id) us
      → seen_as rt ctx base w ≡ some prior
      → Yields (apply_all rt ctx us) w (λ es _. es ≡ emissions prior.status (statuses us))
  unfolding apply_all refresh_camera
  apply_all_lem [] prior w h e = Yields-pure [] refl
  apply_all_lem ((now, u) ∷ us) prior w (of, h) e =
      Yields-bind
        (apply_health_update-Applied rt now ctx u (ap (org_visible ctx) of.0 ∙ visible) prior w
          (same_camera now u w of.1 ∙ e))
        (λ t w' r.
          Yields-bind
            (apply_all_lem us (refresh_camera rt now ctx u prior) w' h
              (sym (same_camera now u w' of.1) ∙ r.camera))
            (λ ts w'' p. Yields-pure _ (λ i. r.decided i ∷ p i)))

outage :
    (s : CameraStatus) (ss : List CameraStatus)
    → is_offline_status s ≡ true
    → All (λ r. is_offline_status r ≡ true) ss
    → (emitted camera_offline (emissions s ss) ≡ 0)
      × (emitted camera_recovered (emissions s ss) ≡ 0)
unfolding emitted transition
outage s [] h hs = (refl, refl)
outage s (r ∷ ss) h (k, hs) = ground (arith, outage r ss k hs)

module _ (rt : Runtime) (ctx : TenantContext) (base : HealthUpdate)
    (visible : org_visible ctx base.organization_id ≡ true) (us : List (ℕ × HealthUpdate))
    (prior : Camera) (w : World) (of : All (IsOf base.organization_id base.camera_id) us)
    (known : seen_as rt ctx base w ≡ some prior) (up : is_offline_status prior.status ≡ false) where
  -- While reports stay among the offline statuses, they emit CAMERA_OFFLINE once, and nothing else.
  pub apply_all-outage :
      (s : CameraStatus) (ss : List CameraStatus)
      → statuses us ≡ s ∷ ss
      → is_offline_status s ≡ true
      → All (λ r. is_offline_status r ≡ true) ss
      → Yields
          (apply_all rt ctx us)
          w
          (λ es _. (emitted camera_offline es ≡ 1) × (emitted camera_recovered es ≡ 0))
  unfolding emitted transition
  apply_all-outage s ss e h hs =
      Yields-weaken (apply_all_lem rt ctx base visible us prior w of known)
        (λ es w' p. rw (p, e) (ground (arith, outage s ss h hs)))
