-- ===== src/Media/Health/Decisions.antt =====
-- What the changes of a camera's status call for, and the parts of its row.
use mathlib.Core.Option.{some-ne-none}
use ai_cctv_platform.Common.{
  or_else, ℕ, ◌≡◌, refl, ap, ◌∙◌, Bool, true, false, not, ◌&&◌, Option, some, none, ◌↔◌, ◌⊎◌, inl,
  inr, arith, if◌then◌else◌, Bool-cases,
}
use ai_cctv_platform.Ai.Types.{EventType, camera_offline, camera_recovered}
use ai_cctv_platform.Media.Status.{
  CameraStatus, CameraHealth, health_for, is_offline_status, is_online,
}
use ai_cctv_platform.Media.Health.{transition}

-- The statuses of a camera without a stream.
pub data IsDown : CameraStatus → Type 0 where
  is_offline : IsDown CameraStatus.offline
  is_auth_failed : IsDown CameraStatus.auth_failed
  is_invalid : IsDown CameraStatus.invalid_stream

-- What becomes of a mark: the time of the report where it is set, what stood there where not.
abbrev pub Marked : ℕ → Bool → (before after : Option ℕ) → Type 0
Marked now mark before after = (mark ≡ true → after ≡ some now) × (mark ≡ false → after ≡ before)

-- What becomes of a detail: what the report says, or what stood there.
abbrev pub Refreshed {ℓ} : {A : Type ℓ} → (said before after : Option A) → Type ℓ
Refreshed said before after = (said ≡ none → after ≡ before) × ((said ≡ none → ⊥) → after ≡ said)

is_offline_status-IsDown : (s : CameraStatus) → is_offline_status s ≡ true → IsDown s
unfolding is_offline_status
is_offline_status-IsDown CameraStatus.offline h = is_offline
is_offline_status-IsDown CameraStatus.auth_failed h = is_auth_failed
is_offline_status-IsDown CameraStatus.invalid_stream h = is_invalid
is_offline_status-IsDown CameraStatus.online h = ground (arith, h)
is_offline_status-IsDown CameraStatus.connecting h = ground (arith, h)
is_offline_status-IsDown CameraStatus.reconnecting h = ground (arith, h)
is_offline_status-IsDown CameraStatus.degraded h = ground (arith, h)
is_offline_status-IsDown CameraStatus.disabled h = ground (arith, h)
is_offline_status-IsDown CameraStatus.unknown h = ground (arith, h)

IsDown-is_offline_status : (s : CameraStatus) → IsDown s → is_offline_status s ≡ true
unfolding is_offline_status
IsDown-is_offline_status _ is_offline = refl
IsDown-is_offline_status _ is_auth_failed = refl
IsDown-is_offline_status _ is_invalid = refl

is_online-eq : (s : CameraStatus) → is_online s ≡ true → s ≡ CameraStatus.online
unfolding is_online
is_online-eq CameraStatus.online h = refl
is_online-eq CameraStatus.offline h = ground (arith, h)
is_online-eq CameraStatus.auth_failed h = ground (arith, h)
is_online-eq CameraStatus.invalid_stream h = ground (arith, h)
is_online-eq CameraStatus.connecting h = ground (arith, h)
is_online-eq CameraStatus.reconnecting h = ground (arith, h)
is_online-eq CameraStatus.degraded h = ground (arith, h)
is_online-eq CameraStatus.disabled h = ground (arith, h)
is_online-eq CameraStatus.unknown h = ground (arith, h)

abbrev chosen : Bool → Bool → Bool → Option EventType
chosen was is on =
    if not was && is then some camera_offline else if was && on then some camera_recovered else none

chosen_offline :
    (was is on : Bool) → chosen was is on ≡ some camera_offline → (was ≡ false) × (is ≡ true)
chosen_offline was is on h = ground (arith, h)

chosen_recovered :
    (was is on : Bool) → chosen was is on ≡ some camera_recovered → (was ≡ true) × (on ≡ true)
chosen_recovered was is on h = ground (arith, h)

chosen_other :
    (was is on : Bool) (t : EventType)
    → chosen was is on ≡ some t
    → (t ≡ camera_offline) ⊎ (t ≡ camera_recovered)
chosen_other false true on t h = inl (ground (arith, h))
chosen_other false false on t h = ground (arith, h)
chosen_other true is true t h = inr (ground (arith, h))
chosen_other true is false t h = ground (arith, h)

not_down : (s : CameraStatus) → (IsDown s → ⊥) → is_offline_status s ≡ false
not_down s h = elim (Bool-cases (is_offline_status s)) [
  | inl e ↦ absurd (h (is_offline_status-IsDown s e))
  | inr e ↦ e
]

pub transition_offline :
    (was is : CameraStatus)
    → (transition was is ≡ some camera_offline) ↔ ((IsDown was → ⊥) × IsDown is)
unfolding transition
transition_offline was is = (
  λ h.
      let c = chosen_offline (is_offline_status was) (is_offline_status is) (is_online is) h in
      ((λ d. ground (arith, c.0, IsDown-is_offline_status was d)), is_offline_status-IsDown is c.1),
  λ h. ground (arith, not_down was h.0, IsDown-is_offline_status is h.1),
)

online_on : is_online CameraStatus.online ≡ true
unfolding is_online
online_on = refl

pub transition_recovered :
    (was is : CameraStatus)
    → (transition was is ≡ some camera_recovered) ↔ (IsDown was × (is ≡ CameraStatus.online))
unfolding transition
transition_recovered was is = (
  λ h.
      let c = chosen_recovered (is_offline_status was) (is_offline_status is) (is_online is) h in
      (is_offline_status-IsDown was c.0, is_online-eq is c.1),
  λ h. ground (arith, IsDown-is_offline_status was h.0, ap is_online h.1 ∙ online_on),
)

pub transition_other :
    (was is : CameraStatus) (t : EventType)
    → transition was is ≡ some t
    → (t ≡ camera_offline) ⊎ (t ≡ camera_recovered)
unfolding transition
transition_other was is t h =
    chosen_other (is_offline_status was) (is_offline_status is) (is_online is) t h

pub health_for_healthy :
    (s : CameraStatus) → (health_for s ≡ CameraHealth.healthy) ↔ (s ≡ CameraStatus.online)
unfolding health_for
health_for_healthy CameraStatus.online = (λ h. refl, λ h. refl)
health_for_healthy CameraStatus.offline = (ground arith, ground arith)
health_for_healthy CameraStatus.connecting = (ground arith, ground arith)
health_for_healthy CameraStatus.reconnecting = (ground arith, ground arith)
health_for_healthy CameraStatus.degraded = (ground arith, ground arith)
health_for_healthy CameraStatus.auth_failed = (ground arith, ground arith)
health_for_healthy CameraStatus.invalid_stream = (ground arith, ground arith)
health_for_healthy CameraStatus.disabled = (ground arith, ground arith)
health_for_healthy CameraStatus.unknown = (ground arith, ground arith)

pub health_for_unhealthy : (s : CameraStatus) → (health_for s ≡ CameraHealth.unhealthy) ↔ IsDown s
unfolding health_for
health_for_unhealthy CameraStatus.online = ((λ h. ground (arith, h)), (λ d. elim d [ ]))
health_for_unhealthy CameraStatus.offline = ((λ h. is_offline), (λ d. refl))
health_for_unhealthy CameraStatus.connecting = ((λ h. ground (arith, h)), (λ d. elim d [ ]))
health_for_unhealthy CameraStatus.reconnecting = ((λ h. ground (arith, h)), (λ d. elim d [ ]))
health_for_unhealthy CameraStatus.degraded = ((λ h. ground (arith, h)), (λ d. elim d [ ]))
health_for_unhealthy CameraStatus.auth_failed = ((λ h. is_auth_failed), (λ d. refl))
health_for_unhealthy CameraStatus.invalid_stream = ((λ h. is_invalid), (λ d. refl))
health_for_unhealthy CameraStatus.disabled = ((λ h. ground (arith, h)), (λ d. elim d [ ]))
health_for_unhealthy CameraStatus.unknown = ((λ h. ground (arith, h)), (λ d. elim d [ ]))

pub marked :
    (now : ℕ) (mark : Bool) (before : Option ℕ)
    → Marked now mark before (if mark then some now else before)
marked now true before = ((λ h. refl), (λ h. ground (arith, h)))
marked now false before = ((λ h. ground (arith, h)), (λ h. refl))

pub or_else-Refreshed {ℓ} :
    {A : Type ℓ} (said before : Option A) → Refreshed said before (or_else said before)
or_else-Refreshed none before = ((λ h. refl), (λ h. absurd (h refl)))
or_else-Refreshed (some a) before = ((λ h. absurd (some-ne-none a h)), (λ h. refl))
