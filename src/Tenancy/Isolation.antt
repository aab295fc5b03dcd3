-- ===== src/Tenancy/Isolation.antt =====
-- What one organization's handlers leave of another's rows: everything.
pub mod Statements
use mathlib.Core.List.{map}
use ai_cctv_platform.Common.{
  ◌≡◌, refl, ap, ◌∙◌, sym, ◌≢◌, Bool, true, false, ◌&&◌, String, ◌==◌, eq_iff, starts_with, List,
  [], ◌∷◌, ◌++◌, filter, arith, ◌⧺◌, if◌then◌else◌, Bool-cases, inl, inr,
}
use ai_cctv_platform.Access.Errors.{Error}
use ai_cctv_platform.Tenancy.World.{
  World, Runtime, Camera, Event, Cooldown, Evidence, Notification, AuditLog, HealthEvent,
  StoredObject, Published,
}
use ai_cctv_platform.Tenancy.Rls.{
  TenantContext, org_visible, Run, ok, err, Handler, world_of, pure, throw, ◌>>=◌, ◌>>◌, when, gets,
  update, insert_event, insert_evidence, insert_notification, insert_audit_log, insert_health_event,
  insert_cooldown, update_events, update_cameras, update_cooldowns, new_id, put_object, publish,
  with_tenant,
}

-- The prefix of an organization's objects (`keyBelongsToOrg` of storage.service.ts).
unfoldable pub key_belongs_to_org : String → String → Bool
key_belongs_to_org storage_key org = starts_with storage_key ("organizations/" ⧺ org ⧺ "/")

-- What organization `o` owns of the state: its rows, its objects, and the messages sent to it.
unfoldable pub view : String → World → World
unfolding key_belongs_to_org
view o w = record {
  cameras = filter (λ r. r.organization_id == o) w.cameras;
  ai_rules = filter (λ r. r.organization_id == o) w.ai_rules;
  events = filter (λ r. r.organization_id == o) w.events;
  cooldowns = filter (λ r. r.organization_id == o) w.cooldowns;
  evidence = filter (λ r. r.organization_id == o) w.evidence;
  notification_rules = filter (λ r. r.organization_id == o) w.notification_rules;
  notifications = filter (λ r. r.organization_id == o) w.notifications;
  audit_logs = filter (λ r. r.organization_id == o) w.audit_logs;
  health_events = filter (λ r. r.organization_id == o) w.health_events;
  sites = filter (λ r. r.organization_id == o) w.sites;
  zones = filter (λ r. r.organization_id == o) w.zones;
  credentials = filter (λ r. r.organization_id == o) w.credentials;
  subscriptions = filter (λ r. r.organization_id == o) w.subscriptions;
  members = filter (λ r. r.organization_id == o) w.members;
  notes = filter (λ r. r.organization_id == o) w.notes;
  stats = filter (λ r. r.organization_id == o) w.stats;
  users = [];
  objects = filter (λ r. key_belongs_to_org r.storage_key o) w.objects;
  published = filter (λ r. r.organization_id == o) w.published;
  issued = 0;
}

module _ {A : Type 0} where
  pub filter-concat_false :
      (q : A → Bool) (xs : List A) (x : A) → q x ≡ false → filter q (xs ++ x ∷ []) ≡ filter q xs
  filter-concat_false q [] x h = ground arith
  filter-concat_false q (y ∷ xs) x h = ground (arith, filter-concat_false q xs x h)

  pub filter-map_outside :
      (q : A → Bool) (g : A → A) (xs : List A)
      → ((x : A) → q (g x) ≡ q x)
      → ((x : A) → q x ≡ true → g x ≡ x)
      → filter q (map g xs) ≡ filter q xs
  filter-map_outside q g [] same fixed = refl
  filter-map_outside q g (x ∷ xs) same fixed =
      ground (arith, same x, fixed x, filter-map_outside q g xs same fixed)

-- `m` leaves what `o` owns as it was, whether it returns or throws.
pub record Spares {ℓ} {A : Type ℓ} (o : String) (m : Handler A) : Type ℓ where
  pub at : (w : World) → view o (world_of (m w)) ≡ view o w

module _ {ℓ} {A : Type ℓ} {o : String} where
  pub Spares-pure : (a : A) → Spares o (pure a)
  unfolding pure
  Spares-pure a = record { at = λ w. refl }

  pub Spares-throw : (e : Error) → Spares o (throw {A = A} e)
  unfolding throw
  Spares-throw e = record { at = λ w. refl }

  pub Spares-gets : (f : World → A) → Spares o (gets f)
  unfolding gets
  Spares-gets f = record { at = λ w. refl }

  pub Spares-if :
      (b : Bool) {m n : Handler A} → Spares o m → Spares o n → Spares o (if b then m else n)
  Spares-if true hm hn = hm
  Spares-if false hm hn = hn

pub Spares-when :
    {o : String} (b : Bool) {m : Handler (Unit {0})} → Spares o m → Spares o (when b m)
unfolding when
Spares-when true h = h
Spares-when false h = Spares-pure tt

module _ {ℓ κ} {A : Type ℓ} {B : Type κ} {o : String} where
  Spares-bind_at :
      (r : Run A) (f : A → Handler B) (w : World)
      → view o (world_of r) ≡ view o w
      → ((a : A) → Spares o (f a))
      → view o (world_of (elim r [ ok a w' ↦ f a w' | err e w' ↦ err e w' ])) ≡ view o w
  Spares-bind_at (ok a w') f w h hf = (hf a).at w' ∙ h
  Spares-bind_at (err e w') f w h hf = h

  pub Spares-bind :
      {m : Handler A} {f : A → Handler B}
      → Spares o m
      → ((a : A) → Spares o (f a))
      → Spares o (m >>= f)
  unfolding ◌>>=◌
  Spares-bind {m} {f} hm hf = record { at = λ w. Spares-bind_at (m w) f w (hm.at w) hf }

pub Spares-seq {ℓ} :
    {B : Type ℓ} {o : String} {m : Handler (Unit {0})} {k : Handler B}
    → Spares o m
    → Spares o k
    → Spares o (m >> k)
unfolding ◌>>◌
Spares-seq hm hk = Spares-bind hm (λ _. hk)
