-- ===== src/Tenancy/Rls.antt =====
-- server/src/db/pool.ts and the policies of migrations/0001_init.sql: a handle bound to a tenant,
-- and the statements that run on it. A handler is a function of the state that returns or throws.
pub mod Queries
pub mod Closed
mod Examples
use ai_cctv_platform.Common.{
  Bool, true, false, ◌||◌, ◌&&◌, not, String, ◌==◌, List, [], ◌∷◌, ◌++◌, map, filter, ℕ, ◌+◌,
  if◌then◌else◌,
}
use ai_cctv_platform.Access.Errors.{Error, other}
use ai_cctv_platform.Tenancy.World.{
  World, Runtime, Camera, Site, Zone, Credentials, Member, IncidentNote, InferenceStats, AiRule,
  Event, Cooldown, Evidence, Notification, AuditLog, HealthEvent, StoredObject, Published,
}

pub record TenantContext : Type 0 where
  pub user_id : String
  pub organization_id : String
  pub is_platform_admin : Bool

-- The policy on every tenant table.
unfoldable pub org_visible : TenantContext → String → Bool
org_visible ctx row_org =
    ctx.is_platform_admin || (not (ctx.organization_id == "") && row_org == ctx.organization_id)

pub data Run {ℓ} (A : Type ℓ) : Type ℓ where
  ok : A → World → Run A
  err : Error → World → Run A

abbrev pub Handler {ℓ} : Type ℓ → Type ℓ
Handler A = World → Run A

abbrev pub world_of {ℓ} : {A : Type ℓ} → Run A → World
world_of (ok a w) = w
world_of (err e w) = w

unfoldable pub pure {ℓ} : {A : Type ℓ} → A → Handler A
pure a w = ok a w

unfoldable pub throw {ℓ} : {A : Type ℓ} → Error → Handler A
throw e w = err e w

infixl 5 ◌>>=◌ ◌>>◌
unfoldable pub ◌>>=◌ {ℓ κ} : {A : Type ℓ} {B : Type κ} → Handler A → (A → Handler B) → Handler B
◌>>=◌ m f w = elim (m w) [ ok a w' ↦ f a w' | err e w' ↦ err e w' ]

unfoldable pub ◌>>◌ {ℓ} : {B : Type ℓ} → Handler (Unit {0}) → Handler B → Handler B
unfolding ◌>>=◌
m >> k = m >>= λ _. k

unfoldable pub when : Bool → Handler (Unit {0}) → Handler (Unit {0})
unfolding pure
when true m = m
when false m = pure tt

-- A read of the state.
unfoldable pub gets {ℓ} : {A : Type ℓ} → (World → A) → Handler A
gets f w = ok (f w) w

-- What a proof unfolds to run a handler.
unfoldable pub run_handlers : Unit {0}
unfolding pure throw ◌>>=◌ ◌>>◌ when gets
run_handlers = tt

module _ {Row : Type 0} (org : Row → String) (ctx : TenantContext) where
  -- SELECT … WHERE p, under the policy.
  unfoldable pub select : (Row → Bool) → List Row → List Row
  unfolding org_visible
  select p rows = filter (λ r. org_visible ctx (org r) && p r) rows

  -- UPDATE … SET f WHERE p, under the policy.
  unfoldable pub update : (Row → Bool) → (Row → Row) → List Row → List Row
  unfolding org_visible
  update p f rows = map (λ r. if org_visible ctx (org r) && p r then f r else r) rows

  -- DELETE … WHERE p, under the policy.
  unfoldable pub delete : (Row → Bool) → List Row → List Row
  unfolding org_visible
  delete p rows = filter (λ r. not (org_visible ctx (org r) && p r)) rows

abbrev pub rls_violation : Error
rls_violation = other "new row violates row-level security policy"

-- INSERT: the policy's WITH CHECK, then the write.
unfoldable pub insert_row : TenantContext → String → (World → World) → Handler (Unit {0})
unfolding org_visible
insert_row ctx org write w = if org_visible ctx org then ok tt (write w) else err rls_violation w

module _ (ctx : TenantContext) where
  unfoldable pub insert_event : Event → Handler (Unit {0})
  unfolding insert_row
  insert_event r = insert_row ctx r.organization_id (λ w. record w { events = w.events ++ r ∷ [] })

  unfoldable pub insert_evidence : Evidence → Handler (Unit {0})
  unfolding insert_row
  insert_evidence r =
      insert_row ctx r.organization_id (λ w. record w { evidence = w.evidence ++ r ∷ [] })

  unfoldable pub insert_notification : Notification → Handler (Unit {0})
  unfolding insert_row
  insert_notification r =
      insert_row ctx r.organization_id (λ w. record w { notifications = w.notifications ++ r ∷ [] })

  unfoldable pub insert_audit_log : AuditLog → Handler (Unit {0})
  unfolding insert_row
  insert_audit_log r =
      insert_row ctx r.organization_id (λ w. record w { audit_logs = w.audit_logs ++ r ∷ [] })

  unfoldable pub insert_health_event : HealthEvent → Handler (Unit {0})
  unfolding insert_row
  insert_health_event r =
      insert_row ctx r.organization_id (λ w. record w { health_events = w.health_events ++ r ∷ [] })

  unfoldable pub insert_cooldown : Cooldown → Handler (Unit {0})
  unfolding insert_row
  insert_cooldown r =
      insert_row ctx r.organization_id (λ w. record w { cooldowns = w.cooldowns ++ r ∷ [] })

  unfoldable pub update_events : (Event → Bool) → (Event → Event) → Handler (Unit {0})
  unfolding update
  update_events p f w =
      ok tt (record w { events = update (λ (r : Event). r.organization_id) ctx p f w.events })

  unfoldable pub update_cameras : (Camera → Bool) → (Camera → Camera) → Handler (Unit {0})
  unfolding update
  update_cameras p f w =
      ok tt (record w { cameras = update (λ (r : Camera). r.organization_id) ctx p f w.cameras })

  unfoldable pub update_cooldowns : (Cooldown → Bool) → (Cooldown → Cooldown) → Handler (Unit {0})
  unfolding update
  update_cooldowns p f w =
      ok tt
        (record w { cooldowns = update (λ (r : Cooldown). r.organization_id) ctx p f w.cooldowns })

  unfoldable pub insert_site : Site → Handler (Unit {0})
  unfolding insert_row
  insert_site r = insert_row ctx r.organization_id (λ w. record w { sites = w.sites ++ r ∷ [] })

  unfoldable pub insert_zone : Zone → Handler (Unit {0})
  unfolding insert_row
  insert_zone r = insert_row ctx r.organization_id (λ w. record w { zones = w.zones ++ r ∷ [] })

  unfoldable pub insert_camera : Camera → Handler (Unit {0})
  unfolding insert_row
  insert_camera r =
      insert_row ctx r.organization_id (λ w. record w { cameras = w.cameras ++ r ∷ [] })

  unfoldable pub insert_credentials : Credentials → Handler (Unit {0})
  unfolding insert_row
  insert_credentials r =
      insert_row ctx r.organization_id (λ w. record w { credentials = w.credentials ++ r ∷ [] })

  unfoldable pub insert_member : Member → Handler (Unit {0})
  unfolding insert_row
  insert_member r =
      insert_row ctx r.organization_id (λ w. record w { members = w.members ++ r ∷ [] })

  unfoldable pub insert_note : IncidentNote → Handler (Unit {0})
  unfolding insert_row
  insert_note r = insert_row ctx r.organization_id (λ w. record w { notes = w.notes ++ r ∷ [] })

  unfoldable pub insert_stats : InferenceStats → Handler (Unit {0})
  unfolding insert_row
  insert_stats r = insert_row ctx r.organization_id (λ w. record w { stats = w.stats ++ r ∷ [] })

  unfoldable pub update_sites : (Site → Bool) → (Site → Site) → Handler (Unit {0})
  unfolding update
  update_sites p f w =
      ok tt (record w { sites = update (λ (r : Site). r.organization_id) ctx p f w.sites })

  unfoldable pub update_credentials :
      (Credentials → Bool) → (Credentials → Credentials) → Handler (Unit {0})
  unfolding update
  update_credentials p f w = ok tt (record w {
    credentials = update (λ (r : Credentials). r.organization_id) ctx p f w.credentials;
  })

  unfoldable pub update_members : (Member → Bool) → (Member → Member) → Handler (Unit {0})
  unfolding update
  update_members p f w =
      ok tt (record w { members = update (λ (r : Member). r.organization_id) ctx p f w.members })

  unfoldable pub update_stats :
      (InferenceStats → Bool) → (InferenceStats → InferenceStats) → Handler (Unit {0})
  unfolding update
  update_stats p f w =
      ok tt
        (record w { stats = update (λ (r : InferenceStats). r.organization_id) ctx p f w.stats })

  unfoldable pub update_ai_rules : (AiRule → Bool) → (AiRule → AiRule) → Handler (Unit {0})
  unfolding update
  update_ai_rules p f w =
      ok tt (record w { ai_rules = update (λ (r : AiRule). r.organization_id) ctx p f w.ai_rules })

  unfoldable pub delete_members : (Member → Bool) → Handler (Unit {0})
  unfolding delete
  delete_members p w =
      ok tt (record w { members = delete (λ (r : Member). r.organization_id) ctx p w.members })

-- `gen_random_uuid()`.
unfoldable pub new_id : Runtime → Handler String
new_id rt w = ok (rt.uuid w.issued) (record w { issued = w.issued + 1 })

-- `fs.writeFile` under the storage root.
unfoldable pub put_object : String → String → Handler (Unit {0})
put_object key content w =
    ok tt (record w { objects = w.objects ++ record { storage_key = key; content = content } ∷ [] })

-- `publishTenantEvent`.
unfoldable pub publish : Published → Handler (Unit {0})
publish m w = ok tt (record w { published = w.published ++ m ∷ [] })

-- The transaction commits what the callback did, or rolls the tables back. Objects already
-- written, messages already sent and ids already drawn stay.
unfoldable pub committed {ℓ} : {A : Type ℓ} → Run A → World → Run A
committed (ok a w') w = ok a w'
committed (err e w') w =
    err e (record w { objects = w'.objects; published = w'.published; issued = w'.issued })

-- `withTenant`.
unfoldable pub with_tenant {ℓ} :
    {A : Type ℓ} → TenantContext → (TenantContext → Handler A) → Handler A
unfolding committed
with_tenant ctx fn w = committed (fn ctx w) w

-- The context of a transaction that is bound to a user at most.
unfoldable pub unbound : String → TenantContext
unbound user_id = record { user_id = user_id; organization_id = ""; is_platform_admin = false }

-- `withAppRole`.
unfoldable pub with_app_role {ℓ} : {A : Type ℓ} → (TenantContext → Handler A) → Handler A
unfolding committed unbound
with_app_role fn w = committed (fn (unbound "") w) w

-- `withUser`.
unfoldable pub with_user {ℓ} : {A : Type ℓ} → String → (TenantContext → Handler A) → Handler A
unfolding committed unbound
with_user user_id fn w = committed (fn (unbound user_id) w) w

-- What a test unfolds beside `run_handlers` to run the statements.
unfoldable pub run_statements : Unit {0}
unfolding insert_event insert_evidence insert_notification insert_audit_log insert_health_event
    insert_cooldown update_events update_cameras update_cooldowns insert_site insert_zone
    insert_camera insert_credentials insert_member insert_note insert_stats update_sites
    update_credentials update_members update_stats update_ai_rules delete_members new_id put_object
    publish
run_statements = tt
