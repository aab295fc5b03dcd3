-- ===== src/Tenancy/Isolation/Statements.antt =====
-- Each statement that runs on a tenant's handle leaves the other organizations' rows alone.
use ai_cctv_platform.Common.{
  ◌≡◌, refl, ap, ◌≢◌, Bool, true, false, String, filter, ◌==◌, eq_iff, List, [], ◌∷◌, arith,
  Bool-cases, inl, inr, ◌&&◌, if◌then◌else◌,
}
use ai_cctv_platform.Tenancy.World.{
  World, Runtime, Camera, Site, Zone, Credentials, Member, IncidentNote, InferenceStats, AiRule,
  Event, Cooldown, Evidence, Notification, AuditLog, HealthEvent, Published,
}
use ai_cctv_platform.Tenancy.Rls.{
  TenantContext, org_visible, Handler, insert_event, insert_evidence, insert_notification,
  insert_audit_log, insert_health_event, insert_cooldown, update_events, update_cameras,
  update_cooldowns, delete, insert_site, insert_zone, insert_camera, insert_credentials,
  insert_member, insert_note, insert_stats, update_sites, update_credentials, update_members,
  update_stats, update_ai_rules, delete_members, new_id, put_object, publish, with_tenant,
  committed, insert_row, update, Run, ok, err, world_of,
}
use ai_cctv_platform.Tenancy.Isolation.{
  view, filter-concat_false, filter-map_outside, Spares, key_belongs_to_org,
}

-- A handle bound to one organization that is not `o`.
pub record BoundElsewhere (ctx : TenantContext) (o : String) : Type 0 where
  pub scoped : ctx.is_platform_admin ≡ false
  pub apart : ctx.organization_id ≢ o

module _ {ctx : TenantContext} {o : String} (b : BoundElsewhere ctx o) where
  visible-outside : (org : String) → org_visible ctx org ≡ true → (org == o) ≡ false
  unfolding org_visible
  visible-outside org v =
      ground (arith, b.scoped, b.apart, eq_iff org o, eq_iff org ctx.organization_id)

  insert_row-Spares :
      (org : String) (write : World → World)
      → ((w : World) → (org == o) ≡ false → view o (write w) ≡ view o w)
      → Spares o (insert_row ctx org write)
  unfolding insert_row
  insert_row-Spares org write outside = record {
    at = λ w. elim (Bool-cases (org_visible ctx org)) [
      | inl v ↦ rw (v, org_visible) (outside w (visible-outside org v))
      | inr n ↦ rw (n, org_visible) refl
    ];
  }

  update-outside :
      {Row : Type 0} (org : Row → String) (p : Row → Bool) (f : Row → Row) (rows : List Row)
      → ((r : Row) → org (f r) ≡ org r)
      → filter (λ r. org r == o) (update org ctx p f rows) ≡ filter (λ r. org r == o) rows
  unfolding update
  update-outside org p f rows keeps =
      filter-map_outside (λ r. org r == o) (λ r. if org_visible ctx (org r) && p r then f r else r)
        rows (λ r. ground (arith, keeps r)) (λ r own. ground (arith, visible-outside (org r)))

  pub insert_event-Spares : (r : Event) → Spares o (insert_event ctx r)
  unfolding insert_event view
  insert_event-Spares r =
      insert_row-Spares _ _
        (λ w out. ap (λ t. record (view o w) { events = t }) (filter-concat_false _ w.events r out))

  pub insert_evidence-Spares : (r : Evidence) → Spares o (insert_evidence ctx r)
  unfolding insert_evidence view
  insert_evidence-Spares r = insert_row-Spares _ _ (λ w out.
      ap (λ t. record (view o w) { evidence = t }) (filter-concat_false _ w.evidence r out))

  pub insert_notification-Spares : (r : Notification) → Spares o (insert_notification ctx r)
  unfolding insert_notification view
  insert_notification-Spares r = insert_row-Spares _ _ (λ w out.
      ap (λ t. record (view o w) { notifications = t })
        (filter-concat_false _ w.notifications r out))

  pub insert_audit_log-Spares : (r : AuditLog) → Spares o (insert_audit_log ctx r)
  unfolding insert_audit_log view
  insert_audit_log-Spares r = insert_row-Spares _ _ (λ w out.
      ap (λ t. record (view o w) { audit_logs = t }) (filter-concat_false _ w.audit_logs r out))

  pub insert_health_event-Spares : (r : HealthEvent) → Spares o (insert_health_event ctx r)
  unfolding insert_health_event view
  insert_health_event-Spares r = insert_row-Spares _ _ (λ w out.
      ap (λ t. record (view o w) { health_events = t })
        (filter-concat_false _ w.health_events r out))

  pub insert_cooldown-Spares : (r : Cooldown) → Spares o (insert_cooldown ctx r)
  unfolding insert_cooldown view
  insert_cooldown-Spares r = insert_row-Spares _ _ (λ w out.
      ap (λ t. record (view o w) { cooldowns = t }) (filter-concat_false _ w.cooldowns r out))

  pub update_events-Spares :
      (p : Event → Bool) (f : Event → Event)
      → ((r : Event) → (f r).organization_id ≡ r.organization_id)
      → Spares o (update_events ctx p f)
  unfolding update_events view
  update_events-Spares p f keeps = record {
    at = λ w. ap (λ t. record (view o w) { events = t }) (update-outside _ p f w.events keeps);
  }

  pub update_cameras-Spares :
      (p : Camera → Bool) (f : Camera → Camera)
      → ((r : Camera) → (f r).organization_id ≡ r.organization_id)
      → Spares o (update_cameras ctx p f)
  unfolding update_cameras view
  update_cameras-Spares p f keeps = record {
    at = λ w. ap (λ t. record (view o w) { cameras = t }) (update-outside _ p f w.cameras keeps);
  }

  pub update_cooldowns-Spares :
      (p : Cooldown → Bool) (f : Cooldown → Cooldown)
      → ((r : Cooldown) → (f r).organization_id ≡ r.organization_id)
      → Spares o (update_cooldowns ctx p f)
  unfolding update_cooldowns view
  update_cooldowns-Spares p f keeps = record {
    at =
        λ w. ap (λ t. record (view o w) { cooldowns = t }) (update-outside _ p f w.cooldowns keeps);
  }

  delete-outside :
      {Row : Type 0} (org : Row → String) (p : Row → Bool) (rows : List Row)
      → filter (λ r. org r == o) (delete org ctx p rows) ≡ filter (λ r. org r == o) rows
  unfolding delete
  delete-outside org p [] = refl
  delete-outside org p (r ∷ rows) =
      ground (arith, visible-outside (org r), delete-outside org p rows)

  pub insert_site-Spares : (r : Site) → Spares o (insert_site ctx r)
  unfolding insert_site view
  insert_site-Spares r =
      insert_row-Spares _ _
        (λ w out. ap (λ t. record (view o w) { sites = t }) (filter-concat_false _ w.sites r out))

  pub insert_zone-Spares : (r : Zone) → Spares o (insert_zone ctx r)
  unfolding insert_zone view
  insert_zone-Spares r =
      insert_row-Spares _ _
        (λ w out. ap (λ t. record (view o w) { zones = t }) (filter-concat_false _ w.zones r out))

  pub insert_camera-Spares : (r : Camera) → Spares o (insert_camera ctx r)
  unfolding insert_camera view
  insert_camera-Spares r =
      insert_row-Spares _ _ (λ w out.
        ap (λ t. record (view o w) { cameras = t }) (filter-concat_false _ w.cameras r out))

  pub insert_credentials-Spares : (r : Credentials) → Spares o (insert_credentials ctx r)
  unfolding insert_credentials view
  insert_credentials-Spares r = insert_row-Spares _ _ (λ w out.
      ap (λ t. record (view o w) { credentials = t }) (filter-concat_false _ w.credentials r out))

  pub insert_member-Spares : (r : Member) → Spares o (insert_member ctx r)
  unfolding insert_member view
  insert_member-Spares r =
      insert_row-Spares _ _ (λ w out.
        ap (λ t. record (view o w) { members = t }) (filter-concat_false _ w.members r out))

  pub insert_note-Spares : (r : IncidentNote) → Spares o (insert_note ctx r)
  unfolding insert_note view
  insert_note-Spares r =
      insert_row-Spares _ _
        (λ w out. ap (λ t. record (view o w) { notes = t }) (filter-concat_false _ w.notes r out))

  pub insert_stats-Spares : (r : InferenceStats) → Spares o (insert_stats ctx r)
  unfolding insert_stats view
  insert_stats-Spares r =
      insert_row-Spares _ _
        (λ w out. ap (λ t. record (view o w) { stats = t }) (filter-concat_false _ w.stats r out))

  pub update_sites-Spares :
      (p : Site → Bool) (f : Site → Site)
      → ((r : Site) → (f r).organization_id ≡ r.organization_id)
      → Spares o (update_sites ctx p f)
  unfolding update_sites view
  update_sites-Spares p f keeps = record {
    at = λ w. ap (λ t. record (view o w) { sites = t }) (update-outside _ p f w.sites keeps);
  }

  pub update_credentials-Spares :
      (p : Credentials → Bool) (f : Credentials → Credentials)
      → ((r : Credentials) → (f r).organization_id ≡ r.organization_id)
      → Spares o (update_credentials ctx p f)
  unfolding update_credentials view
  update_credentials-Spares p f keeps = record {
    at = λ w.
        ap (λ t. record (view o w) { credentials = t }) (update-outside _ p f w.credentials keeps);
  }

  pub update_members-Spares :
      (p : Member → Bool) (f : Member → Member)
      → ((r : Member) → (f r).organization_id ≡ r.organization_id)
      → Spares o (update_members ctx p f)
  unfolding update_members view
  update_members-Spares p f keeps = record {
    at = λ w. ap (λ t. record (view o w) { members = t }) (update-outside _ p f w.members keeps);
  }

  pub update_stats-Spares :
      (p : InferenceStats → Bool) (f : InferenceStats → InferenceStats)
      → ((r : InferenceStats) → (f r).organization_id ≡ r.organization_id)
      → Spares o (update_stats ctx p f)
  unfolding update_stats view
  update_stats-Spares p f keeps = record {
    at = λ w. ap (λ t. record (view o w) { stats = t }) (update-outside _ p f w.stats keeps);
  }

  pub update_ai_rules-Spares :
      (p : AiRule → Bool) (f : AiRule → AiRule)
      → ((r : AiRule) → (f r).organization_id ≡ r.organization_id)
      → Spares o (update_ai_rules ctx p f)
  unfolding update_ai_rules view
  update_ai_rules-Spares p f keeps = record {
    at = λ w. ap (λ t. record (view o w) { ai_rules = t }) (update-outside _ p f w.ai_rules keeps);
  }

  pub delete_members-Spares : (p : Member → Bool) → Spares o (delete_members ctx p)
  unfolding delete_members view
  delete_members-Spares p = record {
    at = λ w. ap (λ t. record (view o w) { members = t }) (delete-outside _ p w.members);
  }

pub new_id-Spares : {o : String} (rt : Runtime) → Spares o (new_id rt)
unfolding new_id view
new_id-Spares rt = record { at = λ w. refl }

pub publish-Spares : {o : String} (m : Published) → m.organization_id ≢ o → Spares o (publish m)
unfolding publish view
publish-Spares {o} m apart = record {
  at = λ w.
      ap (λ t. record (view o w) { published = t })
        (filter-concat_false _ w.published m (ground (arith, eq_iff m.organization_id o)));
}

pub put_object-Spares :
    {o : String} (key content : String)
    → key_belongs_to_org key o ≡ false
    → Spares o (put_object key content)
unfolding put_object view
put_object-Spares {o} key content outside = record {
  at = λ w. ap (λ t. record (view o w) { objects = t }) (filter-concat_false _ w.objects _ outside);
}

rollback-Spares_at {ℓ} :
    {A : Type ℓ} (o : String) (r : Run A) (w : World)
    → view o (world_of r) ≡ view o w
    → view o (world_of (committed r w)) ≡ view o w
unfolding view committed
rollback-Spares_at o (ok a w') w h = h
rollback-Spares_at o (err e w') w h =
    λ i. record (view o w) { objects = (h i).objects; published = (h i).published }

-- A transaction spares another organization if its callback does, also where it is rolled back.
pub with_tenant-Spares {ℓ} :
    {A : Type ℓ} {o : String} (ctx : TenantContext) (fn : TenantContext → Handler A)
    → Spares o (fn ctx)
    → Spares o (with_tenant ctx fn)
unfolding with_tenant
with_tenant-Spares {o} ctx fn h = record { at = λ w. rollback-Spares_at o (fn ctx w) w (h.at w) }
