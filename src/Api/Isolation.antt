-- ===== src/Api/Isolation.antt =====
-- What each handler of the API leaves of another organization's state, on a handle bound to the
-- caller's own.
use ai_cctv_platform.Common.{ℕ, ◌≡◌, ◌≢◌, refl, ◌∙◌, String, Option, none, some, Lacks, truthy}
use ai_cctv_platform.Access.Rbac.{OrgRole}
use ai_cctv_platform.Access.Directory.{Primitives, MemberStatus, UserRow, Checked, passes, fails}
use ai_cctv_platform.Ai.Types.{EventStatus}
use ai_cctv_platform.Ai.Engine.Isolation.{process_detection-Spares}
use ai_cctv_platform.Tenancy.World.{World, Runtime, Clock, Camera, Event}
use ai_cctv_platform.Tenancy.Rls.{TenantContext, world_of}
use ai_cctv_platform.Tenancy.Isolation.{
  view, Spares, Spares-pure, Spares-throw, Spares-gets, Spares-if, Spares-when, Spares-bind,
  Spares-seq,
}
use ai_cctv_platform.Tenancy.Isolation.Statements.{
  BoundElsewhere, new_id-Spares, insert_event-Spares, insert_camera-Spares,
  insert_credentials-Spares, update_cameras-Spares, update_credentials-Spares, insert_member-Spares,
  update_members-Spares, delete_members-Spares, insert_note-Spares, update_events-Spares,
  publish-Spares, with_tenant-Spares,
}
use ai_cctv_platform.Services.Evidence.{store_evidence-Spares}
use ai_cctv_platform.Services.Notification.Isolation.{audit-Spares, dispatch_notifications-Spares}
use ai_cctv_platform.Api.Jobs.{
  AiJob, worker_context, job_signal, job_intake, run_engine, run_base, run_on, run_job,
  process_ai_job,
}
use ai_cctv_platform.Api.Rows.{
  require_site-Spares, require_zone_of-Spares, require_camera-Spares, require_event-Spares,
  require_member-Spares,
}
use ai_cctv_platform.Api.Secrets.{credential_key, encrypted, encrypt_secret}
use ai_cctv_platform.Api.Sites.{Caller}
use ai_cctv_platform.Api.Cameras.{
  CameraInput, CameraPatch, check_limit, new_credentials, store_credentials, store_camera,
  create_camera, patch_camera, replace_credentials, upsert_credentials, update_camera,
}
use ai_cctv_platform.Api.Members.{
  select_user, insert_user, user_or_new, resolve_user, add_member, patch_member, update_member,
  remove_member,
}
use ai_cctv_platform.Api.Intake.{
  Intake, insert_once, id_or_throw, existing_or_throw, inserted_or_existing, record_event,
  keep_content, keep_snapshot,
}
use ai_cctv_platform.Api.Events.{
  IngestInput, Created, set_status, update_status, add_note, evidence_url, ingest_safety, intake,
  ingest_base, announce,
}

-- The handle and the caller are of one organization, which is not `o`; ids hold no slash.
pub record IsApart (db : TenantContext) (org o : String) : Type 0 where
  pub bound : BoundElsewhere db o
  pub same : db.organization_id ≡ org
  pub plain : Lacks b'/' org
  pub plain_other : Lacks b'/' o

pub apart_org : {db : TenantContext} {org o : String} → IsApart db org o → org ≢ o
apart_org f e = f.bound.apart (f.same ∙ e)

module _ (rt : Runtime) {o : String} where
  encrypt_secret-Spares : (text : String) → Spares o (encrypt_secret rt text)
  unfolding encrypt_secret view
  encrypt_secret-Spares text = record { at = λ w. drawn (credential_key rt) w }
    where
      drawn :
          (c : Checked (Unit {0})) (w : World)
          → view o (world_of (encrypted rt c text w)) ≡ view o w
      drawn (fails e) w = refl
      drawn (passes _) w = refl

  insert_user-Spares : (email : String) → Spares o (insert_user rt email)
  unfolding insert_user view
  insert_user-Spares email = Spares-bind (Spares-gets _) (λ draw.
      Spares-bind (new_id-Spares rt)
        (λ token. Spares-bind (new_id-Spares rt) (λ id. record { at = λ w. refl })))

  pub resolve_user-Spares : (email : String) → Spares o (resolve_user rt email)
  unfolding resolve_user user_or_new
  resolve_user-Spares email = Spares-bind (Spares-gets (select_user rt email)) (λ u. known u)
    where
      known : (u : Option UserRow) → Spares o (user_or_new rt email u)
      known none = insert_user-Spares email
      known (some u) = Spares-pure u.id

module _ (rt : Runtime) (clock : Clock) {db : TenantContext} {o : String} where
  module _ (caller : Caller) (b : BoundElsewhere db o) where
    new_credentials-Spares :
        (id : String) (username password : Option String)
        → Spares o (new_credentials rt clock db caller id username password)
    unfolding new_credentials
    new_credentials-Spares id username password =
        Spares-bind (encrypt_secret-Spares rt _)
          (λ x. Spares-bind (encrypt_secret-Spares rt _) (λ y. Spares-pure _))

    check_limit-Spares : (l : Option ℕ × ℕ) → Spares o (check_limit rt l)
    unfolding check_limit
    check_limit-Spares (none, used) = Spares-pure tt
    check_limit-Spares (some limit, used) = Spares-if _ (Spares-throw _) (Spares-pure tt)

    pub create_camera-Spares :
        (input : CameraInput) → Spares o (create_camera rt clock db caller input)
    unfolding create_camera store_camera store_credentials
    create_camera-Spares input = Spares-bind (require_site-Spares db input.site_id) (λ s.
        Spares-seq (require_zone_of-Spares db (truthy input.zone_id)) (
          Spares-bind (Spares-gets _) (λ lim. Spares-seq (check_limit-Spares lim) (
            Spares-bind (new_id-Spares rt) (λ id. Spares-seq (insert_camera-Spares b _) (
              Spares-seq
                (Spares-when _ (
                  Spares-bind (new_credentials-Spares id input.username input.password)
                    (λ r. insert_credentials-Spares b r)))
                (Spares-seq (audit-Spares b _ _ _ _ _ _) (Spares-pure _))))))))

    pub update_camera-Spares :
        (id : String) (input : CameraPatch) → Spares o (update_camera rt clock db caller id input)
    unfolding update_camera patch_camera upsert_credentials replace_credentials
    update_camera-Spares id input = Spares-bind (require_camera-Spares db id) (λ c.
        Spares-seq (update_cameras-Spares b _ _ (λ r. refl)) (
          Spares-bind (Spares-gets _) (λ row.
            Spares-seq
              (Spares-when _ (
                Spares-bind (new_credentials-Spares id input.username input.password) (λ r.
                  Spares-bind (Spares-gets _) (λ old.
                    Spares-if _ (update_credentials-Spares b _ _ (λ x. refl))
                      (insert_credentials-Spares b r)))))
              (Spares-seq (audit-Spares b _ _ _ _ _ _) (Spares-pure row)))))

    pub add_member-Spares :
        (user_id : String) (role : OrgRole) → Spares o (add_member rt clock db caller user_id role)
    unfolding add_member
    add_member-Spares user_id role = Spares-bind (Spares-gets _) (λ dup.
        Spares-seq (Spares-if _ (Spares-throw _) (Spares-pure tt)) (
          Spares-bind (new_id-Spares rt) (λ id.
            Spares-seq (insert_member-Spares b _)
              (Spares-seq (audit-Spares b _ _ _ _ _ _) (Spares-pure _)))))

    pub update_member-Spares :
        (id : String) (role : Option OrgRole) (status : Option MemberStatus)
        → Spares o (update_member rt clock db caller id role status)
    unfolding update_member patch_member
    update_member-Spares id role status = Spares-bind (require_member-Spares db id) (λ m.
        Spares-seq (update_members-Spares b _ _ (λ r. refl)) (
          Spares-bind (Spares-gets _)
            (λ row. Spares-seq (audit-Spares b _ _ _ _ _ _) (Spares-pure row))))

    pub remove_member-Spares : (id : String) → Spares o (remove_member rt clock db caller id)
    unfolding remove_member
    remove_member-Spares id = Spares-bind (require_member-Spares db id) (λ m.
        Spares-if _ (Spares-throw _)
          (Spares-seq (delete_members-Spares b _) (audit-Spares b _ _ _ _ _ _)))

    pub update_status-Spares :
        (id : String) (status : EventStatus) → Spares o (update_status rt clock db caller id status)
    unfolding update_status set_status
    update_status-Spares id status = Spares-bind (require_event-Spares db id) (λ e.
        Spares-seq (update_events-Spares b _ _ (λ r. refl)) (
          Spares-bind (Spares-gets _)
            (λ row. Spares-seq (audit-Spares b _ _ _ _ _ _) (Spares-pure row))))

    pub add_note-Spares : (id note : String) → Spares o (add_note rt clock db caller id note)
    unfolding add_note
    add_note-Spares id note = Spares-bind (require_event-Spares db id) (λ e.
        Spares-bind (new_id-Spares rt) (λ i.
          Spares-seq (insert_note-Spares b _)
            (Spares-seq (audit-Spares b _ _ _ _ _ _) (Spares-pure _))))

    pub evidence_url-Spares :
        (prims : Primitives) (key : String) (ttl : ℕ) (event evidence : String)
        → Spares o (evidence_url rt clock db caller prims key ttl event evidence)
    unfolding evidence_url
    evidence_url-Spares prims key ttl event evidence =
        Spares-bind (require_event-Spares db event)
          (λ e. Spares-bind (Spares-gets _) (λ row. Spares-pure _))

  module _ (cam : Camera) (input : Intake) (f : IsApart db input.organization_id o) where
    existing-Spares :
        (failure : String) (c : Option String)
        → Spares o (existing_or_throw rt clock db cam input failure c)
    existing-Spares failure none = Spares-throw _
    existing-Spares failure (some c) = Spares-bind (Spares-gets _) (λ r. named r)
      where
        named : (r : Option Event) → Spares o (id_or_throw rt clock db cam input failure r)
        named none = Spares-throw _
        named (some r) = Spares-pure r.id

    inserted-Spares :
        (failure : String) (id : Option String)
        → Spares o (inserted_or_existing rt clock db cam input failure id)
    inserted-Spares failure none = existing-Spares failure (truthy input.correlation_id)
    inserted-Spares failure (some id) = Spares-pure id

    pub record_event-Spares :
        (failure : String) → Spares o (record_event rt clock db cam input failure)
    unfolding record_event insert_once
    record_event-Spares failure =
        Spares-bind
          (Spares-bind (new_id-Spares rt) (λ id. Spares-bind (Spares-gets _) (λ duplicate.
            Spares-if duplicate (Spares-pure none)
              (Spares-seq (insert_event-Spares f.bound _) (Spares-pure _)))))
          (λ id. inserted-Spares failure id)

    keep_content-Spares :
        (event_id filename : String) (content : Option String)
        → Spares o (keep_content rt clock db cam input event_id filename content)
    keep_content-Spares event_id filename none = Spares-pure tt
    keep_content-Spares event_id filename (some content) =
        store_evidence-Spares rt db f.bound _ _ _ _ _ _ f.plain f.plain_other (apart_org f)

    pub keep_snapshot-Spares :
        (event_id prefix : String) → Spares o (keep_snapshot rt clock db cam input event_id prefix)
    unfolding keep_snapshot
    keep_snapshot-Spares event_id prefix = keep_content-Spares event_id _ input.snapshot

  module _ (caller : Caller) (f : IsApart db caller.organization_id o) where
    pub ingest_safety-Spares :
        (input : IngestInput) → Spares o (ingest_safety rt clock db caller input)
    unfolding ingest_safety
    ingest_safety-Spares input = Spares-bind (require_camera-Spares db input.camera_id) (λ cam.
        process_detection-Spares rt clock db _
          (record { bound = f.bound; same = f.same; plain = f.plain; plain_other = f.plain_other }))

    pub ingest_base-Spares : (input : IngestInput) → Spares o (ingest_base rt clock db caller input)
    unfolding ingest_base
    ingest_base-Spares input = Spares-bind (require_camera-Spares db input.camera_id) (λ cam.
        Spares-bind (record_event-Spares cam (intake rt clock db caller input) f _) (λ id.
          Spares-seq (keep_snapshot-Spares cam (intake rt clock db caller input) f id _) (
            Spares-bind (dispatch_notifications-Spares f.bound _ id _ input.event_type)
              (λ n. Spares-seq (audit-Spares f.bound _ _ _ _ _ _) (Spares-pure _)))))

module _ (rt : Runtime) (clock : Clock) (job : AiJob) {db : TenantContext} {o : String}
    (f : IsApart db job.organization_id o) where
  run_engine-Spares : (cam : Camera) → Spares o (run_engine rt clock job db cam)
  unfolding run_engine job_signal
  run_engine-Spares cam =
      Spares-bind
        (process_detection-Spares rt clock db _
          (record { bound = f.bound; same = f.same; plain = f.plain; plain_other = f.plain_other }))
        (λ result. Spares-pure _)

  run_base-Spares : (cam : Camera) → Spares o (run_base rt clock job db cam)
  unfolding run_base job_intake
  run_base-Spares cam =
      Spares-bind (record_event-Spares rt clock cam (job_intake rt clock job) f _) (λ id.
        Spares-seq (keep_snapshot-Spares rt clock cam (job_intake rt clock job) f id _) (
          Spares-bind (dispatch_notifications-Spares f.bound _ id _ job.event_type)
            (λ n. Spares-seq (publish-Spares _ (apart_org f)) (Spares-pure _))))

  run_on-Spares : (cam : Option Camera) → Spares o (run_on rt clock job db cam)
  run_on-Spares none = Spares-throw _
  run_on-Spares (some cam) = Spares-if _ (run_engine-Spares cam) (run_base-Spares cam)

  pub run_job-Spares : Spares o (run_job rt clock job db)
  unfolding run_job
  run_job-Spares = Spares-bind (Spares-gets _) (λ cam. run_on-Spares cam)

pub announce-Spares :
    {o : String} (org : String) (c : Created) → org ≢ o → Spares o (announce org c)
unfolding announce
announce-Spares org c apart = publish-Spares _ apart

-- Whatever organization, camera and ids a job names, and also where it is refused, an organization
-- that the job does not name keeps its rows, its objects and its messages, for organization ids
-- without slashes.
pub process_ai_job-isolation :
    (rt : Runtime) (clock : Clock) (job : AiJob) (o : String)
    → job.organization_id ≢ o
    → Lacks b'/' job.organization_id
    → Lacks b'/' o
    → (w : World) → view o (world_of (process_ai_job rt clock job w)) ≡ view o w
unfolding process_ai_job worker_context
process_ai_job-isolation rt clock job o apart plain plain_other w = spares.at w
  where
    spares : Spares o (process_ai_job rt clock job)
    spares = with_tenant-Spares (worker_context job.organization_id) (run_job rt clock job) (
        run_job-Spares rt clock job (record {
          bound = record { scoped = refl; apart = apart };
          same = refl;
          plain = plain;
          plain_other = plain_other;
        }))
