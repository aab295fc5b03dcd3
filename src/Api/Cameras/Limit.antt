-- ===== src/Api/Cameras/Limit.antt =====
-- The limit of the plan on an organization's cameras.
use mathlib.Core.Path.{subst}
use ai_cctv_platform.Common.{
  ℕ, ◌≡◌, refl, sym, ap, ◌∙◌, ◌<◌, ◌≤◌, ◌+◌, String, Option, none, some, true, truthy, leb, arith,
}
use ai_cctv_platform.Tenancy.World.{World, Runtime, Clock, Camera}
use ai_cctv_platform.Tenancy.Rls.{
  TenantContext, ok, new_id, insert_camera, insert_credentials, insert_audit_log,
}
use ai_cctv_platform.Tenancy.Rls.Queries.{length-select_concat}
use ai_cctv_platform.Tenancy.Outcomes.{
  Ensures, Returned, Ensures-post, Ensures-weaken, Ensures-bind, Ensures-seq, Ensures-when,
  Ensures-if, Ensures-insert, Ensures-pure, Ensures-throw, Ensures-read, Ensures-step,
}
use ai_cctv_platform.Services.Notification.{audit}
use ai_cctv_platform.Api.Rows.{required-Ensures, require_site, require_zone, require_zone_of}
use ai_cctv_platform.Access.Directory.{Checked, passes, fails}
use ai_cctv_platform.Api.Secrets.{credential_key, encrypted, encrypt_secret}
use ai_cctv_platform.Api.Sites.{Caller}
use ai_cctv_platform.Api.Cameras.{
  CameraInput, camera_limit, check_limit, new_credentials, store_credentials, store_camera,
  create_camera,
}

-- The tables that the limit is read from are as they were.
record Counted (w w' : World) : Type 0 where
  cameras : w'.cameras ≡ w.cameras
  subscriptions : w'.subscriptions ≡ w.subscriptions

Counted-trans : {u v w : World} → Counted u v → Counted v w → Counted u w
Counted-trans h k = record {
  cameras = k.cameras ∙ h.cameras;
  subscriptions = k.subscriptions ∙ h.subscriptions;
}

Counted-refl : (w : World) → Counted w w
Counted-refl w = record { cameras = refl; subscriptions = refl }

module _ (rt : Runtime) (clock : Clock) (db : TenantContext) (caller : Caller) where
  require_zone_of-Counted :
      (id : Option String) (w : World) → Ensures (require_zone_of db id) w (λ _ w'. Counted w w')
  unfolding require_zone
  require_zone_of-Counted none w = Ensures-pure tt (Counted-refl w)
  require_zone_of-Counted (some id) w =
      Ensures-bind (required-Ensures _ _ "zones" _ db id (Counted-refl w))
        (λ z w' k. Ensures-pure tt k)

  encrypt_secret-Counted :
      (text : String) (u w : World)
      → Counted u w
      → Ensures (encrypt_secret rt text) w (λ _ w'. Counted u w')
  unfolding encrypt_secret
  encrypt_secret-Counted text u w k = record { holds = drawn (credential_key rt) }
    where
      drawn : (c : Checked (Unit {0})) → Returned (λ _ w'. Counted u w') (encrypted rt c text w)
      drawn (fails e) = tt
      drawn (passes _) = record { cameras = k.cameras; subscriptions = k.subscriptions }

  store_credentials-Counted :
      (id : String) (username password : Option String) (w : World)
      → Ensures (store_credentials rt clock db caller id username password) w (λ _ w'. Counted w w')
  unfolding store_credentials new_credentials insert_credentials
  store_credentials-Counted id username password w =
      Ensures-when _
        (Ensures-bind {P = λ _. Counted w}
          (Ensures-bind {P = λ _. Counted w} (encrypt_secret-Counted _ w w (Counted-refl w))
            (λ x u k. Ensures-bind (encrypt_secret-Counted _ w u k) (λ y v l. Ensures-pure _ l)))
          (λ r v k.
            Ensures-insert db _ _ v
              (record { cameras = k.cameras; subscriptions = k.subscriptions })))
        (Counted-refl w)

  check_limit-below :
      (limit used : ℕ) (w : World)
      → Ensures (check_limit rt (some limit, used)) w (λ _ w'. Counted w w' × (used < limit))
  unfolding check_limit
  check_limit-below limit used w =
      Ensures-if (leb limit used) (λ _. Ensures-throw _)
        (λ n. Ensures-pure tt (Counted-refl w, ground (arith, n)))

  camera_limit-Counted : {w w' : World} → Counted w w' → camera_limit db w' ≡ camera_limit db w
  unfolding camera_limit
  camera_limit-Counted {w} {w'} k = rw (k.cameras, k.subscriptions) refl

  insert_camera-Limited :
      (r : Camera) (w : World)
      → Ensures (insert_camera db r) w (λ _ w'.
        ((camera_limit db w').0 ≡ (camera_limit db w).0)
        × ((camera_limit db w').1 ≤ (camera_limit db w).1 + 1))
  unfolding insert_camera camera_limit
  insert_camera-Limited r w = Ensures-insert db _ _ w (
    refl,
    ground (
      arith,
      length-select_concat (λ (c : Camera). c.organization_id) db (λ c. true) w.cameras r,
    ),
  )

  -- The plan's limit is the one given, and is observed.
  Within : ℕ → World → Type 0
  Within limit w = ((camera_limit db w).0 ≡ some limit) × ((camera_limit db w).1 ≤ limit)

  Within-Counted : (limit : ℕ) {u w : World} → Counted u w → Within limit u → Within limit w
  unfolding Within
  Within-Counted limit k h =
      subst (λ l. (l.0 ≡ some limit) × (l.1 ≤ limit)) (sym (camera_limit-Counted k)) h

  check_limit-at :
      (l : Option ℕ × ℕ) (limit used : ℕ) (w : World)
      → l ≡ (some limit, used)
      → Ensures (check_limit rt l) w (λ _ w'. Counted w w' × (used < limit))
  check_limit-at l limit used w e =
      subst (λ l. Ensures (check_limit rt l) w (λ _ w'. Counted w w' × (used < limit))) (sym e)
        (check_limit-below limit used w)

  insert_camera-Within :
      (r : Camera) (w : World) (limit used : ℕ)
      → camera_limit db w ≡ (some limit, used)
      → used < limit
      → Ensures (insert_camera db r) w (λ _ w'. Within limit w')
  unfolding Within
  insert_camera-Within r w limit used e below =
      Ensures-weaken (insert_camera-Limited r w)
        (λ _ x p. (p.0 ∙ ap (λ l. l.0) e, omega (arith, p.1, ap (λ l. l.1) e, below)))

  -- What follows the check.
  stored-Within :
      (input : CameraInput) (id : String) (w : World) (limit used : ℕ)
      → camera_limit db w ≡ (some limit, used)
      → used < limit
      → Ensures (store_camera rt clock db caller input id) w (λ _ w'. Within limit w')
  unfolding store_camera audit insert_audit_log
  stored-Within input id w limit used e below =
      Ensures-seq {P = Within limit} (insert_camera-Within _ w limit used e below) (λ u h.
        Ensures-seq {P = Within limit}
          (Ensures-weaken (store_credentials-Counted id input.username input.password u)
            (λ _ v k. Within-Counted limit k h))
          (λ v h.
            Ensures-seq {P = Within limit}
              (Ensures-insert db _ _ v
                (Within-Counted limit (record { cameras = refl; subscriptions = refl }) h))
              (λ x h. Ensures-pure _ h)))

  -- Where a camera is created, the plan's limit is the one that was read, and the organization has
  -- no more cameras than it allows.
  pub create_camera-limit :
      (input : CameraInput) (w w' : World) (row : Camera) (limit used : ℕ)
      → camera_limit db w ≡ (some limit, used)
      → create_camera rt clock db caller input w ≡ ok row w'
      → ((camera_limit db w').0 ≡ some limit) × ((camera_limit db w').1 ≤ limit)
  unfolding create_camera require_site new_id Within
  create_camera-limit input w w' row limit used e run = Ensures-post created run
    where
      created : Ensures (create_camera rt clock db caller input) w (λ _ x. Within limit x)
      created =
          Ensures-bind (required-Ensures _ _ "sites" _ db input.site_id (Counted-refl w)) (λ r u k.
            Ensures-seq {P = Counted w}
              (Ensures-weaken (require_zone_of-Counted (truthy input.zone_id) u)
                (λ _ v l. Counted-trans k l))
              (λ v l. Ensures-read _ _ (
                Ensures-seq {P = λ x. Counted w x × (used < limit)}
                  (Ensures-weaken
                    (check_limit-at (camera_limit db v) limit used v (camera_limit-Counted l ∙ e))
                    (λ _ x m. (Counted-trans l m.0, m.1)))
                  (λ x m.
                    Ensures-bind {P = λ _ y. Counted w y × (used < limit)}
                      (Ensures-step _ _ refl
                        (record { cameras = m.0.cameras; subscriptions = m.0.subscriptions }, m.1))
                      (λ id y n.
                        stored-Within input id y limit used (camera_limit-Counted n.0 ∙ e) n.1)))))
