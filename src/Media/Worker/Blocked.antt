-- ===== src/Media/Worker/Blocked.antt =====
-- What one camera's stored credentials do to the others.
use ai_cctv_platform.Common.{
  ℕ, ◌<◌, ◌≡◌, ap, ◌∙◌, String, Bool, true, false, none, some, List, [], ◌∷◌, Lacks, arith, leb,
  is_some, map_get, pick_else,
}
use ai_cctv_platform.Access.Errors.{Error, other}
use ai_cctv_platform.Access.Directory.{Checked, passes, fails}
use ai_cctv_platform.Api.Secrets.{sealed_text, decrypt_secret}
use ai_cctv_platform.Api.Secrets.Laws.{decrypt_secret-empty}
use ai_cctv_platform.Media.Worker.{
  Running, MediaWorker, enabled_cameras, camera_credentials, both, open_credentials, launched,
  launch, add_active, launch_all, settled, reconcile,
}
use ai_cctv_platform.Tenancy.World.{World, Runtime, Camera, Credentials}

module _ (rt : Runtime) (limit : ℕ) (w : World) (m : MediaWorker) where
  launch-fails :
      (cam : Camera) (e : Error)
      → map_get m.pipelines cam.id ≡ none
      → open_credentials rt (camera_credentials cam.id w) ≡ fails e
      → launch rt w cam m.pipelines ≡ fails e
  unfolding launch
  launch-fails cam e absent closed =
      pick_else (is_some (map_get m.pipelines cam.id)) _ _ (ap is_some absent)
      ∙ ap (λ c. launched cam c m.pipelines) closed

  first-fails :
      (cam : Camera) (cams : List Camera) (e : Error)
      → leb limit 0 ≡ false
      → launch rt w cam m.pipelines ≡ fails e
      → launch_all rt w limit (cam ∷ cams) [] m.pipelines ≡ (fails e, m.pipelines)
  unfolding launch_all
  first-fails cam cams e some_allowed failed =
      ap
        (λ b.
          turn b (launch rt w cam m.pipelines)
            (λ m'. launch_all rt w limit cams (add_active cam.id []) m'))
        some_allowed
      ∙ ap (λ c. turn false c (λ m'. launch_all rt w limit cams (add_active cam.id []) m')) failed
    where
      turn :
          Bool
          → Checked (List (String × Running))
          → (List (String × Running) → Checked (List String) × List (String × Running))
          → Checked (List String) × List (String × Running)
      turn b c next = elim b [
        | true ↦ (passes [], m.pipelines)
        | false ↦ elim c [ fails e ↦ (fails e, m.pipelines) | passes m' ↦ next m' ]
      ]

  -- A camera without a pipeline, first among the enabled ones, whose stored password is an encrypted
  -- text that the cipher seals as the empty one, as it does the empty password, makes every
  -- reconciliation fail before any camera gets a pipeline or loses one.
  pub reconcile_blocked :
      (cam : Camera) (cams : List Camera) (r : Credentials) (user : String) (draw : ℕ)
      → 0 < limit
      → enabled_cameras w ≡ cam ∷ cams
      → map_get m.pipelines cam.id ≡ none
      → camera_credentials cam.id w ≡ some r
      → decrypt_secret rt r.username_enc ≡ passes user
      → r.password_enc ≡ sealed_text rt draw ""
      → (rt.seal (rt.iv64 draw) "").1 ≡ ""
      → Lacks b'.' (rt.iv64 draw)
      → Lacks b'.' ((rt.seal (rt.iv64 draw) "").0)
      → reconcile rt limit w m ≡ (fails (other "Malformed encrypted secret"), m)
  unfolding reconcile
  reconcile_blocked cam cams r user draw allowed cameras absent stored opens password empty hi ht =
      let closed =
        ap (open_credentials rt) stored
        ∙ ap (λ c. both c (decrypt_secret rt r.password_enc)) opens
        ∙ ap (λ s. both (passes user) (decrypt_secret rt s)) password
        ∙ ap (both (passes user)) (decrypt_secret-empty rt draw "" hi ht empty) in
      let first =
        first-fails cam cams (other "Malformed encrypted secret") (ground (arith, allowed))
          (launch-fails cam _ absent closed) in
      ap (λ cs. settled (launch_all rt w limit cs [] m.pipelines) m) cameras
      ∙ ap (λ x. settled x m) first
