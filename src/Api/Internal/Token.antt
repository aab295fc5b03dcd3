-- ===== src/Api/Internal/Token.antt =====
-- Who passes the gate before the worker's routes.
use mathlib.Core.Bool.{true≢false}
use ai_cctv_platform.Common.{
  ◌≡◌, ◌≢◌, ◌↔◌, refl, ap, ◌∙◌, String, Bool, true, false, ◌||◌, not, Option, ◌==◌, eq_iff, eqb,
  length, coalesce, arith, if◌then◌else◌,
}
use ai_cctv_platform.Access.Errors.{Error}
use ai_cctv_platform.Access.Directory.{Checked, passes, fails}
use ai_cctv_platform.Access.Tokens.{timing_safe_equal}
use ai_cctv_platform.Access.Tokens.Laws.{timing_safe_equal-eq, timing_safe_equal_refl}
use ai_cctv_platform.Tenancy.World.{Runtime}
use ai_cctv_platform.Api.Internal.{after_prefix, check_worker_token}

-- What a gate with these two tests lets through.
abbrev gate : Bool → Bool → Error → Error → Checked (Unit {0})
gate missing wrong e e' = if missing then fails e else if wrong then fails e' else passes tt

gate-passes :
    (missing wrong : Bool) (e e' : Error)
    → gate missing wrong e e' ≡ passes tt
    → (missing ≡ false) × (wrong ≡ false)
gate-passes true wrong e e' h = ground (arith, h)
gate-passes false true e e' h = ground (arith, h)
gate-passes false false e e' h = (refl, refl)

passes-gate :
    (missing wrong : Bool) (e e' : Error)
    → missing ≡ false
    → wrong ≡ false
    → gate missing wrong e e' ≡ passes tt
passes-gate true wrong e e' h k = absurd (true≢false h)
passes-gate false true e e' h k = absurd (true≢false k)
passes-gate false false e e' h k = refl

-- A request passes the gate exactly when it sends the configured token, which is not empty, as a
-- bearer token, if no other text has the UTF-8 of the configured one.
pub check_worker_token_sound :
    (rt : Runtime) (header : Option String) (expected : String)
    → ((s : String) → rt.utf8 s ≡ rt.utf8 expected → s ≡ expected)
    → check_worker_token rt header expected ≡ passes tt
      ↔ (after_prefix "Bearer " (coalesce header "") ≡ expected) × (expected ≢ "")
unfolding check_worker_token
check_worker_token_sound rt header expected faithful = (sound, complete)
  where
    provided : String
    provided = after_prefix "Bearer " (coalesce header "")

    wrong : String → Bool
    wrong s =
        not (eqb (length (rt.utf8 s)) (length (rt.utf8 expected)))
        || not (timing_safe_equal (rt.utf8 s) (rt.utf8 expected))

    right : wrong expected ≡ false
    right = ground (arith, timing_safe_equal_refl (rt.utf8 expected))

    sound :
        check_worker_token rt header expected ≡ passes tt → (provided ≡ expected) × (expected ≢ "")
    sound h =
        let (given, right) =
          gate-passes (provided == "" || expected == "") (wrong provided) _ _ h in
        let same : timing_safe_equal (rt.utf8 provided) (rt.utf8 expected) ≡ true =
          ground (arith, right) in
        (
          faithful provided (timing_safe_equal-eq _ _ same),
          ground (arith, given, eq_iff expected ""),
        )

    complete :
        (provided ≡ expected) × (expected ≢ "") → check_worker_token rt header expected ≡ passes tt
    complete (same, given) =
        passes-gate (provided == "" || expected == "") (wrong provided) _ _
          (ground (arith, same, given, eq_iff expected "", eq_iff provided ""))
          (ap wrong same ∙ right)
