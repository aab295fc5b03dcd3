-- ===== src/Tenancy/Outcomes.antt =====
-- Partial correctness of handlers: `Ensures m w Q` says that where `m` returns from `w`, its value
-- and the state after it satisfy `Q`.
use mathlib.Core.Path.{subst}
use ai_cctv_platform.Common.{◌≡◌, refl, sym, Bool, true, false, if◌then◌else◌, String}
use ai_cctv_platform.Access.Errors.{Error}
use ai_cctv_platform.Tenancy.World.{World}
use ai_cctv_platform.Tenancy.Rls.{
  TenantContext, Run, ok, err, Handler, pure, gets, when, ◌>>=◌, ◌>>◌, throw, insert_row,
  org_visible, rls_violation, with_tenant, committed,
}

abbrev pub Returned {ℓ} : {A : Type ℓ} → (A → World → Type 0) → Run A → Type 0
Returned Q (ok a w) = Q a w
Returned Q (err e w) = Unit

pub record Ensures {ℓ} {A : Type ℓ} (m : Handler A) (w : World) (Q : A → World → Type 0)
    : Type 0 where
  pub holds : Returned Q (m w)

module _ {ℓ} {A : Type ℓ} where
  -- What is ensured holds of the run that was observed.
  pub Ensures-post :
      {m : Handler A} {w w' : World} {Q : A → World → Type 0} {a : A}
      → Ensures m w Q
      → m w ≡ ok a w'
      → Q a w'
  Ensures-post {Q} h e = subst (Returned Q) e h.holds

  pub Ensures-pure : {w : World} {Q : A → World → Type 0} (a : A) → Q a w → Ensures (pure a) w Q
  unfolding pure
  Ensures-pure a q = record { holds = q }

  pub Ensures-throw : {w : World} {Q : A → World → Type 0} (e : Error) → Ensures (throw e) w Q
  unfolding throw
  Ensures-throw e = record { holds = tt }

  pub Ensures-weaken :
      {m : Handler A} {w : World} {P Q : A → World → Type 0}
      → Ensures m w P
      → ((a : A) (w' : World) → P a w' → Q a w')
      → Ensures m w Q
  Ensures-weaken {m} {w} {P} {Q} h f = record { holds = weaken (m w) h.holds }
    where
      weaken : (r : Run A) → Returned P r → Returned Q r
      weaken (ok a w') p = f a w' p
      weaken (err e w') p = tt

  pub Ensures-if :
      {w : World} {Q : A → World → Type 0} {m n : Handler A} (b : Bool)
      → (b ≡ true → Ensures m w Q)
      → (b ≡ false → Ensures n w Q)
      → Ensures (if b then m else n) w Q
  Ensures-if true h k = h refl
  Ensures-if false h k = k refl

module _ {ℓ κ} {A : Type ℓ} {B : Type κ} where
  Returned-bind :
      (P : A → World → Type 0) (Q : B → World → Type 0) (r : Run A) (f : A → Handler B)
      → Returned P r
      → ((a : A) (w : World) → P a w → Ensures (f a) w Q)
      → Returned Q (elim r [ ok a w ↦ f a w | err e w ↦ err e w ])
  Returned-bind P Q (ok a w) f h k = (k a w h).holds
  Returned-bind P Q (err e w) f h k = tt

  pub Ensures-bind :
      {m : Handler A} {f : A → Handler B} {w : World} {P : A → World → Type 0}
      {Q : B → World → Type 0}
      → Ensures m w P
      → ((a : A) (w' : World) → P a w' → Ensures (f a) w' Q)
      → Ensures (m >>= f) w Q
  unfolding ◌>>=◌
  Ensures-bind {m} {f} {w} {P} {Q} h k = record { holds = Returned-bind P Q (m w) f h.holds k }

  -- A read, then what is done with it.
  pub Ensures-read :
      {w : World} (g : World → A) (f : A → Handler B) {Q : B → World → Type 0}
      → Ensures (f (g w)) w Q
      → Ensures (gets g >>= f) w Q
  unfolding gets ◌>>=◌
  Ensures-read g f h = record { holds = h.holds }

pub Ensures-seq {ℓ} :
    {B : Type ℓ} {m : Handler (Unit {0})} {k : Handler B} {w : World} {P : World → Type 0}
    {Q : B → World → Type 0}
    → Ensures m w (λ _ w'. P w')
    → ((w' : World) → P w' → Ensures k w' Q)
    → Ensures (m >> k) w Q
unfolding ◌>>◌
Ensures-seq h g = Ensures-bind h (λ _ w' p. g w' p)

pub Ensures-when :
    {P : World → Type 0} {m : Handler (Unit {0})} {w : World} (b : Bool)
    → Ensures m w (λ _ w'. P w')
    → P w
    → Ensures (when b m) w (λ _ w'. P w')
unfolding when
Ensures-when true h p = h
Ensures-when false h p = Ensures-pure tt p

-- A step that always succeeds, leading to a known state.
pub Ensures-step {ℓ} :
    {A : Type ℓ} {m : Handler A} {w : World} {Q : A → World → Type 0} (a : A) (w' : World)
    → m w ≡ ok a w'
    → Q a w'
    → Ensures m w Q
Ensures-step {Q} a w' e q = record { holds = subst (Returned Q) (sym e) q }

pub Ensures-insert :
    {P : World → Type 0} (ctx : TenantContext) (org : String) (write : World → World) (w : World)
    → P (write w)
    → Ensures (insert_row ctx org write) w (λ _ w'. P w')
unfolding insert_row
Ensures-insert {P} ctx org write w p = record { holds = written (org_visible ctx org) }
  where
    written :
        (b : Bool)
        → Returned {A = Unit {0}}
            (λ _ w'. P w')
            (if b then ok tt (write w) else err rls_violation w)
    written true = p
    written false = tt

pub Ensures-with_tenant {ℓ} :
    {A : Type ℓ} {w : World} {Q : A → World → Type 0} (ctx : TenantContext)
    (fn : TenantContext → Handler A)
    → Ensures (fn ctx) w Q
    → Ensures (with_tenant ctx fn) w Q
unfolding with_tenant committed
Ensures-with_tenant {A} {w} {Q} ctx fn h = record { holds = done (fn ctx w) h.holds }
  where
    done : (r : Run A) → Returned Q r → Returned Q (committed r w)
    done (ok a w') q = q
    done (err e w') q = tt
