-- ===== src/Tenancy/Triples.antt =====
-- Total correctness of handlers: `Yields m w Q` says that `m` returns from `w`, without throwing,
-- and that its value and the state after it satisfy `Q`.
use mathlib.Core.Path.{subst}
use ai_cctv_platform.Common.{◌≡◌, refl, sym, ◌∙◌, Bool, true, false, String, if◌then◌else◌}
use ai_cctv_platform.Tenancy.World.{World}
use ai_cctv_platform.Tenancy.Rls.{
  TenantContext, org_visible, Run, ok, err, Handler, pure, gets, when, ◌>>=◌, ◌>>◌, insert_row,
}

pub record Yields {ℓ} {A : Type ℓ} (m : Handler A) (w : World) (Q : A → World → Type 0)
    : Type ℓ where
  pub value : A
  pub after : World
  pub runs : m w ≡ ok value after
  pub post : Q value after

module _ {ℓ} {A : Type ℓ} {w : World} where
  pub Yields-pure : {Q : A → World → Type 0} (a : A) → Q a w → Yields (pure a) w Q
  unfolding pure
  Yields-pure a q = record { value = a; after = w; runs = refl; post = q }

  pub Yields-gets : {Q : A → World → Type 0} (f : World → A) → Q (f w) w → Yields (gets f) w Q
  unfolding gets
  Yields-gets f q = record { value = f w; after = w; runs = refl; post = q }

  pub Yields-weaken :
      {m : Handler A} {P Q : A → World → Type 0}
      → Yields m w P
      → ((a : A) (w' : World) → P a w' → Q a w')
      → Yields m w Q
  Yields-weaken y h = record {
    value = y.value;
    after = y.after;
    runs = y.runs;
    post = h y.value y.after y.post;
  }

module _ {ℓ κ} {A : Type ℓ} {B : Type κ} {w : World} where
  pub Yields-bind :
      {m : Handler A} {f : A → Handler B} {P : A → World → Type 0} {Q : B → World → Type 0}
      → Yields m w P
      → ((a : A) (w' : World) → P a w' → Yields (f a) w' Q)
      → Yields (m >>= f) w Q
  unfolding ◌>>=◌
  Yields-bind {m} {f} y h =
      let z = h y.value y.after y.post in
      record { value = z.value; after = z.after; runs = rw (y.runs, ◌>>=◌) z.runs; post = z.post }

pub Yields-seq {ℓ} :
    {B : Type ℓ} {w : World} {m : Handler (Unit {0})} {k : Handler B} {P : World → Type 0}
    {Q : B → World → Type 0}
    → Yields m w (λ _ w'. P w')
    → ((w' : World) → P w' → Yields k w' Q)
    → Yields (m >> k) w Q
unfolding ◌>>◌
Yields-seq y h = Yields-bind y (λ _ w' p. h w' p)

pub Yields-if {ℓ} :
    {A : Type ℓ} {w : World} {m n : Handler A} {Q : A → World → Type 0} (b : Bool)
    → (b ≡ true → Yields m w Q)
    → (b ≡ false → Yields n w Q)
    → Yields (if b then m else n) w Q
Yields-if true hm hn = hm refl
Yields-if false hm hn = hn refl

pub Yields-when :
    {w : World} {m : Handler (Unit {0})} {P : World → Type 0} (b : Bool)
    → (b ≡ true → Yields m w (λ _ w'. P w'))
    → (b ≡ false → P w)
    → Yields (when b m) w (λ _ w'. P w')
unfolding when
Yields-when true hm hn = hm refl
Yields-when false hm hn = Yields-pure tt (hn refl)

-- A write that changes the state as `write` does.
pub Yields-write :
    {w : World} {P : World → Type 0} {m : Handler (Unit {0})} (w' : World)
    → m w ≡ ok tt w'
    → P w'
    → Yields m w (λ _ w'. P w')
Yields-write w' e p = record { value = tt; after = w'; runs = e; post = p }

-- An insert into the handle's own organization passes the policy.
pub Yields-insert :
    (ctx : TenantContext) (org : String) (w : World) {P : World → Type 0} (write : World → World)
    → org_visible ctx org ≡ true
    → P (write w)
    → Yields (insert_row ctx org write) w (λ _ w'. P w')
unfolding insert_row
Yields-insert ctx org w write v p = record {
  value = tt;
  after = write w;
  runs = rw (v, org_visible) refl;
  post = p;
}

-- A read, then what is done with it.
pub Yields-read {ℓ κ} :
    {A : Type ℓ} {B : Type κ} {w : World} (g : World → A) (f : A → Handler B)
    {Q : B → World → Type 0}
    → Yields (f (g w)) w Q
    → Yields (gets g >>= f) w Q
unfolding gets ◌>>=◌
Yields-read g f y = record { value = y.value; after = y.after; runs = y.runs; post = y.post }

abbrev Holds {ℓ} : {A : Type ℓ} → (A → World → Type 0) → Run A → Type 0
Holds Q (ok a w) = Q a w
Holds Q (err e w) = ⊥

-- What `Yields` promises holds of the run that was observed.
pub Yields-post {ℓ} :
    {A : Type ℓ} {m : Handler A} {w : World} {Q : A → World → Type 0} {a : A} {w' : World}
    → Yields m w Q
    → m w ≡ ok a w'
    → Q a w'
Yields-post {Q} y e = subst (Holds Q) (sym y.runs ∙ e) y.post

-- Two things that hold where a handler returns, together: it returns once.
pub Yields-both {ℓ} :
    {A : Type ℓ} {m : Handler A} {w : World} {P Q : A → World → Type 0}
    → Yields m w P
    → Yields m w Q
    → Yields m w (λ a w'. P a w' × Q a w')
Yields-both y z = record {
  value = y.value;
  after = y.after;
  runs = y.runs;
  post = (y.post, Yields-post z y.runs);
}
