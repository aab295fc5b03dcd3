-- ===== src/Services/Cache/Laws.antt =====
-- What the cache keeps, and that it never mixes organizations.
use text.Mathlib.TextLemmas.{append_assoc, append_cancel_left}
use ai_cctv_platform.Common.{
  ℕ, ◌+◌, ◌*◌, ◌≤◌, ◌≡◌, ◌≢◌, refl, sym, ap, ◌∙◌, Bool, false, String, Option, some, none, ◌==◌,
  ◌⧺◌, eq_iff, eq_refl, starts_with, starts_with_iff, Lacks, joined_prefix_unique, map_get, map_set,
  map_get-set, map_get-delete, Bool-cases, inl, inr, arith, if◌then◌else◌, truthy,
}
use ai_cctv_platform.Access.Errors.{other}
use ai_cctv_platform.Access.Directory.{Checked, passes, fails}
use ai_cctv_platform.Services.Cache.{
  Entry, Store, tenant_prefix, tenant_key, fresh, get_at, cache_get, set_at, cache_set, delete_at,
  invalidate, cache_invalidate,
}

-- Two organizations whose keys never meet: different, and without a colon.
pub record AreApart (a b : String) : Type 0 where
  pub different : a ≢ b
  pub plain : Lacks b':' a
  pub plain_other : Lacks b':' b

regroup : (org rest : String) → tenant_prefix org ⧺ rest ≡ "tenant:" ⧺ (org ⧺ (":" ⧺ rest))
unfolding tenant_prefix
regroup org rest =
    append_assoc "tenant:" (org ⧺ ":") rest ∙ ap (λ t. "tenant:" ⧺ t) (append_assoc org ":" rest)

pub prefixes-apart : (a b s t : String) → AreApart a b → tenant_prefix a ⧺ s ≢ tenant_prefix b ⧺ t
prefixes-apart a b s t p e = p.different (
    joined_prefix_unique ":" a b s t p.plain p.plain_other
      (append_cancel_left "tenant:" _ _ (sym (regroup a s) ∙ e ∙ regroup b t)))

passes-injective : {A : Type 0} {a b : A} → passes a ≡ passes b → a ≡ b
passes-injective h = ground arith

pub key_of :
    (org name key : String) → tenant_key org name ≡ passes key → key ≡ tenant_prefix org ⧺ name
unfolding tenant_key
key_of org name key e = elim (Bool-cases (org == "")) [
  | inl h ↦ ground (arith, h, e)
  | inr h ↦ ground (arith, h, e)
]

pub apart-differ : (k key : String) → k ≢ key → (k == key) ≡ false
apart-differ k key h = ground (arith, eq_iff k key)

pub foreign_key :
    (a b : String)
    → AreApart a b
    → (key rest : String) → key ≡ tenant_prefix b ⧺ rest
    → (k name : String) → k ≡ tenant_prefix a ⧺ name
    → k ≢ key
foreign_key a b p key rest e k name f same = prefixes-apart a b name rest p (sym f ∙ same ∙ e)

-- A key of one organization stands outside another's namespace.
outside_prefix :
    (a b name key : String)
    → AreApart a b
    → key ≡ tenant_prefix b ⧺ name
    → starts_with key (tenant_prefix a) ≡ false
outside_prefix a b name key p e = elim (Bool-cases (starts_with key (tenant_prefix a))) [
  | inl own ↦
      let (rest, f) = (starts_with_iff key (tenant_prefix a)).0 own in
      absurd (prefixes-apart a b rest name p (f ∙ e))
  | inr outside ↦ outside
]

module _ {V : Type 0} where
  fresh_value :
      (now : ℕ) (key : String) (o : Option (Entry V)) (s s' : Store V)
      → (fresh now key o s).0 ≡ (fresh now key o s').0
  unfolding fresh
  fresh_value now key none s s' = refl
  fresh_value now key (some entry) s s' = ground arith

  -- An answer depends on the entry under the key only.
  get_at_value :
      (now : ℕ) (c : Checked String) (s s' : Store V)
      → ((key : String) → c ≡ passes key → map_get s key ≡ map_get s' key)
      → (get_at now c s).0 ≡ (get_at now c s').0
  get_at_value now (fails e) s s' h = refl
  get_at_value now (passes key) s s' h =
      ap passes
        (fresh_value now key (map_get s key) s s' ∙ ap (λ o. (fresh now key o s').0) (h key refl))

  pub set_at-other :
      (c : Checked String) (entry : Entry V) (s : Store V) (key : String)
      → ((k : String) → c ≡ passes k → k ≢ key)
      → map_get (set_at c entry s).1 key ≡ map_get s key
  set_at-other (fails e) entry s key h = refl
  set_at-other (passes k) entry s key h =
      map_get-set s k key entry
      ∙ ap (λ b. if b then some entry else map_get s key) (apart-differ k key (h k refl))

  delete_at-other :
      (c : Checked String) (s : Store V) (key : String)
      → ((k : String) → c ≡ passes k → k ≢ key)
      → map_get (delete_at c s).1 key ≡ map_get s key
  delete_at-other (fails e) s key h = refl
  delete_at-other (passes k) s key h =
      map_get-delete (λ j. j == k) s key
      ∙ ap (λ b. if b then none else map_get s key) (apart-differ key k (λ e. h k refl (sym e)))

  -- What one organization caches changes no answer of another's.
  pub cache_set-other :
      (a b : String) (now now' ttl_seconds : ℕ) (name name' : String) (v : V) (store : Store V)
      → AreApart a b
      → (cache_get now' b name' (cache_set now a name v ttl_seconds store).1).0
        ≡ (cache_get now' b name' store).0
  unfolding cache_get cache_set
  cache_set-other a b now now' ttl_seconds name name' v store p =
      get_at_value now' (tenant_key b name') _ store (λ key e.
        set_at-other (tenant_key a name) _ store key
          (λ k f. foreign_key a b p key name' (key_of b name' key e) k name (key_of a name k f)))

  pub invalidate-other :
      (a b : String) (o : Option String) (store : Store V) (key name' : String)
      → AreApart a b
      → key ≡ tenant_prefix b ⧺ name'
      → map_get (invalidate a o store).1 key ≡ map_get store key
  invalidate-other a b (some name) store key name' p e =
      delete_at-other (tenant_key a name) store key
        (λ k f. foreign_key a b p key name' e k name (key_of a name k f))
  invalidate-other a b none store key name' p e =
      map_get-delete (λ k. starts_with k (tenant_prefix a)) store key
      ∙ ap (λ d. if d then none else map_get store key) (outside_prefix a b name' key p e)

  -- What one organization invalidates, one key or all of its own, changes no answer of another's.
  pub cache_invalidate-other :
      (a b : String) (now : ℕ) (name : Option String) (name' : String) (store : Store V)
      → AreApart a b
      → (cache_get now b name' (cache_invalidate a name store).1).0
        ≡ (cache_get now b name' store).0
  unfolding cache_get cache_invalidate
  cache_invalidate-other a b now name name' store p =
      get_at_value now (tenant_key b name') _ store
        (λ key e. invalidate-other a b (truthy name) store key name' p (key_of b name' key e))

  fresh-some :
      (now : ℕ) (key : String) (entry : Entry V) (s : Store V)
      → now ≤ entry.expires_at
      → (fresh now key (some entry) s).0 ≡ some entry.value
  unfolding fresh
  fresh-some now key entry s h = ground arith

  get_at-stored :
      (now : ℕ) (key : String) (entry : Entry V) (s : Store V)
      → now ≤ entry.expires_at
      → (get_at now (passes key) (set_at (passes key) entry s).1).0 ≡ passes (some entry.value)
  get_at-stored now key entry s fits =
      ap (λ o. passes (fresh now key o (map_set s key entry)).0)
        (map_get-set s key key entry
          ∙ ap (λ b. if b then some entry else map_get s key) (eq_refl key))
      ∙ ap passes (fresh-some now key entry (map_set s key entry) fits)

  -- A value is found until its time is over, under any organization with an id.
  pub cache_get-set :
      (org name : String) (now now' ttl_seconds : ℕ) (v : V) (store : Store V)
      → org ≢ ""
      → now' ≤ now + ttl_seconds * 1000
      → (cache_get now' org name (cache_set now org name v ttl_seconds store).1).0 ≡ passes (some v)
  unfolding cache_get cache_set tenant_key
  cache_get-set org name now now' ttl_seconds v store h fits =
      ap (λ b. (get_at now' (key_if b) (set_at (key_if b) entry store).1).0) (apart-differ org "" h)
      ∙ get_at-stored now' (tenant_prefix org ⧺ name) entry store fits
    where
      entry : Entry V
      entry = record { value = v; expires_at = now + ttl_seconds * 1000 }

      key_if : Bool → Checked String
      key_if b =
          if b
          then fails (other "cache: organizationId is required for tenant key")
          else passes (tenant_prefix org ⧺ name)
