-- ===== src/Services/Cache/Private.antt =====
-- server/src/services/cache.service.ts against a cache of one organization's own: a function from
-- names to entries, on which the operations of other organizations do not run.
use ai_cctv_platform.Common.{
  ℕ, ◌+◌, ◌*◌, ◌≡◌, String, Option, some, none, List, [], ◌∷◌, ◌==◌, ◌⧺◌, map_get, if◌then◌else◌,
  truthy, ltb,
}
use ai_cctv_platform.Access.Directory.{Checked, passes, fails}
use ai_cctv_platform.Services.Cache.{
  Entry, Store, tenant_prefix, cache_get, cache_set, cache_invalidate,
}

-- A call of the cache, with the time at which it reads the clock.
pub data CacheCall {ℓ} (V : Type ℓ) : Type ℓ where
  get : ℕ → String → String → CacheCall V
  put : ℕ → String → String → V → ℕ → CacheCall V
  drop : String → Option String → CacheCall V

abbrev pub Private {ℓ} : Type ℓ → Type ℓ
Private V = String → Option (Entry V)

module _ {V : Type 0} where
  abbrev pub organization_of : CacheCall V → String
  organization_of (get now org name) = org
  organization_of (put now org name value ttl_seconds) = org
  organization_of (drop org name) = org

  abbrev pub nothing_found : Checked (Unit {0}) → Checked (Option V)
  nothing_found (passes _) = passes none
  nothing_found (fails e) = fails e

  unfoldable pub perform : CacheCall V → Store V → Checked (Option V) × Store V
  unfolding cache_get cache_set cache_invalidate
  perform (get now org name) store = cache_get now org name store
  perform (put now org name value ttl_seconds) store =
      let (r, store') = cache_set now org name value ttl_seconds store in (nothing_found r, store')
  perform (drop org name) store =
      let (r, store') = cache_invalidate org name store in (nothing_found r, store')

  -- What `o` is answered while everyone's calls run on the shared store.
  unfoldable pub answers : String → List (CacheCall V) → Store V → List (Checked (Option V))
  unfolding perform
  answers o [] store = []
  answers o (c ∷ calls) store =
      let (r, store') = perform c store in
      let rest = answers o calls store' in if organization_of c == o then r ∷ rest else rest

  abbrev pub live : ℕ → Option (Entry V) → Option V
  live now none = none
  live now (some e) = if ltb e.expires_at now then none else some e.value

  abbrev pub kept_live : ℕ → Option (Entry V) → Option (Entry V)
  kept_live now none = none
  kept_live now (some e) = if ltb e.expires_at now then none else some e

  abbrev pub at_name : String → Option (Entry V) → Private V → Private V
  at_name name entry p n = if n == name then entry else p n

  abbrev pub dropped : Option String → Private V → Private V
  dropped none p n = none
  dropped (some name) p n = at_name name none p n

  unfoldable pub private_step : CacheCall V → Private V → Option V × Private V
  private_step (get now org name) p = (live now (p name), at_name name (kept_live now (p name)) p)
  private_step (put now org name value ttl_seconds) p = (
    none,
    at_name name (some (record { value = value; expires_at = now + ttl_seconds * 1000 })) p,
  )
  private_step (drop org name) p = (none, dropped (truthy name) p)

  -- What `o` is answered where only its own calls run, on a cache of its own.
  unfoldable pub private_answers :
      String → List (CacheCall V) → Private V → List (Checked (Option V))
  unfolding private_step
  private_answers o [] p = []
  private_answers o (c ∷ calls) p =
      let (r, p') = private_step c p in
      let rest = private_answers o calls (if organization_of c == o then p' else p) in
      if organization_of c == o then passes r ∷ rest else rest

  -- The entries that a shared store holds for an organization.
  abbrev pub entries_of : String → Store V → Private V
  entries_of o store name = map_get store (tenant_prefix o ⧺ name)

  abbrev pub Represents : String → Store V → Private V → Type 0
  Represents o store p = (name : String) → entries_of o store name ≡ p name
