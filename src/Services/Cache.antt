-- ===== src/Services/Cache.antt =====
-- server/src/services/cache.service.ts: the cache whose keys carry their organization. The store is
-- the module's `Map`; an operation that throws leaves it as it was.
pub mod Laws
pub mod Private
pub mod Refinement
mod Examples
use ai_cctv_platform.Common.{
  ℕ, ◌+◌, ◌*◌, Bool, String, Option, some, none, List, ◌==◌, ◌⧺◌, starts_with, ltb, truthy, map_get,
  map_set, map_delete, if◌then◌else◌,
}
use ai_cctv_platform.Access.Errors.{Error, other}
use ai_cctv_platform.Access.Directory.{Checked, passes, fails}

pub record Entry {ℓ} (V : Type ℓ) : Type ℓ where
  pub value : V
  pub expires_at : ℕ

abbrev pub Store {ℓ} : Type ℓ → Type ℓ
Store V = List (String × Entry V)

unfoldable pub tenant_prefix : String → String
tenant_prefix organization_id = "tenant:" ⧺ organization_id ⧺ ":"

unfoldable pub tenant_key : String → String → Checked String
unfolding tenant_prefix
tenant_key organization_id name =
    if organization_id == ""
    then fails (other "cache: organizationId is required for tenant key")
    else passes (tenant_prefix organization_id ⧺ name)

module _ {ℓ} {V : Type ℓ} where
  -- The entry under a key, unless it has expired, and the store after.
  unfoldable pub fresh : ℕ → String → Option (Entry V) → Store V → Option V × Store V
  unfolding map_delete
  fresh now key none store = (none, store)
  fresh now key (some entry) store =
      if ltb entry.expires_at now
      then (none, map_delete (λ k. k == key) store)
      else (some entry.value, store)

  abbrev pub get_at : ℕ → Checked String → Store V → Checked (Option V) × Store V
  get_at now (fails e) store = (fails e, store)
  get_at now (passes key) store =
      let (found, store') = fresh now key (map_get store key) store in (passes found, store')

  unfoldable pub cache_get : ℕ → String → String → Store V → Checked (Option V) × Store V
  unfolding tenant_key fresh map_get
  cache_get now organization_id name store = get_at now (tenant_key organization_id name) store

  abbrev pub set_at : Checked String → Entry V → Store V → Checked (Unit {0}) × Store V
  set_at (fails e) entry store = (fails e, store)
  set_at (passes key) entry store = (passes tt, map_set store key entry)

  unfoldable pub cache_set : ℕ → String → String → V → ℕ → Store V → Checked (Unit {0}) × Store V
  unfolding tenant_key map_set
  cache_set now organization_id name value ttl_seconds store =
      set_at (tenant_key organization_id name)
        (record { value = value; expires_at = now + ttl_seconds * 1000 }) store

  abbrev pub delete_at : Checked String → Store V → Checked (Unit {0}) × Store V
  delete_at (fails e) store = (fails e, store)
  delete_at (passes key) store = (passes tt, map_delete (λ k. k == key) store)

  -- One key where a name is given, and the organization's whole namespace where none is.
  abbrev pub invalidate : String → Option String → Store V → Checked (Unit {0}) × Store V
  invalidate organization_id (some name) store = delete_at (tenant_key organization_id name) store
  invalidate organization_id none store =
      (passes tt, map_delete (λ k. starts_with k (tenant_prefix organization_id)) store)

  unfoldable pub cache_invalidate : String → Option String → Store V → Checked (Unit {0}) × Store V
  unfolding tenant_key tenant_prefix map_delete
  cache_invalidate organization_id name store = invalidate organization_id (truthy name) store
