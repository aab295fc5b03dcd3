-- ===== src/Services/Resource/Laws.antt =====
-- What a row that is found by its id says, and what another organization's id answers.
use mathlib.Core.Bool.{true≢false}
use ai_cctv_platform.Common.{
  ◌≡◌, refl, sym, ap, ◌∙◌, Bool, true, false, ◌&&◌, String, Option, some, none, List, [], ◌∷◌, ◌==◌,
  eq_iff, first, filter, find, find-In, Option-cases, includes, In, Bool-cases, inl, inr, arith,
}
use ai_cctv_platform.Access.Errors.{not_found}
use ai_cctv_platform.Access.Directory.{passes, fails}
use ai_cctv_platform.Tenancy.Rls.{TenantContext, org_visible, select}
use ai_cctv_platform.Services.Resource.{
  tenant_tables, is_uuid, found_or_404, require_tenant_resource,
}

pub first-filter-eq-find :
    {A : Type 0} (p : A → Bool) (xs : List A) → first (filter p xs) ≡ find p xs
first-filter-eq-find p [] = refl
first-filter-eq-find p (x ∷ xs) = ground (arith, first-filter-eq-find p xs)

module _ {Row : Type 0} (org row_id : Row → String) (ctx : TenantContext) (table id : String)
    (rows : List Row) where
  query : Option Row
  query = first (select org ctx (λ r. row_id r == id) rows)

  query-some :
      (row : Row)
      → query ≡ some row
      → In row rows × (row_id row ≡ id) × (org_visible ctx (org row) ≡ true)
  unfolding query select
  query-some row h =
      let (stored, test) =
        find-In (λ r. org_visible ctx (org r) && row_id r == id) rows
          (sym (first-filter-eq-find _ rows) ∙ h) in
      let t : (row_id row ≡ id) × (org_visible ctx (org row) ≡ true) =
        ground (arith, test, eq_iff (row_id row) id) in
      (stored, t.0, t.1)

  found-passes :
      (o : Option Row) (row : Row) → found_or_404 org row_id ctx o ≡ passes row → o ≡ some row
  found-passes none row h = ground arith
  found-passes (some r) row h = ground arith

  -- A row that is returned is stored in the table under the id asked for and visible to the handle.
  pub require_tenant_resource_sound :
      (row : Row)
      → require_tenant_resource org row_id ctx table id rows ≡ passes row
      → In row rows × (row_id row ≡ id) × (org_visible ctx (org row) ≡ true)
  unfolding require_tenant_resource query
  require_tenant_resource_sound row h = elim (Bool-cases (includes tenant_tables table)) [
    | inr a ↦ ground (arith, a, h)
    | inl a ↦ elim (Bool-cases (is_uuid id)) [
      | inr b ↦ ground (arith, a, b, h)
      | inl b ↦ query-some row (found-passes query row (ground (arith, a, b, h)))
    ]
  ]

  missing_answer :
      includes tenant_tables table ≡ true
      → query ≡ none
      → require_tenant_resource org row_id ctx table id rows ≡ fails (not_found "Not found")
  unfolding require_tenant_resource query
  missing_answer known e = elim (Bool-cases (is_uuid id)) [
    | inl b ↦ ground (arith, known, b, ap (found_or_404 org row_id ctx) e)
    | inr b ↦ ground (arith, known, b)
  ]

  -- An id that only rows of other organizations have is answered like one that no row has: 404,
  -- for a known table.
  pub require_tenant_resource_hidden :
      includes tenant_tables table ≡ true
      → ((r : Row) → In r rows → row_id r ≡ id → org_visible ctx (org r) ≡ false)
      → require_tenant_resource org row_id ctx table id rows ≡ fails (not_found "Not found")
  unfolding require_tenant_resource query
  require_tenant_resource_hidden known hidden = elim (Option-cases query) [
    | inl e ↦ missing_answer known e
    | inr (r, e) ↦
        let (stored, own, seen) = query-some r e in
        absurd (true≢false (sym seen ∙ hidden r stored own))
  ]
