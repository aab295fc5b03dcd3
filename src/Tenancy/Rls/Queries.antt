-- ===== src/Tenancy/Rls/Queries.antt =====
-- A SELECT after an UPDATE by the same condition, and after an INSERT.
use mathlib.Core.Option
use ai_cctv_platform.Common.{
  zero, ◌+◌, ◌&&◌, ◌≤◌, if◌then◌else◌, ◌≡◌, refl, ap, Bool, true, String, some, none, List, [], ◌∷◌,
  ◌++◌, arith, first, length, suc,
}
use ai_cctv_platform.Tenancy.Rls.{TenantContext, org_visible, select, update, delete}

module _ {Row : Type 0} (org : Row → String) (ctx : TenantContext) (p : Row → Bool)
    (f : Row → Row) where
  -- The first row found is the updated one, if the update keeps what the query reads.
  pub first-select-update :
      ((r : Row) → org (f r) ≡ org r)
      → ((r : Row) → p (f r) ≡ p r)
      → (rows : List Row)
      → first (select org ctx p (update org ctx p f rows))
        ≡ Option.map f (first (select org ctx p rows))
  unfolding select update
  first-select-update keeps_org keeps_p [] = refl
  first-select-update keeps_org keeps_p (r ∷ rows) =
      ground (arith, keeps_org r, keeps_p r, first-select-update keeps_org keeps_p rows)

  pub length-update : (rows : List Row) → length (update org ctx p f rows) ≡ length rows
  unfolding update
  length-update [] = refl
  length-update (r ∷ rows) = ap suc (length-update rows)

module _ {Row : Type 0} (org : Row → String) (ctx : TenantContext) (p : Row → Bool) where
  -- A row put behind rows without a match is the first match, if it is visible and fits.
  pub first-select-concat :
      (rows : List Row) (r : Row)
      → first (select org ctx p rows) ≡ none
      → org_visible ctx (org r) ≡ true
      → p r ≡ true
      → first (select org ctx p (rows ++ r ∷ [])) ≡ some r
  unfolding select
  first-select-concat [] r e v h = ground arith
  first-select-concat (x ∷ rows) r e v h = ground (arith, first-select-concat rows r)

-- How many rows a SELECT finds after each statement.
module _ {Row : Type 0} (org : Row → String) (db : TenantContext) (p : Row → Bool) where
  pub length-select_concat :
      (rows : List Row) (r : Row)
      → length (select org db p (rows ++ r ∷ []))
        ≡ length (select org db p rows) + (if org_visible db (org r) && p r then suc zero else zero)
  unfolding select
  length-select_concat [] r = ground arith
  length-select_concat (x ∷ rows) r = ground (arith, length-select_concat rows r)

  pub length-select-update :
      (q : Row → Bool) (f : Row → Row)
      → ((r : Row) → org (f r) ≡ org r)
      → ((r : Row) → p (f r) ≡ p r)
      → (rows : List Row)
      → length (select org db p (update org db q f rows)) ≡ length (select org db p rows)
  unfolding select update
  length-select-update q f keeps keeps_p [] = refl
  length-select-update q f keeps keeps_p (x ∷ rows) =
      ground (arith, keeps x, keeps_p x, length-select-update q f keeps keeps_p rows)

  pub length-select-delete :
      (q : Row → Bool) (rows : List Row)
      → length (select org db p (delete org db q rows)) ≤ length (select org db p rows)
  unfolding select delete
  length-select-delete q [] = ground arith
  length-select-delete q (x ∷ rows) = ground (arith, length-select-delete q rows)
