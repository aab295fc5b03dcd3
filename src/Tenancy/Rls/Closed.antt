-- ===== src/Tenancy/Rls/Closed.antt =====
-- A handle without an organization reaches no tenant row.
use ai_cctv_platform.Common.{
  ◌≡◌, refl, ap, Bool, false, String, List, [], ◌∷◌, arith, if◌then◌else◌,
}
use ai_cctv_platform.Tenancy.World.{World}
use ai_cctv_platform.Tenancy.Rls.{
  ok, err, org_visible, select, update, insert_row, rls_violation, unbound,
}

unbound_blind : (user_id org : String) → org_visible (unbound user_id) org ≡ false
unfolding org_visible unbound
unbound_blind user_id org = ground arith

module _ {Row : Type 0} (org : Row → String) (user_id : String) (p : Row → Bool)
    (f : Row → Row) where
  none_selected : (rs : List Row) → select org (unbound user_id) p rs ≡ []
  unfolding select
  none_selected [] = refl
  none_selected (r ∷ rs) = ground (arith, unbound_blind user_id (org r), none_selected rs)

  none_updated : (rs : List Row) → update org (unbound user_id) p f rs ≡ rs
  unfolding update
  none_updated [] = refl
  none_updated (r ∷ rs) = ground (arith, unbound_blind user_id (org r), none_updated rs)

  -- Outside an organization every query of a tenant table finds nothing, every update changes
  -- nothing and every insertion fails with the policy's error.
  pub unbound_closed :
      (rows : List Row) (write : World → World) (w : World) (o : String)
      → (select org (unbound user_id) p rows ≡ [])
        × (update org (unbound user_id) p f rows ≡ rows)
        × (insert_row (unbound user_id) o write w ≡ err rls_violation w)
  unfolding insert_row
  unbound_closed rows write w o = (
    none_selected rows,
    none_updated rows,
    ap (λ b. if b then ok tt (write w) else err rls_violation w) (unbound_blind user_id o),
  )
