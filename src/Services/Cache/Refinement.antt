-- ===== src/Services/Cache/Refinement.antt =====
-- The shared cache of server/src/services/cache.service.ts against each organization's own.
use text.Mathlib.TextLemmas.{append_cancel_left}
use ai_cctv_platform.Common.{
  ℕ, ◌+◌, ◌*◌, ◌≡◌, ◌≢◌, refl, sym, ap, ◌∙◌, true, false, String, Option, some, none, List, [], ◌∷◌,
  ◌==◌, ◌⧺◌, eq_iff, starts_with, starts_with_iff, map_get, map_get-set, map_get-delete, Bool-cases,
  inl, inr, arith, if◌then◌else◌, truthy, All,
}
use ai_cctv_platform.Access.Directory.{Checked, passes, fails}
use ai_cctv_platform.Services.Cache.{
  Entry, Store, tenant_prefix, tenant_key, fresh, get_at, cache_get, set_at, cache_set, delete_at,
  invalidate, cache_invalidate,
}
use ai_cctv_platform.Services.Cache.Laws.{
  AreApart, apart-differ, foreign_key, key_of, set_at-other, invalidate-other,
}
use ai_cctv_platform.Services.Cache.Private.{
  CacheCall, get, put, drop, Private, organization_of, nothing_found, perform, answers, live,
  kept_live, at_name, dropped, private_step, private_answers, entries_of, Represents,
}

prefix_same : (o n m : String) → ((tenant_prefix o ⧺ n) == (tenant_prefix o ⧺ m)) ≡ (n == m)
prefix_same o n m = elim (Bool-cases (n == m)) [
  | inl h ↦ ground (
    arith,
    h,
    ap (λ t. tenant_prefix o ⧺ t) (eq_of n m h),
    eq_iff (tenant_prefix o ⧺ n) (tenant_prefix o ⧺ m),
  )
  | inr h ↦ ground (
    arith,
    h,
    append_cancel_left (tenant_prefix o) n m,
    eq_iff n m,
    eq_iff (tenant_prefix o ⧺ n) (tenant_prefix o ⧺ m),
  )
]
  where
    eq_of : (x y : String) → (x == y) ≡ true → x ≡ y
    eq_of x y e = ground (arith, eq_iff x y, e)

tenant_key-passes : (o name : String) → o ≢ "" → tenant_key o name ≡ passes (tenant_prefix o ⧺ name)
unfolding tenant_key
tenant_key-passes o name h = ground (arith, apart-differ o "" h)

module _ {V : Type 0} where
  fresh_live :
      (now : ℕ) (key : String) (e : Option (Entry V)) (store : Store V)
      → (fresh now key e store).0 ≡ live now e
  unfolding fresh
  fresh_live now key none store = refl
  fresh_live now key (some e) store = ground arith

  fresh_kept :
      (o name n : String) (now : ℕ) (store : Store V) (e : Option (Entry V))
      → map_get store (tenant_prefix o ⧺ name) ≡ e
      → entries_of o (fresh now (tenant_prefix o ⧺ name) e store).1 n
        ≡ at_name name (kept_live now e) (entries_of o store) n
  unfolding fresh
  fresh_kept o name n now store none f = ground (arith, f, eq_iff n name)
  fresh_kept o name n now store (some e) f = ground (
    arith,
    f,
    eq_iff n name,
    prefix_same o n name,
    map_get-delete (λ k. k == (tenant_prefix o ⧺ name)) store (tenant_prefix o ⧺ n),
  )

  -- The organization's own calls answer and change what its own cache answers and changes.
  get-own :
      (o name : String) (now : ℕ) (store : Store V) (p : Private V)
      → o ≢ ""
      → Represents o store p
      → ((cache_get now o name store).0 ≡ passes (live now (p name)))
        × Represents o (cache_get now o name store).1 (at_name name (kept_live now (p name)) p)
  unfolding cache_get
  get-own o name now store p h r =
      let key = tenant_key-passes o name h in
      (
        ap (λ k. (get_at now k store).0) key
            ∙ ap passes (fresh_live now _ (map_get store (tenant_prefix o ⧺ name)) store)
            ∙ ap (λ e. passes (live now e)) (r name),
        λ n.
            ap (λ k. entries_of o (get_at now k store).1 n) key
            ∙ fresh_kept o name n now store (map_get store (tenant_prefix o ⧺ name)) refl
            ∙ ap (λ e. at_name name (kept_live now e) (entries_of o store) n) (r name)
            ∙ ap (λ e. if n == name then kept_live now (p name) else e) (r n),
      )

  put-own :
      (o name : String) (store : Store V) (p : Private V) (entry : Entry V)
      → o ≢ ""
      → Represents o store p
      → (nothing_found {V = V} (set_at (tenant_key o name) entry store).0 ≡ passes none)
        × Represents o (set_at (tenant_key o name) entry store).1 (at_name name (some entry) p)
  put-own o name store p entry h r =
      let key = tenant_key-passes o name h in
      (
        ap (λ k. nothing_found {V = V} (set_at k entry store).0) key,
        λ n.
            ap (λ k. entries_of o (set_at k entry store).1 n) key
            ∙ ground (
              arith,
              map_get-set store (tenant_prefix o ⧺ name) (tenant_prefix o ⧺ n) entry,
              prefix_same o name n,
              eq_iff n name,
              eq_iff name n,
              r n,
            ),
      )

  drop-own :
      (o : String) (t : Option String) (store : Store V) (p : Private V)
      → o ≢ ""
      → Represents o store p
      → (nothing_found {V = V} (invalidate o t store).0 ≡ passes none)
        × Represents o (invalidate o t store).1 (dropped t p)
  drop-own o none store p h r = (
    refl,
    λ n. ground (
      arith,
      map_get-delete (λ k. starts_with k (tenant_prefix o)) store (tenant_prefix o ⧺ n),
      (starts_with_iff (tenant_prefix o ⧺ n) (tenant_prefix o)).1 (n, refl),
    ),
  )
  drop-own o (some name) store p h r =
      let key = tenant_key-passes o name h in
      (
        ap (λ k. nothing_found {V = V} (delete_at k store).0) key,
        λ n.
            ap (λ k. entries_of o (delete_at k store).1 n) key
            ∙ ground (
              arith,
              map_get-delete (λ k. k == (tenant_prefix o ⧺ name)) store (tenant_prefix o ⧺ n),
              prefix_same o n name,
              r n,
            ),
      )

  perform-own :
      (o : String) (c : CacheCall V) (store : Store V) (p : Private V)
      → o ≢ ""
      → organization_of c ≡ o
      → Represents o store p
      → ((perform c store).0 ≡ passes (private_step c p).0)
        × Represents o (perform c store).1 (private_step c p).1
  unfolding perform private_step cache_get cache_set cache_invalidate
  perform-own o (get now org name) store p h e r =
      let own = get-own o name now store p h r in
      (
        ap (λ x. (cache_get now x name store).0) e ∙ own.0,
        λ n. ap (λ x. entries_of o (cache_get now x name store).1 n) e ∙ own.1 n,
      )
  perform-own o (put now org name value ttl_seconds) store p h e r =
      let entry : Entry V = record { value = value; expires_at = now + ttl_seconds * 1000 } in
      let own = put-own o name store p entry h r in
      (
        ap (λ x. nothing_found {V = V} (set_at (tenant_key x name) entry store).0) e ∙ own.0,
        λ n. ap (λ x. entries_of o (set_at (tenant_key x name) entry store).1 n) e ∙ own.1 n,
      )
  perform-own o (drop org name) store p h e r =
      let own = drop-own o (truthy name) store p h r in
      (
        ap (λ x. nothing_found {V = V} (invalidate x (truthy name) store).0) e ∙ own.0,
        λ n. ap (λ x. entries_of o (invalidate x (truthy name) store).1 n) e ∙ own.1 n,
      )

  fresh-other :
      (now : ℕ) (k key : String) (e : Option (Entry V)) (store : Store V)
      → k ≢ key
      → map_get (fresh now k e store).1 key ≡ map_get store key
  unfolding fresh
  fresh-other now k key none store h = refl
  fresh-other now k key (some e) store h =
      ground (arith, map_get-delete (λ j. j == k) store key, apart-differ key k (λ f. h (sym f)))

  get_at-other :
      (now : ℕ) (c : Checked String) (store : Store V) (key : String)
      → ((k : String) → c ≡ passes k → k ≢ key)
      → map_get (get_at now c store).1 key ≡ map_get store key
  get_at-other now (fails e) store key h = refl
  get_at-other now (passes k) store key h = fresh-other now k key (map_get store k) store (h k refl)

  -- The calls of other organizations change none of its entries.
  perform-other :
      (o : String) (c : CacheCall V) (store : Store V) (n : String)
      → AreApart (organization_of c) o
      → entries_of o (perform c store).1 n ≡ entries_of o store n
  unfolding perform cache_get cache_set cache_invalidate
  perform-other o (get now org name) store n a =
      get_at-other now (tenant_key org name) store (tenant_prefix o ⧺ n)
        (λ k f. foreign_key org o a _ n refl k name (key_of org name k f))
  perform-other o (put now org name value ttl_seconds) store n a =
      set_at-other (tenant_key org name) _ store (tenant_prefix o ⧺ n)
        (λ k f. foreign_key org o a _ n refl k name (key_of org name k f))
  perform-other o (drop org name) store n a =
      invalidate-other org o (truthy name) store (tenant_prefix o ⧺ n) n a refl

  -- An organization with an id, among organizations without colons in their ids, is answered by the
  -- shared store, whatever calls of all of them run in which order, as by a cache of its own on
  -- which only its own calls run, if that holds what the store holds for it at first.
  pub answers-private :
      (o : String) (calls : List (CacheCall V)) (store : Store V) (p : Private V)
      → o ≢ ""
      → All (λ c. (organization_of c == o) ≡ false → AreApart (organization_of c) o) calls
      → Represents o store p
      → answers o calls store ≡ private_answers o calls p
  unfolding answers private_answers
  answers-private o [] store p h a r = refl
  answers-private o (c ∷ calls) store p h (a, others) r =
      elim (Bool-cases (organization_of c == o)) [
        | inl e ↦
            let own =
              perform-own o c store p h (ground (arith, e, eq_iff (organization_of c) o)) r in
            ground (
              arith,
              e,
              own.0,
              answers-private o calls (perform c store).1 (private_step c p).1 h others own.1,
            )
        | inr e ↦ ground (
          arith,
          e,
          answers-private o calls (perform c store).1 p h others
              (λ n. perform-other o c store n (a e) ∙ r n),
        )
      ]
