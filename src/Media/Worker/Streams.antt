-- ===== src/Media/Worker/Streams.antt =====
-- How many streams the worker keeps.
use mathlib.Core.Path.{subst}
use ai_cctv_platform.Common.{
  ◌⊎◌, pick_then, pick_else, ℕ, ◌+◌, ◌≤◌, ◌≡◌, ◌≢◌, refl, sym, String, Bool, true, false, not,
  Option, List, [], ◌∷◌, ◌==◌, eq_iff, filter, includes, is_some, leb, length, length-append, arith,
  map_get, map_set, All, Bool-cases, inl, inr, if◌then◌else◌,
}
use ai_cctv_platform.Access.Directory.{Checked, passes, fails}
use ai_cctv_platform.Media.Worker.{
  Running, MediaWorker, enabled_cameras, launched, launch, add_active, launch_all, keep_active,
  settled, reconcile, open_credentials, camera_credentials,
}
use ai_cctv_platform.Tenancy.World.{World, Runtime, Camera}

-- The texts of a list without one of them.
without : String → List String → List String
without x ys = filter (λ y. not (y == x)) ys

without-shorter :
    (x : String) (ys : List String)
    → length (without x ys) + (if includes ys x then 1 else 0) ≤ length ys
unfolding without
without-shorter x [] = ground arith
without-shorter x (y ∷ ys) = ground (arith, without-shorter x ys, eq_iff y x)

includes-without :
    (x z : String) (ys : List String)
    → includes ys z ≡ true
    → z ≢ x
    → includes (without x ys) z ≡ true
unfolding without
includes-without x z [] h apart = ground (arith, h)
includes-without x z (y ∷ ys) h apart =
    ground (arith, h, apart, includes-without x z ys, eq_iff y x, eq_iff y z)

-- The keys of the map, each there once.
module _ {V : Type 0} where
  abbrev pub Distinct : List (String × V) → Type 0
  Distinct [] = Unit
  Distinct ((k, v) ∷ entries) =
      (All (λ (e : String × V). (e.0 == k) ≡ false) entries) × Distinct entries

  -- Distinct texts that all stand in a list are no more than the list.
  length-Distinct :
      (entries : List (String × V)) (ys : List String)
      → Distinct entries
      → All (λ (e : String × V). includes ys e.0 ≡ true) entries
      → length entries ≤ length ys
  length-Distinct [] ys d a = ground arith
  length-Distinct ((k, v) ∷ entries) ys (apart, d) (h, a) =
      let tail = length-Distinct entries (without k ys) d (thinned entries apart a) in
      ground (arith, tail, without-shorter k ys, h)
    where
      thinned :
          (es : List (String × V))
          → All (λ (e : String × V). (e.0 == k) ≡ false) es
          → All (λ (e : String × V). includes ys e.0 ≡ true) es
          → All (λ (e : String × V). includes (without k ys) e.0 ≡ true) es
      thinned [] p q = tt
      thinned (e ∷ es) (n, p) (i, q) =
          (includes-without k e.0 ys i (ground (arith, n, eq_iff e.0 k)), thinned es p q)

  All-map_set :
      (P : String → Type 0) (entries : List (String × V)) (key : String) (value : V)
      → All (λ (e : String × V). P e.0) entries
      → P key
      → All (λ (e : String × V). P e.0) (map_set entries key value)
  unfolding map_set
  All-map_set P [] key value a p = (p, tt)
  All-map_set P ((k, v) ∷ entries) key value (q, a) p =
      both (k == key) (All-map_set P entries key value a p)
    where
      both :
          (b : Bool)
          → All (λ (e : String × V). P e.0) (map_set entries key value)
          → All
              (λ (e : String × V). P e.0)
              (if b then (key, value) ∷ entries else (k, v) ∷ map_set entries key value)
      both true r = (p, a)
      both false r = (q, r)

  Distinct-map_set :
      (entries : List (String × V)) (key : String) (value : V)
      → Distinct entries
      → Distinct (map_set entries key value)
  unfolding map_set
  Distinct-map_set [] key value d = (tt, tt)
  Distinct-map_set ((k, v) ∷ entries) key value (apart, d) =
      placed (Bool-cases (k == key)) (Distinct-map_set entries key value d)
    where
      placed :
          ((k == key) ≡ true) ⊎ ((k == key) ≡ false)
          → Distinct (map_set entries key value)
          → Distinct
              (if k == key then (key, value) ∷ entries else (k, v) ∷ map_set entries key value)
      placed (inl y) r = subst Distinct (sym (pick_then (k == key) _ _ y)) (
        subst (λ j. All (λ (e : String × V). (e.0 == j) ≡ false) entries)
            (ground (arith, y, eq_iff k key)) apart,
        d,
      )
      placed (inr n) r = subst Distinct (sym (pick_else (k == key) _ _ n)) (
        All-map_set (λ j. (j == k) ≡ false) entries key value apart
            (ground (arith, n, eq_iff k key, eq_iff key k)),
        r,
      )

All-kept :
    (P : String × Running → Type 0) (active : List String) (entries : List (String × Running))
    → All P entries
    → All P (keep_active active entries)
unfolding keep_active
All-kept P active [] a = tt
All-kept P active ((id, p) ∷ entries) (h, a) =
    pick (includes active id) (All-kept P active entries a)
  where
    pick :
        (b : Bool)
        → All P (keep_active active entries)
        → All P (if b then (id, p) ∷ keep_active active entries else keep_active active entries)
    pick true r = (h, r)
    pick false r = r

Distinct-kept :
    (active : List String) (entries : List (String × Running))
    → Distinct entries
    → Distinct (keep_active active entries)
unfolding keep_active
Distinct-kept active [] d = tt
Distinct-kept active ((id, p) ∷ entries) (apart, d) =
    pick (includes active id) (Distinct-kept active entries d)
  where
    pick :
        (b : Bool)
        → Distinct (keep_active active entries)
        → Distinct (if b then (id, p) ∷ keep_active active entries else keep_active active entries)
    pick true r = (All-kept _ active entries apart, r)
    pick false r = r

kept-active :
    (active : List String) (entries : List (String × Running))
    → All (λ (e : String × Running). includes active e.0 ≡ true) (keep_active active entries)
unfolding keep_active
kept-active active [] = tt
kept-active active ((id, p) ∷ entries) =
    pick (Bool-cases (includes active id)) (kept-active active entries)
  where
    pick :
        (includes active id ≡ true) ⊎ (includes active id ≡ false)
        → All (λ (e : String × Running). includes active e.0 ≡ true) (keep_active active entries)
        → All
            (λ (e : String × Running). includes active e.0 ≡ true)
            (if includes active id
              then (id, p) ∷ keep_active active entries
              else keep_active active entries)
    pick (inl y) r =
        subst (All (λ (e : String × Running). includes active e.0 ≡ true))
          (sym (pick_then (includes active id) _ _ y)) (y, r)
    pick (inr n) r =
        subst (All (λ (e : String × Running). includes active e.0 ≡ true))
          (sym (pick_else (includes active id) _ _ n)) r

-- Every camera has one pipeline at most.
pub record IsKeyed (m : MediaWorker) : Type 0 where
  pub distinct : Distinct m.pipelines

module _ (rt : Runtime) (w : World) (limit : ℕ) where
  AfterLaunch : Checked (List (String × Running)) → Type 0
  AfterLaunch (fails e) = Unit
  AfterLaunch (passes m) = Distinct m

  launched-Distinct :
      (cam : Camera) (c : Checked (Option String × Option String)) (m : List (String × Running))
      → Distinct m
      → AfterLaunch (launched cam c m)
  unfolding AfterLaunch
  launched-Distinct cam (fails e) m d = tt
  launched-Distinct cam (passes (u, p)) m d = Distinct-map_set m cam.id _ d

  launch-Distinct :
      (cam : Camera) (m : List (String × Running)) → Distinct m → AfterLaunch (launch rt w cam m)
  unfolding launch AfterLaunch
  launch-Distinct cam m d = pick (is_some (map_get m cam.id))
    where
      pick :
          (b : Bool)
          → AfterLaunch (
              if b
              then passes m
              else launched cam (open_credentials rt (camera_credentials cam.id w)) m)
      pick true = d
      pick false = launched-Distinct cam _ m d

  -- The loop's result: at most `limit` active ids where it ends, and one pipeline per camera.
  abbrev Launched : Checked (List String) × List (String × Running) → Type 0
  Launched (fails e, m) = Distinct m
  Launched (passes active, m) = (length active ≤ limit) × Distinct m

  add_active-length :
      (id : String) (active : List String) → length (add_active id active) ≤ length active + 1
  add_active-length id active = ground (arith, length-append active (id ∷ []))

  -- One turn of the loop, by its two tests, with what is known of the turns after it.
  turn-Launched :
      (b : Bool) (c : Checked (List (String × Running)))
      (rest : List (String × Running) → Checked (List String) × List (String × Running))
      (active : List String) (m : List (String × Running))
      → length active ≤ limit
      → Distinct m
      → AfterLaunch c
      → ((m' : List (String × Running)) → b ≡ false → Distinct m' → Launched (rest m'))
      → Launched (elim b [
        | true ↦ (passes active, m)
        | false ↦ elim c [ fails e ↦ (fails e, m) | passes m' ↦ rest m' ]
      ])
  unfolding AfterLaunch
  turn-Launched true c rest active m few d after next = (few, d)
  turn-Launched false (fails e) rest active m few d after next = d
  turn-Launched false (passes m') rest active m few d after next = next m' refl after

  launch_all-Launched :
      (cams : List Camera) (active : List String) (m : List (String × Running))
      → length active ≤ limit
      → Distinct m
      → Launched (launch_all rt w limit cams active m)
  unfolding launch_all
  launch_all-Launched [] active m few d = (few, d)
  launch_all-Launched (cam ∷ cams) active m few d =
      turn-Launched (leb limit (length active)) (launch rt w cam m)
        (λ m'. launch_all rt w limit cams (add_active cam.id active) m') active m few d
        (launch-Distinct cam m d)
        (λ m' n d'.
          launch_all-Launched cams (add_active cam.id active) m'
            (ground (arith, n, add_active-length cam.id active)) d')

  settled-few :
      (r : Checked (List String) × List (String × Running)) (m : MediaWorker)
      → Launched r
      → (settled r m).0 ≡ passes tt
      → IsKeyed ((settled r m).1) × (length (settled r m).1.pipelines ≤ limit)
  settled-few (fails e, entries) m h ends = ground (arith, ends)
  settled-few (passes active, entries) m (few, d) ends =
      let kept = Distinct-kept active entries d in
      let count =
        length-Distinct (keep_active active entries) active kept (kept-active active entries) in
      (record { distinct = kept }, omega (arith, few, count))

  -- Where a reconciliation ends, as many pipelines run as the limit allows at most, and one per
  -- camera, if there was one per camera before.
  pub reconcile-limit :
      (m : MediaWorker)
      → IsKeyed m
      → (reconcile rt limit w m).0 ≡ passes tt
      → IsKeyed ((reconcile rt limit w m).1) × (length (reconcile rt limit w m).1.pipelines ≤ limit)
  unfolding reconcile
  reconcile-limit m keyed ends =
      settled-few _ m
        (launch_all-Launched (enabled_cameras w) [] m.pipelines (omega arith) keyed.distinct) ends
