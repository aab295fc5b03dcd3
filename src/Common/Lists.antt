-- ===== src/Common/Lists.antt =====
-- Lists measured by native numbers and tested by Booleans, and dictionaries keyed by texts.
use Prim.Native.Nat.{ℕ, suc, ◌+◌}
use Prim.Native.String.{String}
use mathlib.Core.Path.{◌≡◌, refl, sym, ap, ◌∙◌, subst}
use mathlib.Core.Logic.{◌⊎◌, inl, inr}
use mathlib.Core.Bool.{Bool, true, false, ◌&&◌, ◌||◌}
use mathlib.Core.Option.{Option, none, some, some-injective, none-ne-some}
use mathlib.Core.List.{List, [], ◌∷◌, ◌++◌}
use native.Mathlib.Omega.{arith}
use text.Mathlib.Text.{◌==◌}
use text.Mathlib.TextEquality.{eq_iff}
use ai_cctv_platform.Common.Tests.{if◌then◌else◌, Bool-cases}

module _ {ℓ} {A : Type ℓ} where
  abbrev pub length : List A → ℕ
  length [] = 0
  length (x ∷ xs) = suc (length xs)

  pub length-append : (xs ys : List A) → length (xs ++ ys) ≡ length xs + length ys
  length-append [] ys = omega arith
  length-append (x ∷ xs) ys = omega (arith, length-append xs ys)

  -- `xs.filter(p)`.
  abbrev pub filter : (A → Bool) → List A → List A
  filter p [] = []
  filter p (x ∷ xs) = let rest = filter p xs in if p x then x ∷ rest else rest

  -- `xs.some(p)`.
  abbrev pub any : (A → Bool) → List A → Bool
  any p [] = false
  any p (x ∷ xs) = p x || any p xs

  abbrev pub all : (A → Bool) → List A → Bool
  all p [] = true
  all p (x ∷ xs) = p x && all p xs

  -- `xs[0]`, and `xs.find(p)`.
  abbrev pub first : List A → Option A
  first [] = none
  first (x ∷ xs) = some x

  abbrev pub find : (A → Bool) → List A → Option A
  find p [] = none
  find p (x ∷ xs) = let rest = find p xs in if p x then some x else rest

  pub filter-append :
      (p : A → Bool) (xs ys : List A) → filter p (xs ++ ys) ≡ filter p xs ++ filter p ys
  filter-append p [] ys = refl
  filter-append p (x ∷ xs) ys = ground (arith, filter-append p xs ys)

module _ {ℓ κ} {A : Type ℓ} (P : A → Type κ) where
  abbrev pub All : List A → Type κ
  All [] = Unit
  All (x ∷ xs) = P x × All xs

  pub All-append : (xs ys : List A) → All xs → All ys → All (xs ++ ys)
  All-append [] ys hx hy = hy
  All-append (x ∷ xs) ys (h, hx) hy = (h, All-append xs ys hx hy)

-- A row that a table holds, and what a search finds.
pub data In {ℓ} {A : Type ℓ} (a : A) : List A → Type ℓ where
  here : {xs : List A} → In a (a ∷ xs)
  there : {x : A} {xs : List A} → In a xs → In a (x ∷ xs)

module _ {ℓ} {A : Type ℓ} where
  here_at : {a x : A} {xs : List A} → x ≡ a → In a (x ∷ xs)
  here_at {a} {x} {xs} e = subst (λ y. In a (y ∷ xs)) (sym e) here

  In-append : (xs ys : List A) {a : A} → In a (xs ++ ys) → In a xs ⊎ In a ys
  In-append [] ys m = inr m
  In-append (x ∷ xs) ys here = inl here
  In-append (x ∷ xs) ys (there m) = elim (In-append xs ys m) [
    | inl n ↦ inl (there n)
    | inr n ↦ inr n
  ]

  pub find-In : (p : A → Bool) (xs : List A) {a : A} → find p xs ≡ some a → In a xs × (p a ≡ true)
  find-In p [] {a} e = absurd (none-ne-some a e)
  find-In p (x ∷ xs) {a} e = elim (Bool-cases (p x)) [
    | inl h ↦
        let same = some-injective x a (sym (ap (λ b. if b then some x else find p xs) h) ∙ e) in
        (here_at same, ap p (sym same) ∙ h)
    | inr h ↦
        let (m, q) = find-In p xs (sym (ap (λ b. if b then some x else find p xs) h) ∙ e) in
        (there m, q)
  ]

module _ {ℓ} {A : Type ℓ} where
  In-if : (b : Bool) {m : A} (x : A) {xs : List A} → In m xs → In m (if b then x ∷ xs else xs)
  In-if true x i = there i
  In-if false x i = i

  -- A row that passes the test stays.
  pub In-filter : (p : A → Bool) (xs : List A) {m : A} → In m xs → p m ≡ true → In m (filter p xs)
  In-filter p [] i h = elim i [ ]
  In-filter p (x ∷ xs) here h =
      subst (λ b. In x (if b then x ∷ filter p xs else filter p xs)) (sym h) here
  In-filter p (x ∷ xs) (there i) h = In-if (p x) x (In-filter p xs i h)

-- The rows of a join before its condition.
module _ {ℓ κ} {A : Type ℓ} {B : Type κ} where
  abbrev pub row_pairs : A → List B → List (A × B)
  row_pairs a [] = []
  row_pairs a (b ∷ ys) = (a, b) ∷ row_pairs a ys

  abbrev pub join : List A → List B → List (A × B)
  join [] ys = []
  join (a ∷ xs) ys = row_pairs a ys ++ join xs ys

  In-row_pairs : (a : A) (ys : List B) {r : A × B} → In r (row_pairs a ys) → (r.0 ≡ a) × In r.1 ys
  In-row_pairs a [] m = elim m [ ]
  In-row_pairs a (b ∷ ys) here = (refl, here)
  In-row_pairs a (b ∷ ys) (there m) = let (e, n) = In-row_pairs a ys m in (e, there n)

  pub In-join : (xs : List A) (ys : List B) {r : A × B} → In r (join xs ys) → In r.0 xs × In r.1 ys
  In-join [] ys m = elim m [ ]
  In-join (a ∷ xs) ys m = elim (In-append (row_pairs a ys) (join xs ys) m) [
    | inl n ↦ let (e, k) = In-row_pairs a ys n in (here_at (sym e), k)
    | inr n ↦ let (h, k) = In-join xs ys n in (there h, k)
  ]

-- `xs.includes(s)` on texts.
abbrev pub includes : List String → String → Bool
includes [] s = false
includes (x ∷ xs) s = x == s || includes xs s

-- A `Map` with text keys, in insertion order: `set` overwrites in place or appends.
module _ {ℓ} {V : Type ℓ} where
  unfoldable pub map_get : List (String × V) → String → Option V
  map_get [] key = none
  map_get ((k, v) ∷ entries) key =
      let later = map_get entries key in if k == key then some v else later

  unfoldable pub map_set : List (String × V) → String → V → List (String × V)
  map_set [] key value = (key, value) ∷ []
  map_set ((k, v) ∷ entries) key value =
      let later = map_set entries key value in
      if k == key then (key, value) ∷ entries else (k, v) ∷ later

  -- The deletion of every key that satisfies the test.
  unfoldable pub map_delete : (String → Bool) → List (String × V) → List (String × V)
  map_delete doomed [] = []
  map_delete doomed ((k, v) ∷ entries) =
      let later = map_delete doomed entries in if doomed k then later else (k, v) ∷ later

  pub map_get-set :
      (entries : List (String × V)) (key other : String) (value : V)
      → map_get (map_set entries key value) other
        ≡ (if key == other then some value else map_get entries other)
  unfolding map_get map_set
  map_get-set [] key other value = ground arith
  map_get-set ((k, v) ∷ entries) key other value =
      ground
        (arith, map_get-set entries key other value, eq_iff k other, eq_iff key other, eq_iff k key)

  pub map_get-delete :
      (doomed : String → Bool) (entries : List (String × V)) (key : String)
      → map_get (map_delete doomed entries) key ≡ (if doomed key then none else map_get entries key)
  unfolding map_get map_delete
  map_get-delete doomed [] key = ground arith
  map_get-delete doomed ((k, v) ∷ entries) key =
      ground (arith, map_get-delete doomed entries key, eq_iff k key)
