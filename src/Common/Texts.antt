-- ===== src/Common/Texts.antt =====
-- Texts joined by separators, as the source builds keys.
use Prim.Native.Nat.{ℕ}
use Prim.Native.Char.{Char, code}
use Prim.Native.String
use Prim.Native.String.{String, [], ◌∷◌}
use mathlib.Core.Path.{◌≡◌, refl, ap, sym, ◌∙◌}
use mathlib.Core.Logic.{◌≢◌}
use text.Mathlib.TextLemmas.{nil-append, cons-append, head-eq_of_cons-eq, tail-eq_of_cons-eq}

-- Concatenation of texts; lists keep `++`.
infixr 66 ◌⧺◌
abbrev pub ◌⧺◌ : String → String → String
s ⧺ t = String.◌++◌ s t

-- The separator `c` does not occur in the text.
abbrev pub Lacks : ℕ → String → Type 0
Lacks n [] = Unit
Lacks n (c ∷ s) = (code c ≢ n) × Lacks n s

-- Two texts before a separator that neither holds are equal if the wholes are.
pub prefix_unique :
    (sep : Char) (a b s t : String)
    → Lacks (code sep) a
    → Lacks (code sep) b
    → a ⧺ (sep ∷ s) ≡ b ⧺ (sep ∷ t)
    → a ≡ b
prefix_unique sep [] [] s t ha hb e = refl
prefix_unique sep [] (d ∷ b) s t ha (hd, hb) e =
    absurd
      (hd (ap code (sym (head-eq_of_cons-eq (sym (nil-append _) ∙ e ∙ cons-append d b (sep ∷ t))))))
prefix_unique sep (c ∷ a) [] s t (hc, ha) hb e =
    absurd (hc (ap code (head-eq_of_cons-eq (sym (cons-append c a (sep ∷ s)) ∙ e ∙ nil-append _))))
prefix_unique sep (c ∷ a) (d ∷ b) s t (hc, ha) (hd, hb) e =
    let e' = sym (cons-append c a (sep ∷ s)) ∙ e ∙ cons-append d b (sep ∷ t) in
    let tails = prefix_unique sep a b s t ha hb (tail-eq_of_cons-eq e') in
    let heads = head-eq_of_cons-eq e' in λ i. heads i ∷ tails i

pub singleton-append : (c : Char) (s : String) → (c ∷ []) ⧺ s ≡ c ∷ s
singleton-append c s = cons-append c [] s ∙ ap (λ t. c ∷ t) (nil-append s)

pub joined_prefix_unique :
    (sep : Char) (a b s t : String)
    → Lacks (code sep) a
    → Lacks (code sep) b
    → a ⧺ (sep ∷ []) ⧺ s ≡ b ⧺ (sep ∷ []) ⧺ t
    → a ≡ b
joined_prefix_unique sep a b s t ha hb e =
    prefix_unique sep a b s t ha hb (
      ap (λ r. a ⧺ r) (sym (singleton-append sep s)) ∙ e ∙ ap (λ r. b ⧺ r) (singleton-append sep t))
