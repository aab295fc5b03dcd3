-- ===== src/Media/Frames/Growth.antt =====
-- What the guard against growth does not bound.
use mathlib.Core.List.{append-nil, append_assoc}
use mathlib.Core.Option.{none-ne-some}
use ai_cctv_platform.Common.{
  Option-cases, inl, inr, ℕ, ◌≡◌, sym, ap, ◌∙◌, Option, none, List, [], ◌∷◌, ◌++◌, length,
}
use ai_cctv_platform.Media.Frames.{Bytes, break_at, soi, eoi, on_end, extract, cut_frames}
use ai_cctv_platform.Media.Frames.Markers.{break_at-append}
use ai_cctv_platform.Media.Frames.Chunks.{feed, concat}

still_none : (xs ys : Bytes) → break_at eoi (xs ++ ys) ≡ none → break_at eoi xs ≡ none
still_none xs ys e = elim (Option-cases (break_at eoi xs)) [
  | inl f ↦ f
  | inr ((before, after), f) ↦
      absurd (none-ne-some _ (sym e ∙ break_at-append eoi xs ys before after f))
]

-- The bytes of a frame that has begun are all kept while no end comes, whatever the guard's limit:
-- each chunk adds its whole length to the buffer.
pub feed_unbounded :
    (limit : ℕ) (rest : Bytes) (cs : List Bytes)
    → break_at eoi (rest ++ concat cs) ≡ none
    → feed limit (255 ∷ soi ∷ rest) cs ≡ ([], 255 ∷ soi ∷ (rest ++ concat cs))
unfolding feed cut_frames extract
feed_unbounded limit rest [] e = ap (λ xs. ([], 255 ∷ soi ∷ xs)) (sym (append-nil rest))
feed_unbounded limit rest (c ∷ cs) e =
    let e' = ap (break_at eoi) (append_assoc rest c (concat cs)) ∙ e in
    ap after_round (still_none (rest ++ c) (concat cs) e')
    ∙ feed_unbounded limit (rest ++ c) cs e'
    ∙ ap (λ xs. ([], 255 ∷ soi ∷ xs)) (append_assoc rest c (concat cs))
  where
    after_round : Option (Bytes × Bytes) → List Bytes × Bytes
    after_round o =
        let r = on_end (extract limit (length (255 ∷ soi ∷ rest ++ c))) (rest ++ c) o in
        let (later, left) = feed limit r.1 cs in (r.0 ++ later, left)
