-- ===== src/Media/Frames/Markers.antt =====
-- Where a marker stands, and what more bytes change.
use ai_cctv_platform.Common.{
  ℕ, ◌+◌, ◌≡◌, refl, ◌&&◌, Option, some, none, [], ◌∷◌, ◌++◌, eqb, length, arith, if◌then◌else◌,
}
use ai_cctv_platform.Media.Frames.{Bytes, with_first, break_at}

-- A marker that is found is found at the same place before more bytes.
pub break_at-append :
    (marker : ℕ) (xs ys before after : Bytes)
    → break_at marker xs ≡ some (before, after)
    → break_at marker (xs ++ ys) ≡ some (before, after ++ ys)
unfolding break_at
break_at-append marker [] ys before after h = ground (arith, h)
break_at-append marker (x ∷ []) ys before after h = ground (arith, h)
break_at-append marker (x ∷ y ∷ xs) ys before after h =
    found (break_at marker (y ∷ xs)) (break_at-append marker (y ∷ xs) ys) h
  where
    found :
        (o : Option (Bytes × Bytes))
        → ((b a : Bytes) → o ≡ some (b, a) → break_at marker (y ∷ xs ++ ys) ≡ some (b, a ++ ys))
        → (if eqb x 255 && eqb y marker then some ([], xs) else with_first x o)
          ≡ some (before, after)
        → (if eqb x 255 && eqb y marker
            then some ([], xs ++ ys)
            else with_first x (break_at marker (y ∷ xs ++ ys)))
          ≡ some (before, after ++ ys)
    found none ih e = ground (arith, e)
    found (some (b, a)) ih e = ground (arith, e, ih b a refl)

-- The bytes around a marker are those of the buffer, less the two of the marker.
pub length-break_at :
    (marker : ℕ) (xs before after : Bytes)
    → break_at marker xs ≡ some (before, after)
    → length before + 2 + length after ≡ length xs
unfolding break_at
length-break_at marker [] before after h = ground (arith, h)
length-break_at marker (x ∷ []) before after h = ground (arith, h)
length-break_at marker (x ∷ y ∷ xs) before after h =
    around (break_at marker (y ∷ xs)) (length-break_at marker (y ∷ xs)) h
  where
    around :
        (o : Option (Bytes × Bytes))
        → ((b a : Bytes) → o ≡ some (b, a) → length b + 2 + length a ≡ length (y ∷ xs))
        → (if eqb x 255 && eqb y marker then some ([], xs) else with_first x o)
          ≡ some (before, after)
        → length before + 2 + length after ≡ length (x ∷ y ∷ xs)
    around none ih e = ground (arith, e)
    around (some (b, a)) ih e = ground (arith, e, ih b a refl)
