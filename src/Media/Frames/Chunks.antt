-- ===== src/Media/Frames/Chunks.antt =====
-- However FFmpeg's output is split into chunks, the same frames are cut from it.
use mathlib.Core.List.{append-nil, append_assoc}
use mathlib.Core.Option.{some-injective, none-ne-some}
use mathlib.Core.Path.{subst}
use ai_cctv_platform.Common.{
  ℕ, zero, suc, ◌≤◌, ◌<◌, ◌≡◌, refl, sym, ap, ◌∙◌, false, Option, some, none, List, [], ◌∷◌, ◌++◌,
  ltb, length, arith, if◌then◌else◌,
}
use ai_cctv_platform.Media.Frames.{
  Bytes, break_at, soi, eoi, frame_of, on_end, on_start, extract, cut_frames,
}
use ai_cctv_platform.Media.Frames.Markers.{break_at-append, length-break_at}

-- What a buffer is cut into: the frames from each start to the next end, and the bytes left, which
-- are all of them where there is no start, and those from an unfinished frame's start on.
pub data Cuts : Bytes → List Bytes → Bytes → Type 0 where
  no_start : {xs : Bytes} → break_at soi xs ≡ none → Cuts xs [] xs
  no_end :
      {xs junk rest : Bytes}
      → break_at soi xs ≡ some (junk, rest)
      → break_at eoi rest ≡ none
      → Cuts xs [] (255 ∷ soi ∷ rest)
  whole :
      {xs junk rest body after left : Bytes} {frames : List Bytes}
      → break_at soi xs ≡ some (junk, rest)
      → break_at eoi rest ≡ some (body, after)
      → Cuts after frames left
      → Cuts xs (frame_of body ∷ frames) left

within : (limit n : ℕ) → n ≤ limit → ltb limit n ≡ false
within limit n h = ground arith

-- A round's result is right if the next round's is.
module _ (limit : ℕ) (more : Bytes → List Bytes × Bytes) (xs : Bytes)
    (next : (ys : Bytes) → length ys < length xs → Cuts ys (more ys).0 (more ys).1) where
  on_end-Cuts :
      (junk rest : Bytes) (o : Option (Bytes × Bytes))
      → break_at soi xs ≡ some (junk, rest)
      → break_at eoi rest ≡ o
      → Cuts xs (on_end more rest o).0 (on_end more rest o).1
  on_end-Cuts junk rest none e f = no_end e f
  on_end-Cuts junk rest (some (body, after)) e f = whole e f (
      next after
        (omega (arith, length-break_at soi xs junk rest e, length-break_at eoi rest body after f)))

  on_start-Cuts :
      (o : Option (Bytes × Bytes))
      → length xs ≤ limit
      → break_at soi xs ≡ o
      → Cuts xs (on_start limit more xs o).0 (on_start limit more xs o).1
  on_start-Cuts none k e =
      subst (λ left. Cuts xs [] left)
        (ap (λ b. if b then [] else xs) (sym (within limit (length xs) k))) (no_start e)
  on_start-Cuts (some (junk, rest)) k e = on_end-Cuts junk rest (break_at eoi rest) e refl

-- With a round for every byte, and no more bytes than the guard lets stand, the loop ends with the
-- buffer cut.
pub extract-Cuts :
    (limit fuel : ℕ) (xs : Bytes)
    → length xs < fuel
    → length xs ≤ limit
    → Cuts xs (extract limit fuel xs).0 (extract limit fuel xs).1
unfolding extract
extract-Cuts limit zero xs h k = elim h [ ]
extract-Cuts limit (suc fuel) xs h k =
    on_start-Cuts limit (extract limit fuel) xs
      (λ ys small. extract-Cuts limit fuel ys (omega arith) (omega arith)) (break_at soi xs) k refl

cut_frames-Cuts :
    (limit : ℕ) (buffer chunk : Bytes)
    → length (buffer ++ chunk) ≤ limit
    → Cuts (buffer ++ chunk) (cut_frames limit buffer chunk).0 (cut_frames limit buffer chunk).1
unfolding cut_frames
cut_frames-Cuts limit buffer chunk k =
    extract-Cuts limit (suc (length (buffer ++ chunk))) (buffer ++ chunk) (omega arith) k

-- Cutting has one result.
same_pair : {o : Option (Bytes × Bytes)} {p q : Bytes × Bytes} → o ≡ some p → o ≡ some q → p ≡ q
same_pair {p = p} {q = q} e f = some-injective p q (sym e ∙ f)

Cuts-unique :
    {xs left left' : Bytes} {frames frames' : List Bytes}
    → Cuts xs frames left
    → Cuts xs frames' left'
    → (frames ≡ frames') × (left ≡ left')
Cuts-unique (no_start e) (no_start f) = (refl, refl)
Cuts-unique (no_start e) (no_end f g) = absurd (none-ne-some _ (sym e ∙ f))
Cuts-unique (no_start e) (whole f g c) = absurd (none-ne-some _ (sym e ∙ f))
Cuts-unique (no_end e f) (no_start g) = absurd (none-ne-some _ (sym g ∙ e))
Cuts-unique (no_end e f) (no_end g h) =
    (refl, ap (λ (p : Bytes × Bytes). 255 ∷ soi ∷ p.1) (same_pair e g))
Cuts-unique (no_end e f) (whole g h c) =
    absurd
      (none-ne-some _ (sym f ∙ ap (λ (p : Bytes × Bytes). break_at eoi p.1) (same_pair e g) ∙ h))
Cuts-unique (whole g h c) (no_start e) = absurd (none-ne-some _ (sym e ∙ g))
Cuts-unique (whole g h c) (no_end e f) =
    absurd
      (none-ne-some _ (sym f ∙ ap (λ (p : Bytes × Bytes). break_at eoi p.1) (same_pair e g) ∙ h))
Cuts-unique (whole e f c) (whole {left = m} {frames = gs} g h d) =
    let inner = same_pair (f) (ap (λ (p : Bytes × Bytes). break_at eoi p.1) (same_pair e g) ∙ h) in
    let (same, ends) =
      Cuts-unique c (subst (λ a. Cuts a gs m) (sym (ap (λ (p : Bytes × Bytes). p.1) inner)) d) in
    (λ i. frame_of (inner i).0 ∷ same i, ends)

-- Only the bytes after the start matter.
restart :
    {xs zs left junk junk' rest : Bytes} {frames : List Bytes}
    → Cuts zs frames left
    → break_at soi zs ≡ some (junk, rest)
    → break_at soi xs ≡ some (junk', rest)
    → Cuts xs frames left
restart (no_start e) f g = absurd (none-ne-some _ (sym e ∙ f))
restart {junk' = j} (no_end e h) f g =
    no_end (g ∙ ap (λ (p : Bytes × Bytes). some (j, p.1)) (same_pair f e)) h
restart {junk' = j} (whole e h c) f g =
    whole (g ∙ ap (λ (p : Bytes × Bytes). some (j, p.1)) (same_pair f e)) h c

pub break_at-here : (rest : Bytes) → break_at soi (255 ∷ soi ∷ rest) ≡ some ([], rest)
unfolding break_at
break_at-here rest = refl

-- Cutting what is left of one buffer with more bytes after it cuts the whole.
pub Cuts-append :
    {xs left end_left : Bytes} {frames later : List Bytes} (ys : Bytes)
    → Cuts xs frames left
    → Cuts (left ++ ys) later end_left
    → Cuts (xs ++ ys) (frames ++ later) end_left
Cuts-append ys (no_start e) d = d
Cuts-append {xs = xs} ys (no_end {junk = junk} {rest = rest} e f) d =
    restart d (break_at-here (rest ++ ys)) (break_at-append soi xs ys junk rest e)
Cuts-append {xs = xs} ys (whole {junk = junk} {rest = rest} {body = body} {after = after} e f c) d =
    whole (break_at-append soi xs ys junk rest e) (break_at-append eoi rest ys body after f)
      (Cuts-append ys c d)

-- `onData` on each of a list of chunks: the frames of all, and the buffer left.
unfoldable pub feed : ℕ → Bytes → List Bytes → List Bytes × Bytes
unfolding cut_frames
feed limit buffer [] = ([], buffer)
feed limit buffer (c ∷ cs) =
    let (frames, left) = cut_frames limit buffer c in
    let (later, end_left) = feed limit left cs in (frames ++ later, end_left)

-- No chunk finds more bytes waiting than the guard lets stand with it.
abbrev pub Fits : ℕ → Bytes → List Bytes → Type 0
Fits limit buffer [] = Unit
Fits limit buffer (c ∷ cs) =
    (length (buffer ++ c) ≤ limit) × Fits limit (cut_frames limit buffer c).1 cs

abbrev pub concat : List Bytes → Bytes
concat [] = []
concat (c ∷ cs) = c ++ concat cs

settled : {xs left : Bytes} {frames : List Bytes} → Cuts xs frames left → Cuts left [] left
settled (no_start e) = no_start e
settled (no_end {rest = rest} e f) = no_end (break_at-here rest) f
settled (whole e f c) = settled c

feed-Cuts :
    (limit : ℕ) (buffer : Bytes) (cs : List Bytes)
    → Cuts buffer [] buffer
    → Fits limit buffer cs
    → Cuts (buffer ++ concat cs) (feed limit buffer cs).0 (feed limit buffer cs).1
unfolding feed
feed-Cuts limit buffer [] c k = subst (λ xs. Cuts xs [] buffer) (sym (append-nil buffer)) c
feed-Cuts limit buffer (x ∷ cs) c (k, ks) =
    let first = cut_frames-Cuts limit buffer x k in
    subst (λ xs. Cuts xs (feed limit buffer (x ∷ cs)).0 (feed limit buffer (x ∷ cs)).1)
      (append_assoc buffer x (concat cs))
      (Cuts-append (concat cs) first
        (feed-Cuts limit (cut_frames limit buffer x).1 cs (settled first) ks))

cuts_nothing : Cuts [] [] []
unfolding break_at
cuts_nothing = no_start refl

-- `onData` on the chunks of a stream, from an empty buffer, cuts exactly the frames of the whole
-- stream and keeps what the whole stream leaves, if no chunk overfills the buffer.
pub feed_refines :
    (limit : ℕ) (cs : List Bytes)
    → Fits limit [] cs
    → Cuts (concat cs) (feed limit [] cs).0 (feed limit [] cs).1
feed_refines limit cs k = feed-Cuts limit [] cs cuts_nothing k

-- Two splittings of the same stream into chunks, neither of which overfills the buffer, give the
-- same frames and leave the same bytes.
pub feed_chunking :
    (limit : ℕ) (cs ds : List Bytes)
    → concat cs ≡ concat ds
    → Fits limit [] cs
    → Fits limit [] ds
    → ((feed limit [] cs).0 ≡ (feed limit [] ds).0) × ((feed limit [] cs).1 ≡ (feed limit [] ds).1)
feed_chunking limit cs ds e k h = Cuts-unique (feed_refines limit cs k) (
    subst (λ xs. Cuts xs (feed limit [] ds).0 (feed limit [] ds).1) (sym e)
      (feed_refines limit ds h))
