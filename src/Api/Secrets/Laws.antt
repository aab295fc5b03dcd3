-- ===== src/Api/Secrets/Laws.antt =====
-- What is encrypted can be decrypted, unless it is empty.
use Prim.Native.Char.{Char, code}
use text.Mathlib.TextLemmas.{nil-append, cons-append}
use ai_cctv_platform.Common.{
  ℕ, ◌≡◌, ◌≢◌, refl, ap, ◌∙◌, String, ◌||◌, none, some, ◌==◌, ◌⧺◌, eq_iff, eqb, Lacks, arith,
  singleton-append, pick_else, pick_then, if◌then◌else◌,
}
use ai_cctv_platform.Access.Errors.{other}
use ai_cctv_platform.Access.Directory.{Checked, passes, fails}
use ai_cctv_platform.Tenancy.World.{Runtime}
use ai_cctv_platform.Api.Secrets.{
  credential_key, sealed_text, split_dot, later, opened, decrypted, decrypt_secret,
}

split_dot-cons :
    (c : Char) (s : String)
    → code c ≢ b'.'
    → split_dot (String.◌∷◌ c s) ≡ (String.◌∷◌ c ((split_dot s).0), (split_dot s).1)
unfolding split_dot
split_dot-cons c s h = pick_else (eqb (code c) b'.') _ _ (ground (arith, h))

split_dot-joined : (s t : String) → Lacks b'.' s → split_dot (s ⧺ (String.◌∷◌ "." t)) ≡ (s, some t)
unfolding split_dot
split_dot-joined String.[] t h = ap split_dot (nil-append (String.◌∷◌ "." t))
split_dot-joined (String.◌∷◌ c s) t (h, k) =
    ap split_dot (cons-append c s (String.◌∷◌ "." t))
    ∙ split_dot-cons c (s ⧺ (String.◌∷◌ "." t)) h
    ∙ ap (λ r. (String.◌∷◌ c r.0, r.1)) (split_dot-joined s t k)

split_dot-sep : (s t : String) → Lacks b'.' s → split_dot (s ⧺ "." ⧺ t) ≡ (s, some t)
split_dot-sep s t h = ap (λ u. split_dot (s ⧺ u)) (singleton-append "." t) ∙ split_dot-joined s t h

split_dot-last : (s : String) → Lacks b'.' s → split_dot s ≡ (s, none)
unfolding split_dot
split_dot-last String.[] h = refl
split_dot-last (String.◌∷◌ c s) (h, k) =
    split_dot-cons c s h ∙ ap (λ r. (String.◌∷◌ c r.0, r.1)) (split_dot-last s k)

-- The three parts of a stored text.
parts : String → String × String × String
unfolding split_dot
parts stored =
    let (iv, rest) = split_dot stored in
    let (tag, rest') = later rest in let (ct, more) = later rest' in (iv, tag, ct)

parts-joined :
    (iv tag ct : String)
    → Lacks b'.' iv
    → Lacks b'.' tag
    → Lacks b'.' ct
    → parts (iv ⧺ "." ⧺ tag ⧺ "." ⧺ ct) ≡ (iv, tag, ct)
unfolding parts
parts-joined iv tag ct hi ht hc =
    ap (λ r. (r.0, (later r.1).0, (later (later r.1).1).0)) (split_dot-sep iv (tag ⧺ "." ⧺ ct) hi)
    ∙ ap (λ r. (iv, r.0, (later r.1).0)) (split_dot-sep tag ct ht)
    ∙ ap (λ r. (iv, tag, r.0)) (split_dot-last ct hc)

module _ (rt : Runtime) where
  -- What is decided on the parts.
  checked : String × String × String → Checked String
  unfolding credential_key
  checked (iv, tag, ct) =
      if iv == "" || tag == "" || ct == ""
      then fails (other "Malformed encrypted secret")
      else decrypted rt (credential_key rt) iv tag ct

  decrypt_secret-parts : (stored : String) → decrypt_secret rt stored ≡ checked (parts stored)
  unfolding decrypt_secret checked parts
  decrypt_secret-parts stored = refl

  -- A secret that was encrypted under a key of 32 bytes is decrypted as it was, where the cipher
  -- opens what it sealed and its parts are neither empty nor hold a dot.
  pub decrypt_secret-encrypt :
      (draw : ℕ) (text : String)
      → rt.key_length ≡ 32
      → rt.unseal (rt.iv64 draw) ((rt.seal (rt.iv64 draw) text).0) ((rt.seal (rt.iv64 draw) text).1)
        ≡ some text
      → Lacks b'.' (rt.iv64 draw)
      → Lacks b'.' ((rt.seal (rt.iv64 draw) text).0)
      → Lacks b'.' ((rt.seal (rt.iv64 draw) text).1)
      → rt.iv64 draw ≢ ""
      → (rt.seal (rt.iv64 draw) text).0 ≢ ""
      → (rt.seal (rt.iv64 draw) text).1 ≢ ""
      → decrypt_secret rt (sealed_text rt draw text) ≡ passes text
  unfolding checked credential_key
  decrypt_secret-encrypt draw text key opens hi ht hc ni nt nc =
      let iv = rt.iv64 draw in
      let (tag, ct) = rt.seal iv text in
      decrypt_secret-parts (sealed_text rt draw text)
      ∙ ap checked (parts-joined iv tag ct hi ht hc)
      ∙ pick_else (iv == "" || tag == "" || ct == "") _ _
          (ground (arith, ni, nt, nc, eq_iff iv "", eq_iff tag "", eq_iff ct ""))
      ∙ ap (λ k. decrypted rt k iv tag ct)
          (pick_then (eqb rt.key_length 32) _ _ (ground (arith, key)))
      ∙ ap opened opens

  -- Where the cipher seals a text as an empty one, as AES-GCM does the empty text, what was stored
  -- is never decrypted: it counts as malformed.
  pub decrypt_secret-empty :
      (draw : ℕ) (text : String)
      → Lacks b'.' (rt.iv64 draw)
      → Lacks b'.' ((rt.seal (rt.iv64 draw) text).0)
      → (rt.seal (rt.iv64 draw) text).1 ≡ ""
      → decrypt_secret rt (sealed_text rt draw text) ≡ fails (other "Malformed encrypted secret")
  unfolding checked
  decrypt_secret-empty draw text hi ht empty =
      let iv = rt.iv64 draw in
      let tag = (rt.seal iv text).0 in
      decrypt_secret-parts (sealed_text rt draw text)
      ∙ ap (λ c. checked (parts (iv ⧺ "." ⧺ tag ⧺ "." ⧺ c))) empty
      ∙ ap checked (parts-joined iv tag "" hi ht tt)
      ∙ pick_then (iv == "" || tag == "" || ("" == "")) _ _ (ground arith)
