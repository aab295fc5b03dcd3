-- ===== src/Api/Secrets.antt =====
-- server/src/lib/crypto.ts: the encryption of camera credentials. The cipher is Node's.
pub mod Laws
mod Examples
use Prim.Native.Char.{Char, code}
use Prim.Native.String
use ai_cctv_platform.Common.{
  ℕ, ◌+◌, ◌≡◌, ◌≢◌, refl, sym, ap, ◌∙◌, String, Bool, true, false, ◌||◌, not, Option, none, some,
  ◌==◌, ◌⧺◌, eq_iff, eqb, Lacks, arith, singleton-append, if◌then◌else◌,
}
use ai_cctv_platform.Access.Errors.{other}
use ai_cctv_platform.Access.Directory.{Checked, passes, fails}
use ai_cctv_platform.Tenancy.World.{World, Runtime}
use ai_cctv_platform.Tenancy.Rls.{Handler, ok, err}

-- `credentialKey`: the configured key has 32 bytes, or nothing is encrypted.
unfoldable pub credential_key : Runtime → Checked (Unit {0})
credential_key rt =
    if eqb rt.key_length 32
    then passes tt
    else fails
        (other "CREDENTIAL_ENCRYPTION_KEY must be 64 hex characters (32 bytes) for AES-256-GCM")

abbrev pub sealed_text : Runtime → ℕ → String → String
sealed_text rt draw text =
    let iv = rt.iv64 draw in let (tag, ct) = rt.seal iv text in iv ⧺ "." ⧺ tag ⧺ "." ⧺ ct

abbrev pub encrypted : Runtime → Checked (Unit {0}) → String → Handler String
encrypted rt (fails e) text w = err e w
encrypted rt (passes _) text w =
    ok (sealed_text rt w.issued text) (record w { issued = w.issued + 1 })

-- `encryptSecret`, whose initialization vector is a new random draw.
unfoldable pub encrypt_secret : Runtime → String → Handler String
unfolding credential_key
encrypt_secret rt text w = encrypted rt (credential_key rt) text w

-- What stands before the first dot, and after it if there is one.
unfoldable pub split_dot : String → String × Option String
split_dot String.[] = ("", none)
split_dot (String.◌∷◌ c s) =
    let rest = split_dot s in
    if eqb (code c) b'.' then ("", some s) else (String.◌∷◌ c rest.0, rest.1)

abbrev pub later : Option String → String × Option String
later none = ("", none)
later (some s) = split_dot s

abbrev pub opened : Option String → Checked String
opened none = fails (other "Unsupported state or unable to authenticate data")
opened (some text) = passes text

abbrev pub decrypted : Runtime → Checked (Unit {0}) → String → String → String → Checked String
decrypted rt (fails e) iv tag ct = fails e
decrypted rt (passes _) iv tag ct = opened (rt.unseal iv tag ct)

-- `decryptSecret`: the first three parts of the stored text, none of them empty.
unfoldable pub decrypt_secret : Runtime → String → Checked String
unfolding credential_key split_dot
decrypt_secret rt stored =
    let (iv, rest) = split_dot stored in
    let (tag, rest') = later rest in
    let (ct, more) = later rest' in
    if iv == "" || tag == "" || ct == ""
    then fails (other "Malformed encrypted secret")
    else decrypted rt (credential_key rt) iv tag ct
