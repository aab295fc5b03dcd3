-- ===== src/Services/Storage.antt =====
-- server/src/services/storage.service.ts: the keys of evidence objects.
pub mod Keys
mod Examples
use Prim.Native.Char.{Char, code}
use Prim.Native.String.{[], ◌∷◌}
use ai_cctv_platform.Common.{ℕ, Bool, ◌&&◌, ◌||◌, String, leb, eqb, if◌then◌else◌, ◌⧺◌}

-- The class `[a-zA-Z0-9._-]`.
unfoldable pub is_safe_char : ℕ → Bool
is_safe_char c =
    leb b'a' c && leb c b'z'
    || leb b'A' c && leb c b'Z'
    || leb b'0' c && leb c b'9'
    || eqb c b'.'
    || eqb c b'_'
    || eqb c b'-'

-- `filename.replace(/[^a-zA-Z0-9._-]/g, '_')`.
unfoldable pub safe_name : String → String
unfolding is_safe_char
safe_name [] = ""
safe_name (c ∷ s) = (if is_safe_char (code c) then c else "_") ∷ safe_name s

unfoldable pub build_evidence_key : String → String → String → String → String → String
unfolding safe_name
build_evidence_key organization_id site_id camera_id event_id filename =
    "organizations/"
    ⧺ organization_id
    ⧺ "/"
    ⧺ "sites/"
    ⧺ site_id
    ⧺ "/cameras/"
    ⧺ camera_id
    ⧺ "/events/"
    ⧺ event_id
    ⧺ "/"
    ⧺ safe_name filename
