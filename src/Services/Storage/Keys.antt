-- ===== src/Services/Storage/Keys.antt =====
-- Evidence keys stay inside their organization, and a file name inside its event's folder.
use Prim.Native.Char.{Char, code}
use Prim.Native.String.{[], ◌∷◌}
use mathlib.Core.Path.{subst}
use text.Mathlib.TextLemmas.{append_assoc, append_cancel_left}
use ai_cctv_platform.Common.{
  ℕ, ◌≡◌, ◌≢◌, sym, ap, ◌∙◌, true, false, String, starts_with, starts_with-append, starts_with_iff,
  ◌⧺◌, Lacks, joined_prefix_unique, arith, Bool-cases, inl, inr, if◌then◌else◌,
}
use ai_cctv_platform.Tenancy.Isolation.{key_belongs_to_org}
use ai_cctv_platform.Services.Storage.{is_safe_char, safe_name, build_evidence_key}

is_safe_char-slash : (n : ℕ) → is_safe_char n ≡ true → n ≢ b'/'
unfolding is_safe_char
is_safe_char-slash n h = ground arith

safe_name-Lacks_char : (c : Char) → code (if is_safe_char (code c) then c else "_") ≢ b'/'
safe_name-Lacks_char c = elim (Bool-cases (is_safe_char (code c))) [
  | inl s ↦ rw s (is_safe_char-slash (code c) s)
  | inr n ↦ rw n (omega arith)
]

-- A file name in a key holds no slash, whatever the caller's name held.
pub safe_name-Lacks : (name : String) → Lacks b'/' (safe_name name)
unfolding safe_name
safe_name-Lacks [] = tt
safe_name-Lacks (c ∷ s) = (safe_name-Lacks_char c, safe_name-Lacks s)

split_at : (s t : String) → ("organizations/" ⧺ s) ⧺ t ≡ "organizations/" ⧺ (s ⧺ t)
split_at s t = append_assoc "organizations/" s t

belongs_of_tail :
    (org tail : String)
    → starts_with ("organizations/" ⧺ org ⧺ "/" ⧺ tail) ("organizations/" ⧺ org ⧺ "/") ≡ true
belongs_of_tail org tail =
    subst (λ k. starts_with k ("organizations/" ⧺ org ⧺ "/") ≡ true)
      (split_at (org ⧺ "/") tail ∙ ap (λ t. "organizations/" ⧺ t) (append_assoc org "/" tail))
      (starts_with-append ("organizations/" ⧺ org ⧺ "/") tail)

module _ (org site camera event name : String) where
  -- An evidence key lies under the organization that it was built for.
  pub build_evidence_key-belongs :
      key_belongs_to_org (build_evidence_key org site camera event name) org ≡ true
  unfolding build_evidence_key key_belongs_to_org
  build_evidence_key-belongs = belongs_of_tail org _

  -- Under no other organization's, if the two ids hold no slash.
  pub build_evidence_key-outside :
      (o : String)
      → Lacks b'/' org
      → Lacks b'/' o
      → org ≢ o
      → key_belongs_to_org (build_evidence_key org site camera event name) o ≡ false
  unfolding build_evidence_key key_belongs_to_org
  build_evidence_key-outside o h k apart =
      elim (Bool-cases (key_belongs_to_org (build_evidence_key org site camera event name) o)) [
        | inl own ↦
            let (rest, e) = (starts_with_iff _ _).0 own in
            absurd (
              apart (
                sym (
                  joined_prefix_unique "/" o org rest _ k h (
                    sym (append_assoc o "/" rest)
                    ∙ append_cancel_left "organizations/" _ _
                        (sym (split_at (o ⧺ "/") rest) ∙ e)))))
        | inr outside ↦ outside
      ]
