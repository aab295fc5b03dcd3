-- ===== src/Services/Cache/Examples.antt =====
-- Tests of the cache, and its theorems at concrete inputs.
use ai_cctv_platform.Common.{
  ℕ, ◌≡◌, ◌≢◌, refl, sym, String, List, some, none, [], ◌∷◌, eq_iff, eq_refl, ◌==◌, false, arith,
}
use ai_cctv_platform.Access.Directory.{passes}
use ai_cctv_platform.Services.Cache.{Store, cache_get}
use ai_cctv_platform.Services.Cache.Laws.{AreApart}
use ai_cctv_platform.Services.Cache.Private.{
  CacheCall, get, put, drop, answers, private_answers, entries_of,
}
use ai_cctv_platform.Services.Cache.Refinement.{answers-private}

abbrev org_a : String
org_a = "a"

abbrev org_b : String
org_b = "b"

abbrev empty_text : String
empty_text = ""

different : org_a ≢ org_b
different = ground (arith, eq_iff org_a org_b)

filled : org_a ≢ empty_text
filled = ground (arith, eq_iff org_a empty_text)

are_apart : AreApart org_a org_b
are_apart = record {
  different = different;
  plain = (ground arith, tt);
  plain_other = (ground arith, tt);
}

abbrev kept : Store ℕ
kept = ("tenant:b:stats", record { value = 7; expires_at = 5000 }) ∷ []

expired : (cache_get 5001 "b" "stats" kept).0 ≡ passes none
unfolding cache_get
expired = refl

-- Organization b empties its namespace between a write and a read of a's.
abbrev calls : List (CacheCall ℕ)
calls =
    put 1000 org_a "stats" 9 30
    ∷ put 1000 org_b "stats" 8 30
    ∷ drop org_b none
    ∷ get 2000 org_b "stats"
    ∷ get 2000 org_a "stats"
    ∷ []

mirrored : answers org_a calls kept ≡ passes none ∷ passes (some 9) ∷ []
unfolding answers cache_get
mirrored = refl

apart_from_a : AreApart org_b org_a
apart_from_a = record {
  different = λ e. different (sym e);
  plain = (ground arith, tt);
  plain_other = (ground arith, tt);
}

own_calls : {A : Type 0} → (org_a == org_a) ≡ false → A
own_calls h = ground (arith, eq_refl org_a, h)

answers-private_example :
    answers org_a calls kept ≡ private_answers org_a calls (entries_of org_a kept)
answers-private_example =
    answers-private org_a calls kept (entries_of org_a kept) filled
      (
        own_calls,
        ((λ _. apart_from_a), ((λ _. apart_from_a), ((λ _. apart_from_a), (own_calls, tt)))),
      )
      (λ n. refl)
