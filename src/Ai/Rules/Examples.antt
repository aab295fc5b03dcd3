-- ===== src/Ai/Rules/Examples.antt =====
-- Tests of the rules, and the theorem on the loop at a concrete input. The numbers are naturals.
use ai_cctv_platform.Common.{
  ℕ, ◌+◌, ◌-◌, ◌*◌, ◌/◌, ◌≡◌, refl, true, ◌&&◌, not, none, List, [], ◌∷◌, any, min, max, ltb, leb,
  if◌then◌else◌,
}
use ai_cctv_platform.Ai.Types.{
  EventType, unauthorized_entry, after_hours_activity, high, has_type, type_eq,
}
use ai_cctv_platform.Ai.Zone.{NumberOps}
use ai_cctv_platform.Ai.Schedule.{Moment}
use ai_cctv_platform.Ai.Rules.{RawDetection, person, raises, evaluate_rules}
use ai_cctv_platform.Ai.Rules.Deduplication.{count_of, evaluate_rules_lem}
use ai_cctv_platform.Tenancy.World.{AiRule}
use ai_cctv_platform.Tenancy.Fixtures.{tenant_a}

abbrev pub naturals : NumberOps ℕ
naturals = record {
  zero_n = 0;
  one_n = 1;
  add = λ a b. a + b;
  sub = λ a b. a - b;
  mul = λ a b. a * b;
  div = λ a b. a / b;
  half = λ a. a / 2;
  min_n = min;
  max_n = max;
  three_tenths = 1;  -- rounded up
  lt = ltb;
  le = leb;
}

abbrev rule_of : EventType → AiRule
rule_of t = record {
  id = "r1";
  organization_id = "a";
  camera_id = "c1";
  zone_id = none;
  rule_type = t;
  enabled = true;
  min_confidence = 500;
  min_dwell_ms = none;
  cooldown_seconds = 30;
  min_duration_ms = 0;
  severity = high;
  updated_at = 1;
}

abbrev seen_person : RawDetection ℕ
seen_person = record {
  raw_class = person;
  confidence = 900;
  bbox = record { x = 1; y = 1; w = 2; h = 2 };
  dwell_ms = none;
}

abbrev noon : Moment
noon = record { weekday = 1; minutes = 720 }

abbrev rules : List AiRule
rules = rule_of unauthorized_entry ∷ rule_of after_hours_activity ∷ rule_of unauthorized_entry ∷ []

entered_once :
    count_of unauthorized_entry (evaluate_rules naturals tenant_a [] [] noon seen_person rules [])
    ≡ 1
unfolding evaluate_rules
entered_once = refl

evaluate_rules_lem_example :
    count_of unauthorized_entry (evaluate_rules naturals tenant_a [] [] noon seen_person rules [])
    ≡ (if any
            (λ r.
              raises naturals tenant_a [] [] noon seen_person r
              && type_eq r.rule_type unauthorized_entry)
            rules
          && not (has_type [] unauthorized_entry)
        then 1
        else 0)
evaluate_rules_lem_example =
    evaluate_rules_lem naturals tenant_a [] [] noon seen_person unauthorized_entry rules []
