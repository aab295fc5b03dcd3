-- ===== src/Ai/Rules/Deduplication.antt =====
-- Which types the loop over the rules raises, and how often.
use ai_cctv_platform.Common.{
  ℕ, ◌+◌, ◌≡◌, refl, sym, ap, ◌∙◌, Bool, true, false, ◌&&◌, ◌||◌, not, List, [], ◌∷◌, any,
  Bool-cases, inl, inr, arith, if◌then◌else◌, is_yes,
}
use ai_cctv_platform.Ai.Types.{EventType, EventType-discrete, type_eq, has_type}
use ai_cctv_platform.Ai.Zone.{NumberOps}
use ai_cctv_platform.Ai.Schedule.{ScheduleRow, Moment}
use ai_cctv_platform.Ai.Rules.{RawDetection, EvaluatedEvent, ZoneRow, raises, evaluate_rules}
use ai_cctv_platform.Tenancy.World.{AiRule}
use ai_cctv_platform.Tenancy.Rls.{TenantContext}

pub type_eq-eq : (a b : EventType) → type_eq a b ≡ true → a ≡ b
unfolding type_eq
type_eq-eq a b h = decided (EventType-discrete a b) h
  where
    decided : (d : Dec (a ≡ b)) → is_yes d ≡ true → a ≡ b
    decided (yes p) e = p
    decided (no n) e = ground arith

-- How many of the events have the type.
abbrev pub count_of : EventType → List EvaluatedEvent → ℕ
count_of t [] = 0
count_of t (e ∷ es) = (if type_eq e.event_type t then 1 else 0) + count_of t es

count_of-same :
    (t : EventType) (event : EvaluatedEvent) (xs ys : List EvaluatedEvent)
    (b later seen seen' : Bool)
    → type_eq event.event_type t ≡ true
    → seen' ≡ seen
    → count_of t xs ≡ 0
    → count_of t ys ≡ (if later && not seen then 1 else 0)
    → count_of t (if b && not seen' then event ∷ xs else ys)
      ≡ (if (b && true || later) && not seen then 1 else 0)
count_of-same t event xs ys b later seen seen' e s x y = ground arith

abbrev once : Bool → ℕ
once b = if b then 1 else 0

none_left : (later seen c : Bool) → c ≡ true → once (later && not (c || seen)) ≡ 0
none_left later seen c h = ground arith

other_type :
    (b c later seen : Bool)
    → c ≡ false
    → once (later && not seen) ≡ once ((b && c || later) && not seen)
other_type b c later seen h = ground arith

count_of-other :
    (t : EventType) (event : EvaluatedEvent) (xs ys : List EvaluatedEvent) (b : Bool) (n : ℕ)
    → type_eq event.event_type t ≡ false
    → count_of t xs ≡ n
    → count_of t ys ≡ n
    → count_of t (if b then event ∷ xs else ys) ≡ n
count_of-other t event xs ys true n e x y = rw e (omega (arith, x))
count_of-other t event xs ys false n e x y = y

module _ {N : Type 0} (ops : NumberOps N) (ctx : TenantContext) (zones : List (ZoneRow N))
    (schedules : List ScheduleRow) (at_time : Moment) (det : RawDetection N) where
  -- A type is raised once if some rule of that type lets the detection through and it was not seen
  -- before, and never otherwise, however many rules of the type there are.
  pub evaluate_rules_lem :
      (t : EventType) (rs : List AiRule) (seen : List EventType)
      → count_of t (evaluate_rules ops ctx zones schedules at_time det rs seen) ≡ (
          if any (λ r. raises ops ctx zones schedules at_time det r && type_eq r.rule_type t) rs
            && not (has_type seen t)
          then 1
          else 0)
  unfolding evaluate_rules has_type
  evaluate_rules_lem t [] seen = refl
  evaluate_rules_lem t (r ∷ rs) seen = elim (Bool-cases (type_eq r.rule_type t)) [
    | inl e ↦
        count_of-same t _ _ _ (lets r) (later rs) (has_type seen t) (has_type seen r.rule_type) e
          (ap (has_type seen) (type_eq-eq r.rule_type t e))
          (evaluate_rules_lem t rs (r.rule_type ∷ seen)
            ∙ none_left (later rs) (has_type seen t) (type_eq r.rule_type t) e)
          (evaluate_rules_lem t rs seen)
        ∙ ap (λ c. if (lets r && c || later rs) && not (has_type seen t) then 1 else 0) (sym e)
    | inr e ↦
        count_of-other t _ _ _ (lets r && not (has_type seen r.rule_type)) _ e
          (evaluate_rules_lem t rs (r.rule_type ∷ seen)
            ∙ ap (λ c. if later rs && not (c || has_type seen t) then 1 else 0) e)
          (evaluate_rules_lem t rs seen)
        ∙ other_type (lets r) (type_eq r.rule_type t) (later rs) (has_type seen t) e
  ]
    where
      lets : AiRule → Bool
      lets q = raises ops ctx zones schedules at_time det q

      later : List AiRule → Bool
      later qs = any (λ q. lets q && type_eq q.rule_type t) qs
