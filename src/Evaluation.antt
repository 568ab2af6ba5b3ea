-- ===== src/Evaluation.antt =====
-- `evaluate_business_objective` (backend/services/business_evaluator.py). A Python float is a value
-- of an arbitrary type with the tests and the roundings that the code applies to it.
pub mod Verdict
mod Samples
use manage_deploy.Common.{
  Bool, List, Option, false, if◌then◌else◌, none, not, some, true, ℕ, ◌&&◌, ◌==◌,
}

-- The operations on floats that the evaluation uses.
pub record Numbers (F : Type 0) : Type 0 where
  pub is_at_most : F → F → Bool
  pub is_positive : F → Bool
  pub is_zero : F → Bool
  pub times_retention : F → F
  pub over_retention : F → F
  pub times_video_multiplier : F → F
  pub error_ratio : F → F → F

pub data TaskType : Type 0 where
  low_latency_video_pipeline metaverse_video_fusion : TaskType
  other_task : ℕ → TaskType

pub data MetricKey : Type 0 where
  frame_latency_p90_ms : MetricKey
  other_metric : ℕ → MetricKey

pub data Operator : Type 0 where
  at_most at_least : Operator
  unsupported : ℕ → Operator

pub record BusinessObjective (F : Type 0) : Type 0 where
  pub metric_key : MetricKey
  pub operator : Operator
  pub target_value : Option F
  pub unit : Option ℕ

-- The texts, one constructor for each f-string.
pub data FailureReason (F : Type 0) : Type 0 where
  key_mismatch : MetricKey → MetricKey → FailureReason F
  unsupported_operator : Operator → FailureReason F
  no_baseline : FailureReason F
  below above : F → F → Option F → FailureReason F

pub record Evaluation (F : Type 0) : Type 0 where
  pub task_type : Option TaskType
  pub metric_key : MetricKey
  pub actual_value : F
  pub target_value : Option F
  pub operator : Operator
  pub unit : Option ℕ
  pub business_success : Option Bool
  pub failure_reason : Option (FailureReason F)
  pub estimated_value : Option F
  pub estimation_error_ratio : Option F
  pub object_uris : List ℕ

-- `a == b` on metric keys
abbrev pub same_key : MetricKey → MetricKey → Bool
same_key frame_latency_p90_ms frame_latency_p90_ms = true
same_key frame_latency_p90_ms (other_metric b) = false
same_key (other_metric a) frame_latency_p90_ms = false
same_key (other_metric a) (other_metric b) = a == b

abbrev pub is_supported : Operator → Bool
is_supported at_most = true
is_supported at_least = true
is_supported (unsupported o) = false

abbrev pub is_video : Option TaskType → Bool
is_video none = false
is_video (some low_latency_video_pipeline) = true
is_video (some metaverse_video_fusion) = true
is_video (some (other_task t)) = false

unfoldable pub uses_video_latency_multiplier : Option TaskType → MetricKey → Bool
uses_video_latency_multiplier t k = is_video t && same_key k frame_latency_p90_ms

module _ {F : Type 0} (num : Numbers F) where
  unfoldable pub error_ratio_of : Option F → F → Option F
  error_ratio_of none actual = none
  error_ratio_of (some e) actual = if num.is_zero e then none else some (num.error_ratio e actual)

  -- `value is not None and value > 0`
  abbrev pub is_given : Option F → Bool
  is_given none = false
  is_given (some v) = num.is_positive v

  abbrev pub baseline_target : Operator → Option TaskType → MetricKey → F → F
  baseline_target o t k b = elim o [
    | at_least ↦ num.times_retention b
    | _ ↦
        if uses_video_latency_multiplier t k
        then num.times_video_multiplier b
        else num.over_retention b
  ]

  -- The target that the actual value is held to, if there is one.
  unfoldable pub effective_target :
      BusinessObjective F → Option TaskType → MetricKey → Option F → Option F
  effective_target o t k none = if is_given o.target_value then o.target_value else none
  effective_target o t k (some b) =
      if num.is_positive b
      then some (baseline_target o.operator t k b)
      else if is_given o.target_value
      then o.target_value
      else none

  abbrev pub meets_target : Operator → F → F → Bool
  meets_target o actual target = elim o [
    | at_least ↦ num.is_at_most target actual
    | _ ↦ num.is_at_most actual target
  ]

  abbrev pub shortfall : Operator → F → F → Option F → FailureReason F
  shortfall o actual target baseline = elim o [
    | at_least ↦ below actual target baseline
    | _ ↦ above actual target baseline
  ]

  module _ (o : BusinessObjective F) (key : MetricKey) (actual : F) (uris : List ℕ)
      (t : Option TaskType) (estimated : Option F) (baseline : Option F) where
    -- Every branch fills the same fields with the same values.
    abbrev pub result_with : Option F → Option Bool → Option (FailureReason F) → Evaluation F
    result_with target success reason = record {
      task_type = t;
      metric_key = key;
      actual_value = actual;
      target_value = target;
      operator = o.operator;
      unit = o.unit;
      business_success = success;
      failure_reason = reason;
      estimated_value = estimated;
      estimation_error_ratio = error_ratio_of estimated actual;
      object_uris = uris;
    }

    unfoldable pub judge : Option F → Evaluation F
    judge none = result_with none none (some no_baseline)
    judge (some target) =
        if meets_target o.operator actual target
        then result_with (some target) (some true) none
        else result_with (some target) (some false)
            (some (shortfall o.operator actual target baseline))

    unfoldable pub evaluate_business_objective : Evaluation F
    unfolding judge effective_target
    evaluate_business_objective =
        if not (same_key key o.metric_key)
        then result_with o.target_value (some false) (some (key_mismatch o.metric_key key))
        else if not (is_supported o.operator)
        then result_with o.target_value (some false) (some (unsupported_operator o.operator))
        else judge (effective_target o t key baseline)
