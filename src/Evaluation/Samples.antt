-- ===== src/Evaluation/Samples.antt =====
-- Objectives (backend/services/business_evaluator.py) on whole numbers in place of floats.
use manage_deploy.Common.{
  [], arith, leb, ltb, none, not, refl, some, true, ℕ, ◌&&◌, ◌*◌, ◌-◌, ◌/◌, ◌==◌, ◌≡◌,
}
use manage_deploy.Evaluation.{
  BusinessObjective, Numbers, at_most, effective_target, evaluate_business_objective,
  frame_latency_p90_ms, low_latency_video_pipeline, same_key, uses_video_latency_multiplier,
}
use manage_deploy.Evaluation.Verdict.{
  evaluate-improves, evaluate-verdict, has_reason, is_success, meets,
}

abbrev whole : Numbers ℕ
whole = record {
  is_at_most = leb;
  is_positive = λ n. ltb 0 n;
  is_zero = λ n. n == 0;
  times_retention = λ n. n * 8 / 10;
  over_retention = λ n. n * 10 / 8;
  times_video_multiplier = λ n. n * 3 / 2;
  error_ratio = λ e a. (a - e) / e;
}

abbrev latency : BusinessObjective ℕ
latency = record {
  metric_key = frame_latency_p90_ms;
  operator = at_most;
  target_value = some 50;
  unit = none;
}

-- The baseline of 100 allows a latency of 150, whatever the objective's own target says.
latency_target :
    effective_target whole latency (some low_latency_video_pipeline) frame_latency_p90_ms (some 100)
    ≡ some 150
unfolding effective_target uses_video_latency_multiplier
latency_target = refl

evaluate-verdict_example :
    let r =
      evaluate_business_objective whole latency frame_latency_p90_ms 140 []
        (some low_latency_video_pipeline)
        none
        (some 100) in
    (is_success r ≡ (same_key frame_latency_p90_ms frame_latency_p90_ms && meets whole r))
    × (has_reason r ≡ not (is_success r))
evaluate-verdict_example =
    evaluate-verdict whole latency frame_latency_p90_ms 140 [] (some low_latency_video_pipeline)
      none (some 100)

evaluate-improves_example :
    is_success (
      evaluate_business_objective whole latency frame_latency_p90_ms 120 []
        (some low_latency_video_pipeline)
        none
        (some 100))
    ≡ true
unfolding evaluate_business_objective effective_target uses_video_latency_multiplier
evaluate-improves_example =
    evaluate-improves whole latency frame_latency_p90_ms 140 120 []
      (some low_latency_video_pipeline) none (some 100) (λ x y z a b. ground arith) refl refl
