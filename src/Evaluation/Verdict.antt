-- ===== src/Evaluation/Verdict.antt =====
-- The verdict of `evaluate_business_objective` (backend/services/business_evaluator.py).
use manage_deploy.Common.{
  Bool, Bool-cases, List, Option, arith, false, inl, inr, none, not, refl, some, true, ℕ, ◌&&◌, ◌≡◌,
}
use manage_deploy.Evaluation.{
  BusinessObjective, Evaluation, MetricKey, Numbers, Operator, TaskType, at_least, at_most,
  effective_target, evaluate_business_objective, is_supported, judge, meets_target, result_with,
  same_key, unsupported,
}

abbrev pub is_success : {F : Type 0} → Evaluation F → Bool
is_success r = elim r.business_success [ none ↦ false | some b ↦ b ]

abbrev pub has_reason : {F : Type 0} → Evaluation F → Bool
has_reason r = elim r.failure_reason [ none ↦ false | some m ↦ true ]

module _ {F : Type 0} (num : Numbers F) where
  -- `target ≤ actual` for at least, `actual ≤ target` for at most; no other operator is met.
  abbrev pub meets : Evaluation F → Bool
  meets r = elim r.target_value [
    | none ↦ false
    | some target ↦ elim r.operator [
      | at_least ↦ num.is_at_most target r.actual_value
      | at_most ↦ num.is_at_most r.actual_value target
      | unsupported k ↦ false
    ]
  ]

  module _ (o : BusinessObjective F) (key : MetricKey) (actual : F) (uris : List ℕ)
      (t : Option TaskType) (estimated : Option F) (baseline : Option F) where
    abbrev outcome : Evaluation F
    outcome = evaluate_business_objective num o key actual uris t estimated baseline

    judge-verdict :
        (target : Option F)
        → is_supported o.operator ≡ true
        → let r = judge num o key actual uris t estimated baseline target in
          (is_success r ≡ meets r) × (has_reason r ≡ not (is_success r))
    unfolding judge
    judge-verdict none s = (refl, refl)
    judge-verdict (some target) s = elim (Bool-cases (meets_target num o.operator actual target)) [
      | inl e ↦ ground arith
      | inr e ↦ ground arith
    ]

    -- A measurement is a success exactly if it has the key of the objective and the result has a
    -- target that is at most the actual value, where the operator is at least, or at least the actual
    -- value, where it is at most; and there is a reason exactly if it is none.
    pub evaluate-verdict :
        let r = evaluate_business_objective num o key actual uris t estimated baseline in
        (is_success r ≡ (same_key key o.metric_key && meets r))
        × (has_reason r ≡ not (is_success r))
    unfolding evaluate_business_objective
    evaluate-verdict = elim (Bool-cases (same_key key o.metric_key)) [
      | inl k ↦ elim (Bool-cases (is_supported o.operator)) [
        | inl s ↦ rw (k, s) (judge-verdict (effective_target num o t key baseline) s)
        | inr s ↦ rw (k, s) (unmet o.target_value s, refl)
      ]
      | inr k ↦ rw k (refl, refl)
    ]
      where
        unmet :
            (target : Option F)
            → is_supported o.operator ≡ false
            → false
              ≡ meets (result_with num o key actual uris t estimated baseline target none none)
        unmet none s = refl
        unmet (some v) s = ground arith

module _ {F : Type 0} (num : Numbers F) where
  -- One value is as good as another in the sense of an operator.
  abbrev pub no_worse : Operator → F → F → Bool
  no_worse o a b = elim o [ at_least ↦ num.is_at_most a b | _ ↦ num.is_at_most b a ]

  meets_target-improves :
      (trans : (x y z : F)
        → num.is_at_most x y ≡ true
        → num.is_at_most y z ≡ true
        → num.is_at_most x z ≡ true)
      (o : Operator) (a b target : F)
      → no_worse o a b ≡ true
      → meets_target num o a target ≡ true
      → meets_target num o b target ≡ true
  meets_target-improves trans at_least a b target w m = trans target a b m w
  meets_target-improves trans at_most a b target w m = trans b a target w m
  meets_target-improves trans (unsupported k) a b target w m = trans b a target w m

  -- A value as good as one that is a success is a success, with the same objective and baseline.
  -- The order of the values is transitive.
  pub evaluate-improves :
      (o : BusinessObjective F) (key : MetricKey) (a b : F) (uris : List ℕ) (t : Option TaskType)
      (estimated : Option F) (baseline : Option F)
      → ((x y z : F)
          → num.is_at_most x y ≡ true
          → num.is_at_most y z ≡ true
          → num.is_at_most x z ≡ true)
      → no_worse o.operator a b ≡ true
      → is_success (evaluate_business_objective num o key a uris t estimated baseline) ≡ true
      → is_success (evaluate_business_objective num o key b uris t estimated baseline) ≡ true
  unfolding evaluate_business_objective
  evaluate-improves o key a b uris t estimated baseline trans w h =
      elim (Bool-cases (same_key key o.metric_key)) [
        | inl k ↦ elim (Bool-cases (is_supported o.operator)) [
          | inl s ↦ rw (k, s) (judged (effective_target num o t key baseline) (rw (k, s) at h))
          | inr s ↦ absurd (ground arith)
        ]
        | inr k ↦ absurd (ground arith)
      ]
    where
      judged :
          (target : Option F)
          → is_success (judge num o key a uris t estimated baseline target) ≡ true
          → is_success (judge num o key b uris t estimated baseline target) ≡ true
      judged none e = absurd (unfold judge in ground arith)
      judged (some v) e =
          unfold judge in
          elim (Bool-cases (meets_target num o.operator a v)) [
            | inl m ↦ let better = meets_target-improves trans o.operator a b v w m in ground arith
            | inr m ↦ absurd (ground arith)
          ]
