-- ===== src/Review/Laws.antt =====
-- What a result that passes the gate is worth, and what never passes it.
use voice_call.Base.{
  ℕ, ◌≤◌, ◌<◌, ◌≡◌, refl, sym, ◌∙◌, ap, inl, inr, String, Bool, true, false, ◌&&◌, List, [], ◌∷◌,
  ◌++◌, arith, ltb, leb, Bool-cases, All, select_where, map,
}
use voice_call.Base.Int.{ℤ, distance, leb_ℤ}
use voice_call.Schema.Qualification.{QualificationResult, unknown_result}
use voice_call.Scoring.{RoutingThresholds, decide_routing, route_by_score}
use voice_call.Review.{
  ReviewGateInput, ReviewTrigger, pass, ended_conversation, is_missing, missing_fields, any_listed,
  is_near, dnc_confidence, ReasonPart, hold, confidence_below, describe_trigger, trigger_if,
  review_triggers, hold_or_pass, evaluate_review_gate,
}

hold_or_pass-pass :
    (input : ReviewGateInput) (triggers : List ReviewTrigger)
    → hold_or_pass input triggers ≡ pass
    → triggers ≡ []
unfolding hold_or_pass
hold_or_pass-pass input [] e = refl
hold_or_pass-pass input (t ∷ triggers) e = absurd (cc)

four_quiet :
    (a b c d : Bool) (s t u v : ReviewTrigger)
    → (trigger_if a s ++ trigger_if b t ++ trigger_if c u ++ trigger_if d v) ≡ []
    → (a ≡ false) × (b ≡ false) × (c ≡ false) × (d ≡ false)
four_quiet a b c d s t u v e = ground arith

any_listed-select_where :
    (p : String → Bool) (fields : List String)
    → any_listed (select_where p fields) ≡ false
    → All (λ f. p f ≡ false) fields
unfolding select_where
any_listed-select_where p [] e = tt
any_listed-select_where p (f ∷ fields) e = elim (Bool-cases (p f)) [
  | inl h ↦ absurd (cc (rw h at e))
  | inr h ↦ (h, any_listed-select_where p fields (rw h at e))
]

gate_reached :
    (input : ReviewGateInput)
    → input.unconnected ≡ false
    → evaluate_review_gate input ≡ hold_or_pass input (review_triggers input)
unfolding evaluate_review_gate
gate_reached input reached = rw (reached, evaluate_review_gate) refl

module _ (input : ReviewGateInput) (reached : input.unconnected ≡ false)
    (passed : evaluate_review_gate input ≡ pass) where
  passed_tests :
      (ltb input.result.confidence input.confidence_threshold ≡ false)
      × (any_listed (missing_fields input) ≡ false)
      × (is_near input ≡ false)
      × ((input.result.do_not_call && ltb input.result.confidence dnc_confidence) ≡ false)
  unfolding review_triggers
  passed_tests =
      four_quiet _ _ _ _ _ _ _ _ (
        hold_or_pass-pass input (review_triggers input) (sym (gate_reached input reached) ∙ passed))

-- A result of a conversation passes the gate only if its confidence reaches the campaign's
-- threshold, every required field is answered unless the lead ended the conversation, and, where
-- it would suppress the lead, its confidence is at least 0.9.
pub evaluate_review_gate-pass :
    (input : ReviewGateInput)
    → input.unconnected ≡ false
    → evaluate_review_gate input ≡ pass
    → (input.confidence_threshold ≤ input.result.confidence)
      × (ended_conversation input.result ≡ false
          → All (λ f. is_missing input.result f ≡ false) input.required_fields)
      × (input.result.do_not_call ≡ true → dnc_confidence ≤ input.result.confidence)
unfolding missing_fields
evaluate_review_gate-pass input reached passed =
    let (sure, answered, clear, verified) = passed_tests input reached passed in
    (
      ground arith,
      λ open_end.
          any_listed-select_where (is_missing input.result) input.required_fields
            (rw open_end at answered),
      λ dnc. ground arith,
    )

same_route :
    (result : QualificationResult) (score score' : ℤ) (thresholds : RoutingThresholds)
    → leb_ℤ thresholds.hot_threshold score' ≡ leb_ℤ thresholds.hot_threshold score
    → leb_ℤ thresholds.interested_threshold score' ≡ leb_ℤ thresholds.interested_threshold score
    → (decide_routing result score' thresholds).action
      ≡ (decide_routing result score thresholds).action
unfolding decide_routing route_by_score
same_route result score score' thresholds hot interested = ground arith

same_side :
    (bound score score' : ℤ) (band : ℕ)
    → leb (distance score bound) band ≡ false
    → distance score' score ≤ band
    → leb_ℤ bound score' ≡ leb_ℤ bound score
same_side bound score score' band far close = ground arith

-- A result that passes is routed the same way by every score within the boundary band of its own:
-- an error of the score up to the band cannot have changed where the lead goes.
pub evaluate_review_gate_stable :
    (input : ReviewGateInput) (score : ℤ)
    → input.unconnected ≡ false
    → evaluate_review_gate input ≡ pass
    → distance score input.score ≤ input.boundary_band
    → (decide_routing input.result score input.thresholds).action
      ≡ (decide_routing input.result input.score input.thresholds).action
evaluate_review_gate_stable input score reached passed close =
    let (sure, answered, clear, verified) = passed_tests input reached passed in
    same_route input.result input.score score input.thresholds
      (same_side input.thresholds.hot_threshold input.score score input.boundary_band (ground arith)
        close)
      (same_side input.thresholds.interested_threshold input.score score input.boundary_band
        (ground arith) close)

first_trigger :
    (a b c d : Bool) (s t u v : ReviewTrigger)
    → a ≡ true
    → (rest : List ReviewTrigger) × ((trigger_if a s
          ++ trigger_if b t
          ++ trigger_if c u
          ++ trigger_if d v)
        ≡ s ∷ rest)
first_trigger true true true true s t u v e = (_, refl)
first_trigger true true true false s t u v e = (_, refl)
first_trigger true true false true s t u v e = (_, refl)
first_trigger true true false false s t u v e = (_, refl)
first_trigger true false true true s t u v e = (_, refl)
first_trigger true false true false s t u v e = (_, refl)
first_trigger true false false true s t u v e = (_, refl)
first_trigger true false false false s t u v e = (_, refl)
first_trigger false b c d s t u v e = absurd (cc e)

-- A result that stands in for a failed analysis is held where the campaign's threshold is above 0,
-- and its low confidence is the first of the triggers and the first reason that is given.
pub evaluate_review_gate-unknown_result :
    (input : ReviewGateInput) (reason : String)
    → input.unconnected ≡ false
    → input.result ≡ unknown_result reason
    → 0 < input.confidence_threshold
    → (triggers : List ReviewTrigger) × (parts : List ReasonPart) × (evaluate_review_gate input
        ≡ hold
            (ReviewTrigger.low_confidence ∷ triggers)
            (confidence_below 0 input.confidence_threshold ∷ parts))
unfolding unknown_result review_triggers describe_trigger hold_or_pass
evaluate_review_gate-unknown_result input reason reached is above =
    let none_sure : input.result.confidence ≡ 0 =
      ap (λ (r : QualificationResult). r.confidence) is in
    let low : ltb input.result.confidence input.confidence_threshold ≡ true =
      ground (arith, none_sure, above) in
    let (triggers, are) = first_trigger _ _ _ _ _ _ _ _ low in
    let parts = map (describe_trigger input (missing_fields input)) triggers in
    (
      triggers,
      parts,
      gate_reached input reached
          ∙ ap (hold_or_pass input) are
          ∙ ap
              (λ (c : ℕ).
                hold (ReviewTrigger.low_confidence ∷ triggers)
                  (confidence_below c input.confidence_threshold ∷ parts))
              none_sure,
    )
