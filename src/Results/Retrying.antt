-- ===== src/Results/Retrying.antt =====
-- The lead after its retry was decided.
use voice_call.Base.{ℕ, ◌≤◌, ◌≡◌, refl, ap, ◌∙◌, ◌⊎◌, Option, none, some, inl, inr, arith}
use voice_call.Schema.{
  CallingConfig, Db, Lead, LeadStatus, find_lead, audit_in_tx, update_lead, find_lead-update_lead,
}
use voice_call.Retry.{
  CallOutcome, RetryDecision, StopReason, retry, callback, stop, decide_retry,
  retry_policy_from_config,
}
use voice_call.Retry.Decisions.{decide_retry-callback_iff, decide_retry-retry_lem}
use voice_call.Results.{
  RetryArgs, decided, retry_decision, apply_retry_decision, calling_config_of, stopped,
}

-- Off the queue for good, or on it with a call to come; in both cases without a lock.
abbrev pub IsSettled : ℕ → Lead → Type 0
IsSettled wall l =
    (((l.status ≡ LeadStatus.queued) × ((t : ℕ) × (l.next_call_at ≡ some t) × (wall ≤ t)))
      ⊎ (((l.status ≡ LeadStatus.closed) ⊎ (l.status ≡ LeadStatus.suppressed))
          × (l.next_call_at ≡ none)))
    × (l.locked_by ≡ none)
    × (l.lock_expires_at ≡ none)

decided-IsSettled :
    (outcome : CallOutcome) (config : CallingConfig) (made : ℕ) (at : Option ℕ) (wall : ℕ)
    (d : RetryDecision) (l : Lead)
    → decide_retry outcome made (retry_policy_from_config config) at wall ≡ d
    → IsSettled wall (decided d l)
unfolding decided
decided-IsSettled outcome config made at wall (retry t n why) l e =
    let policy = retry_policy_from_config config in
    let facts = (decide_retry-retry_lem outcome made policy at wall t n why).0 e in
    (inl (refl, (t, refl, ground (arith, facts))), refl, refl)
decided-IsSettled outcome config made at wall (callback t) l e =
    let policy = retry_policy_from_config config in
    let facts = (decide_retry-callback_iff outcome made policy at wall t).0 e in
    (inl (refl, (t, refl, ground (arith, facts))), refl, refl)
decided-IsSettled outcome config made at wall (stop StopReason.do_not_call) l e =
    (inr (inr refl, refl), refl, refl)
decided-IsSettled outcome config made at wall (stop StopReason.max_attempts_reached) l e =
    (inr (inl refl, refl), refl, refl)
decided-IsSettled outcome config made at wall (stop StopReason.completed) l e =
    (inr (inl refl, refl), refl, refl)
decided-IsSettled outcome config made at wall (stop StopReason.terminal) l e =
    (inr (inl refl, refl), refl, refl)

decided-id : (d : RetryDecision) (l : Lead) → (decided d l).id ≡ l.id
unfolding decided
decided-id (retry t n why) l = refl
decided-id (callback t) l = refl
decided-id (stop s) l = refl

-- Deciding a retry leaves no lead stranded: whatever the outcome and the attempts made, the lead is
-- on the queue with a call at or after the present, or closed or suppressed with no call to come,
-- and in both cases without a lock.
pub find_lead-apply_retry_decision :
    (db : Db) (args : RetryArgs) (wall : ℕ) (l : Lead)
    → find_lead db args.lead_id ≡ some l
    → (l' : Lead) × (find_lead (apply_retry_decision db args wall) args.lead_id ≡ some l')
      × IsSettled wall l'
unfolding apply_retry_decision audit_in_tx find_lead retry_decision
find_lead-apply_retry_decision db args wall l found =
    let config = calling_config_of db args.campaign_id in
    let d = retry_decision db args wall in
    (
      decided d l,
      find_lead-update_lead db args.lead_id (decided d) {l = l} (decided-id d) found,
      decided-IsSettled args.outcome config args.attempts_made args.callback_at wall d l refl,
    )

pub apply_retry_decision-rest :
    (db : Db) (args : RetryArgs) (wall : ℕ)
    → let out = apply_retry_decision db args wall in
      (out.call_analyses ≡ db.call_analyses) × (out.callbacks ≡ db.callbacks)
unfolding apply_retry_decision audit_in_tx update_lead
apply_retry_decision-rest db args wall = (refl, refl)

retry_decision-completed :
    (db : Db) (args : RetryArgs) (wall : ℕ)
    → args.outcome ≡ CallOutcome.completed
    → args.callback_at ≡ none
    → retry_decision db args wall ≡ stop StopReason.completed
unfolding retry_decision decide_retry
retry_decision-completed db args wall completed no_callback =
    rw (completed, no_callback, retry_decision) refl

-- A call that was completed, with no callback to come, closes the lead.
pub apply_retry_decision-completed :
    (db : Db) (args : RetryArgs) (wall : ℕ) (l : Lead)
    → args.outcome ≡ CallOutcome.completed
    → args.callback_at ≡ none
    → find_lead db args.lead_id ≡ some l
    → find_lead (apply_retry_decision db args wall) args.lead_id
      ≡ some (stopped StopReason.completed l)
unfolding apply_retry_decision audit_in_tx find_lead decided
apply_retry_decision-completed db args wall l completed no_callback found =
    let d = retry_decision db args wall in
    find_lead-update_lead db args.lead_id (decided d) {l = l} (decided-id d) found
    ∙ ap (λ e. some (decided e l)) (retry_decision-completed db args wall completed no_callback)

-- A retry decision writes to the lead and the audit trail, and to no other table.
pub apply_retry_decision-kept :
    (db : Db) (args : RetryArgs) (wall : ℕ)
    → let after = apply_retry_decision db args wall in
      (after.call_analyses ≡ db.call_analyses)
      × (after.sync_outbox ≡ db.sync_outbox)
      × (after.callbacks ≡ db.callbacks)
      × (after.dnc_entries ≡ db.dnc_entries)
      × (after.routing_events ≡ db.routing_events)
unfolding apply_retry_decision update_lead audit_in_tx
apply_retry_decision-kept db args wall = (refl, refl, refl, refl, refl)
