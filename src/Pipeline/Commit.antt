-- ===== src/Pipeline/Commit.antt =====
-- What a trusted result does to the lead, and what it leaves alone.
use voice_call.Base.{
  ℕ, ◌+◌, ◌*◌, ◌≡◌, refl, ap, ◌∙◌, subst, inl, inr, String, true, false, Option, none, some, [],
  ◌∷◌, ◌++◌, arith, ok, >>=-ok, get_or, Bool-cases, if-true, if-false,
}
use voice_call.Schema.{Db, Lead, LeadStatus, CallbackStatus, lead_in, find_lead, update_lead}
use voice_call.Pii.{Cipher, decrypt_pii_or_null}
use voice_call.Eligibility.{suppress_lead}
use voice_call.Eligibility.Dnc.{
  find_lead-suppress_lead, suppress_lead-call_analyses, suppress_lead-callbacks,
}
use voice_call.Outbox.{enqueue_sync}
use voice_call.Results.{apply_retry_decision}
use voice_call.Results.Retrying.{apply_retry_decision-rest, apply_retry_decision-completed}
use voice_call.Pipeline.{
  CommitArgs, settle_lead, announce, publish, commit_analysis, valid_time, one_day, promise,
  dnc_suppression, retry_args,
}

-- Only the outbox and the routing events are written after the lead is settled.
announce-rest :
    (cipher : Cipher) (read_time : String → Option ℕ) (wall : ℕ) (db : Db) (args : CommitArgs)
    → let out = publish cipher read_time wall (announce cipher read_time wall db args) args in
      (out.leads ≡ db.leads)
      × (out.callbacks ≡ db.callbacks)
      × (out.call_analyses ≡ db.call_analyses)
unfolding publish announce enqueue_sync
announce-rest cipher read_time wall db args = ground arith

module _ (cipher : Cipher) (read_time : String → Option ℕ) (wall : ℕ) (db : Db)
    (args : CommitArgs) where
  settle_lead-call_analyses :
      (phone : Option String)
      → (settle_lead cipher read_time wall db args phone).call_analyses ≡ db.call_analyses
  unfolding settle_lead promise update_lead
  settle_lead-call_analyses phone = elim (Bool-cases args.result.do_not_call) [
    | inl e ↦
        rw (e, settle_lead) (suppress_lead-call_analyses cipher db (dnc_suppression args phone))
    | inr e ↦
        rw (e, settle_lead)
          (ground (
            arith,
            apply_retry_decision-rest
                (promise db args (get_or (valid_time read_time wall args.result) (wall + one_day)))
                (retry_args args (valid_time read_time wall args.result)) wall,
          ))
  ]

  -- The database after a commit, and the phone that was read for it.
  abbrev Committed : Db → Option String → Type 0
  Committed out phone =
      (out.leads ≡ (settle_lead cipher read_time wall db args phone).leads)
      × (out.callbacks ≡ (settle_lead cipher read_time wall db args phone).callbacks)
      × (out.call_analyses ≡ db.call_analyses)

  commit_analysis-Committed :
      (out : Db)
      → commit_analysis cipher read_time wall db args ≡ ok out
      → (phone : Option String) × Committed out phone
  unfolding commit_analysis
  commit_analysis-Committed out e =
      let (phone, decrypted, e') = >>=-ok (decrypt_pii_or_null cipher _) _ e in
      let settled = settle_lead cipher read_time wall db args phone in
      let is : publish cipher read_time wall (announce cipher read_time wall settled args) args
          ≡ out =
        cc e' in
      let (leads, callbacks, analyses) = announce-rest cipher read_time wall settled args in
      (
        phone,
        subst (λ (x : Db). Committed x phone) is
            (leads, callbacks, analyses ∙ settle_lead-call_analyses phone),
      )

  pub commit_analysis-call_analyses :
      (out : Db)
      → commit_analysis cipher read_time wall db args ≡ ok out
      → out.call_analyses ≡ db.call_analyses
  commit_analysis-call_analyses out e =
      let (phone, (leads, callbacks, analyses)) = commit_analysis-Committed out e in analyses

-- Who asks not to be called is not called: once the result is trusted, the lead is suppressed and
-- marked do-not-call, with no next call and no claim on it, and no callback is promised, whatever the
-- routing, the score and the callback that it asked for.
pub commit_analysis-do_not_call :
    (cipher : Cipher) (read_time : String → Option ℕ) (wall : ℕ) (db : Db) (args : CommitArgs)
    (out : Db) (l : Lead)
    → args.result.do_not_call ≡ true
    → find_lead db args.lead_id ≡ some l
    → commit_analysis cipher read_time wall db args ≡ ok out
    → (find_lead out args.lead_id
        ≡ some (record l {
          dnc = true;
          status = LeadStatus.suppressed;
          status_reason = some "voice_detected_dnc";
          next_call_at = none;
          locked_by = none;
          lock_expires_at = none;
        }))
      × (out.callbacks ≡ db.callbacks)
unfolding settle_lead find_lead
commit_analysis-do_not_call cipher read_time wall db args out l asked found e =
    let (phone, (leads, callbacks, analyses)) =
      commit_analysis-Committed cipher read_time wall db args out e in
    let settled : settle_lead cipher read_time wall db args phone
        ≡ suppress_lead cipher db (dnc_suppression args phone) =
      if-true _ _ asked in
    (
      ap (lead_in args.lead_id) leads
          ∙ ap (λ (x : Db). find_lead x args.lead_id) settled
          ∙ find_lead-suppress_lead cipher db (dnc_suppression args phone) found,
      callbacks
          ∙ ap (λ (x : Db). x.callbacks) settled
          ∙ suppress_lead-callbacks cipher db (dnc_suppression args phone),
    )

-- A callback without a usable time is promised but not queued: an open promise to the lead is stored,
-- for a day after the analysis and after the promises of before, and the lead is closed as completed,
-- with no call to come and no claim on it.
pub commit_analysis-callback_closed :
    (cipher : Cipher) (read_time : String → Option ℕ) (wall : ℕ) (db : Db) (args : CommitArgs)
    (out : Db) (l : Lead)
    → args.result.do_not_call ≡ false
    → args.result.callback_requested ≡ true
    → valid_time read_time wall args.result ≡ none
    → find_lead db args.lead_id ≡ some l
    → commit_analysis cipher read_time wall db args ≡ ok out
    → (find_lead out args.lead_id
        ≡ some (record l {
          status = LeadStatus.closed;
          status_reason = some "completed";
          next_call_at = none;
          locked_by = none;
          locked_at = none;
          lock_expires_at = none;
        }))
      × (out.callbacks
          ≡ db.callbacks
            ++ record {
              id = db.next_id;
              tenant_id = args.tenant_id;
              lead_id = args.lead_id;
              call_id = some args.call_id;
              scheduled_for = wall + 24 * 3600 * 1000;
              status = CallbackStatus.scheduled;
              resolved_at = none;
              resolved_by = none;
              fulfilled_call_id = none;
              note = none;
            }
              ∷ [])
unfolding settle_lead find_lead promise
commit_analysis-callback_closed cipher read_time wall db args out l calm wanted no_time found e =
    let (phone, (leads, callbacks, analyses)) =
      commit_analysis-Committed cipher read_time wall db args out e in
    let promised = promise db args (wall + one_day) in
    let settled : settle_lead cipher read_time wall db args phone
        ≡ apply_retry_decision promised (retry_args args none) wall =
      if-false _ _ calm
      ∙ if-true _ _ wanted
      ∙ ap
          (λ o.
            apply_retry_decision (promise db args (get_or o (wall + one_day))) (retry_args args o)
              wall)
          no_time in
    (
      ap (lead_in args.lead_id) leads
          ∙ ap (λ (x : Db). find_lead x args.lead_id) settled
          ∙ apply_retry_decision-completed promised (retry_args args none) wall l refl refl found,
      callbacks
          ∙ ap (λ (x : Db). x.callbacks) settled
          ∙ (apply_retry_decision-rest promised (retry_args args none) wall).1,
    )
