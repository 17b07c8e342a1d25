-- ===== src/Worker/Dialling.antt =====
-- One call: the record that it leaves, and the lead after it.
use voice_call.Base.{
  ℕ, suc, ◌≡◌, refl, sym, ap, ◌∙◌, subst, false, some, [], ◌∷◌, ◌++◌, arith, ◌==◌, ==_refl, any,
  update_where, ok, >>=-ok, All-mono, update_where-last, any-append_unmatched,
}
use voice_call.Schema.{Db, lead_in, CallAttempt, Lead, find_lead, find_lead-update_lead}
use voice_call.Queue.{ClaimedLead}
use voice_call.Results.Delivery.{is_call}
use voice_call.Worker.{
  CampaignScript, Dialler, DialResult, ProviderReply, placed, refused, new_attempt, is_attempt,
  insert_for, insert_attempt, counted_lead, request_of, record_reply, before_dial, dial_one,
}
use voice_call.Worker.Replies.{
  CarriesReply, ClaimAfter, answered-columns, answered-CarriesReply, answered-counted,
  answered-ClaimAfter,
}
use voice_call.Worker.Answers.{
  FreshAttempts, answered_attempt, answered_lead, dial_status, IsNewCall, inserted,
  insert_attempt-cases, before_dial-rest, answer, record_reply-answer, record_reply-cases,
  answer-writes, answer-lead,
}

module _ (d : Dialler) (db : Db) (lead : ClaimedLead) (script : CampaignScript) where
  abbrev pub reply_to : ProviderReply
  reply_to = d.create_call lead.provider (request_of d lead script db.next_id)

  abbrev pub dialled_attempt : Lead → CallAttempt
  dialled_attempt row = answered_attempt db.now reply_to (new_attempt db lead script row)

  -- What a call that went through leaves behind.
  pub record IsDialled (out : Db × DialResult) : Type 0 where
    pub row : Lead
    pub found : find_lead db lead.lead_id ≡ some row
    pub unused : any (is_attempt lead.lead_id lead.attempt_no) db.call_attempts ≡ false
    pub recorded : out.0.call_attempts ≡ db.call_attempts ++ dialled_attempt row ∷ []
    pub lead_after : find_lead out.0 lead.lead_id ≡ some (answered_lead d lead db.now reply_to row)
    pub columns :
        let a = dialled_attempt row in
        (a.id ≡ db.next_id)
        × (a.lead_id ≡ lead.lead_id)
        × (a.attempt_no ≡ lead.attempt_no)
        × (a.tenant_id ≡ lead.tenant_id)
        × (a.campaign_id ≡ some lead.campaign_id)
        × (a.provider ≡ lead.provider)
        × (a.consent_id ≡ lead.consent_id)
        × (a.consent_basis ≡ lead.consent_basis)
        × (a.campaign_config_version ≡ lead.campaign_config_version)
        × (a.started_at ≡ some db.now)
    pub reply : CarriesReply db.now reply_to (dialled_attempt row)
    pub counted :
        let l = answered_lead d lead db.now reply_to row in
        (l.call_attempt_count ≡ lead.attempt_no) × (l.last_call_at ≡ some db.now)
    pub claim :
        ClaimAfter (d.wall lead.lead_id) reply_to row (answered_lead d lead db.now reply_to row)
    pub next_call : out.0.next_id ≡ suc db.next_id
    pub result :
        (out.1.lead_id ≡ lead.lead_id)
        × (out.1.call_id ≡ some db.next_id)
        × (out.1.status ≡ dial_status reply_to)

  module _ (row : Lead) where
    abbrev readied : Db
    readied = before_dial d (inserted db lead script row) lead db.next_id

    abbrev answered : Db × DialResult
    answered = answer d readied lead db.next_id reply_to

    answered-attempts :
        FreshAttempts db → answered.0.call_attempts ≡ db.call_attempts ++ dialled_attempt row ∷ []
    unfolding new_attempt
    answered-attempts fresh =
        let (attempts, next, now, leads, tenants, campaigns) =
          before_dial-rest d (inserted db lead script row) lead db.next_id in
        (answer-writes d readied lead db.next_id reply_to).0
        ∙ ap
            (λ (n : ℕ).
              update_where (λ a. a.id == db.next_id) (answered_attempt n reply_to)
                readied.call_attempts)
            now
        ∙ ap (update_where (λ a. a.id == db.next_id) (answered_attempt db.now reply_to)) attempts
        ∙ update_where-last (λ a. a.id == db.next_id) (answered_attempt db.now reply_to)
            db.call_attempts (new_attempt db lead script row)
            (All-mono _ _ db.call_attempts (λ a lt. ground arith) fresh) (==_refl db.next_id)

    answered-lead :
        find_lead db lead.lead_id ≡ some row
        → find_lead answered.0 lead.lead_id ≡ some (answered_lead d lead db.now reply_to row)
    unfolding find_lead
    answered-lead found =
        let (attempts, next, now, leads, tenants, campaigns) =
          before_dial-rest d (inserted db lead script row) lead db.next_id in
        subst
          (λ (n : ℕ).
            find_lead answered.0 lead.lead_id ≡ some (answered_lead d lead n reply_to row))
          now
          (answer-lead d readied lead db.next_id reply_to row (
            ap (lead_in lead.lead_id) leads
            ∙ find_lead-update_lead (inserted db lead script row) lead.lead_id
                (counted_lead lead.attempt_no db.now) (λ l. refl) found
            ∙ ap (λ n. some (counted_lead lead.attempt_no n row)) (sym now)))

    answered-IsDialled :
        FreshAttempts db
        → find_lead db lead.lead_id ≡ some row
        → any (is_attempt lead.lead_id lead.attempt_no) db.call_attempts ≡ false
        → IsDialled answered
    answered-IsDialled fresh found unused =
        let (attempts, next, now, leads, tenants, campaigns) =
          before_dial-rest d (inserted db lead script row) lead db.next_id in
        let (written, ids, of_lead, of_call, status) =
          answer-writes d readied lead db.next_id reply_to in
        record {
          row = row;
          found = found;
          unused = unused;
          recorded = answered-attempts fresh;
          lead_after = answered-lead found;
          columns = answered-columns d db lead script row reply_to;
          reply = answered-CarriesReply d db lead script row reply_to;
          counted = answered-counted d db lead script row reply_to;
          claim = answered-ClaimAfter d db lead script row reply_to;
          next_call = ids ∙ next;
          result = (of_lead, of_call, status);
        }

  dial_one-cases :
      (out : Db × DialResult)
      → dial_one d db lead script ≡ ok out
      → (row : Lead) × (find_lead db lead.lead_id ≡ some row)
        × (any (is_attempt lead.lead_id lead.attempt_no) db.call_attempts ≡ false)
        × (out ≡ answered row)
  unfolding dial_one
  dial_one-cases out e =
      let (db', stored, e') = >>=-ok (insert_attempt db lead script) _ e in
      let (row, found, unused, is) = insert_attempt-cases db lead script db' stored in
      (
        row,
        found,
        unused,
        record_reply-cases d (readied row) lead db.next_id reply_to out (
            subst
              (λ (x : Db).
                record_reply d (before_dial d x lead db.next_id) lead db.next_id reply_to ≡ ok out)
              is e'),
      )

-- Every call leaves a durable record and consumes an attempt, whatever the provider answers. A call
-- that goes through had its lead in the table and an attempt number that the lead had not used; it
-- adds one record to the calls and changes no other, with the lead, the attempt, the consent and the
-- configuration version of the claim and the present as its start. The record carries the provider's
-- id and status, or is failed with the provider's reason and has ended. The lead's count is the
-- attempt's number, and its last call is now. The claim stands if the call was placed; if the
-- provider refused, it is released: the lead is queued for a time not before the worker's clock if
-- the refusal may be retried, and failed with no call to come if not.
pub dial_one_records :
    (d : Dialler) (db : Db) (lead : ClaimedLead) (script : CampaignScript) (out : Db × DialResult)
    → FreshAttempts db
    → dial_one d db lead script ≡ ok out
    → IsDialled d db lead script out
dial_one_records d db lead script out fresh e =
    let (row, found, unused, is) = dial_one-cases d db lead script out e in
    subst (IsDialled d db lead script) (sym is)
      (answered-IsDialled d db lead script row fresh found unused)

insert_attempt-ok :
    (db : Db) (lead : ClaimedLead) (script : CampaignScript) (row : Lead)
    → find_lead db lead.lead_id ≡ some row
    → any (is_attempt lead.lead_id lead.attempt_no) db.call_attempts ≡ false
    → insert_attempt db lead script ≡ ok (inserted db lead script row)
unfolding insert_attempt insert_for
insert_attempt-ok db lead script row found unused =
    rw (found, insert_attempt) (rw (unused, insert_for) refl)

-- The id is new after the insertion too, whose row has none.
IsNewCall-readied :
    (d : Dialler) (db : Db) (lead : ClaimedLead) (script : CampaignScript) (row : Lead)
    (reply : ProviderReply)
    → IsNewCall db lead.provider reply
    → IsNewCall (readied d db lead script row) lead.provider reply
unfolding new_attempt
IsNewCall-readied d db lead script row (placed id status) unused =
    ap (any (is_call lead.provider id))
      ((before_dial-rest d (inserted db lead script row) lead db.next_id).0)
    ∙ any-append_unmatched (is_call lead.provider id) db.call_attempts
        (new_attempt db lead script row) unused (ground arith)
IsNewCall-readied d db lead script row (refused retryable detail) unused = tt

-- A lead is dialled whenever it is in the table, its attempt number is unused and the provider does
-- not give out an id that a call of its own has: a provider that fails is no error of the worker's.
pub dial_one-total :
    (d : Dialler) (db : Db) (lead : ClaimedLead) (script : CampaignScript) (row : Lead)
    → FreshAttempts db
    → find_lead db lead.lead_id ≡ some row
    → any (is_attempt lead.lead_id lead.attempt_no) db.call_attempts ≡ false
    → IsNewCall db lead.provider (reply_to d db lead script)
    → (out : Db × DialResult) × (dial_one d db lead script ≡ ok out)
      × IsDialled d db lead script out
unfolding dial_one
dial_one-total d db lead script row fresh found unused new_call = (
  answered d db lead script row,
  rw (insert_attempt-ok db lead script row found unused, dial_one)
      (record_reply-answer d (readied d db lead script row) lead db.next_id
        (reply_to d db lead script)
        (IsNewCall-readied d db lead script row (reply_to d db lead script) new_call)),
  answered-IsDialled d db lead script row fresh found unused,
)
