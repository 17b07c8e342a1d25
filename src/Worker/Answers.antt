-- ===== src/Worker/Answers.antt =====
-- What a provider's answer writes, and what is written before it is asked.
use voice_call.Base.{
  ℕ, suc, ◌<◌, ◌≡◌, refl, sym, ap, inl, inr, String, false, some, [], ◌∷◌, ◌++◌, arith, ◌==◌, any,
  update_where, ok, err, >>=-ok, or_throw, unique_violation, Bool-cases, All,
}
use voice_call.Schema.{
  Db, CallAttempt, Lead, find_lead, update_lead, update_attempt, audit_in_tx, find_lead-update_lead,
}
use voice_call.Callbacks.Laws.{fulfil_callbacks_for_lead-rest}
use voice_call.Queue.{ClaimedLead, release_claim, released_lead}
use voice_call.Results.Delivery.{is_call}
use voice_call.Worker.{
  CampaignScript, Dialler, DialResult, DialStatus, ProviderReply, placed, refused, new_attempt,
  is_attempt, insert_for, insert_attempt, counted_lead, placed_attempt, failed_attempt,
  record_placed, requeue_at, record_refused, record_reply, before_dial,
}

-- Ids are drawn upwards: those in use lie below the next one.
abbrev pub FreshAttempts : Db → Type 0
FreshAttempts db = All (λ a. a.id < db.next_id) db.call_attempts

-- The new record with the provider's answer in it.
abbrev pub answered_attempt : ℕ → ProviderReply → CallAttempt → CallAttempt
answered_attempt now (placed id status) a = placed_attempt id status a
answered_attempt now (refused retryable detail) a = failed_attempt now detail a

-- The lead with the answer in it.
abbrev pub answered_lead : Dialler → ClaimedLead → ℕ → ProviderReply → Lead → Lead
answered_lead d lead now (placed id status) l = counted_lead lead.attempt_no now l
answered_lead d lead now (refused retryable detail) l =
    released_lead (requeue_at d lead retryable) (counted_lead lead.attempt_no now l)

abbrev pub dial_status : ProviderReply → DialStatus
dial_status (placed id status) = DialStatus.initiated
dial_status (refused retryable detail) = DialStatus.provider_failed

-- The id that the provider gives is one that no call of its own has.
abbrev pub IsNewCall : Db → String → ProviderReply → Type 0
IsNewCall db provider (placed id status) = any (is_call provider id) db.call_attempts ≡ false
IsNewCall db provider (refused retryable detail) = Unit

abbrev pub inserted : Db → ClaimedLead → CampaignScript → Lead → Db
inserted db lead script row = record db {
  next_id = suc db.next_id;
  call_attempts = db.call_attempts ++ new_attempt db lead script row ∷ [];
}

pub insert_attempt-cases :
    (db : Db) (lead : ClaimedLead) (script : CampaignScript) (db' : Db)
    → insert_attempt db lead script ≡ ok db'
    → (row : Lead) × (find_lead db lead.lead_id ≡ some row)
      × (any (is_attempt lead.lead_id lead.attempt_no) db.call_attempts ≡ false)
      × (db' ≡ inserted db lead script row)
unfolding insert_attempt insert_for
insert_attempt-cases db lead script db' e =
    let (row, thrown, e') = >>=-ok (or_throw (find_lead db lead.lead_id) _) _ e in
    elim (Bool-cases (any (is_attempt lead.lead_id lead.attempt_no) db.call_attempts)) [
      | inl taken ↦ absurd (cc (rw taken at e'))
      | inr unused ↦
          let is : ok (inserted db lead script row) ≡ ok db' = rw (unused, insert_for) at e' in
          (row, ground (arith, thrown), unused, sym (cc is))
    ]

module _ (d : Dialler) (db : Db) (lead : ClaimedLead) (call : ℕ) where
  pub before_dial-rest :
      let out = before_dial d db lead call in
      (out.call_attempts ≡ db.call_attempts)
      × (out.next_id ≡ db.next_id)
      × (out.now ≡ db.now)
      × (out.leads ≡ (update_lead db lead.lead_id (counted_lead lead.attempt_no db.now)).leads)
      × (out.tenants ≡ db.tenants)
      × (out.campaigns ≡ db.campaigns)
  unfolding before_dial update_lead
  before_dial-rest =
      let p =
        fulfil_callbacks_for_lead-rest
          (update_lead db lead.lead_id (counted_lead lead.attempt_no db.now)) lead.tenant_id
          lead.lead_id call (d.wall lead.lead_id) in
      (
        sym (ap (λ (x : Db). x.call_attempts) p),
        sym (ap (λ (x : Db). x.next_id) p),
        sym (ap (λ (x : Db). x.now) p),
        sym (ap (λ (x : Db). x.leads) p),
        sym (ap (λ (x : Db). x.tenants) p),
        sym (ap (λ (x : Db). x.campaigns) p),
      )

  abbrev pub answer : ProviderReply → Db × DialResult
  answer (placed id status) = record_placed d db lead call id status
  answer (refused retryable detail) = record_refused d db lead call retryable detail

  pub record_reply-answer :
      (reply : ProviderReply)
      → IsNewCall db lead.provider reply
      → record_reply d db lead call reply ≡ ok (answer reply)
  unfolding record_reply
  record_reply-answer (placed id status) unused = rw (unused, record_reply) refl
  record_reply-answer (refused retryable detail) unused = refl

  pub record_reply-cases :
      (reply : ProviderReply) (out : Db × DialResult)
      → record_reply d db lead call reply ≡ ok out
      → out ≡ answer reply
  unfolding record_reply
  record_reply-cases (placed id status) out e =
      elim (Bool-cases (any (is_call lead.provider id) db.call_attempts)) [
        | inl taken ↦
            let no_row : err unique_violation ≡ ok out = rw (taken, record_reply) at e in
            absurd (cc no_row)
        | inr unused ↦
            let is : ok (answer (placed id status)) ≡ ok out = rw (unused, record_reply) at e in
            sym (cc is)
      ]
  record_reply-cases (refused retryable detail) out e = sym (cc e)

  -- What the answer writes.
  pub answer-writes :
      (reply : ProviderReply)
      → ((answer reply).0.call_attempts
          ≡ update_where (λ a. a.id == call) (answered_attempt db.now reply) db.call_attempts)
        × ((answer reply).0.next_id ≡ db.next_id)
        × ((answer reply).1.lead_id ≡ lead.lead_id)
        × ((answer reply).1.call_id ≡ some call)
        × ((answer reply).1.status ≡ dial_status reply)
  unfolding record_placed record_refused update_attempt release_claim update_lead audit_in_tx
  answer-writes (placed id status) = (refl, refl, refl, refl, refl)
  answer-writes (refused retryable detail) = (refl, refl, refl, refl, refl)

  -- The lead after it.
  pub answer-lead :
      (reply : ProviderReply) (row : Lead)
      → find_lead db lead.lead_id ≡ some (counted_lead lead.attempt_no db.now row)
      → find_lead (answer reply).0 lead.lead_id ≡ some (answered_lead d lead db.now reply row)
  unfolding record_placed record_refused update_attempt release_claim audit_in_tx find_lead
      update_lead
  answer-lead (placed id status) row found = found
  answer-lead (refused retryable detail) row found =
      find_lead-update_lead db lead.lead_id (released_lead (requeue_at d lead retryable))
        (λ l. refl) found
