-- ===== src/Callbacks.antt =====
-- lib/calling/callbacks.ts: the promise to call back, kept apart from the call that fulfils it.
pub mod Laws
mod Tests
use voice_call.Base.{
  ℕ, suc, ◌+◌, ◌*◌, String, Bool, true, false, not, ◌&&◌, ◌||◌, Option, none, some, List, [], ◌∷◌,
  ltb, leb, ◌==◌, if◌then◌else◌, get_or, holds, is_some, map, any, take, length, first_where,
  select_where, sort_by, update_where,
}
use voice_call.Schema.{
  Db, Callback, CallbackStatus, CallAttempt, Lead, LeadStatus, is_scheduled, is_unkept, ActorType,
  Meta, AuditEntry, audit_in_tx, find_lead, update_lead,
}

abbrev pub missed_grace_minutes : ℕ
missed_grace_minutes = 120

pub data Resolution : Type 0 where
  completed missed canceled : Resolution

abbrev pub resolution_status : Resolution → CallbackStatus
resolution_status Resolution.completed = CallbackStatus.completed
resolution_status Resolution.missed = CallbackStatus.missed
resolution_status Resolution.canceled = CallbackStatus.canceled

abbrev resolution_text : Resolution → String
resolution_text Resolution.completed = "completed"
resolution_text Resolution.missed = "missed"
resolution_text Resolution.canceled = "canceled"

-- A user of the agency who acts, and the entry that records it.
pub record Operator : Type 0 where
  pub tenant_id : ℕ
  pub user_id : ℕ
  pub user_email : String

abbrev user_entry : Operator → String → ℕ → List (String × Meta) → AuditEntry
user_entry who action id metadata = record {
  tenant_id = who.tenant_id;
  actor_type = ActorType.user;
  actor_id = some who.user_id;
  actor_label = some who.user_email;
  action = action;
  entity_type = "callback";
  entity_id = Meta.number id;
  metadata = metadata;
}

abbrev text_or_null : Option String → Meta
text_or_null none = Meta.null
text_or_null (some s) = Meta.text s

-- where id = $1 and status = 'scheduled'
abbrev pub is_outstanding : ℕ → Callback → Bool
is_outstanding id cb = cb.id == id && is_scheduled cb.status

abbrev resolved_callback : ℕ → Resolution → ℕ → Option String → Callback → Callback
resolved_callback now resolution user note cb = record cb {
  status = resolution_status resolution;
  resolved_at = some now;
  resolved_by = some user;
  note = note;
}

pub resolve_callback : Db → Operator → ℕ → Resolution → Option String → Db × Bool
resolve_callback db who id resolution note = elim (first_where (is_outstanding id) db.callbacks) [
  | none ↦ (db, false)
  | some row ↦ (
    audit_in_tx
        (record db {
          callbacks =
              update_where (is_outstanding id)
                (resolved_callback db.now resolution who.user_id note) db.callbacks;
        })
        (user_entry who "callback.resolved" row.id (
          ("lead_id", Meta.number row.lead_id)
          ∷ ("resolution", Meta.text (resolution_text resolution))
          ∷ ("note", text_or_null note)
          ∷ [])),
    true,
  )
]

-- status in ('queued', 'new', 'closed', 'failed', 'qualified')
abbrev pub may_requeue : LeadStatus → Bool
may_requeue LeadStatus.queued = true
may_requeue LeadStatus.new = true
may_requeue LeadStatus.closed = true
may_requeue LeadStatus.failed = true
may_requeue LeadStatus.qualified = true
may_requeue _ = false

abbrev requeued_lead : ℕ → Lead → Lead
requeued_lead at l = record l {
  next_call_at = some at;
  status = LeadStatus.queued;
  status_reason = some "callback_rescheduled";
  locked_by = none;
  locked_at = none;
  lock_expires_at = none;
}

-- `lead_status` is none where the source says "unknown", of a lead that is not there.
pub data Rescheduled : Type 0 where
  not_found : Rescheduled
  moved : (lead_requeued : Bool) → (lead_status : Option LeadStatus) → Rescheduled

abbrev lead_status_text : Option LeadStatus → String
lead_status_text none = "unknown"
lead_status_text (some LeadStatus.new) = "new"
lead_status_text (some LeadStatus.quarantined) = "quarantined"
lead_status_text (some LeadStatus.suppressed) = "suppressed"
lead_status_text (some LeadStatus.queued) = "queued"
lead_status_text (some LeadStatus.calling) = "calling"
lead_status_text (some LeadStatus.awaiting_analysis) = "awaiting_analysis"
lead_status_text (some LeadStatus.pending_review) = "pending_review"
lead_status_text (some LeadStatus.qualified) = "qualified"
lead_status_text (some LeadStatus.closed) = "closed"
lead_status_text (some LeadStatus.failed) = "failed"

abbrev is_requeueable_lead : ℕ → Lead → Bool
is_requeueable_lead id l = l.id == id && may_requeue l.status

-- The lead's status after the update: 'queued' if it was requeued, and else the one it has.
lead_status_after : Db → ℕ → Option LeadStatus
lead_status_after db id =
    if any (is_requeueable_lead id) db.leads
    then some LeadStatus.queued
    else elim (find_lead db id) [ none ↦ none | some l ↦ some l.status ]

pub reschedule_callback : Db → Operator → ℕ → ℕ → Db × Rescheduled
reschedule_callback db who id at = elim (first_where (is_outstanding id) db.callbacks) [
  | none ↦ (db, not_found)
  | some row ↦
      let requeued = any (is_requeueable_lead row.lead_id) db.leads in
      (
        audit_in_tx
            (record db {
              callbacks =
                  update_where (is_outstanding id) (λ cb. record cb { scheduled_for = at })
                    db.callbacks;
              leads = update_where (is_requeueable_lead row.lead_id) (requeued_lead at) db.leads;
            })
            (user_entry who "callback.rescheduled" row.id (
              ("lead_id", Meta.number row.lead_id)
              ∷ ("scheduled_for", Meta.number at)
              ∷ ("lead_requeued", Meta.flag requeued)
              ∷ ("lead_status", Meta.text (lead_status_text (lead_status_after db row.lead_id)))
              ∷ [])),
        moved requeued (lead_status_after db row.lead_id),
      )
]

-- where lead_id = $1 and status in ('scheduled', 'missed') and scheduled_for <= $3
abbrev pub is_fulfilled_by : ℕ → ℕ → Callback → Bool
is_fulfilled_by lead now cb = cb.lead_id == lead && is_unkept cb.status && leb cb.scheduled_for now

abbrev kept_callback : ℕ → ℕ → Callback → Callback
kept_callback now call cb = record cb {
  status = CallbackStatus.completed;
  resolved_at = some now;
  fulfilled_call_id = some call;
  resolved_by = none;
}

-- The entries of a loop over the returned rows.
audit_each : (Callback → AuditEntry) → List Callback → Db → Db
audit_each entry [] db = db
audit_each entry (cb ∷ cbs) db = audit_each entry cbs (audit_in_tx db (entry cb))

abbrev service_entry : ℕ → Option String → String → ℕ → List (String × Meta) → AuditEntry
service_entry tenant label action id metadata = record {
  tenant_id = tenant;
  actor_type = ActorType.service;
  actor_id = none;
  actor_label = label;
  action = action;
  entity_type = "callback";
  entity_id = Meta.number id;
  metadata = metadata;
}

-- `now` is the caller's clock, and the row is stamped with the transaction's.
unfoldable pub fulfil_callbacks_for_lead : Db → ℕ → ℕ → ℕ → ℕ → Db × ℕ
unfolding audit_each
fulfil_callbacks_for_lead db tenant lead call now =
    let kept = select_where (is_fulfilled_by lead now) db.callbacks in
    (
      audit_each
          (λ cb.
            service_entry tenant none "callback.fulfilled" cb.id
              (("lead_id", Meta.number lead) ∷ ("call_id", Meta.number call) ∷ []))
          kept
          (record db {
            callbacks =
                update_where (is_fulfilled_by lead now) (kept_callback db.now call) db.callbacks;
          }),
      length kept,
    )

-- A call of the lead was started since the callback was due.
abbrev pub was_called : List CallAttempt → Callback → Bool
was_called attempts cb =
    any (λ a. a.lead_id == cb.lead_id && holds (leb cb.scheduled_for) a.started_at) attempts

-- Subtraction below 0 gives a time before every date: no callback lies before it.
is_overdue : Db → ℕ → Option ℕ → Callback → Bool
is_overdue db grace tenant cb =
    is_scheduled cb.status
    && ltb (cb.scheduled_for + grace * 60000) db.now
    && (not (is_some tenant) || holds (λ t. cb.tenant_id == t) tenant)
    && not (was_called db.call_attempts cb)

overdue_callbacks : Db → ℕ → Option ℕ → ℕ → List Callback
overdue_callbacks db grace tenant limit = take limit (
    sort_by (λ a b. leb a.scheduled_for b.scheduled_for)
      (select_where (is_overdue db grace tenant) db.callbacks))

abbrev missed_callback : ℕ → Callback → Callback
missed_callback now cb = record cb { status = CallbackStatus.missed; resolved_at = some now }

abbrev is_one_of : List Callback → Callback → Bool
is_one_of rows cb = any (λ r. r.id == cb.id) rows

pub mark_missed_callbacks : Db → Option ℕ → Option ℕ → Option ℕ → Db × List Callback
mark_missed_callbacks db grace_minutes limit tenant =
    let grace = get_or grace_minutes missed_grace_minutes in
    let rows = overdue_callbacks db grace tenant (get_or limit 200) in
    (
      audit_each
          (λ cb.
            service_entry cb.tenant_id (some "cron") "callback.missed" cb.id
              (("lead_id", Meta.number cb.lead_id) ∷ ("grace_minutes", Meta.number grace) ∷ []))
          rows
          (record db {
            callbacks = update_where (is_one_of rows) (missed_callback db.now) db.callbacks;
          }),
      rows,
    )
