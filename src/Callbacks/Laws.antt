-- ===== src/Callbacks/Laws.antt =====
-- What each operation does to the promises, and to the leads.
use voice_call.Base.{
  ℕ, ◌+◌, ◌*◌, ◌<◌, ◌≡◌, refl, sym, ap, ◌∙◌, subst, inl, inr, String, Bool, true, false, ◌&&◌,
  Option, none, some, List, [], ◌∷◌, arith, ◌==◌, ==_iff, if◌then◌else◌, get_or, any, first_where,
  select_where, update_where, Bool-cases, Option-cases, All, All-mono, All-mem, All-select_where,
  All-select_where-All, All-take, All-sort_by, All-update_where_made, first_where-none_iff,
  first_where-update_where, any-first_where, mem-update_where_untouched, is_some, Memᴰ, All-both,
  All-listed, any-mem, Distinct, Distinct-unique, mem-update_where_touched, mem-any, ==_refl,
  mem-update_where, ◌⊎◌,
}
use voice_call.Schema.{Db, Callback, CallbackStatus, Lead, AuditEntry, audit_in_tx, find_lead}
use voice_call.Callbacks.{
  Resolution, Operator, is_outstanding, resolve_callback, may_requeue, reschedule_callback,
  is_requeueable_lead, requeued_lead, is_fulfilled_by, kept_callback, audit_each,
  fulfil_callbacks_for_lead, was_called, is_overdue, overdue_callbacks, is_one_of, missed_callback,
  missed_grace_minutes, resolved_callback, mark_missed_callbacks,
}

audit_each-callbacks :
    (entry : Callback → AuditEntry) (rows : List Callback) (db : Db)
    → (audit_each entry rows db).callbacks ≡ db.callbacks
unfolding audit_each audit_in_tx
audit_each-callbacks entry [] db = refl
audit_each-callbacks entry (cb ∷ cbs) db =
    audit_each-callbacks entry cbs (audit_in_tx db (entry cb))

audit_each-rest :
    (entry : Callback → AuditEntry) (rows : List Callback) (db : Db)
    → record db { audit_events = (audit_each entry rows db).audit_events }
      ≡ audit_each entry rows db
unfolding audit_each audit_in_tx
audit_each-rest entry [] db = refl
audit_each-rest entry (cb ∷ cbs) db = audit_each-rest entry cbs (audit_in_tx db (entry cb))

-- What fulfilling writes beside the promises and the audit trail: nothing.
pub fulfil_callbacks_for_lead-rest :
    (db : Db) (tenant lead call now : ℕ)
    → let out = (fulfil_callbacks_for_lead db tenant lead call now).0 in
      record db { callbacks = out.callbacks; audit_events = out.audit_events } ≡ out
unfolding fulfil_callbacks_for_lead
fulfil_callbacks_for_lead-rest db tenant lead call now =
    let p = audit_each-rest _ (select_where (is_fulfilled_by lead now) db.callbacks) _ in
    ap (λ (x : Db). record db { callbacks = x.callbacks; audit_events = x.audit_events }) (sym p)
    ∙ p

-- Once a call went out to the lead, no promise to it that was due by then is left open or stays
-- recorded as missed.
pub fulfil_callbacks_for_lead_keeps :
    (db : Db) (tenant lead call now : ℕ)
    → All
        (λ cb. is_fulfilled_by lead now cb ≡ false)
        (fulfil_callbacks_for_lead db tenant lead call now).0.callbacks
unfolding fulfil_callbacks_for_lead
fulfil_callbacks_for_lead_keeps db tenant lead call now = rw (audit_each-callbacks) (
    All-update_where_made (λ cb. is_fulfilled_by lead now cb ≡ false) (is_fulfilled_by lead now)
      (kept_callback db.now call) db.callbacks (λ cb h. ground arith) (λ cb h. h))

module _ (db : Db) (who : Operator) (id : ℕ) (resolution : Resolution) (note : Option String) where
  resolve_callback_missing :
      first_where (is_outstanding id) db.callbacks ≡ none
      → resolve_callback db who id resolution note ≡ (db, false)
  unfolding resolve_callback
  resolve_callback_missing e = rw (e, resolve_callback) refl

  resolve_callback_found :
      {row : Callback}
      → first_where (is_outstanding id) db.callbacks ≡ some row
      → ((resolve_callback db who id resolution note).1 ≡ true)
        × ((resolve_callback db who id resolution note).0.leads ≡ db.leads)
        × ((resolve_callback db who id resolution note).0.callbacks
            ≡ update_where
                (is_outstanding id)
                (resolved_callback db.now resolution who.user_id note)
                db.callbacks)
  unfolding resolve_callback audit_in_tx
  resolve_callback_found e =
      (rw (e, resolve_callback) refl, rw (e, resolve_callback) refl, rw (e, resolve_callback) refl)

  -- Afterwards the promise is not open.
  resolve_callback_closes :
      first_where (is_outstanding id) (resolve_callback db who id resolution note).0.callbacks
      ≡ none
  resolve_callback_closes = elim (Option-cases (first_where (is_outstanding id) db.callbacks)) [
    | inl e ↦ rw (resolve_callback_missing e) e
    | inr (row, e) ↦ rw ((resolve_callback_found e).2) (
        (first_where-none_iff (is_outstanding id) _).1 (
          All-update_where_made (λ cb. is_outstanding id cb ≡ false) (is_outstanding id)
            (resolved_callback db.now resolution who.user_id note) db.callbacks
            (λ cb h. resolved-closed cb) (λ cb h. h)))
  ]
    where
      resolved-closed :
          (cb : Callback)
          → is_outstanding id (resolved_callback db.now resolution who.user_id note cb) ≡ false
      resolved-closed cb = ground arith

-- Resolving a promise by hand answers whether it was open, and closes it for good: a second attempt
-- answers no and changes nothing. The leads and their queued calls are left alone.
pub resolve_callback_once :
    (db : Db) (who who' : Operator) (id : ℕ) (resolution again : Resolution)
    (note note' : Option String)
    → ((resolve_callback db who id resolution note).1 ≡ any (is_outstanding id) db.callbacks)
      × ((resolve_callback db who id resolution note).0.leads ≡ db.leads)
      × (resolve_callback (resolve_callback db who id resolution note).0 who' id again note'
          ≡ ((resolve_callback db who id resolution note).0, false))
resolve_callback_once db who who' id resolution again note note' =
    elim (Option-cases (first_where (is_outstanding id) db.callbacks)) [
      | inl e ↦
          let same = resolve_callback_missing db who id resolution note e in
          (
            ap (λ (r : Db × Bool). r.1) same
                ∙ sym (any-first_where (is_outstanding id) db.callbacks ∙ ap is_some e),
            ap (λ (r : Db × Bool). r.0.leads) same,
            closed,
          )
      | inr (row, e) ↦
          let found = resolve_callback_found db who id resolution note e in
          (
            found.0 ∙ sym (any-first_where (is_outstanding id) db.callbacks ∙ ap is_some e),
            found.1,
            closed,
          )
    ]
  where
    closed :
        resolve_callback (resolve_callback db who id resolution note).0 who' id again note'
        ≡ ((resolve_callback db who id resolution note).0, false)
    closed =
        resolve_callback_missing _ who' id again note'
          (resolve_callback_closes db who id resolution note)

-- A promise is never moved past a do-not-call: whatever is rescheduled, a lead in a state that the
-- queue does not look at (suppressed, quarantined, in a call, under analysis or review) stays as it
-- is. A lead in any other state that the move concerns is put on the queue for the new time.
pub reschedule_callback_leads :
    (db : Db) (who : Operator) (id at : ℕ) {row : Callback}
    → first_where (is_outstanding id) db.callbacks ≡ some row
    → (lead : ℕ) (l : Lead) → find_lead db lead ≡ some l
    → find_lead (reschedule_callback db who id at).0 lead
      ≡ some (if l.id == row.lead_id && may_requeue l.status then requeued_lead at l else l)
unfolding reschedule_callback find_lead audit_in_tx
reschedule_callback_leads db who id at {row} e lead l found =
    rw (e, reschedule_callback)
      (first_where-update_where (λ l. l.id == lead) (is_requeueable_lead row.lead_id)
        (requeued_lead at) db.leads (λ y. refl) found)

module _ (db : Db) (grace : ℕ) (tenant : Option ℕ) (limit : ℕ) where
  -- A row that the sweep picks.
  abbrev IsPicked : Callback → Type 0
  IsPicked cb = Memᴰ cb db.callbacks × (is_overdue db grace tenant cb ≡ true)

  overdue_callbacks-IsPicked : All IsPicked (overdue_callbacks db grace tenant limit)
  unfolding overdue_callbacks
  overdue_callbacks-IsPicked = All-take IsPicked limit _ (
      All-sort_by IsPicked _ _ (
        All-both (λ cb. Memᴰ cb db.callbacks) (λ cb. is_overdue db grace tenant cb ≡ true) _
          (All-select_where-All _ (is_overdue db grace tenant) db.callbacks
            (All-listed db.callbacks db.callbacks (λ x m. m)))
          (All-select_where _ (is_overdue db grace tenant) db.callbacks (λ cb h. h))))

  -- A promise that was not picked is none of the rows.
  is_one_of-overdue_callbacks :
      (cb : Callback)
      → Distinct (λ c. c.id) db.callbacks
      → Memᴰ cb db.callbacks
      → is_overdue db grace tenant cb ≡ false
      → is_one_of (overdue_callbacks db grace tenant limit) cb ≡ false
  is_one_of-overdue_callbacks cb keys m h =
      elim (Bool-cases (is_one_of (overdue_callbacks db grace tenant limit) cb)) [
        | inr no_row ↦ no_row
        | inl some_row ↦
            let (r, n, same) =
              any-mem (λ r. r.id == cb.id) (overdue_callbacks db grace tenant limit) some_row in
            let (listed, overdue) = All-mem IsPicked _ r overdue_callbacks-IsPicked n in
            let is : r ≡ cb =
              Distinct-unique (λ c. c.id) db.callbacks r cb keys listed m
                ((==_iff r.id cb.id).0 same) in
            absurd (ground (arith, h, subst (λ x. is_overdue db grace tenant x ≡ true) is overdue))
      ]

  listed_row :
      (cb : Callback)
      → Distinct (λ c. c.id) db.callbacks
      → Memᴰ cb db.callbacks
      → is_one_of (overdue_callbacks db grace tenant limit) cb ≡ true
      → Memᴰ cb (overdue_callbacks db grace tenant limit)
  listed_row cb keys m some_row =
      let rows = overdue_callbacks db grace tenant limit in
      let (r, n, same) = any-mem (λ r. r.id == cb.id) rows some_row in
      let (listed, overdue) = All-mem IsPicked _ r overdue_callbacks-IsPicked n in
      let is : r ≡ cb =
        Distinct-unique (λ c. c.id) db.callbacks r cb keys listed m ((==_iff r.id cb.id).0 same) in
      subst (λ x. Memᴰ x rows) is n

-- The sweep calls a promise missed only if it was open, its grace period is over and no call of the
-- lead was started since it was due. Exactly what it answers is marked in the table: each such
-- promise stands there as missed and resolved now, and every row of the table is one of before or
-- that mark of one that is answered. A promise after whose time the lead was called stands in the
-- table as before, so that a call that did go out is never contradicted.
pub mark_missed_callbacks_sound :
    (db : Db) (grace limit tenant : Option ℕ)
    → Distinct (λ cb. cb.id) db.callbacks
    → let out = mark_missed_callbacks db grace limit tenant in
      All
        (λ cb.
          (cb.status ≡ CallbackStatus.scheduled)
          × (cb.scheduled_for + get_or grace missed_grace_minutes * 60000 < db.now)
          × (was_called db.call_attempts cb ≡ false))
        out.1
      × ((cb : Callback)
          → Memᴰ cb out.1
          → Memᴰ
              (record cb { status = CallbackStatus.missed; resolved_at = some db.now })
              out.0.callbacks)
      × ((y : Callback)
          → Memᴰ y out.0.callbacks
          → Memᴰ y db.callbacks
            ⊎ ((cb : Callback) × Memᴰ cb out.1
                × (y ≡ record cb { status = CallbackStatus.missed; resolved_at = some db.now })))
      × ((cb : Callback)
          → Memᴰ cb db.callbacks
          → was_called db.call_attempts cb ≡ true
          → Memᴰ cb out.0.callbacks)
unfolding mark_missed_callbacks is_overdue
mark_missed_callbacks_sound db grace limit tenant keys =
    let minutes = get_or grace missed_grace_minutes in
    let most = get_or limit 200 in
    let rows = overdue_callbacks db minutes tenant most in
    (
      All-mono (IsPicked db minutes tenant most) _ rows
          (λ cb picked. overdue-facts minutes cb picked.1)
          (overdue_callbacks-IsPicked db minutes tenant most),
      λ cb m. rw (audit_each-callbacks) (
          mem-update_where_touched (is_one_of rows) (missed_callback db.now) db.callbacks cb
            (mem-any (λ r. r.id == cb.id) rows cb m (==_refl cb.id))
            (All-mem (IsPicked db minutes tenant most) rows cb
              (overdue_callbacks-IsPicked db minutes tenant most) m).0),
      λ y m.
          row_of minutes most y
            (subst (λ (cbs : List Callback). Memᴰ y cbs) (audit_each-callbacks _ rows _) m),
      λ cb m called. rw (audit_each-callbacks) (
          mem-update_where_untouched (is_one_of rows) (missed_callback db.now) db.callbacks cb
            (is_one_of-overdue_callbacks db minutes tenant most cb keys m (ground arith)) m),
    )
  where
    overdue-facts :
        (minutes : ℕ) (cb : Callback)
        → is_overdue db minutes tenant cb ≡ true
        → (cb.status ≡ CallbackStatus.scheduled)
          × (cb.scheduled_for + minutes * 60000 < db.now)
          × (was_called db.call_attempts cb ≡ false)
    overdue-facts minutes cb h = ground arith

    row_of :
        (minutes most : ℕ) (y : Callback)
        → Memᴰ y (
            update_where
              (is_one_of (overdue_callbacks db minutes tenant most))
              (missed_callback db.now)
              db.callbacks)
        → Memᴰ y db.callbacks
          ⊎ ((cb : Callback) × Memᴰ cb (overdue_callbacks db minutes tenant most)
              × (y ≡ missed_callback db.now cb))
    row_of minutes most y m =
        let rows = overdue_callbacks db minutes tenant most in
        let (cb, old, is) =
          mem-update_where (is_one_of rows) (missed_callback db.now) db.callbacks y m in
        elim (Bool-cases (is_one_of rows cb)) [
          | inl row ↦ inr (cb, listed_row db minutes tenant most cb keys old row, rw row at is)
          | inr other ↦
              let same : y ≡ cb = rw other at is in
              inl (subst (λ x. Memᴰ x db.callbacks) (sym same) old)
        ]
