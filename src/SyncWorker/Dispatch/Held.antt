-- ===== src/SyncWorker/Dispatch/Held.antt =====
-- What a sync sends is about its own call, and only about a result that is committed.
use voice_call.Base.{
  ℕ, ◌≡◌, refl, inl, inr, String, true, Option, none, some, List, ◌==◌, All, All-append, All-mono,
  first_where, Bool-cases, Option-cases, Outcome, ok, err, ◌||◌, ◌+text◌,
}
use voice_call.Schema.{
  Db, SealedSecret, IntegrationType, SyncTarget, SyncItem, CallAnalysis, audit_in_tx, find_attempt,
  find_lead, find_tenant,
}
use voice_call.Pii.{Cipher, truthy}
use voice_call.Review.{may_auto_sync}
use voice_call.SyncWorker.{
  Reply, accepted, thrown, append_row, update_contact, send, Outgoing, Outside, SyncContext,
  load_context, committed, campaign_of, load_credential, load_credential_or_null, sheet_row,
  SheetRow, contact_update, follow_up_task, notification, Notification, type_text,
}
use voice_call.SyncWorker.Dispatch.{
  Handled, stop, with_client, unless_thrown, sheet_id, sheet_tab, append_sheet, sync_sheets,
  add_task, sync_hubspot, send_by, send_notification, notify, dispatch_to, dispatch, unreadable,
  sheets_audited, hubspot_audited, stamped, notification_audited,
}

-- Everything that was sent is about the call; the analyses and the outbox stand as before.
record Clean (db : Db) (call : ℕ) (h : Handled) : Type 0 where
  about : All (λ o. o.call_id ≡ call) h.sent
  analyses : h.db.call_analyses ≡ db.call_analyses
  outbox : h.db.sync_outbox ≡ db.sync_outbox
  now : h.db.now ≡ db.now

stop-Clean : (db : Db) (call : ℕ) (message : String) → Clean db call (stop db message)
stop-Clean db call message = record { about = tt; analyses = refl; outbox = refl; now = refl }

unless_thrown-Clean :
    (db : Db) (call : ℕ) (reply : Reply) (sent : List Outgoing) (rest : Handled)
    → All (λ o. o.call_id ≡ call) sent
    → Clean db call rest
    → Clean db call (unless_thrown reply db sent rest)
unless_thrown-Clean db call accepted sent rest about clean = clean
unless_thrown-Clean db call (thrown error) sent rest about clean = record {
  about = about;
  analyses = refl;
  outbox = refl;
  now = refl;
}

with_client-Clean :
    (outside : Outside) (db : Db) (call : ℕ) (type : IntegrationType) (secret : Option SealedSecret)
    (rest : SealedSecret → Handled)
    → ((s : SealedSecret) → Clean db call (rest s))
    → Clean db call (with_client outside db type secret rest)
with_client-Clean outside db call type none rest clean = stop-Clean db call _
with_client-Clean outside db call type (some secret) rest clean =
    built (outside.build type secret) (clean secret)
  where
    built :
        (reason : Option String)
        → Clean db call (rest secret)
        → Clean db call (elim reason [
          | none ↦ rest secret
          | some message ↦ stop db (
              "Cannot build "
              +text type_text type
              +text " client from stored credential: "
              +text message)
        ])
    built none k = k
    built (some message) k = stop-Clean db call _

module _ (cipher : Cipher) (outside : Outside) (wall : ℕ) (db : Db) (item : SyncItem)
    (ctx : SyncContext) where
  append_sheet-Clean :
      (sheet : String) (row : SheetRow)
      → Clean db ctx.attempt.id (append_sheet cipher outside wall db item ctx sheet row)
  unfolding append_sheet sheets_audited audit_in_tx
  append_sheet-Clean sheet row =
      with_client-Clean outside db ctx.attempt.id IntegrationType.google_sheets
        (load_credential db ctx.attempt.campaign_id IntegrationType.google_sheets) _
        (λ secret.
          unless_thrown-Clean db ctx.attempt.id
            (outside.reply secret (append_row sheet (sheet_tab ctx) row)) _ _ (refl, tt)
            (record { about = (refl, tt); analyses = refl; outbox = refl; now = refl }))

  sync_sheets-Clean : Clean db ctx.attempt.id (sync_sheets cipher outside wall db item ctx)
  unfolding sync_sheets
  sync_sheets-Clean = elim (Option-cases (sheet_id ctx)) [
    | inl missing ↦ rw (missing, sync_sheets) (stop-Clean db ctx.attempt.id _)
    | inr (sheet, named) ↦
        rw (named, sync_sheets) (with_row sheet (sheet_row cipher outside wall ctx))
  ]
    where
      with_row :
          (sheet : String) (row : Outcome SheetRow)
          → Clean db ctx.attempt.id (elim row [
            | err e ↦ unreadable db e
            | ok r ↦ append_sheet cipher outside wall db item ctx sheet r
          ])
      with_row sheet (err e) = record { about = tt; analyses = refl; outbox = refl; now = refl }
      with_row sheet (ok r) = append_sheet-Clean sheet r

  add_task-Clean :
      (secret : SealedSecret) (record_id : String) (sent : List Outgoing)
      → All (λ o. o.call_id ≡ ctx.attempt.id) sent
      → Clean db ctx.attempt.id (add_task cipher outside wall db item ctx secret record_id sent)
  unfolding add_task hubspot_audited audit_in_tx
  add_task-Clean secret record_id sent about =
      let task = follow_up_task cipher outside wall ctx record_id in
      let more =
        All-append (λ (o : Outgoing). o.call_id ≡ ctx.attempt.id) sent _ about (refl, tt) in
      elim (Bool-cases
        (ctx.analysis.result.human_followup || ctx.analysis.result.callback_requested)) [
          | inl wanted ↦ rw wanted (
              unless_thrown-Clean db ctx.attempt.id (outside.reply secret task) _ _ more
                (record { about = more; analyses = refl; outbox = refl; now = refl }))
          | inr calm ↦
              rw calm (record { about = about; analyses = refl; outbox = refl; now = refl })
        ]

  sync_hubspot-Clean : Clean db ctx.attempt.id (sync_hubspot cipher outside wall db item ctx)
  unfolding sync_hubspot
  sync_hubspot-Clean = elim (Option-cases (truthy ctx.lead.hubspot_record_id)) [
    | inl missing ↦ rw (missing, sync_hubspot) (stop-Clean db ctx.attempt.id _)
    | inr (record_id, named) ↦
        rw (named, sync_hubspot)
          (with_client-Clean outside db ctx.attempt.id IntegrationType.hubspot
            (load_credential db ctx.attempt.campaign_id IntegrationType.hubspot) _
            (λ secret.
              unless_thrown-Clean db ctx.attempt.id
                (outside.reply secret
                  (update_contact record_id (contact_update cipher outside wall ctx)))
                _ _ (refl, tt) (add_task-Clean secret record_id _ (refl, tt))))
  ]

  send_by-Clean :
      (message : Notification) (secret : SealedSecret)
      → Clean db ctx.attempt.id (send_by cipher outside wall db item ctx message secret)
  unfolding send_by stamped notification_audited audit_in_tx
  send_by-Clean message secret =
      unless_thrown-Clean db ctx.attempt.id (outside.reply secret (send message)) _ _ (refl, tt)
        (record { about = (refl, tt); analyses = refl; outbox = refl; now = refl })

  send_notification-Clean :
      (message : Notification)
      → Clean db ctx.attempt.id (send_notification cipher outside wall db item ctx message)
  unfolding send_notification stamped
  send_notification-Clean message =
      elim (Option-cases (load_credential_or_null db IntegrationType.notification)) [
        | inl missing ↦
            rw (missing, send_notification)
              (record { about = tt; analyses = refl; outbox = refl; now = refl })
        | inr (secret, given) ↦
            rw (given, send_notification)
              (with_client-Clean outside db ctx.attempt.id IntegrationType.notification
                (some secret) (send_by cipher outside wall db item ctx message)
                (send_by-Clean message))
      ]

  notify-Clean : Clean db ctx.attempt.id (notify cipher outside wall db item ctx)
  unfolding notify
  notify-Clean = with_message (notification cipher outside wall ctx)
    where
      with_message :
          (message : Outcome Notification)
          → Clean db ctx.attempt.id (elim message [
            | err e ↦ unreadable db e
            | ok m ↦ send_notification cipher outside wall db item ctx m
          ])
      with_message (err e) = record { about = tt; analyses = refl; outbox = refl; now = refl }
      with_message (ok m) = send_notification-Clean m

  dispatch_to-Clean :
      (target : SyncTarget)
      → Clean db ctx.attempt.id (dispatch_to cipher outside wall db item target ctx)
  unfolding dispatch_to
  dispatch_to-Clean SyncTarget.google_sheets = sync_sheets-Clean
  dispatch_to-Clean SyncTarget.hubspot = sync_hubspot-Clean
  dispatch_to-Clean SyncTarget.notification = notify-Clean

-- The call has an analysis that may leave: approved automatically, or confirmed or corrected.
abbrev pub IsReleased : List CallAnalysis → ℕ → Type 0
IsReleased rows call =
    (a : CallAnalysis) × (first_where (λ x. x.call_id == call) rows ≡ some a)
    × (may_auto_sync a.review_status ≡ true)

load_context-analysis :
    (db : Db) (call : ℕ) (ctx : SyncContext)
    → load_context db call ≡ some ctx
    → first_where (λ a. a.call_id == ctx.attempt.id) db.call_analyses ≡ some ctx.analysis
unfolding load_context
load_context-analysis db call ctx e = elim (Option-cases (find_attempt db call)) [
  | inl none_there ↦ absurd (cc (rw (none_there, load_context) at e))
  | inr (c, found) ↦
      let e₁ = rw (found, load_context) at e in
      elim (Option-cases (find_lead db c.lead_id)) [
        | inl none_there ↦ absurd (cc (rw none_there at e₁))
        | inr (l, found_lead) ↦
            let e₂ = rw found_lead at e₁ in
            elim (Option-cases (find_tenant db c.tenant_id)) [
              | inl none_there ↦ absurd (cc (rw none_there at e₂))
              | inr (t, found_tenant) ↦
                  let e₃ = rw found_tenant at e₂ in
                  elim (Option-cases (first_where (λ a. a.call_id == c.id) db.call_analyses)) [
                    | inl none_there ↦ absurd (cc (rw none_there at e₃))
                    | inr (a, analysed) ↦
                        let is : record {
                          attempt = c;
                          lead = l;
                          tenant = t;
                          campaign = campaign_of db c;
                          analysis = a;
                        }
                            ≡ ctx =
                          cc (rw analysed at e₃) in
                        rw (← is) analysed
                  ]
            ]
      ]
]

-- Every request of a sync is about a call whose analysis may leave.
pub dispatch-IsReleased :
    (cipher : Cipher) (outside : Outside) (wall : ℕ) (db : Db) (item : SyncItem) (call : ℕ)
    → let h = dispatch cipher outside wall db item call in
      All (λ o. IsReleased db.call_analyses o.call_id) h.sent
      × (h.db.call_analyses ≡ db.call_analyses)
unfolding dispatch committed
dispatch-IsReleased cipher outside wall db item call = elim (Option-cases (load_context db call)) [
  | inl missing ↦ rw (missing, dispatch) (tt, refl)
  | inr (ctx, loaded) ↦ elim (Bool-cases (committed ctx)) [
    | inl ready ↦
        let clean = dispatch_to-Clean cipher outside wall db item ctx item.target in
        rw (loaded, dispatch)
          (rw ready (
            All-mono (λ (o : Outgoing). o.call_id ≡ ctx.attempt.id)
                (λ (o : Outgoing). IsReleased db.call_analyses o.call_id) _
                (λ o about.
                  rw about (ctx.analysis, load_context-analysis db call ctx loaded, ready))
                clean.about,
            clean.analyses,
          ))
    | inr held ↦ rw (loaded, dispatch) (rw held (tt, refl))
  ]
]

-- A sync leaves the outbox to its caller.
pub dispatch-outbox :
    (cipher : Cipher) (outside : Outside) (wall : ℕ) (db : Db) (item : SyncItem) (call : ℕ)
    → let h = dispatch cipher outside wall db item call in
      (h.db.sync_outbox ≡ db.sync_outbox) × (h.db.now ≡ db.now)
unfolding dispatch
dispatch-outbox cipher outside wall db item call = elim (Option-cases (load_context db call)) [
  | inl missing ↦ rw (missing, dispatch) (refl, refl)
  | inr (ctx, loaded) ↦ elim (Bool-cases (committed ctx)) [
    | inl ready ↦
        let clean = dispatch_to-Clean cipher outside wall db item ctx item.target in
        rw (loaded, dispatch) (rw ready (clean.outbox, clean.now))
    | inr held ↦ rw (loaded, dispatch) (rw held (refl, refl))
  ]
]
