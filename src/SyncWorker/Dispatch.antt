-- ===== src/SyncWorker/Dispatch.antt =====
-- lib/integrations/sync-worker.ts, `dispatch` and what it calls: one item of the outbox is sent. A
-- notifier that tests inject is left out.
pub mod Held
use voice_call.Base.{
  ℕ, String, Bool, true, false, ◌&&◌, ◌||◌, Option, none, some, List, [], ◌∷◌, ◌++◌, ◌==◌, str_eq,
  if◌then◌else◌, get_or, update_where, Outcome, ok, err, ◌+text◌, Error, unsupported_envelope,
}
use voice_call.Schema.{
  Db, SealedSecret, IntegrationType, SyncTarget, SyncItem, RoutingEvent, Meta, audit_in_tx,
}
use voice_call.Pii.{Cipher, truthy}
use voice_call.Results.{lead_entry}
use voice_call.Review.{intent_text}
use voice_call.SyncWorker.{
  SyncError, integration, other, Reply, accepted, thrown, SheetRow, Notification, Request,
  append_row, update_contact, send, Outgoing, Outside, SyncContext, load_context, committed,
  load_credential, load_credential_or_null, type_text, sheet_row, contact_update, follow_up_task,
  notification,
}

pub data Verdict : Type 0 where
  done skipped : Verdict
  failed : SyncError → Verdict

-- The database after a sync, what was sent for it, and how it ended.
pub record Handled : Type 0 where
  pub db : Db
  pub sent : List Outgoing
  pub verdict : Verdict

abbrev pub handled : Db → List Outgoing → Verdict → Handled
handled db sent verdict = record { db = db; sent = sent; verdict = verdict }

abbrev pub stop : Db → String → Handled
stop db message = handled db [] (failed (integration message false none))

-- A decryption that fails throws an error that is none of the integration's; the version that the
-- text of one names is left out.
abbrev crypto_message : Error → String
crypto_message unsupported_envelope = "Unsupported PII envelope version"
crypto_message _ = "Unsupported state or unable to authenticate data"

abbrev pub unreadable : Db → Error → Handled
unreadable db e = handled db [] (failed (other (crypto_message e)))

-- What was sent stays sent when a later step throws.
abbrev unless_thrown : Reply → Db → List Outgoing → Handled → Handled
unless_thrown accepted db sent rest = rest
unless_thrown (thrown error) db sent rest = handled db sent (failed error)

-- buildClient: a credential that makes no client is a configuration error.
abbrev with_client :
    Outside → Db → IntegrationType → Option SealedSecret → (SealedSecret → Handled) → Handled
with_client outside db type none rest =
    stop db ("No active " +text type_text type +text " integration for this tenant")
with_client outside db type (some secret) rest = elim (outside.build type secret) [
  | none ↦ rest secret
  | some message ↦
      stop db (
        "Cannot build " +text type_text type +text " client from stored credential: " +text message)
]

abbrev default_sheet_range : String
default_sheet_range = "Call Log!A:Z"

abbrev sheet_id : SyncContext → Option String
sheet_id ctx = elim ctx.campaign [ none ↦ none | some c ↦ truthy c.google_sheet_id ]

abbrev sheet_tab : SyncContext → String
sheet_tab ctx = elim ctx.campaign [
  | none ↦ default_sheet_range
  | some c ↦ get_or c.google_sheet_tab default_sheet_range
]

unfoldable pub notified_events : ℕ → List RoutingEvent → List RoutingEvent
notified_events call events =
    update_where (λ e. e.call_id == call && str_eq e.status "pending")
      (λ e. record e { status = "notified" }) events

module _ (cipher : Cipher) (outside : Outside) (wall : ℕ) (db : Db) (item : SyncItem) where
  abbrev pub outgoing : SyncContext → Request → Outgoing
  outgoing ctx request = record { call_id = ctx.attempt.id; request = request }

  unfoldable pub sheets_audited : SyncContext → String → Db
  sheets_audited ctx sheet = audit_in_tx db (
      lead_entry item.tenant_id "sync.sheets_appended" "call" ctx.attempt.id
        (("spreadsheet_id", Meta.text sheet) ∷ []))

  unfoldable pub append_sheet : SyncContext → String → SheetRow → Handled
  append_sheet ctx sheet row =
      with_client outside db IntegrationType.google_sheets
        (load_credential db ctx.attempt.campaign_id IntegrationType.google_sheets)
        λ secret.
          let request = append_row sheet (sheet_tab ctx) row in
          unless_thrown (outside.reply secret request) db (outgoing ctx request ∷ [])
            (handled (sheets_audited ctx sheet) (outgoing ctx request ∷ []) done)

  unfoldable pub sync_sheets : SyncContext → Handled
  sync_sheets ctx = elim (sheet_id ctx) [
    | none ↦ stop db "Campaign has no Google Sheet destination configured"
    | some sheet ↦ elim (sheet_row cipher outside wall ctx) [
      | err e ↦ unreadable db e
      | ok row ↦ append_sheet ctx sheet row
    ]
  ]

  unfoldable pub hubspot_audited : SyncContext → String → Db
  hubspot_audited ctx record_id = audit_in_tx db (
      lead_entry item.tenant_id "sync.hubspot_updated" "call" ctx.attempt.id
        (("hubspot_record_id", Meta.text record_id) ∷ []))

  -- The task follows the update, if the lead wants to be called or met.
  unfoldable pub add_task : SyncContext → SealedSecret → String → List Outgoing → Handled
  add_task ctx secret record_id sent =
      let task = follow_up_task cipher outside wall ctx record_id in
      if ctx.analysis.result.human_followup || ctx.analysis.result.callback_requested
      then unless_thrown (outside.reply secret task) db (sent ++ outgoing ctx task ∷ [])
          (handled (hubspot_audited ctx record_id) (sent ++ outgoing ctx task ∷ []) done)
      else handled (hubspot_audited ctx record_id) sent done

  unfoldable pub sync_hubspot : SyncContext → Handled
  sync_hubspot ctx = elim (truthy ctx.lead.hubspot_record_id) [
    | none ↦ stop db "Lead has no HubSpot record id"
    | some record_id ↦
        with_client outside db IntegrationType.hubspot
          (load_credential db ctx.attempt.campaign_id IntegrationType.hubspot)
          λ secret.
            let request = update_contact record_id (contact_update cipher outside wall ctx) in
            unless_thrown (outside.reply secret request) db (outgoing ctx request ∷ [])
              (add_task ctx secret record_id (outgoing ctx request ∷ []))
  ]

  -- The routing event is stamped, whether or not the client has a channel.
  unfoldable pub stamped : SyncContext → Db → Db
  stamped ctx db' = record db' {
    routing_events = notified_events ctx.attempt.id db'.routing_events;
  }

  unfoldable pub notification_audited : SyncContext → Notification → Db
  notification_audited ctx message = audit_in_tx db (
      lead_entry item.tenant_id "sync.notification_sent" "call" ctx.attempt.id (
        ("channel", Meta.text "slack")
        ∷ ("intent", Meta.text message.intent)
        ∷ ("score", Meta.integer message.score)
        ∷ []))

  unfoldable pub send_by : SyncContext → Notification → SealedSecret → Handled
  send_by ctx message secret =
      unless_thrown (outside.reply secret (send message)) db (outgoing ctx (send message) ∷ []) (
        handled (stamped ctx (notification_audited ctx message)) (outgoing ctx (send message) ∷ [])
          done)

  unfoldable pub send_notification : SyncContext → Notification → Handled
  send_notification ctx message = elim (load_credential_or_null db IntegrationType.notification) [
    | none ↦ handled (stamped ctx db) [] done
    | some secret ↦
        with_client outside db IntegrationType.notification (some secret) (send_by ctx message)
  ]

  unfoldable pub notify : SyncContext → Handled
  notify ctx = elim (notification cipher outside wall ctx) [
    | err e ↦ unreadable db e
    | ok message ↦ send_notification ctx message
  ]

  abbrev missing_text : SyncTarget → String
  missing_text SyncTarget.google_sheets = "Call context missing for sheets sync"
  missing_text SyncTarget.hubspot = "Call context missing for HubSpot sync"
  missing_text SyncTarget.notification = "Call context missing for notification"

  unfoldable pub dispatch_to : SyncTarget → SyncContext → Handled
  dispatch_to SyncTarget.google_sheets ctx = sync_sheets ctx
  dispatch_to SyncTarget.hubspot ctx = sync_hubspot ctx
  dispatch_to SyncTarget.notification ctx = notify ctx

  -- Nothing leaves while the result is held.
  unfoldable pub dispatch : ℕ → Handled
  dispatch call = elim (load_context db call) [
    | none ↦ stop db (missing_text item.target)
    | some ctx ↦ if committed ctx then dispatch_to item.target ctx else handled db [] skipped
  ]
