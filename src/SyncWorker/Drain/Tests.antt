-- ===== src/SyncWorker/Drain/Tests.antt =====
-- A drain of two items: a confirmed result for the sheet, and one that is held.
use voice_call.Base.{
  ℕ, ◌≡◌, refl, false, arith, List, count_where, none, some, [], ◌∷◌, All, first_where,
  update_where, select_where, sort_by, any, length,
}
use voice_call.Base.Int.{pos}
use voice_call.Fixtures.{plain_cipher, a_db, a_lead, an_attempt, keen_result, a_campaign}
use voice_call.Schema.{
  Db, LeadStatus, CallStatus, CallAnalysis, ReviewStatus, SyncItem, SyncTarget, SyncStatus,
  Integration, IntegrationType, IntegrationStatus, Meta, find_attempt, find_lead, find_tenant,
  find_campaign, audit_in_tx,
}
use voice_call.Schema.Qualification.{Intent}
use voice_call.Pii.{decrypt_pii_or_null, decrypt_pii, truthy}
use voice_call.Outbox.{claim_due_syncs, mark_sync_succeeded, clip}
use voice_call.SyncWorker.{Outside, accepted, load_context, committed, load_credential, sheet_row}
use voice_call.SyncWorker.Dispatch.{
  Verdict, dispatch, dispatch_to, sync_sheets, append_sheet, sheets_audited,
}
use voice_call.SyncWorker.Dispatch.Held.{IsReleased}
use voice_call.SyncWorker.Drain.{drain_sync_outbox}
use voice_call.SyncWorker.Drain.Laws.{drain_sync_outbox-IsReleased}
use voice_call.SyncWorker.Drain.Closing.{
  EachClosed, is_done, is_failed, is_skipped, drain_sync_outbox-accounted,
}

abbrev an_analysis : ℕ → ℕ → ReviewStatus → CallAnalysis
an_analysis id call status = record {
  id = id;
  call_id = call;
  intent = Intent.hot;
  score = pos 80;
  qualification = "qualified";
  result = keen_result;
  signals = [];
  routing_action = "hot_sales_routing";
  confidence = 950;
  model = "model";
  prompt_version = "v1";
  review_status = status;
  review_reason = none;
  reviewed_by = none;
  reviewed_at = none;
}

abbrev an_item : ℕ → ℕ → SyncItem
an_item id call = record {
  id = id;
  tenant_id = 1;
  target = SyncTarget.google_sheets;
  dedupe_key = "key";
  payload = ("call_id", Meta.number call) ∷ [];
  status = SyncStatus.pending;
  attempts = 0;
  next_attempt_at = 0;
  completed_at = none;
  last_error = none;
}

abbrev sheets : Integration
sheets = record {
  id = 30;
  type = IntegrationType.google_sheets;
  status = IntegrationStatus.active;
  last_error = none;
  credential =
      some (record { key_id = "k"; wrapped_dek = ""; iv = ""; ciphertext = ""; auth_tag = "" });
}

abbrev pending_db : Db
pending_db =
    record (a_db (a_lead 7 LeadStatus.qualified ∷ a_lead 8 LeadStatus.pending_review ∷ [])
      (an_attempt 4 7 CallStatus.completed ∷ an_attempt 5 8 CallStatus.completed ∷ [])) {
        campaigns = record a_campaign { google_sheet_id = some "sheet" } ∷ [];
        call_analyses =
            an_analysis 9 4 ReviewStatus.confirmed
            ∷ an_analysis 10 5 ReviewStatus.pending_review
            ∷ [];
        sync_outbox = an_item 20 4 ∷ an_item 21 5 ∷ [];
        integrations = sheets ∷ [];
      }

abbrev calm : Outside
calm = record {
  build = λ type secret. none;
  reply = λ secret request. accepted;
  iso = λ time. "2024-01-01T00:00:00.000Z";
}

abbrev draw : ℕ → ℕ
draw id = 0

-- The confirmed result is sent, the held one put off.
one_is_sent :
    (length (drain_sync_outbox plain_cipher calm draw 0 (λ id. false) pending_db 20).sent ≡ 1)
    × ((drain_sync_outbox plain_cipher calm draw 0 (λ id. false) pending_db 20).result.skipped ≡ 1)
unfolding drain_sync_outbox claim_due_syncs sort_by select_where update_where any dispatch
    dispatch_to load_context committed find_attempt find_lead find_tenant first_where sync_sheets
    append_sheet sheets_audited truthy find_campaign sheet_row decrypt_pii_or_null decrypt_pii
    load_credential mark_sync_succeeded clip audit_in_tx
one_is_sent = (refl, refl)

through : (drain_sync_outbox plain_cipher calm draw 0 (λ id. false) pending_db 20).aborted ≡ false
unfolding drain_sync_outbox claim_due_syncs sort_by select_where update_where any dispatch
    dispatch_to load_context committed find_attempt find_lead find_tenant first_where sync_sheets
    append_sheet sheets_audited truthy find_campaign sheet_row decrypt_pii_or_null decrypt_pii
    load_credential mark_sync_succeeded clip audit_in_tx
through = refl

drain_sync_outbox-IsReleased_example :
    All
      (λ o. IsReleased pending_db.call_analyses o.call_id)
      (drain_sync_outbox plain_cipher calm draw 0 (λ id. false) pending_db 20).sent
drain_sync_outbox-IsReleased_example =
    drain_sync_outbox-IsReleased plain_cipher calm draw 0 (λ id. false) pending_db 20

drain_sync_outbox-accounted_example :
    let out = drain_sync_outbox plain_cipher calm draw 0 (λ id. false) pending_db 20 in
    let items = (claim_due_syncs (λ id. false) pending_db 20).1 in
    (verdicts : List Verdict) × EachClosed pending_db.now out.db.sync_outbox items verdicts
    × (out.result.processed ≡ length items)
    × (out.result.succeeded ≡ count_where is_done verdicts)
    × (out.result.failed ≡ count_where is_failed verdicts)
    × (out.result.skipped ≡ count_where is_skipped verdicts)
drain_sync_outbox-accounted_example =
    drain_sync_outbox-accounted plain_cipher calm draw 0 (λ id. false) pending_db 20
      ((λ e. omega arith, tt), (tt, tt)) through
