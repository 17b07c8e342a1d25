-- ===== src/SyncWorker/Drain.antt =====
-- lib/integrations/sync-worker.ts, `drainSyncOutbox` and `flushTenantOutbox`: the due items of the
-- outbox, one after the other. `draw` gives the random number of an item's backoff.
pub mod Laws
mod Closing
mod Tests
use voice_call.Base.{
  ℕ, suc, ◌+◌, String, Bool, true, false, not, ◌&&◌, Option, none, some, List, [], ◌∷◌, ◌++◌, ◌==◌,
  str_eq, if◌then◌else◌, holds, update_where, length,
}
use voice_call.Schema.{
  Db, Integration, IntegrationType, IntegrationStatus, SyncItem, SyncStatus, SyncTarget, ActorType,
  Meta, audit_in_tx, is_active_integration, same_type,
}
use voice_call.Pii.{Cipher}
use voice_call.Outbox.{clip, claim_due_syncs, mark_sync_succeeded, mark_sync_failed, SyncFailure}
use voice_call.SyncWorker.{
  SyncError, integration, other, Outgoing, Outside, integration_of, type_text,
}
use voice_call.SyncWorker.Dispatch.{Verdict, done, skipped, failed, Handled, dispatch}

pub record DrainResult : Type 0 where
  pub processed : ℕ
  pub succeeded : ℕ
  pub failed : ℕ
  pub skipped : ℕ

-- The loop's state. An item without a call id is a statement that PostgreSQL refuses; it aborts the
-- transaction, and the drain throws.
pub record Drain : Type 0 where
  pub db : Db
  pub sent : List Outgoing
  pub result : DrainResult
  pub aborted : Bool

-- String(item.payload.call_id)
pub payload_call : List (String × Meta) → Option ℕ
payload_call [] = none
payload_call (entry ∷ payload) =
    let rest = payload_call payload in
    if str_eq entry.0 "call_id" then elim entry.1 [ Meta.number n ↦ some n | _ ↦ none ] else rest

abbrev error_message : SyncError → String
error_message (integration message retryable status) = message
error_message (other message) = message

-- err instanceof IntegrationError ? err.retryable : true
abbrev pub is_retryable : SyncError → Bool
is_retryable (integration message retryable status) = retryable
is_retryable (other message) = true

-- An IntegrationError that is final and says 401.
abbrev pub is_auth_failure : SyncError → Bool
is_auth_failure (integration message retryable status) =
    not retryable && holds (λ code. code == 401) status
is_auth_failure (other message) = false

abbrev pub failure_of : SyncItem → SyncError → SyncFailure
failure_of item error = record {
  id = item.id;
  tenant_id = item.tenant_id;
  attempts = item.attempts;
  error = error_message error;
  retryable = is_retryable error;
}

abbrev pub disabled : IntegrationType → String → Integration → Integration
disabled type reason i = record i {
  status = IntegrationStatus.error;
  last_error = some (clip 500 reason);
}

pub disable_integration : Db → SyncItem → String → Db
disable_integration db item reason =
    let type = integration_of item.target in
    audit_in_tx
      (record db {
        integrations =
            update_where (λ i. same_type i.type type && is_active_integration i.status)
              (disabled type reason) db.integrations;
      })
      (record {
        tenant_id = item.tenant_id;
        actor_type = ActorType.system;
        actor_id = none;
        actor_label = none;
        action = "integration.disabled";
        entity_type = "integration";
        entity_id = Meta.text (type_text type);
        metadata = ("reason", Meta.text (clip 500 reason)) ∷ [];
      })

-- 5 minutes
abbrev pub postponement : ℕ
postponement = 300000

abbrev pub postponed : ℕ → SyncItem → SyncItem
postponed now s = record s { status = SyncStatus.pending; next_attempt_at = now + postponement }

pub postpone : Db → ℕ → Db
postpone db id = record db {
  sync_outbox = update_where (λ s. s.id == id) (postponed db.now) db.sync_outbox;
}

-- What is written for an item, by how its sync ended.
pub close_item : (ℕ → ℕ) → Db → SyncItem → Verdict → Db
close_item draw db item done = mark_sync_succeeded db item.id
close_item draw db item skipped = postpone db item.id
close_item draw db item (failed error) =
    let marked = mark_sync_failed db (draw item.id) (failure_of item error) in
    if is_auth_failure error then disable_integration marked item (error_message error) else marked

pub counted : Verdict → DrainResult → DrainResult
counted done r = record r { succeeded = r.succeeded + 1 }
counted skipped r = record r { skipped = r.skipped + 1 }
counted (failed error) r = record r { failed = r.failed + 1 }

module _ (cipher : Cipher) (outside : Outside) (draw : ℕ → ℕ) (wall : ℕ) where
  pub drain_one : Drain → SyncItem → ℕ → Drain
  drain_one d item call =
      let h = dispatch cipher outside wall d.db item call in
      record d {
        db = close_item draw h.db item h.verdict;
        sent = d.sent ++ h.sent;
        result = counted h.verdict d.result;
      }

  pub drain_items : Drain → List SyncItem → Drain
  drain_items d [] = d
  drain_items d (item ∷ items) = elim (payload_call item.payload) [
    | none ↦ record d { aborted = true }
    | some call ↦ drain_items (drain_one d item call) items
  ]

  unfoldable pub drain_sync_outbox : (ℕ → Bool) → Db → ℕ → Drain
  unfolding drain_items drain_one close_item counted disable_integration postpone payload_call
  drain_sync_outbox held db limit =
      let claim = claim_due_syncs held db limit in
      drain_items
        (record {
          db = claim.0;
          sent = [];
          result = record { processed = length claim.1; succeeded = 0; failed = 0; skipped = 0 };
          aborted = false;
        })
        claim.1

  -- The drain in a transaction of its own: an error rolls it back and is swallowed.
  pub flush_tenant_outbox : (ℕ → Bool) → Db → ℕ → Db × DrainResult
  flush_tenant_outbox held db limit =
      let d = drain_sync_outbox held db limit in
      if d.aborted
      then (db, record { processed = 0; succeeded = 0; failed = 0; skipped = 0 })
      else (d.db, d.result)
