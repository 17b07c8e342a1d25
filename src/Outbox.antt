-- ===== src/Outbox.antt =====
-- lib/integrations/outbox.ts: syncs to be done downstream, kept in the transaction that caused them.
-- `held` says which rows another worker has locked; `draw` is the random number of the backoff.
pub mod Laws
pub mod Lifecycle
mod Tests
use Prim.Native.String
use voice_call.Base.{
  ℕ, zero, suc, ◌+◌, String, Bool, true, false, not, ◌&&◌, ◌||◌, Option, none, some, List, [], ◌∷◌,
  ◌++◌, ltb, leb, ◌==◌, str_eq, if◌then◌else◌, map, any, take, select_where, sort_by, update_where,
}
use voice_call.Schema.{
  Db, SyncItem, SyncTarget, SyncStatus, same_target, ActorType, Meta, audit_in_tx,
}
use voice_call.Retry.{backoff_delay_ms, default_base_ms, default_max_ms}

abbrev pub max_sync_attempts : ℕ
max_sync_attempts = 8

-- The columns of the unique index.
pub has_key : ℕ → SyncTarget → String → SyncItem → Bool
has_key tenant target key s =
    s.tenant_id == tenant && same_target s.target target && str_eq s.dedupe_key key

abbrev new_item : Db → ℕ → SyncTarget → String → List (String × Meta) → SyncItem
new_item db tenant target key payload = record {
  id = db.next_id;
  tenant_id = tenant;
  target = target;
  dedupe_key = key;
  payload = payload;
  status = SyncStatus.pending;
  attempts = 0;
  next_attempt_at = db.now;
  completed_at = none;
  last_error = none;
}

-- insert … on conflict do nothing
unfoldable pub enqueue_sync : Db → ℕ → SyncTarget → String → List (String × Meta) → Db
unfolding has_key
enqueue_sync db tenant target key payload =
    if any (has_key tenant target key) db.sync_outbox then db else record db {
      next_id = suc db.next_id;
      sync_outbox = db.sync_outbox ++ new_item db tenant target key payload ∷ [];
    }

abbrev is_open : SyncStatus → Bool
is_open SyncStatus.pending = true
is_open SyncStatus.failed = true
is_open _ = false

-- status in ('pending', 'failed') and next_attempt_at <= now(), not locked by another worker
is_due : (ℕ → Bool) → ℕ → SyncItem → Bool
is_due held now s = is_open s.status && leb s.next_attempt_at now && not (held s.id)

abbrev claimed_item : SyncItem → SyncItem
claimed_item s = record s { status = SyncStatus.in_flight; attempts = s.attempts + 1 }

due_items : (ℕ → Bool) → Db → ℕ → List SyncItem
due_items held db limit = take limit (
    sort_by (λ a b. leb a.next_attempt_at b.next_attempt_at)
      (select_where (is_due held db.now) db.sync_outbox))

-- id in (…)
abbrev is_among : List SyncItem → SyncItem → Bool
is_among items s = any (λ i. i.id == s.id) items

-- The claimed items are returned as the update left them.
unfoldable pub claim_due_syncs : (ℕ → Bool) → Db → ℕ → Db × List SyncItem
unfolding due_items is_due
claim_due_syncs held db limit =
    let due = due_items held db limit in
    (
      record db { sync_outbox = update_where (is_among due) claimed_item db.sync_outbox },
      select_where (is_among due) (update_where (is_among due) claimed_item db.sync_outbox),
    )

abbrev succeeded_item : ℕ → SyncItem → SyncItem
succeeded_item now s = record s {
  status = SyncStatus.succeeded;
  completed_at = some now;
  last_error = none;
}

unfoldable pub mark_sync_succeeded : Db → ℕ → Db
mark_sync_succeeded db id = record db {
  sync_outbox = update_where (λ s. s.id == id) (succeeded_item db.now) db.sync_outbox;
}

-- text.slice(0, n), by characters
unfoldable pub clip : ℕ → String → String
clip zero s = ""
clip (suc n) String.[] = ""
clip (suc n) (String.◌∷◌ c s) = String.◌∷◌ c (clip n s)

pub record SyncFailure : Type 0 where
  pub id : ℕ
  pub tenant_id : ℕ
  pub attempts : ℕ
  pub error : String
  pub retryable : Bool

pub is_exhausted : SyncFailure → Bool
is_exhausted args = not args.retryable || leb max_sync_attempts args.attempts

failed_item : ℕ → ℕ → SyncFailure → SyncItem → SyncItem
unfolding is_exhausted clip
failed_item now draw args s = record s {
  status = if is_exhausted args then SyncStatus.dead_letter else SyncStatus.failed;
  last_error = some (clip 1000 args.error);
  next_attempt_at =
      now
      + (if is_exhausted args
          then 0
          else backoff_delay_ms args.attempts default_base_ms default_max_ms draw);
}

dead_letter_entry : SyncFailure → Db → Db
dead_letter_entry args db = audit_in_tx db (record {
  tenant_id = args.tenant_id;
  actor_type = ActorType.system;
  actor_id = none;
  actor_label = none;
  action = "sync.dead_lettered";
  entity_type = "sync_outbox";
  entity_id = Meta.number args.id;
  metadata =
      ("attempts", Meta.number args.attempts)
      ∷ ("error", Meta.text (clip 500 args.error))
      ∷ ("retryable", Meta.flag args.retryable)
      ∷ [];
})

unfoldable pub mark_sync_failed : Db → ℕ → SyncFailure → Db
unfolding failed_item dead_letter_entry is_exhausted
mark_sync_failed db draw args =
    let written = record db {
      sync_outbox =
          update_where (λ s. s.id == args.id) (failed_item db.now draw args) db.sync_outbox;
    } in
    if is_exhausted args then dead_letter_entry args written else written

abbrev is_dead : SyncStatus → Bool
is_dead SyncStatus.dead_letter = true
is_dead _ = false

abbrev replayed_item : ℕ → SyncItem → SyncItem
replayed_item now s = record s {
  status = SyncStatus.pending;
  attempts = 0;
  next_attempt_at = now;
  last_error = none;
}

pub replay_sync : Db → ℕ → Db × Bool
replay_sync db id = (
  record db {
    sync_outbox =
        update_where (λ s. s.id == id && is_dead s.status) (replayed_item db.now) db.sync_outbox;
  },
  any (λ s. s.id == id && is_dead s.status) db.sync_outbox,
)
