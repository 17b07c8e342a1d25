-- ===== src/Outbox/Lifecycle.antt =====
-- How often a sync is tried.
use voice_call.Base.{
  ℕ, suc, ◌≤◌, ◌<◌, ◌≡◌, ◌≢◌, refl, subst, inl, inr, Bool, true, List, arith, ◌==◌, ==_iff,
  Bool-cases, All, All-mono, All-mem, All-append, All-both, All-listed, All-take, All-sort_by,
  All-select_where, All-select_where-All, All-update_where, All-update_where_listed, any-mem, Memᴰ,
  Distinct, Distinct-unique, Distinct-append_last, Distinct-update_where, update_where, any, String,
}
use voice_call.Schema.{Db, SyncItem, SyncTarget, Meta, audit_in_tx}
use voice_call.Outbox.{
  SyncFailure, max_sync_attempts, is_open, has_key, is_due, new_item, enqueue_sync, claim_due_syncs,
  due_items, is_among, claimed_item, mark_sync_succeeded, succeeded_item, is_exhausted, failed_item,
  mark_sync_failed, dead_letter_entry, replay_sync, replayed_item,
}

-- An item that may still be claimed has an attempt left.
abbrev pub IsWithin : SyncItem → Type 0
IsWithin s =
    (s.attempts ≤ max_sync_attempts) × (is_open s.status ≡ true → s.attempts < max_sync_attempts)

pub record OutboxInv (db : Db) : Type 0 where
  pub within : All IsWithin db.sync_outbox
  pub keys : Distinct (λ s. s.id) db.sync_outbox
  pub fresh : All (λ s. s.id < db.next_id) db.sync_outbox

-- What the worker reports is the number of attempts on record.
abbrev pub IsReportOf : SyncFailure → Db → Type 0
IsReportOf args db = All (λ s. s.id ≡ args.id → s.attempts ≡ args.attempts) db.sync_outbox

-- The operations on the outbox, in any order, and the passing of time.
pub data OutboxStep : Db → Db → Type 0 where
  enqueues :
      (db : Db) (tenant : ℕ) (target : SyncTarget) (key : String) (payload : List (String × Meta))
      → OutboxStep db (enqueue_sync db tenant target key payload)
  claims : (db : Db) (held : ℕ → Bool) (limit : ℕ) → OutboxStep db (claim_due_syncs held db limit).0
  succeeds : (db : Db) (id : ℕ) → OutboxStep db (mark_sync_succeeded db id)
  fails :
      (db : Db) (draw : ℕ) (args : SyncFailure)
      → IsReportOf args db
      → OutboxStep db (mark_sync_failed db draw args)
  replays : (db : Db) (id : ℕ) → OutboxStep db (replay_sync db id).0
  waits : (db : Db) (now : ℕ) → OutboxStep db (record db { now = now })

pub data OutboxReach (start : Db) : Db → Type 0 where
  here : OutboxReach start start
  next : {a b : Db} → OutboxReach start a → OutboxStep a b → OutboxReach start b

enqueue_sync-OutboxInv :
    (db : Db) (tenant : ℕ) (target : SyncTarget) (key : String) (payload : List (String × Meta))
    → OutboxInv db
    → OutboxInv (enqueue_sync db tenant target key payload)
unfolding enqueue_sync
enqueue_sync-OutboxInv db tenant target key payload h =
    elim (Bool-cases (any (has_key tenant target key) db.sync_outbox)) [
      | inl old ↦ rw old h
      | inr new ↦ rw new (record {
        within =
            All-append IsWithin db.sync_outbox _ h.within ((omega arith, λ _. omega arith), tt);
        keys =
            Distinct-append_last (λ s. s.id) db.sync_outbox (new_item db tenant target key payload)
              h.keys
              (All-mono _ (λ s. s.id ≢ db.next_id) db.sync_outbox (λ s lt. omega arith) h.fresh);
        fresh =
            All-append (λ s. s.id < suc db.next_id) db.sync_outbox _
              (All-mono _ (λ s. s.id < suc db.next_id) db.sync_outbox (λ s lt. omega arith) h.fresh)
              (omega arith, tt);
      })
    ]

-- An update of the outbox that keeps the ids.
update-OutboxInv :
    (db : Db) (p : SyncItem → Bool) (f : SyncItem → SyncItem)
    → ((s : SyncItem) → (f s).id ≡ s.id)
    → ((s : SyncItem) → Memᴰ s db.sync_outbox → p s ≡ true → IsWithin s → IsWithin (f s))
    → OutboxInv db
    → OutboxInv (record db { sync_outbox = update_where p f db.sync_outbox })
update-OutboxInv db p f keeps within h = record {
  within = All-update_where_listed IsWithin p f db.sync_outbox within h.within;
  keys = Distinct-update_where (λ s. s.id) p f keeps db.sync_outbox h.keys;
  fresh =
      All-update_where (λ s. s.id < db.next_id) p f db.sync_outbox (λ s _ lt. rw (keeps s) lt)
        h.fresh;
}

-- The rows that are due stand in the table and are open.
due_items-open :
    (held : ℕ → Bool) (db : Db) (limit : ℕ)
    → All (λ s. Memᴰ s db.sync_outbox × (is_open s.status ≡ true)) (due_items held db limit)
unfolding due_items is_due
due_items-open held db limit = All-take _ limit _ (
    All-sort_by _ _ _ (
      All-both (λ s. Memᴰ s db.sync_outbox) (λ s. is_open s.status ≡ true) _
        (All-select_where-All _ (is_due held db.now) db.sync_outbox
          (All-listed db.sync_outbox db.sync_outbox (λ x m. m)))
        (All-select_where (λ s. is_open s.status ≡ true) (is_due held db.now) db.sync_outbox
          (λ s due. ground (arith, due)))))

claimed_item-IsWithin :
    (s : SyncItem) → is_open s.status ≡ true → IsWithin s → IsWithin (claimed_item s)
claimed_item-IsWithin s o w = let left = w.1 o in (omega arith, λ closed. absurd (cc))

claim_due_syncs-OutboxInv :
    (held : ℕ → Bool) (db : Db) (limit : ℕ)
    → OutboxInv db
    → OutboxInv (claim_due_syncs held db limit).0
unfolding claim_due_syncs
claim_due_syncs-OutboxInv held db limit h =
    update-OutboxInv db (is_among (due_items held db limit)) claimed_item (λ s. refl)
      (λ s m among w.
        let (d, n, same) = any-mem (λ i. i.id == s.id) (due_items held db limit) among in
        let (listed, open_d) =
          All-mem _ (due_items held db limit) d (due_items-open held db limit) n in
        let is : d ≡ s =
          Distinct-unique (λ s. s.id) db.sync_outbox d s h.keys listed m
            ((==_iff d.id s.id).0 same) in
        claimed_item-IsWithin s (subst (λ x. is_open x.status ≡ true) is open_d) w)
      h

failed_item-id :
    (now draw : ℕ) (args : SyncFailure) (s : SyncItem) → (failed_item now draw args s).id ≡ s.id
unfolding failed_item
failed_item-id now draw args s = refl

failed_item-IsWithin :
    (now draw : ℕ) (args : SyncFailure) (s : SyncItem)
    → s.attempts ≡ args.attempts
    → IsWithin s
    → IsWithin (failed_item now draw args s)
unfolding failed_item is_exhausted
failed_item-IsWithin now draw args s e h = ground arith

dead_letter_entry-OutboxInv :
    (args : SyncFailure) (db : Db) → OutboxInv db → OutboxInv (dead_letter_entry args db)
unfolding dead_letter_entry audit_in_tx
dead_letter_entry-OutboxInv args db h = record { within = h.within; keys = h.keys; fresh = h.fresh }

mark_sync_failed-OutboxInv :
    (db : Db) (draw : ℕ) (args : SyncFailure)
    → IsReportOf args db
    → OutboxInv db
    → OutboxInv (mark_sync_failed db draw args)
unfolding mark_sync_failed
mark_sync_failed-OutboxInv db draw args reported h =
    let kept =
      update-OutboxInv db (λ s. s.id == args.id) (failed_item db.now draw args)
        (λ s. failed_item-id db.now draw args s)
        (λ s m hit w.
          failed_item-IsWithin db.now draw args s
            (All-mem _ db.sync_outbox s reported m ((==_iff s.id args.id).0 hit)) w)
        h in
    elim (Bool-cases (is_exhausted args)) [
      | inl e ↦ rw e (dead_letter_entry-OutboxInv args _ kept)
      | inr e ↦ rw e kept
    ]

OutboxStep-OutboxInv : {a b : Db} → OutboxStep a b → OutboxInv a → OutboxInv b
unfolding mark_sync_succeeded replay_sync
OutboxStep-OutboxInv (enqueues db tenant target key payload) h =
    enqueue_sync-OutboxInv db tenant target key payload h
OutboxStep-OutboxInv (claims db held limit) h = claim_due_syncs-OutboxInv held db limit h
OutboxStep-OutboxInv (succeeds db id) h =
    update-OutboxInv db _ (succeeded_item db.now) (λ s. refl) (λ s _ _ w. (w.0, λ o. absurd (cc))) h
OutboxStep-OutboxInv (fails db draw args r) h = mark_sync_failed-OutboxInv db draw args r h
OutboxStep-OutboxInv (replays db id) h =
    update-OutboxInv db _ (replayed_item db.now) (λ s. refl)
      (λ s _ _ w. (omega arith, λ o. omega arith)) h
OutboxStep-OutboxInv (waits db now) h = record { within = h.within; keys = h.keys; fresh = h.fresh }

-- Through every sequence of the operations of the outbox itself, in any order, in which the workers
-- report the attempts that are on record, no sync is attempted more than eight times before an
-- operator replays it, and none that has used its eight attempts is open to another claim: the outbox
-- that has this property keeps it, its ids distinct. The sync worker's postponement of a result that
-- is held is not among these operations.
pub OutboxReach-OutboxInv : {a b : Db} → OutboxInv a → OutboxReach a b → OutboxInv b
OutboxReach-OutboxInv h here = h
OutboxReach-OutboxInv h (next r st) = OutboxStep-OutboxInv st (OutboxReach-OutboxInv h r)
