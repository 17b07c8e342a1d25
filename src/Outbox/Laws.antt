-- ===== src/Outbox/Laws.antt =====
-- One sync for each key, however often it is asked for.
use voice_call.Base.{
  ℕ, ◌≡◌, refl, inl, inr, String, true, List, arith, eq_iff, any, Bool-cases, any-append_last,
  update_where, ◌==◌, ◌⊎◌, some,
}
use voice_call.Schema.{Db, SyncItem, SyncStatus, audit_in_tx, SyncTarget, same_target_iff, Meta}
use voice_call.Outbox.{
  SyncFailure, is_exhausted, failed_item, dead_letter_entry, mark_sync_failed, clip, has_key,
  new_item, enqueue_sync,
}

new_item-has_key :
    (db : Db) (tenant : ℕ) (target : SyncTarget) (key : String) (payload : List (String × Meta))
    → has_key tenant target key (new_item db tenant target key payload) ≡ true
unfolding has_key
new_item-has_key db tenant target key payload =
    ground (arith, same_target_iff target target, eq_iff key key)

module _ (tenant : ℕ) (target : SyncTarget) (key : String) where
  enqueue_sync_known :
      (db : Db) (payload : List (String × Meta))
      → any (has_key tenant target key) db.sync_outbox ≡ true
      → enqueue_sync db tenant target key payload ≡ db
  unfolding enqueue_sync
  enqueue_sync_known db payload e = rw e refl

  any-enqueue_sync :
      (db : Db) (payload : List (String × Meta))
      → any (has_key tenant target key) (enqueue_sync db tenant target key payload).sync_outbox
        ≡ true
  unfolding enqueue_sync
  any-enqueue_sync db payload = elim (Bool-cases (any (has_key tenant target key) db.sync_outbox)) [
    | inl old ↦ rw old old
    | inr new ↦ rw new (
        any-append_last (has_key tenant target key) db.sync_outbox
          (new_item db tenant target key payload) (new_item-has_key db tenant target key payload))
  ]

  -- Asking again for a sync that was asked for, with whatever payload, changes nothing at all: the
  -- first request is the one that counts, also once it has succeeded or is a dead letter.
  pub enqueue_sync_again :
      (db : Db) (payload again : List (String × Meta))
      → enqueue_sync (enqueue_sync db tenant target key payload) tenant target key again
        ≡ enqueue_sync db tenant target key payload
  enqueue_sync_again db payload again =
      enqueue_sync_known (enqueue_sync db tenant target key payload) again
        (any-enqueue_sync db payload)

-- A failure is written to its own item, which is left for later or for an operator.
pub mark_sync_failed-writes :
    (db : Db) (draw : ℕ) (args : SyncFailure)
    → (f : SyncItem → SyncItem) × ((mark_sync_failed db draw args).sync_outbox
        ≡ update_where (λ s. s.id == args.id) f db.sync_outbox)
      × ((s : SyncItem)
          → ((f s).id ≡ s.id)
            × (((f s).status ≡ SyncStatus.failed) ⊎ ((f s).status ≡ SyncStatus.dead_letter))
            × ((f s).last_error ≡ some (clip 1000 args.error)))
unfolding mark_sync_failed dead_letter_entry failed_item audit_in_tx
mark_sync_failed-writes db draw args = elim (Bool-cases (is_exhausted args)) [
  | inl over ↦ (
    failed_item db.now draw args,
    rw (over, mark_sync_failed) refl,
    λ s. (refl, inr (rw over refl), refl),
  )
  | inr again ↦ (
    failed_item db.now draw args,
    rw (again, mark_sync_failed) refl,
    λ s. (refl, inl (rw again refl), refl),
  )
]
