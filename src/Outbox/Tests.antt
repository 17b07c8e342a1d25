-- ===== src/Outbox/Tests.antt =====
-- A sync that is asked for and claimed.
use voice_call.Base.{ℕ, ◌≡◌, refl, Bool, false, [], ◌∷◌, length, any}
use voice_call.Fixtures.{a_db}
use voice_call.Schema.{Db, SyncTarget, Meta}
use voice_call.Outbox.{enqueue_sync, claim_due_syncs}
use voice_call.Outbox.Lifecycle.{OutboxInv, OutboxStep, here, next, OutboxReach-OutboxInv}

abbrev empty_db : Db
empty_db = a_db [] []

abbrev asked : Db
asked = enqueue_sync empty_db 1 SyncTarget.hubspot "call:4" (("call_id", Meta.number 4) ∷ [])

asked_once : length asked.sync_outbox ≡ 1
unfolding enqueue_sync any
asked_once = refl

abbrev nothing_held : ℕ → Bool
nothing_held id = false

abbrev claimed : Db
claimed = (claim_due_syncs nothing_held asked 10).0

OutboxReach-OutboxInv_example : OutboxInv claimed
OutboxReach-OutboxInv_example =
    OutboxReach-OutboxInv (record { within = tt; keys = tt; fresh = tt })
      (next
        (next here (
          OutboxStep.enqueues empty_db 1 SyncTarget.hubspot "call:4"
            (("call_id", Meta.number 4) ∷ [])))
        (OutboxStep.claims asked nothing_held 10))
