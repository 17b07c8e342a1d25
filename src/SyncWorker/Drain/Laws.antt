-- ===== src/SyncWorker/Drain/Laws.antt =====
-- What a drain sends.
use voice_call.Base.{
  ℕ, ◌≡◌, refl, ◌∙◌, subst, inl, inr, Bool, List, [], ◌∷◌, arith, All, All-append, Bool-cases,
  Option-cases,
}
use voice_call.Schema.{Db, SyncItem, CallAnalysis, audit_in_tx}
use voice_call.Pii.{Cipher}
use voice_call.Outbox.{claim_due_syncs, mark_sync_succeeded, mark_sync_failed}
use voice_call.SyncWorker.{Outgoing, Outside, SyncError}
use voice_call.SyncWorker.Dispatch.{Verdict, done, skipped, failed, dispatch}
use voice_call.SyncWorker.Dispatch.Held.{IsReleased, dispatch-IsReleased}
use voice_call.SyncWorker.Drain.{
  Drain, payload_call, is_auth_failure, failure_of, disable_integration, postpone, close_item,
  drain_one, drain_items, drain_sync_outbox,
}

mark_sync_failed-analyses :
    (draw : ℕ → ℕ) (db : Db) (item : SyncItem) (error : SyncError)
    → (mark_sync_failed db (draw item.id) (failure_of item error)).call_analyses ≡ db.call_analyses
unfolding mark_sync_failed audit_in_tx
mark_sync_failed-analyses draw db item error = ground arith

close_item-analyses :
    (draw : ℕ → ℕ) (db : Db) (item : SyncItem) (verdict : Verdict)
    → (close_item draw db item verdict).call_analyses ≡ db.call_analyses
unfolding close_item mark_sync_succeeded postpone disable_integration audit_in_tx
close_item-analyses draw db item done = refl
close_item-analyses draw db item skipped = refl
close_item-analyses draw db item (failed error) = elim (Bool-cases (is_auth_failure error)) [
  | inl refused ↦ rw refused (mark_sync_failed-analyses draw db item error)
  | inr transient ↦ rw transient (mark_sync_failed-analyses draw db item error)
]

module _ (cipher : Cipher) (outside : Outside) (draw : ℕ → ℕ) (wall : ℕ)
    (rows : List CallAnalysis) where
  -- What holds between two items of the loop.
  record Sound (d : Drain) : Type 0 where
    released : All (λ o. IsReleased rows o.call_id) d.sent
    analyses : d.db.call_analyses ≡ rows

  drain_one-Sound :
      (d : Drain) (item : SyncItem) (call : ℕ)
      → Sound d
      → Sound (drain_one cipher outside draw wall d item call)
  unfolding drain_one
  drain_one-Sound d item call sound =
      let (released, kept) = dispatch-IsReleased cipher outside wall d.db item call in
      let h = dispatch cipher outside wall d.db item call in
      record {
        released =
            All-append (λ (o : Outgoing). IsReleased rows o.call_id) d.sent h.sent sound.released
              (subst
                (λ (seen : List CallAnalysis).
                  All (λ (o : Outgoing). IsReleased seen o.call_id) h.sent)
                sound.analyses released);
        analyses = close_item-analyses draw h.db item h.verdict ∙ kept ∙ sound.analyses;
      }

  drain_items-Sound :
      (d : Drain) (items : List SyncItem)
      → Sound d
      → Sound (drain_items cipher outside draw wall d items)
  unfolding drain_items
  drain_items-Sound d [] sound = sound
  drain_items-Sound d (item ∷ items) sound = elim (Option-cases (payload_call item.payload)) [
    | inl missing ↦
        rw (missing, drain_items) (record { released = sound.released; analyses = sound.analyses })
    | inr (call, named) ↦
        rw (named, drain_items)
          (drain_items-Sound (drain_one cipher outside draw wall d item call) items
            (drain_one-Sound d item call sound))
  ]

module _ (cipher : Cipher) (outside : Outside) (draw : ℕ → ℕ) (wall : ℕ) where
  -- Nothing leaves the platform while a result is held: every request that a drain sends, to the
  -- sheet, to the CRM or to sales, is about a call whose analysis was approved automatically, or
  -- confirmed or corrected by an operator, whatever stands in the outbox and however the clients
  -- answer.
  pub drain_sync_outbox-IsReleased :
      (held : ℕ → Bool) (db : Db) (limit : ℕ)
      → All
          (λ o. IsReleased db.call_analyses o.call_id)
          (drain_sync_outbox cipher outside draw wall held db limit).sent
  unfolding drain_sync_outbox claim_due_syncs
  drain_sync_outbox-IsReleased held db limit =
      (drain_items-Sound cipher outside draw wall db.call_analyses _
        (claim_due_syncs held db limit).1 (record { released = tt; analyses = refl })).released
