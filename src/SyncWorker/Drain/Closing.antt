-- ===== src/SyncWorker/Drain/Closing.antt =====
-- How a drain closes every item that it claims.
use voice_call.Base.{
  ℕ, ◌+◌, ◌*◌, ◌≡◌, ◌≢◌, refl, sym, ap, ◌∙◌, subst, ◌⊎◌, inl, inr, Bool, true, false, Option, none,
  some, List, [], ◌∷◌, arith, ◌==◌, ==_refl, ==_iff, All, All-mono, length, Bool-cases,
  Option-cases, any, first_where, first_where-update_where, first_where-update_where_other,
  first_where-true, update_where, count_where, Memᴰ, mem-any, any-first_where, is_some, Distinct,
  Lacks, Distinct-select_where, Distinct-update_where, All-listed, All-select_where-All,
}
use voice_call.Schema.{Db, SyncItem, SyncStatus, audit_in_tx}
use voice_call.Pii.{Cipher}
use voice_call.Outbox.{claim_due_syncs, mark_sync_succeeded, mark_sync_failed, clip}
use voice_call.Outbox.Laws.{mark_sync_failed-writes}
use voice_call.SyncWorker.{Outside}
use voice_call.SyncWorker.Dispatch.{Verdict, done, skipped, failed, dispatch}
use voice_call.SyncWorker.Dispatch.Held.{dispatch-outbox}
use voice_call.SyncWorker.Drain.{
  Drain, DrainResult, payload_call, is_auth_failure, failure_of, error_message, disable_integration,
  postpone, close_item, counted, drain_one, drain_items, drain_sync_outbox,
}

-- The row of an item whose sync ended so.
abbrev pub ClosedAs : ℕ → Verdict → SyncItem → Type 0
ClosedAs now done s =
    (s.status ≡ SyncStatus.succeeded) × (s.completed_at ≡ some now) × (s.last_error ≡ none)
ClosedAs now skipped s = (s.status ≡ SyncStatus.pending) × (s.next_attempt_at ≡ now + 5 * 60 * 1000)
ClosedAs now (failed error) s =
    ((s.status ≡ SyncStatus.failed) ⊎ (s.status ≡ SyncStatus.dead_letter))
    × (s.last_error ≡ some (clip 1000 (error_message error)))

-- Each item has its verdict, and its row stands in the outbox accordingly.
abbrev pub EachClosed : ℕ → List SyncItem → List SyncItem → List Verdict → Type 0
EachClosed now outbox [] [] = Unit
EachClosed now outbox (item ∷ items) (verdict ∷ verdicts) =
    ((s : SyncItem) × (first_where (λ s. s.id == item.id) outbox ≡ some s) × ClosedAs now verdict s)
    × EachClosed now outbox items verdicts
EachClosed now outbox _ _ = ⊥

abbrev pub is_done : Verdict → Bool
is_done done = true
is_done _ = false

abbrev pub is_skipped : Verdict → Bool
is_skipped skipped = true
is_skipped _ = false

abbrev pub is_failed : Verdict → Bool
is_failed (failed error) = true
is_failed _ = false

-- The counters of a drain that has met these verdicts since.
abbrev Tallied : DrainResult → List Verdict → DrainResult → Type 0
Tallied r verdicts out =
    (out.succeeded ≡ r.succeeded + count_where is_done verdicts)
    × (out.failed ≡ r.failed + count_where is_failed verdicts)
    × (out.skipped ≡ r.skipped + count_where is_skipped verdicts)
    × (out.processed ≡ r.processed)

counted-Tallied :
    (verdict : Verdict) (r : DrainResult) (verdicts : List Verdict) (out : DrainResult)
    → Tallied (counted verdict r) verdicts out
    → Tallied r (verdict ∷ verdicts) out
unfolding counted count_where
counted-Tallied done r verdicts out (s, f, k, p) =
    (omega (arith, s), omega (arith, f), omega (arith, k), p)
counted-Tallied skipped r verdicts out (s, f, k, p) =
    (omega (arith, s), omega (arith, f), omega (arith, k), p)
counted-Tallied (failed error) r verdicts out (s, f, k, p) =
    (omega (arith, s), omega (arith, f), omega (arith, k), p)

-- The update of its own row that closes an item.
record Closes (now : ℕ) (item : SyncItem) (verdict : Verdict) (before after : List SyncItem)
    : Type 0 where
  write : SyncItem → SyncItem
  wrote : after ≡ update_where (λ s. s.id == item.id) write before
  ids : (s : SyncItem) → (write s).id ≡ s.id
  closed : (s : SyncItem) → ClosedAs now verdict (write s)

close_item-Closes :
    (draw : ℕ → ℕ) (db : Db) (item : SyncItem) (verdict : Verdict)
    → Closes db.now item verdict db.sync_outbox (close_item draw db item verdict).sync_outbox
unfolding close_item mark_sync_succeeded postpone disable_integration audit_in_tx
close_item-Closes draw db item done = record {
  write = _;
  wrote = refl;
  ids = λ s. refl;
  closed = λ s. (refl, refl, refl);
}
close_item-Closes draw db item skipped = record {
  write = _;
  wrote = refl;
  ids = λ s. refl;
  closed = λ s. (refl, refl);
}
close_item-Closes draw db item (failed error) =
    let (write, wrote, does) = mark_sync_failed-writes db (draw item.id) (failure_of item error) in
    record {
      write = write;
      wrote = elim (Bool-cases (is_auth_failure error)) [
        | inl refused ↦ rw refused wrote
        | inr transient ↦ rw transient wrote
      ];
      ids = λ s. (does s).0;
      closed = λ s. ((does s).1, (does s).2);
    }

close_item-now :
    (draw : ℕ → ℕ) (db : Db) (item : SyncItem) (verdict : Verdict)
    → (close_item draw db item verdict).now ≡ db.now
unfolding close_item mark_sync_succeeded mark_sync_failed postpone disable_integration audit_in_tx
close_item-now draw db item done = refl
close_item-now draw db item skipped = refl
close_item-now draw db item (failed error) = ground arith

-- An item's row, by its id.
abbrev row_with : ℕ → List SyncItem → Option SyncItem
row_with id rows = first_where (λ s. s.id == id) rows

abbrev HasRow : List SyncItem → SyncItem → Type 0
HasRow rows item = (s : SyncItem) × (row_with item.id rows ≡ some s)

module _ {now : ℕ} {item : SyncItem} {verdict : Verdict} {before after : List SyncItem}
    (closes : Closes now item verdict before after) where
  Closes-own :
      HasRow before item
      → (s : SyncItem) × (row_with item.id after ≡ some s) × ClosedAs now verdict s
  Closes-own (s, found) = (
    closes.write s,
    ap (row_with item.id) closes.wrote
        ∙ first_where-update_where (λ s. s.id == item.id) (λ s. s.id == item.id) closes.write before
            (λ y. ap (λ (n : ℕ). n == item.id) (closes.ids y)) found
        ∙ rw (first_where-true (λ s. s.id == item.id) before found) refl,
    closes.closed s,
  )

  Closes-other : (id : ℕ) → item.id ≢ id → row_with id after ≡ row_with id before
  Closes-other id other =
      ap (row_with id) closes.wrote
      ∙ first_where-update_where_other (λ s. s.id == id) (λ s. s.id == item.id) closes.write before
          apart (λ s same. ap (λ (n : ℕ). n == id) (closes.ids s) ∙ apart s same)
    where
      apart : (s : SyncItem) → (s.id == item.id) ≡ true → (s.id == id) ≡ false
      apart s same = elim (Bool-cases (s.id == id)) [
        | inl hit ↦ absurd (other (sym ((==_iff s.id item.id).0 same) ∙ (==_iff s.id id).0 hit))
        | inr miss ↦ miss
      ]

  Closes-HasRow : (i : SyncItem) → item.id ≢ i.id → HasRow before i → HasRow after i
  Closes-HasRow i other (s, found) = (s, Closes-other i.id other ∙ found)

module _ (cipher : Cipher) (outside : Outside) (draw : ℕ → ℕ) (wall : ℕ) where
  drain_one-Closes :
      (d : Drain) (item : SyncItem) (call : ℕ)
      → Closes d.db.now item
          (dispatch cipher outside wall d.db item call).verdict
          d.db.sync_outbox
          (drain_one cipher outside draw wall d item call).db.sync_outbox
  unfolding drain_one
  drain_one-Closes d item call =
      let h = dispatch cipher outside wall d.db item call in
      let (outbox, now) = dispatch-outbox cipher outside wall d.db item call in
      let after = (close_item draw h.db item h.verdict).sync_outbox in
      subst (λ (n : ℕ). Closes n item h.verdict d.db.sync_outbox after) now
        (subst (λ (rows : List SyncItem). Closes h.db.now item h.verdict rows after) outbox
          (close_item-Closes draw h.db item h.verdict))

  drain_one-now :
      (d : Drain) (item : SyncItem) (call : ℕ)
      → (drain_one cipher outside draw wall d item call).db.now ≡ d.db.now
  unfolding drain_one
  drain_one-now d item call =
      let h = dispatch cipher outside wall d.db item call in
      close_item-now draw h.db item h.verdict
      ∙ (dispatch-outbox cipher outside wall d.db item call).1

  -- The rows of other items stand.
  drain_items-other :
      (d : Drain) (items : List SyncItem) (id : ℕ)
      → Lacks (λ s. s.id) id items
      → row_with id (drain_items cipher outside draw wall d items).db.sync_outbox
        ≡ row_with id d.db.sync_outbox
  unfolding drain_items
  drain_items-other d [] id others = refl
  drain_items-other d (item ∷ items) id others = elim (Option-cases (payload_call item.payload)) [
    | inl missing ↦ rw (missing, drain_items) refl
    | inr (call, named) ↦
        rw (named, drain_items)
          (drain_items-other (drain_one cipher outside draw wall d item call) items id others.1
            ∙ Closes-other (drain_one-Closes d item call) id others.0)
  ]

  drain_items-EachClosed :
      (d : Drain) (items : List SyncItem)
      → Distinct (λ s. s.id) items
      → All (HasRow d.db.sync_outbox) items
      → let out = drain_items cipher outside draw wall d items in
        out.aborted ≡ false
        → (verdicts : List Verdict) × EachClosed d.db.now out.db.sync_outbox items verdicts
          × Tallied d.result verdicts out.result
  unfolding drain_items drain_one count_where
  drain_items-EachClosed d [] keys rows through =
      ([], tt, (omega arith, omega arith, omega arith, refl))
  drain_items-EachClosed d (item ∷ items) keys rows through =
      elim (Option-cases (payload_call item.payload)) [
        | inl missing ↦ absurd (cc (rw (missing, drain_items) at through))
        | inr (call, named) ↦
            let next = drain_one cipher outside draw wall d item call in
            let closes = drain_one-Closes d item call in
            let verdict = (dispatch cipher outside wall d.db item call).verdict in
            let (verdicts, each, tally) =
              drain_items-EachClosed next items keys.1 (kept closes items keys.0 rows.1)
                (rw (named, drain_items) at through) in
            let (s, found, closed) = Closes-own closes rows.0 in
            let out = drain_items cipher outside draw wall next items in
            rw (named, drain_items)
              (
                verdict ∷ verdicts,
                (
                  (s, drain_items-other next items item.id keys.0 ∙ found, closed),
                  subst (λ (n : ℕ). EachClosed n out.db.sync_outbox items verdicts)
                      (drain_one-now d item call) each,
                ),
                counted-Tallied verdict d.result verdicts out.result tally,
              )
      ]
    where
      kept :
          {now : ℕ} {item : SyncItem} {verdict : Verdict} {before after : List SyncItem}
          → Closes now item verdict before after
          → (items : List SyncItem) → Lacks (λ s. s.id) item.id items
          → All (HasRow before) items
          → All (HasRow after) items
      kept closes [] others rows = tt
      kept closes (i ∷ items) others rows =
          (Closes-HasRow closes i (λ e. others.0 (sym e)) rows.0, kept closes items others.1 rows.1)

listed-HasRow : (rows : List SyncItem) (item : SyncItem) → Memᴰ item rows → HasRow rows item
listed-HasRow rows item m =
    let there : any (λ s. s.id == item.id) rows ≡ true =
      mem-any (λ s. s.id == item.id) rows item m (==_refl item.id) in
    elim (Option-cases (row_with item.id rows)) [
      | inl missing ↦
          let absent : any (λ s. s.id == item.id) rows ≡ false =
            any-first_where (λ s. s.id == item.id) rows ∙ ap is_some missing in
          absurd (cc (absent, there))
      | inr found ↦ found
    ]

-- What is claimed has its row in the outbox, and no two items share one.
claim_due_syncs-rows :
    (held : ℕ → Bool) (db : Db) (limit : ℕ)
    → Distinct (λ s. s.id) db.sync_outbox
    → let claim = claim_due_syncs held db limit in
      Distinct (λ s. s.id) claim.1 × All (HasRow claim.0.sync_outbox) claim.1
unfolding claim_due_syncs
claim_due_syncs-rows held db limit keys =
    let outbox = (claim_due_syncs held db limit).0.sync_outbox in
    (
      Distinct-select_where (λ s. s.id) _ outbox
          (Distinct-update_where (λ s. s.id) _ _ (λ s. refl) db.sync_outbox keys),
      All-mono (λ i. Memᴰ i outbox) (HasRow outbox) _ (listed-HasRow outbox)
          (All-select_where-All (λ i. Memᴰ i outbox) _ outbox
            (All-listed outbox outbox (λ x m. m))),
    )

-- Every item that a drain claims is accounted for. If ids are unique in the outbox and the drain is
-- not aborted, there is a verdict for each item claimed: its row ends as succeeded now, with no error,
-- as pending again in five minutes, or as failed or a dead letter with the error's message, however
-- many items follow. The counters of what was processed, succeeded, failed and put off are the
-- numbers of items, and of items with each verdict.
pub drain_sync_outbox-accounted :
    (cipher : Cipher) (outside : Outside) (draw : ℕ → ℕ) (wall : ℕ) (held : ℕ → Bool) (db : Db)
    (limit : ℕ)
    → let out = drain_sync_outbox cipher outside draw wall held db limit in
      let items = (claim_due_syncs held db limit).1 in
      Distinct (λ s. s.id) db.sync_outbox
      → out.aborted ≡ false
      → (verdicts : List Verdict) × EachClosed db.now out.db.sync_outbox items verdicts
        × (out.result.processed ≡ length items)
        × (out.result.succeeded ≡ count_where is_done verdicts)
        × (out.result.failed ≡ count_where is_failed verdicts)
        × (out.result.skipped ≡ count_where is_skipped verdicts)
unfolding drain_sync_outbox claim_due_syncs
drain_sync_outbox-accounted cipher outside draw wall held db limit keys through =
    let (distinct, rows) = claim_due_syncs-rows held db limit keys in
    let (verdicts, each, (succeeded, failures, put_off, processed)) =
      drain_items-EachClosed cipher outside draw wall _ (claim_due_syncs held db limit).1 distinct
        rows through in
    (
      verdicts,
      each,
      processed,
      omega (arith, succeeded),
      omega (arith, failures),
      omega (arith, put_off),
    )
