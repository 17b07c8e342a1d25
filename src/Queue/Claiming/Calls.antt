-- ===== src/Queue/Claiming/Calls.antt =====
-- Claiming does not touch the calls.
use voice_call.Base.{
  ℕ, ◌≡◌, refl, sym, ap, ◌∙◌, inl, inr, String, Bool, List, [], ◌∷◌, arith, ◌==◌, ok, >>=-ok,
  or_throw, Bool-cases,
}
use voice_call.Schema.{Db, Lead, Campaign, find_campaign, audit_in_tx}
use voice_call.Pii.{Cipher}
use voice_call.Windows.{RawParts, is_within_window, window_from_config}
use voice_call.Queue.{
  ClaimArgs, ClaimResult, reclaim, candidates, claim_headroom, defer_queue, audit_claims,
}
use voice_call.Queue.Claiming.{
  claim_one, claim_rows, claim_candidates, claim_open, claim_decided, claim_running, claim_leads,
}
use voice_call.Queue.Claiming.Safety.{claim_one-WroteLeads}

-- Claiming writes leads and the audit trail, and nothing else.
abbrev pub KeepsCalls : Db → Db → Type 0
KeepsCalls db db' = (db'.call_attempts ≡ db.call_attempts) × (db'.next_id ≡ db.next_id)

module _ (cipher : Cipher) (intl : ℕ → String → RawParts) (held : ℕ → Bool) (args : ClaimArgs) where
  claim_rows-KeepsCalls :
      (c : Campaign) (db : Db) (rows : List Lead) (out : Db × ClaimResult)
      → claim_rows cipher c args db rows ≡ ok out
      → KeepsCalls db out.0
  unfolding claim_rows
  claim_rows-KeepsCalls c db [] out e = (ground (arith, e), ground (arith, e))
  claim_rows-KeepsCalls c db (row ∷ rows) out e =
      let (first, e₁, e') = >>=-ok (claim_one cipher c args db row) _ e in
      let (rest, e₂, e'') = >>=-ok (claim_rows cipher c args first.0 rows) _ e' in
      let wrote = claim_one-WroteLeads cipher held c args db row first e₁ in
      let (calls, ids) = claim_rows-KeepsCalls c first.0 rows rest e₂ in
      let last : rest.0 ≡ out.0 = ground (arith, e'') in
      (
        ap (λ (x : Db). x.call_attempts) (sym last)
            ∙ calls
            ∙ ap (λ (x : Db). x.call_attempts) (sym wrote),
        ap (λ (x : Db). x.next_id) (sym last) ∙ ids ∙ ap (λ (x : Db). x.next_id) (sym wrote),
      )

  audit_claims-KeepsCalls : (r : ClaimResult) (db : Db) → KeepsCalls db (audit_claims args r db)
  unfolding audit_claims audit_in_tx
  audit_claims-KeepsCalls r db =
      elim r.claimed
        as (λ claimed. KeepsCalls db (audit_claims args (record r { claimed = claimed }) db)) [
          | [] ↦ (refl, refl)
          | cl ∷ cls ↦ (refl, refl)
        ]

  claim_candidates-KeepsCalls :
      (c : Campaign) (db : Db) (out : Db × ClaimResult)
      → claim_candidates cipher held c args db ≡ ok out
      → KeepsCalls db out.0
  unfolding claim_candidates
  claim_candidates-KeepsCalls c db out e =
      let pool = reclaim db args.campaign_id in
      let rows = candidates held args (claim_headroom c db args) pool in
      let (done, e₁, e₂) =
        >>=-ok (claim_rows cipher c args (record db { leads = pool }) rows) _ e in
      let last : audit_claims args done.1 done.0 ≡ out.0 = ground (arith, e₂) in
      let (calls, ids) = claim_rows-KeepsCalls c (record db { leads = pool }) rows done e₁ in
      let (calls', ids') = audit_claims-KeepsCalls done.1 done.0 in
      (
        ap (λ (x : Db). x.call_attempts) (sym last) ∙ calls' ∙ calls,
        ap (λ (x : Db). x.next_id) (sym last) ∙ ids' ∙ ids,
      )

  claim_running-KeepsCalls :
      (c : Campaign) (db : Db) (out : Db × ClaimResult)
      → claim_running cipher intl held c args db ≡ ok out
      → KeepsCalls db out.0
  unfolding claim_running claim_decided claim_open defer_queue
  claim_running-KeepsCalls c db out e =
      let (d, decided, e₁) =
        >>=-ok (is_within_window intl args.now (window_from_config c.calling_config c.timezone)) _
          e in
      elim (Bool-cases d.allowed) [
        | inl opened ↦
            let e₂ : claim_open cipher held c args db ≡ ok out = ground (arith, e₁, opened) in
            elim (Bool-cases (claim_headroom c db args == 0)) [
              | inl full ↦
                  let is : db ≡ out.0 = ground (arith, e₂, full) in
                  (ap (λ (x : Db). x.call_attempts) (sym is), ap (λ (x : Db). x.next_id) (sym is))
              | inr room ↦ claim_candidates-KeepsCalls c db out (ground (arith, e₂, room))
            ]
        | inr shut ↦
            let is : defer_queue db args.campaign_id d.next_open_at ≡ out.0 =
              ground (arith, e₁, shut) in
            (ap (λ (x : Db). x.call_attempts) (sym is), ap (λ (x : Db). x.next_id) (sym is))
      ]

  pub claim_leads-KeepsCalls :
      (db : Db) (out : Db × ClaimResult)
      → claim_leads cipher intl held args db ≡ ok out
      → KeepsCalls db out.0
  unfolding claim_leads
  claim_leads-KeepsCalls db out e =
      let (c, thrown, e₁) = >>=-ok (or_throw (find_campaign db args.campaign_id) _) _ e in
      elim (Bool-cases c.active) [
        | inl running ↦ claim_running-KeepsCalls c db out (ground (arith, e₁))
        | inr paused ↦
            let is : db ≡ out.0 = ground (arith, e₁, paused) in
            (ap (λ (x : Db). x.call_attempts) (sym is), ap (λ (x : Db). x.next_id) (sym is))
      ]
