-- ===== src/Pipeline/Qualify/Laws.antt =====
-- An analysis happens once, and a held one reaches nothing downstream.
use voice_call.Base.{
  ℕ, ◌≡◌, refl, sym, ap, ◌∙◌, subst, inl, inr, String, true, false, Option, some, List, [], ◌∷◌,
  ◌++◌, arith, ◌==◌, ==_refl, ==_iff, is_some, any, first_where, first_where-true, ok, >>=-ok,
  or_throw, Option-cases, none, not, All, All-update_where_made, any-append_last, any-first_where,
}
use voice_call.Schema.{
  Db, LeadStatus, ReviewStatus, CallAttempt, CallAnalysis, audit_in_tx, find_attempt, update_lead,
}
use voice_call.Pii.{Cipher, decrypt_pii_or_null}
use voice_call.Review.{evaluate_review_gate, ReviewDecision, ReviewTrigger, ReasonPart, pass, hold}
use voice_call.Pipeline.{CampaignRules, load_campaign_rules, commit_analysis}
use voice_call.Pipeline.Commit.{commit_analysis-call_analyses}
use voice_call.Pipeline.Qualify.{
  Analysis, AnalysisRequest, QualifyOutcome, already_analysed, transcript_enc_of, new_analysis,
  store_analysis, finish, analyse, qualify_new, qualify_call, commit_args, held_lead, reason_text,
  outcome_of, conversation, analysis_of, gate_input,
}

-- The tables that what leaves the system, and a suppression, are written to.
pub record SameDownstream (db db' : Db) : Type 0 where
  pub syncs : db'.sync_outbox ≡ db.sync_outbox
  pub promises : db'.callbacks ≡ db.callbacks
  pub suppressions : db'.dnc_entries ≡ db.dnc_entries
  pub handovers : db'.routing_events ≡ db.routing_events

-- The analysis of a call, as the idempotency check looks for it.
abbrev pub analysis_for : Db → ℕ → Option CallAnalysis
analysis_for db call = first_where (λ a. a.call_id == call) db.call_analyses

find_attempt-id : (db : Db) (id : ℕ) {c : CallAttempt} → find_attempt db id ≡ some c → c.id ≡ id
unfolding find_attempt
find_attempt-id db id {c} e =
    (==_iff c.id id).0 (first_where-true (λ a. a.id == id) db.call_attempts e)

module _ (cipher : Cipher) (read_time : String → Option ℕ) (analyze : AnalysisRequest → Analysis)
    (tenant wall : ℕ) (db : Db) where
  abbrev finish_held :
      CallAttempt
      → CampaignRules
      → Analysis
      → List ReviewTrigger
      → List ReasonPart
      → Db × QualifyOutcome
  finish_held c rules analysis triggers parts = (
    update_lead (store_analysis db tenant c rules analysis (hold triggers parts)) c.lead_id
        (held_lead (some (reason_text parts))),
    outcome_of db rules analysis (hold triggers parts) "held_for_review" false,
  )

  finish-analysed :
      (c : CallAttempt) (rules : CampaignRules) (analysis : Analysis) (gate : ReviewDecision)
      (out : Db × QualifyOutcome)
      → finish cipher read_time analyze tenant wall db c rules analysis gate ≡ ok out
      → out.0.call_analyses ≡ db.call_analyses ++ new_analysis db c rules analysis gate ∷ []
  unfolding finish store_analysis audit_in_tx update_lead
  finish-analysed c rules analysis pass out e =
      let stored = store_analysis db tenant c rules analysis pass in
      let args = commit_args db tenant c rules analysis in
      let (db', committed, e') = >>=-ok (commit_analysis cipher read_time wall stored args) _ e in
      let is : db' ≡ out.0 = ground (arith, e') in
      ap (λ (x : Db). x.call_analyses) (sym is)
      ∙ commit_analysis-call_analyses cipher read_time wall stored args db' committed
  finish-analysed c rules analysis (hold triggers parts) out e =
      let is : finish_held c rules analysis triggers parts ≡ out = cc e in
      ap (λ (x : Db × QualifyOutcome). x.0.call_analyses) (sym is)

  new_analysis-call_id :
      (c : CallAttempt) (rules : CampaignRules) (analysis : Analysis) (gate : ReviewDecision)
      → (new_analysis db c rules analysis gate).call_id ≡ c.id
  unfolding new_analysis
  new_analysis-call_id c rules analysis gate = refl

  -- A call that is analysed anew has its analysis afterwards.
  qualify_new-analysed :
      (c : CallAttempt) (out : Db × QualifyOutcome)
      → qualify_new cipher read_time analyze tenant wall db c ≡ ok out
      → any (λ a. a.call_id == c.id) out.0.call_analyses ≡ true
  unfolding qualify_new analyse
  qualify_new-analysed c out e =
      let (rules, loaded, e₁) = >>=-ok (load_campaign_rules db c.campaign_id) _ e in
      let (transcript, decrypted, e₂) =
        >>=-ok (decrypt_pii_or_null cipher (transcript_enc_of db c.id)) _ e₁ in
      subst (λ (rows : List CallAnalysis). any (λ a. a.call_id == c.id) rows ≡ true)
        (sym (finish-analysed c rules _ _ out e₂))
        (any-append_last (λ a. a.call_id == c.id) db.call_analyses _
          (rw (new_analysis-call_id c rules _ _) (==_refl c.id)))

  qualify_call-analysed :
      (call : ℕ) (out : Db × QualifyOutcome)
      → qualify_call cipher read_time analyze tenant wall db call ≡ ok out
      → any (λ a. a.call_id == call) out.0.call_analyses ≡ true
  unfolding qualify_call
  qualify_call-analysed call out e =
      let (c, thrown, e₁) = >>=-ok (or_throw (find_attempt db call) _) _ e in
      let found : find_attempt db call ≡ some c = ground (arith, thrown) in
      elim (Option-cases (analysis_for db call)) [
        | inl missing ↦
            subst (λ (n : ℕ). any (λ a. a.call_id == n) out.0.call_analyses ≡ true)
              (find_attempt-id db call found) (qualify_new-analysed c out (rw missing at e₁))
        | inr (a, old) ↦
            let e₂ : ok (db, already_analysed a) ≡ ok out = rw old at e₁ in
            let is : (db, already_analysed a) ≡ out = cc e₂ in
            let there : any (λ a. a.call_id == call) db.call_analyses ≡ true =
              any-first_where (λ a. a.call_id == call) db.call_analyses ∙ ap is_some old in
            subst
              (λ (x : Db × QualifyOutcome). any (λ a. a.call_id == call) x.0.call_analyses ≡ true)
              is there
      ]

-- A call has one analysis. Once it was analysed, every later request for it, however the rest of
-- the database has changed and whatever the model would say now, gives back the stored analysis and
-- writes nothing.
pub qualify_call_once :
    (cipher : Cipher) (read_time read_time' : String → Option ℕ)
    (analyze analyze' : AnalysisRequest → Analysis) (tenant wall wall' call : ℕ) (db later : Db)
    (out : Db × QualifyOutcome) (c : CallAttempt)
    → qualify_call cipher read_time analyze tenant wall db call ≡ ok out
    → later.call_analyses ≡ out.0.call_analyses
    → find_attempt later call ≡ some c
    → (a : CallAnalysis) × (analysis_for later call ≡ some a)
      × (qualify_call cipher read_time' analyze' tenant wall' later call
          ≡ ok (later, already_analysed a))
unfolding qualify_call
qualify_call_once cipher read_time read_time' analyze analyze' tenant wall wall' call db later out c
      e same found =
    let analysed = qualify_call-analysed cipher read_time analyze tenant wall db call out e in
    elim (Option-cases (analysis_for later call)) [
      | inl missing ↦
          let none_there : any (λ a. a.call_id == call) later.call_analyses ≡ false =
            any-first_where (λ a. a.call_id == call) later.call_analyses ∙ ap is_some missing in
          absurd (cc (rw same at none_there, analysed))
      | inr (a, old) ↦ (a, old, rw (found, qualify_call) (rw old refl))
    ]

-- What the review gate holds reaches nothing. If a call has no analysis yet, its campaign's rules
-- load, its transcript can be read, and the gate holds what the model (or, without a conversation,
-- the outcome of the call) says, then the analysis goes through: no sync, no callback, no do-not-call
-- entry and no hand-over to sales is written, the answer says so, one analysis is added, with that
-- result and pending review, and the lead is left pending review.
pub qualify_call_held :
    (cipher : Cipher) (read_time : String → Option ℕ) (analyze : AnalysisRequest → Analysis)
    (tenant wall call : ℕ) (db : Db) (c : CallAttempt) (rules : CampaignRules)
    (transcript : Option String) (triggers : List ReviewTrigger) (parts : List ReasonPart)
    → find_attempt db call ≡ some c
    → analysis_for db call ≡ none
    → load_campaign_rules db c.campaign_id ≡ ok rules
    → decrypt_pii_or_null cipher (transcript_enc_of db c.id) ≡ ok transcript
    → let spoken = conversation c.status transcript in
      let result = (analysis_of cipher read_time analyze tenant wall rules c spoken).result in
      evaluate_review_gate (gate_input rules result (not (is_some spoken))) ≡ hold triggers parts
      → (out : Db × QualifyOutcome) × (a : CallAnalysis) × (qualify_call cipher read_time analyze
            tenant wall db call
          ≡ ok out)
        × SameDownstream db out.0
        × (out.1.synced ≡ false)
        × (out.1.review_status ≡ ReviewStatus.pending_review)
        × (out.0.call_analyses ≡ db.call_analyses ++ a ∷ [])
        × (a.call_id ≡ c.id)
        × (a.result ≡ result)
        × (a.review_status ≡ ReviewStatus.pending_review)
        × All (λ l. l.id ≡ c.lead_id → l.status ≡ LeadStatus.pending_review) out.0.leads
unfolding qualify_call qualify_new analyse finish store_analysis new_analysis audit_in_tx
    update_lead
qualify_call_held cipher read_time analyze tenant wall call db c rules transcript triggers parts
      found fresh loaded decrypted held =
    let analysis =
      analysis_of cipher read_time analyze tenant wall rules c (conversation c.status transcript) in
    (
      finish_held cipher read_time analyze tenant wall db c rules analysis triggers parts,
      new_analysis db c rules analysis (hold triggers parts),
      rw (found, qualify_call)
          (rw fresh (rw (loaded, qualify_new) (rw decrypted (rw (held, analyse) refl)))),
      record { syncs = refl; promises = refl; suppressions = refl; handovers = refl },
      refl,
      refl,
      refl,
      refl,
      refl,
      refl,
      All-update_where_made _ (λ l. l.id == c.lead_id) _ db.leads (λ l h k. refl)
          (λ l h k. absurd (cc (rw (k, ==_refl c.lead_id) at h))),
    )
