-- ===== src/Intake/Consents.antt =====
-- lib/leads/intake.ts, `resolveConsent` and `recordConsent`: every lead gets a consent on record.
-- The cast to timestamptz is a parameter.
use voice_call.Base.{
  ℕ, suc, ◌≡◌, refl, String, Bool, true, ◌&&◌, Option, none, some, [], ◌∷◌, ◌++◌, ◌==◌,
  if◌then◌else◌, get_or, any, Outcome, ok, ◌>>=◌, or_throw, ◌+text◌, invalid_timestamp, Bool-cases,
  arith, >>=-ok, any-append_last, inl, inr, ==_refl,
}
use voice_call.Schema.{
  Db, Campaign, Consent, ConsentBasis, ConsentStatus, is_active_consent, Meta, audit_in_tx,
}
use voice_call.Pii.{truthy}
use voice_call.Results.{lead_entry}
use voice_call.Intake.{IntakeEvent, EventConsent}

pub data ConsentProvenance : Type 0 where
  client_supplied campaign_declaration inherited_upstream : ConsentProvenance

pub provenance_text : ConsentProvenance → String
provenance_text client_supplied = "client_supplied"
provenance_text campaign_declaration = "campaign_declaration"
provenance_text inherited_upstream = "inherited_upstream"

pub basis_name : ConsentBasis → String
basis_name ConsentBasis.opt_in_form = "opt_in_form"
basis_name ConsentBasis.existing_customer = "existing_customer"
basis_name ConsentBasis.service_call = "service_call"
basis_name ConsentBasis.ivr_confirmation = "ivr_confirmation"
basis_name ConsentBasis.other = "other"

abbrev declared_consent : Campaign → ConsentBasis → EventConsent
declared_consent c basis = record {
  basis = basis;
  source = get_or c.consent_source (get_or c.consent_origin "campaign_declaration");
  evidence_ref = c.consent_evidence_ref;
  captured_at = none;
}

-- The funnel that the lead came through; the event's source is never null.
abbrev inherited_consent : IntakeEvent → Option Campaign → EventConsent
inherited_consent event campaign = record {
  basis = ConsentBasis.opt_in_form;
  source = elim campaign [ none ↦ event.source | some c ↦ get_or c.consent_origin event.source ];
  evidence_ref = elim (truthy event.record_id) [
    | none ↦ none
    | some id ↦ some (event.source +text ":" +text id)
  ];
  captured_at = none;
}

abbrev campaign_basis : Option Campaign → Option (Campaign × ConsentBasis)
campaign_basis none = none
campaign_basis (some c) = elim c.consent_basis [ none ↦ none | some basis ↦ some (c, basis) ]

unfoldable pub resolve_consent : IntakeEvent → Option Campaign → EventConsent × ConsentProvenance
resolve_consent event campaign = elim event.consent [
  | some consent ↦ (consent, client_supplied)
  | none ↦ elim (campaign_basis campaign) [
    | some (c, basis) ↦ (declared_consent c basis, campaign_declaration)
    | none ↦ (inherited_consent event campaign, inherited_upstream)
  ]
]

abbrev pub consents_lead : ℕ → Consent → Bool
consents_lead lead c = c.lead_id == lead && is_active_consent c.status

abbrev text_or_null : Option String → Meta
text_or_null none = Meta.null
text_or_null (some s) = Meta.text s

module _ (cast : String → Option ℕ) (tenant : ℕ) where
  -- coalesce($6::timestamptz, now())
  capture_time : Db → EventConsent → Outcome ℕ
  capture_time db consent = elim consent.captured_at [
    | none ↦ ok db.now
    | some text ↦ or_throw (cast text) invalid_timestamp
  ]

  pub new_consent : Db → ℕ → EventConsent → ConsentProvenance → ℕ → Consent
  new_consent db lead consent by at = record {
    id = db.next_id;
    lead_id = lead;
    basis = consent.basis;
    source = consent.source;
    evidence_ref = consent.evidence_ref;
    captured_at = at;
    captured_by = provenance_text by;
    status = ConsentStatus.active;
  }

  insert_consent : Db → ℕ → EventConsent → ConsentProvenance → ℕ → Db
  insert_consent db lead consent by at =
      audit_in_tx
        (record db {
          next_id = suc db.next_id;
          consents = db.consents ++ new_consent db lead consent by at ∷ [];
        })
        (lead_entry tenant "consent.recorded" "lead" lead (
          ("basis", Meta.text (basis_name consent.basis))
          ∷ ("source", Meta.text consent.source)
          ∷ ("evidence_ref", text_or_null consent.evidence_ref)
          ∷ ("captured_by", Meta.text (provenance_text by))
          ∷ []))

  unfoldable pub record_consent : Db → ℕ → EventConsent → ConsentProvenance → Outcome Db
  unfolding capture_time insert_consent new_consent
  record_consent db lead consent by =
      if any (consents_lead lead) db.consents
      then ok db
      else do at ← capture_time db consent; ok (insert_consent db lead consent by at)

  -- Recording a consent leaves the leads alone, and the lead with an active consent.
  pub record_consent_lem :
      (db : Db) (lead : ℕ) (consent : EventConsent) (by : ConsentProvenance) (out : Db)
      → record_consent db lead consent by ≡ ok out
      → (out.leads ≡ db.leads)
        × (out.webhook_events ≡ db.webhook_events)
        × (any (consents_lead lead) out.consents ≡ true)
  unfolding record_consent audit_in_tx
  record_consent_lem db lead consent by out e =
      elim (Bool-cases (any (consents_lead lead) db.consents)) [
        | inl there ↦
            let is : db ≡ out = ground (arith, rw there at e) in rw (← is) (refl, refl, there)
        | inr new ↦
            let (at, timed, e') =
              >>=-ok (capture_time db consent) (λ at. ok (insert_consent db lead consent by at))
                (rw new at e) in
            let is : insert_consent db lead consent by at ≡ out = cc e' in
            rw (← is) (
              refl,
              refl,
              any-append_last (consents_lead lead) db.consents (new_consent db lead consent by at)
                  (rw (==_refl lead) refl),
            )
      ]

  -- A lead with an active consent keeps it, whatever the event claims.
  pub record_consent_again :
      (db : Db) (lead : ℕ) (consent : EventConsent) (by : ConsentProvenance)
      → any (consents_lead lead) db.consents ≡ true
      → record_consent db lead consent by ≡ ok db
  unfolding record_consent
  record_consent_again db lead consent by there = rw there refl
