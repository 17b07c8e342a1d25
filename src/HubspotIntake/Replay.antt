-- ===== src/HubspotIntake/Replay.antt =====
-- A delivery that HubSpot sends again.
use voice_call.Base.{
  ℕ, ◌≡◌, refl, sym, ap, ◌∙◌, subst, inl, inr, String, true, Option, none, some, List, [], ◌∷◌,
  ◌++◌, arith, ◌==◌, ==_refl, eq_iff, any, update_where, map, ok, >>=-ok, Bool-cases,
  any-append_last, All,
}
use voice_call.Schema.{Db, WebhookEvent}
use voice_call.Pii.{Cipher}
use voice_call.Phone.{PhoneParser}
use voice_call.Intake.Ingest.{ingest_lead}
use voice_call.Intake.Ingest.Laws.{ingest_lead-webhook_events}
use voice_call.CampaignRouting.{
  Properties, RoutingOutcome, routed, unrouted, resolve_campaign_for_contact,
}
use voice_call.HubspotEvent.{
  SubscriptionEvent, map_hubspot_event, event_from_contact, contact_properties_to_fetch,
}
use voice_call.CampaignRouting.{routing_properties}
use voice_call.HubspotIntake.{
  SubscriptionResult, ContactSource, idempotency_key, claims, claimed, finish, result_of, replay,
  ingest_routed, ingest_contact, ingest_event, ingest_events, ingest_subscription_events,
  intake_event, id_text, contact_text, processed, new_claim,
}

-- The events that stand in the table of deliveries.
abbrev IsClaimed : ℕ → Db → String → Type 0
IsClaimed tenant db key = any (claims tenant key) db.webhook_events ≡ true

any-processed :
    (tenant now claim : ℕ) (key : String) (rows : List WebhookEvent)
    → any (claims tenant key) (update_where (λ w. w.id == claim) (processed now) rows)
      ≡ any (claims tenant key) rows
unfolding any update_where
any-processed tenant now claim key [] = refl
any-processed tenant now claim key (w ∷ rows) = elim (Bool-cases (w.id == claim)) [
  | inl e ↦ rw e (rw (any-processed tenant now claim key rows) refl)
  | inr e ↦ rw e (rw (any-processed tenant now claim key rows) refl)
]

finish-claims :
    (tenant claim : ℕ) (key : String) (db : Db)
    → any (claims tenant key) (finish db claim).webhook_events
      ≡ any (claims tenant key) db.webhook_events
unfolding finish
finish-claims tenant claim key db = any-processed tenant db.now claim key db.webhook_events

any-append_more :
    (tenant : ℕ) (key : String) (rows more : List WebhookEvent)
    → any (claims tenant key) rows ≡ true
    → any (claims tenant key) (rows ++ more) ≡ true
unfolding any
any-append_more tenant key [] more h = absurd (cc)
any-append_more tenant key (w ∷ rows) more h = elim (Bool-cases (claims tenant key w)) [
  | inl e ↦ rw e refl
  | inr e ↦ rw e (any-append_more tenant key rows more (rw e at h))
]

module _ (cipher : Cipher) (parse : PhoneParser) (lower : String → String)
    (cast : String → Option ℕ) (nonce : ℕ → ℕ → String) (wall : ℕ) (get_contact : ContactSource)
    (tenant : ℕ) where
  ingest_routed-claims :
      (db : Db) (claim : ℕ) (event : SubscriptionEvent) (properties : Properties)
      (routing : RoutingOutcome) (out : Db × SubscriptionResult) (key : String)
      → ingest_routed cipher parse lower cast nonce wall get_contact tenant db claim event
          properties routing
        ≡ ok out
      → any (claims tenant key) out.0.webhook_events ≡ any (claims tenant key) db.webhook_events
  unfolding ingest_routed
  ingest_routed-claims db claim event properties (unrouted reason) out key e =
      let is : finish db claim ≡ out.0 = ground (arith, e) in
      rw (← is) (finish-claims tenant claim key db)
  ingest_routed-claims db claim event properties (routed r) out key e =
      let (mapped, parsed, e₁) =
        >>=-ok (event_from_contact (id_text event) (contact_text event) properties) _ e in
      let (taken, ingested, e₂) =
        >>=-ok
          (ingest_lead cipher parse lower cast (nonce claim) db
            (intake_event tenant event r (map_hubspot_event wall mapped)))
          _ e₁ in
      let is : finish taken.0 claim ≡ out.0 = ground (arith, e₂) in
      rw (← is) (
        finish-claims tenant claim key taken.0
        ∙ ap (any (claims tenant key)) (
            ingest_lead-webhook_events cipher parse lower cast (nonce claim) db
              (intake_event tenant event r (map_hubspot_event wall mapped)) taken ingested))

  ingest_contact-claims :
      (db : Db) (claim : ℕ) (event : SubscriptionEvent) (found : Option Properties)
      (out : Db × SubscriptionResult) (key : String)
      → ingest_contact cipher parse lower cast nonce wall get_contact tenant db claim event found
        ≡ ok out
      → any (claims tenant key) out.0.webhook_events ≡ any (claims tenant key) db.webhook_events
  unfolding ingest_contact
  ingest_contact-claims db claim event none out key e =
      let is : finish db claim ≡ out.0 = ground (arith, e) in
      rw (← is) (finish-claims tenant claim key db)
  ingest_contact-claims db claim event (some properties) out key e =
      ingest_routed-claims db claim event properties
        (resolve_campaign_for_contact lower db tenant properties) out key e

  -- What was claimed stays so, and the event is.
  ingest_event-claims :
      (wanted : List String) (db : Db) (event : SubscriptionEvent) (out : Db × SubscriptionResult)
      → ingest_event cipher parse lower cast nonce wall get_contact tenant wanted db event ≡ ok out
      → IsClaimed tenant out.0 (idempotency_key event)
        × ((key : String) → IsClaimed tenant db key → IsClaimed tenant out.0 key)
  unfolding ingest_event
  ingest_event-claims wanted db event out e =
      let key = idempotency_key event in
      elim (Bool-cases (any (claims tenant key) db.webhook_events)) [
        | inl old ↦
            let is : db ≡ out.0 = ground (arith, rw old at e) in rw (← is) (old, λ other h. h)
        | inr new ↦
            let (found, fetched, e₁) =
              >>=-ok (get_contact (contact_text event) wanted) _ (rw new at e) in
            let after = λ (other : String).
              ingest_contact-claims (claimed db tenant key) db.next_id event found out other e₁ in
            (
              after key
                  ∙ any-append_last (claims tenant key) db.webhook_events (new_claim db tenant key)
                      (rw (==_refl tenant) ((eq_iff key key).1 refl)),
              λ other h.
                  after other
                  ∙ any-append_more tenant other db.webhook_events (new_claim db tenant key ∷ []) h,
            )
      ]

  ingest_events-claims :
      (wanted : List String) (db : Db) (events : List SubscriptionEvent)
      (out : Db × List SubscriptionResult)
      → ingest_events cipher parse lower cast nonce wall get_contact tenant wanted db events
        ≡ ok out
      → All (λ e. IsClaimed tenant out.0 (idempotency_key e)) events
        × ((key : String) → IsClaimed tenant db key → IsClaimed tenant out.0 key)
  unfolding ingest_events
  ingest_events-claims wanted db [] out e =
      let is : db ≡ out.0 = ground (arith, e) in (tt, λ key h. rw (← is) h)
  ingest_events-claims wanted db (event ∷ events) out e =
      let (first, done, e₁) =
        >>=-ok (ingest_event cipher parse lower cast nonce wall get_contact tenant wanted db event)
          _ e in
      let (rest, followed, e₂) =
        >>=-ok
          (ingest_events cipher parse lower cast nonce wall get_contact tenant wanted first.0
            events)
          _ e₁ in
      let is : rest.0 ≡ out.0 = ground (arith, e₂) in
      let (this, kept) = ingest_event-claims wanted db event first done in
      let (those, kept') = ingest_events-claims wanted first.0 events rest followed in
      subst
        (λ (after : Db).
          All (λ (x : SubscriptionEvent). IsClaimed tenant after (idempotency_key x))
            (event ∷ events)
          × ((key : String) → IsClaimed tenant db key → IsClaimed tenant after key))
        is ((kept' (idempotency_key event) this, those), λ key h. kept' key (kept key h))

  All-replayed :
      (wanted : List String) (db : Db) (events : List SubscriptionEvent)
      → All (λ e. IsClaimed tenant db (idempotency_key e)) events
      → ingest_events cipher parse lower cast nonce wall get_contact tenant wanted db events
        ≡ ok (db, map (λ e. result_of e replay) events)
  unfolding ingest_events ingest_event
  All-replayed wanted db [] h = refl
  All-replayed wanted db (event ∷ events) h =
      rw (h.0, ingest_event) (rw (All-replayed wanted db events h.1) refl)

-- A delivery that is sent again costs a lookup. Once a delivery went through, the same events sent
-- again, whatever else of the database, the contacts in the CRM and the clock has changed meanwhile,
-- are each answered as a replay, in their order: the CRM is not asked, and nothing is written.
pub ingest_subscription_events_again :
    (cipher : Cipher) (parse : PhoneParser) (lower : String → String) (cast : String → Option ℕ)
    (nonce nonce' : ℕ → ℕ → String) (wall wall' : ℕ) (get_contact get_contact' : ContactSource)
    (tenant : ℕ) (db later : Db) (events : List SubscriptionEvent)
    (out : Db × List SubscriptionResult)
    → ingest_subscription_events cipher parse lower cast nonce wall get_contact tenant db events
      ≡ ok out
    → later.webhook_events ≡ out.0.webhook_events
    → ingest_subscription_events cipher parse lower cast nonce' wall' get_contact' tenant later
        events
      ≡ ok (later, map (λ e. result_of e replay) events)
unfolding ingest_subscription_events
ingest_subscription_events_again cipher parse lower cast nonce nonce' wall wall' get_contact
      get_contact' tenant db later events out e same =
    let (listed, kept) =
      ingest_events-claims cipher parse lower cast nonce wall get_contact tenant
        (contact_properties_to_fetch (routing_properties db tenant)) db events out e in
    All-replayed cipher parse lower cast nonce' wall' get_contact' tenant
      (contact_properties_to_fetch (routing_properties later tenant)) later events
      (subst
        (λ (rows : List WebhookEvent).
          All (λ (x : SubscriptionEvent). any (claims tenant (idempotency_key x)) rows ≡ true)
            events)
        (sym same) listed)
