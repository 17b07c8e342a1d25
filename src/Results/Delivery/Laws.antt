-- ===== src/Results/Delivery/Laws.antt =====
-- A webhook that is delivered again, and what the first delivery does.
use voice_call.Base.{
  ℕ, ◌≡◌, refl, sym, ap, ◌∙◌, subst, inl, inr, String, true, false, some, List, [], arith, ◌==◌,
  ==_refl, first_where, update_where, Outcome, ok, err, >>=-ok, Bool-cases, Option-cases,
  first_where-update_where,
}
use voice_call.Schema.{Db, CallAttempt, update_lead, update_attempt, audit_in_tx}
use voice_call.Pii.{Cipher, decrypt_pii_or_null}
use voice_call.Eligibility.Dnc.{suppress_lead-call_attempts}
use voice_call.Results.{
  NormalizedWebhook, ResultOutcome, duplicate, is_terminal, apply_retry_decision,
}
use voice_call.Results.Delivery.{
  is_call, finished, phone_enc_of, close_attempt, add_transcript, carrier_suppress,
  carrier_suppression, route_result, record_terminal, record_known, record_call_result,
}

-- The attempts after the one of `c` was closed.
abbrev closed_attempts : Db → CallAttempt → NormalizedWebhook → List CallAttempt
closed_attempts db c webhook =
    update_where (λ a. a.id == c.id) (finished db.now webhook) db.call_attempts

close_attempt-attempts :
    (cipher : Cipher) (db : Db) (tenant : ℕ) (iv : String) (c : CallAttempt) (w : NormalizedWebhook)
    → (close_attempt cipher db tenant iv c w).call_attempts ≡ closed_attempts db c w
unfolding close_attempt add_transcript update_attempt audit_in_tx
close_attempt-attempts cipher db tenant iv c w = ground arith

close_attempt-leads :
    (cipher : Cipher) (db : Db) (tenant : ℕ) (iv : String) (c : CallAttempt) (w : NormalizedWebhook)
    → (close_attempt cipher db tenant iv c w).leads ≡ db.leads
unfolding close_attempt add_transcript update_attempt audit_in_tx
close_attempt-leads cipher db tenant iv c w = ground arith

route_result-attempts :
    (db : Db) (tenant : ℕ) (c : CallAttempt) (w : NormalizedWebhook) (wall : ℕ)
    → (route_result db tenant c w wall).0.call_attempts ≡ db.call_attempts
unfolding route_result update_lead apply_retry_decision audit_in_tx
route_result-attempts db tenant c w wall = ground arith

module _ (cipher : Cipher) (tenant : ℕ) (provider iv : String) (wall : ℕ) (db : Db) where
  carrier_suppress-attempts :
      (c : CallAttempt) (w : NormalizedWebhook) (reason : String) (out : Db × ResultOutcome)
      → carrier_suppress cipher db tenant provider c w reason ≡ ok out
      → out.0.call_attempts ≡ db.call_attempts
  unfolding carrier_suppress audit_in_tx
  carrier_suppress-attempts c w reason out e =
      let (phone, decrypted, e') =
        >>=-ok (decrypt_pii_or_null cipher (phone_enc_of db c.lead_id)) _ e in
      sym (ap (λ (o : Outcome (Db × ResultOutcome)). attempts_of o) e')
      ∙ suppress_lead-call_attempts cipher db (carrier_suppression tenant c phone reason)
    where
      attempts_of : Outcome (Db × ResultOutcome) → List CallAttempt
      attempts_of (ok o) = o.0.call_attempts
      attempts_of (err x) = []

module _ (cipher : Cipher) (tenant : ℕ) (provider iv : String) (wall : ℕ) (db : Db)
    (c : CallAttempt) (w : NormalizedWebhook) (out : Db × ResultOutcome) where
  record_terminal-attempts :
      record_terminal cipher tenant provider iv wall db c w ≡ ok out
      → out.0.call_attempts ≡ closed_attempts db c w
  unfolding record_terminal
  record_terminal-attempts e =
      let closed = close_attempt cipher db tenant iv c w in
      let start = close_attempt-attempts cipher db tenant iv c w in
      elim (Option-cases w.suppress) [
        | inl calm ↦
            let e' : ok (route_result closed tenant c w wall) ≡ ok out =
              rw (calm, record_terminal) at e in
            let is : route_result closed tenant c w wall ≡ out = cc e' in
            ap (λ (o : Db × ResultOutcome). o.0.call_attempts) (sym is)
            ∙ route_result-attempts closed tenant c w wall
            ∙ start
        | inr (reason, given) ↦
            carrier_suppress-attempts cipher tenant provider iv wall closed c w reason out
              (rw (given, record_terminal) at e)
            ∙ start
      ]

  record_known-attempts :
      is_terminal w.status ≡ true
      → is_terminal c.status ≡ false
      → record_known cipher tenant provider iv wall db c w ≡ ok out
      → out.0.call_attempts ≡ closed_attempts db c w
  unfolding record_known
  record_known-attempts ended live e = record_terminal-attempts (rw (live, ended) at e)

-- A delivery for a call that is over.
delivered_again :
    (cipher : Cipher) (tenant : ℕ) (provider iv : String) (wall : ℕ) (db : Db)
    (w : NormalizedWebhook) (c : CallAttempt)
    → first_where (is_call provider w.provider_call_id) db.call_attempts ≡ some c
    → is_terminal c.status ≡ true
    → record_call_result cipher tenant provider iv wall db w ≡ ok (db, duplicate c.id)
unfolding record_call_result record_known
delivered_again cipher tenant provider iv wall db w c found over =
    rw (found, record_call_result) (rw over refl)

module _ (cipher : Cipher) (tenant : ℕ) (provider iv : String) (wall : ℕ) (db : Db)
    (w : NormalizedWebhook) (out : Db × ResultOutcome) (c : CallAttempt) where
  -- The first terminal delivery leaves the call found and over.
  ended_call :
      first_where (is_call provider w.provider_call_id) db.call_attempts ≡ some c
      → is_terminal w.status ≡ true
      → record_call_result cipher tenant provider iv wall db w ≡ ok out
      → (c' : CallAttempt) × (first_where (is_call provider w.provider_call_id) out.0.call_attempts
          ≡ some c')
        × (is_terminal c'.status ≡ true)
        × (c'.id ≡ c.id)
  unfolding record_call_result
  ended_call found ended e = elim (Bool-cases (is_terminal c.status)) [
    | inl over ↦
        let e' : ok (db, duplicate c.id) ≡ ok out =
          sym (delivered_again cipher tenant provider iv wall db w c found over) ∙ e in
        let is : (db, duplicate c.id) ≡ out = cc e' in
        (
          c,
          ap
                (λ (o : Db × ResultOutcome).
                  first_where (is_call provider w.provider_call_id) o.0.call_attempts)
                (sym is)
              ∙ found,
          over,
          refl,
        )
    | inr live ↦
        let known : record_known cipher tenant provider iv wall db c w ≡ ok out =
          rw (found, record_call_result) at e in
        let now_is =
          record_known-attempts cipher tenant provider iv wall db c w out ended live known in
        (
          finished db.now w c,
          ap (first_where (is_call provider w.provider_call_id)) now_is
              ∙ first_where-update_where (is_call provider w.provider_call_id) (λ a. a.id == c.id)
                  (finished db.now w) db.call_attempts (λ a. refl) found
              ∙ rw (==_refl c.id) refl,
          ended,
          refl,
        )
  ]

-- A terminal webhook counts once. When it was recorded, every later delivery for the same call, be
-- it a copy or another status, at any time and however the rest of the database has changed since,
-- is acknowledged as a duplicate of that call and writes nothing: no second transcript, no second
-- analysis, no second step of the retry ladder.
pub record_call_result_once :
    (cipher : Cipher) (tenant : ℕ) (provider iv iv' : String) (wall wall' : ℕ) (db later : Db)
    (w w' : NormalizedWebhook) (out : Db × ResultOutcome) (c : CallAttempt)
    → first_where (is_call provider w.provider_call_id) db.call_attempts ≡ some c
    → is_terminal w.status ≡ true
    → record_call_result cipher tenant provider iv wall db w ≡ ok out
    → later.call_attempts ≡ out.0.call_attempts
    → w'.provider_call_id ≡ w.provider_call_id
    → record_call_result cipher tenant provider iv' wall' later w' ≡ ok (later, duplicate c.id)
record_call_result_once cipher tenant provider iv iv' wall wall' db later w w' out c found ended e
      same id =
    let (c', found', over, c'_id) =
      ended_call cipher tenant provider iv wall db w out c found ended e in
    let here : first_where (is_call provider w'.provider_call_id) later.call_attempts ≡ some c' =
      rw (same, id, found') in
    subst
      (λ n. record_call_result cipher tenant provider iv' wall' later w' ≡ ok (later, duplicate n))
      c'_id (delivered_again cipher tenant provider iv' wall' later w' c' here over)
