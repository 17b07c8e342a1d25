-- ===== src/Dispatch/Laws.antt =====
-- What a dispatch leaves behind, and which campaigns it is for.
use voice_call.Base.{
  ℕ, ◌+◌, ◌≤◌, ◌≡◌, refl, sym, ap, ◌∙◌, subst, ◌↔◌, String, Bool, true, not, ◌&&◌, List, [], ◌∷◌,
  ◌++◌, arith, ◌==◌, any, map, count_where, length, length-append, length-eq-map, append_assoc,
  append_nil, opt_is, if◌then◌else◌, Outcome, ok, err, >>=-ok,
}
use voice_call.Schema.{Db, CallAttempt}
use voice_call.Pii.{Cipher}
use voice_call.Windows.{RawParts}
use voice_call.Queue.{ClaimArgs, ClaimedLead}
use voice_call.Queue.Claiming.{claim_leads}
use voice_call.Queue.Claiming.Calls.{claim_leads-KeepsCalls}
use voice_call.Worker.{
  CampaignScript, Dialler, DialResult, CallingTickResult, ProviderReply, load_script, dial_one,
  dial_all, run_calling_tick,
}
use voice_call.Worker.Answers.{FreshAttempts, dial_status}
use voice_call.Worker.Dialling.{reply_to, dial_one_records}
use voice_call.Worker.Ticks.{dial_one-FreshAttempts, run_calling_tick_caps, report_key, record_key}
use voice_call.Dispatch.{
  DispatchResult, DispatchArgs, DialCandidate, distinct_by, distinct, was_initiated, was_refused,
  settled, dialler, tick_of, tick_args, dial_one_campaign, dial_campaigns, dispatch_dial,
  queued_campaigns, campaigns_to_dial,
}

-- Every reported call was either placed or refused.
abbrev IsAnswered : List DialResult → Type 0
IsAnswered rs = count_where was_initiated rs + count_where was_refused rs ≡ length rs

IsAnswered-cons :
    (reply : ProviderReply) (r : DialResult) (rs : List DialResult)
    → r.status ≡ dial_status reply
    → IsAnswered rs
    → IsAnswered (r ∷ rs)
unfolding count_where
IsAnswered-cons (ProviderReply.placed id status) r rs is rest = rw is (omega (arith, rest))
IsAnswered-cons (ProviderReply.refused retryable detail) r rs is rest = rw is (omega (arith, rest))

module _ (d : Dialler) (script : CampaignScript) where
  dial_all-IsAnswered :
      (db : Db) (leads : List ClaimedLead) (out : Db × List DialResult)
      → FreshAttempts db
      → dial_all d db leads script ≡ ok out
      → IsAnswered out.1 × FreshAttempts out.0
  unfolding dial_all count_where
  dial_all-IsAnswered db [] out fresh e =
      let is : (db, []) ≡ out = cc e in
      subst (λ (o : Db × List DialResult). IsAnswered o.1 × FreshAttempts o.0) is (refl, fresh)
  dial_all-IsAnswered db (lead ∷ leads) out fresh e =
      let (first, e₁, e') = >>=-ok (dial_one d db lead script) _ e in
      let (rest, e₂, e'') = >>=-ok (dial_all d first.0 leads script) _ e' in
      let done = dial_one_records d db lead script first fresh e₁ in
      let (answered, fresh') =
        dial_all-IsAnswered first.0 leads rest
          (dial_one-FreshAttempts d script db lead first fresh done) e₂ in
      let is : (rest.0, first.1 ∷ rest.1) ≡ out = cc e'' in
      subst (λ (o : Db × List DialResult). IsAnswered o.1 × FreshAttempts o.0) is
        (IsAnswered-cons (reply_to d db lead script) first.1 rest.1 done.result.2 answered, fresh')

-- The calls that a part of a dispatch recorded, as many as its results report.
abbrev reported : List DispatchResult → ℕ
reported [] = 0
reported (r ∷ rs) = r.dialled + r.failed + reported rs

pub record Accounted (db : Db) (ids : List ℕ) (out : Db × List DispatchResult) : Type 0 where
  pub records : List CallAttempt
  pub added : out.0.call_attempts ≡ db.call_attempts ++ records
  pub as_many : reported out.1 ≡ length records
  pub campaigns : map (λ r. r.campaign_id) out.1 ≡ ids
  pub fresh : FreshAttempts out.0

module _ (cipher : Cipher) (intl : ℕ → String → RawParts) (held : ℕ → Bool) (d : Dialler)
    (args : DispatchArgs) where
  tick-IsAnswered :
      (d : Dialler) (claim_args : ClaimArgs) (db : Db) (out : Db × CallingTickResult)
      → FreshAttempts db
      → run_calling_tick cipher intl held d claim_args db ≡ ok out
      → IsAnswered out.1.dialled × FreshAttempts out.0
  unfolding run_calling_tick
  tick-IsAnswered d claim_args db out fresh e =
      let (claim, e₁, e₂) = >>=-ok (claim_leads cipher intl held claim_args db) _ e in
      let (script, e₃, e₄) = >>=-ok (load_script claim.0 claim_args.campaign_id) _ e₂ in
      let (done, e₅, e₆) = >>=-ok (dial_all d claim.0 claim.1.claimed script) _ e₄ in
      let (calls, ids) = claim_leads-KeepsCalls cipher intl held claim_args db claim e₁ in
      let fresh' : FreshAttempts claim.0 = rw (calls, ids) fresh in
      let is : (done.0, record { dialled = done.1; skipped = claim.1.skipped }) ≡ out = cc e₆ in
      subst (λ (o : Db × CallingTickResult). IsAnswered o.1.dialled × FreshAttempts o.0) is
        (dial_all-IsAnswered d script claim.0 claim.1.claimed done fresh' e₅)

  dial_one_campaign-Accounted :
      (db : Db) (campaign : ℕ)
      → FreshAttempts db
      → let out = dial_one_campaign cipher intl held d args campaign db in
        Accounted db (campaign ∷ []) (out.0, out.1 ∷ [])
  unfolding dial_one_campaign
  dial_one_campaign-Accounted db campaign fresh =
      by_tick (tick_of cipher intl held d args campaign db) refl
    where
      by_tick :
          (tick : Outcome (Db × CallingTickResult))
          → tick_of cipher intl held d args campaign db ≡ tick
          → let out = settled db campaign tick in Accounted db (campaign ∷ []) (out.0, out.1 ∷ [])
      by_tick (err e) ran = record {
        records = [];
        added = sym (append_nil db.call_attempts);
        as_many = refl;
        campaigns = refl;
        fresh = fresh;
      }
      by_tick (ok out) ran =
          let at = record db { now = args.at campaign } in
          let kept =
            run_calling_tick_caps cipher intl held (dialler cipher intl held d args)
              (tick_args cipher intl held d args campaign) at out fresh ran in
          let (answered, fresh') =
            tick-IsAnswered (dialler cipher intl held d args)
              (tick_args cipher intl held d args campaign) at out fresh ran in
          let as_many =
            length-eq-map report_key record_key out.1.dialled kept.records kept.reported in
          record {
            records = kept.records;
            added = kept.added;
            as_many = omega (arith, answered, as_many);
            campaigns = refl;
            fresh = fresh';
          }

  dial_campaigns-Accounted :
      (ids : List ℕ) (db : Db)
      → FreshAttempts db
      → Accounted db ids (dial_campaigns cipher intl held d args ids db)
  unfolding dial_campaigns
  dial_campaigns-Accounted [] db fresh = record {
    records = [];
    added = sym (append_nil db.call_attempts);
    as_many = refl;
    campaigns = refl;
    fresh = fresh;
  }
  dial_campaigns-Accounted (id ∷ ids) db fresh =
      let first = dial_one_campaign-Accounted db id fresh in
      let out = dial_one_campaign cipher intl held d args id db in
      let rest = dial_campaigns-Accounted ids out.0 first.fresh in
      record {
        records = first.records ++ rest.records;
        added =
            rest.added
            ∙ ap (λ xs. xs ++ rest.records) first.added
            ∙ append_assoc db.call_attempts first.records rest.records;
        as_many =
            omega (arith, first.as_many, rest.as_many, length-append first.records rest.records);
        campaigns = cc (first.campaigns, rest.campaigns);
        fresh = rest.fresh;
      }

  -- A dispatch ticks each campaign that it is given once, in the order of their first mention, and has
  -- a result for each, also where a tick fails. Whatever fails, no call of before is lost, and the
  -- results report as many calls as were recorded: a failed tick has left none.
  pub dispatch_dial-Accounted :
      (campaign_ids : List ℕ) (db : Db)
      → FreshAttempts db
      → Accounted db (distinct campaign_ids) (dispatch_dial cipher intl held d args campaign_ids db)
  unfolding dispatch_dial
  dispatch_dial-Accounted campaign_ids db fresh =
      dial_campaigns-Accounted (distinct campaign_ids) db fresh

distinct-listed :
    (c : ℕ) (seen ids : List ℕ)
    → any (λ k. k == c) (distinct_by (λ id. id) seen ids)
      ≡ (any (λ k. k == c) ids && not (any (λ k. k == c) seen))
unfolding distinct_by any
distinct-listed c seen [] = refl
distinct-listed c seen (x ∷ xs) =
    ground (arith, distinct-listed c seen xs, distinct-listed c (x ∷ seen) xs)

distinct-once :
    (c : ℕ) (seen ids : List ℕ)
    → count_where (λ k. k == c) (distinct_by (λ id. id) seen ids)
        + (if any (λ k. k == c) seen then 1 else 0)
      ≤ 1
unfolding distinct_by any count_where
distinct-once c seen [] = ground arith
distinct-once c seen (x ∷ xs) =
    ground (arith, distinct-once c seen xs, distinct-once c (x ∷ seen) xs)

queued_campaigns-listed :
    (c : ℕ) (outcomes : List DialCandidate)
    → any (λ k. k == c) (queued_campaigns outcomes)
      ≡ any (λ o. o.queued && opt_is o.campaign_id c) outcomes
unfolding queued_campaigns any
queued_campaigns-listed c [] = refl
queued_campaigns-listed c (o ∷ os) = ground (arith, queued_campaigns-listed c os)

-- A campaign is to be dialled after an intake exactly when one of the outcomes queued a lead for it,
-- and then it is listed once, however many leads it got.
pub campaigns_to_dial-queued_iff :
    (c : ℕ) (outcomes : List DialCandidate)
    → ((any (λ k. k == c) (campaigns_to_dial outcomes) ≡ true)
        ↔ (any (λ o. o.queued && opt_is o.campaign_id c) outcomes ≡ true))
      × (count_where (λ k. k == c) (campaigns_to_dial outcomes) ≤ 1)
unfolding campaigns_to_dial any
campaigns_to_dial-queued_iff c outcomes =
    let listed = distinct-listed c [] (queued_campaigns outcomes) in
    let queued = queued_campaigns-listed c outcomes in
    let once = distinct-once c [] (queued_campaigns outcomes) in
    (ground (arith, listed, queued), omega (arith, once))
