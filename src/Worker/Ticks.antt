-- ===== src/Worker/Ticks.antt =====
-- A tick of the worker: the calls that it records and the caps that it keeps.
use voice_call.Base.{
  ℕ, suc, ◌+◌, ◌≤◌, ◌<◌, max, ◌≡◌, refl, sym, ap, ◌∙◌, subst, inl, inr, String, Bool, Option, some,
  List, [], ◌∷◌, ◌++◌, arith, ◌==◌, map, length, count_where, ok, >>=-ok, All-mono, All-append,
  append_assoc, append_nil, length-eq-map, count_where-append, count_where-le-length, opt_is, ◌&&◌,
}
use voice_call.Schema.{Db, Lead, Campaign, CallAttempt, find_campaign, is_in_flight}
use voice_call.Pii.{Cipher}
use voice_call.Windows.{RawParts}
use voice_call.Queue.{
  ClaimedLead, ClaimArgs, ClaimResult, tenant_in_flight, campaign_in_flight, tenant_limit,
}
use voice_call.Queue.Claiming.{claim_leads}
use voice_call.Queue.Claiming.Limits.{claim_leads_caps}
use voice_call.Queue.Claiming.Calls.{claim_leads-KeepsCalls}
use voice_call.Worker.{
  CampaignScript, Dialler, DialResult, CallingTickResult, load_script, ProviderReply, placed,
  refused, new_attempt, dial_one, dial_all, run_calling_tick,
}
use voice_call.Worker.Answers.{FreshAttempts, answered_attempt}
use voice_call.Worker.Dialling.{reply_to, dialled_attempt, IsDialled, dial_one_records}

abbrev attempt_key : CallAttempt → ℕ × ℕ
attempt_key a = (a.lead_id, a.attempt_no)

abbrev claim_key : ClaimedLead → ℕ × ℕ
claim_key l = (l.lead_id, l.attempt_no)

abbrev pub record_key : CallAttempt → ℕ × Option ℕ
record_key a = (a.lead_id, some a.id)

abbrev pub report_key : DialResult → ℕ × Option ℕ
report_key r = (r.lead_id, r.call_id)

-- The records of a row of calls: each of a claimed lead, in their order, under the reported id.
pub record HasRecords (db : Db) (leads : List ClaimedLead) (out : Db × List DialResult)
    : Type 0 where
  pub records : List CallAttempt
  pub added : out.0.call_attempts ≡ db.call_attempts ++ records
  pub of_leads : map attempt_key records ≡ map claim_key leads
  pub reported : map report_key out.1 ≡ map record_key records

module _ (d : Dialler) (script : CampaignScript) where
  dialled_attempt-keys :
      (db : Db) (lead : ClaimedLead) (row : Lead)
      → ((dialled_attempt d db lead script row).id ≡ db.next_id)
        × ((dialled_attempt d db lead script row).lead_id ≡ lead.lead_id)
        × ((dialled_attempt d db lead script row).attempt_no ≡ lead.attempt_no)
  unfolding new_attempt
  dialled_attempt-keys db lead row = by_reply (reply_to d db lead script)
    where
      by_reply :
          (reply : ProviderReply)
          → ((answered_attempt db.now reply (new_attempt db lead script row)).id ≡ db.next_id)
            × ((answered_attempt db.now reply (new_attempt db lead script row)).lead_id
                ≡ lead.lead_id)
            × ((answered_attempt db.now reply (new_attempt db lead script row)).attempt_no
                ≡ lead.attempt_no)
      by_reply (placed id status) = (refl, refl, refl)
      by_reply (refused retryable detail) = (refl, refl, refl)

  pub dial_one-FreshAttempts :
      (db : Db) (lead : ClaimedLead) (out : Db × DialResult)
      → FreshAttempts db
      → IsDialled d db lead script out
      → FreshAttempts out.0
  dial_one-FreshAttempts db lead out fresh done =
      rw (done.recorded, done.next_call)
        (All-append (λ a. a.id < suc db.next_id) db.call_attempts _
          (All-mono (λ a. a.id < db.next_id) (λ a. a.id < suc db.next_id) db.call_attempts
            (λ a lt. omega arith) fresh)
          (omega (arith, (dialled_attempt-keys db lead done.row).0), tt))

  dial_all-HasRecords :
      (db : Db) (leads : List ClaimedLead) (out : Db × List DialResult)
      → FreshAttempts db
      → dial_all d db leads script ≡ ok out
      → HasRecords db leads out
  unfolding dial_all
  dial_all-HasRecords db [] out fresh e =
      let is : (db, []) ≡ out = cc e in
      subst (HasRecords db []) is (record {
        records = [];
        added = sym (append_nil db.call_attempts);
        of_leads = refl;
        reported = refl;
      })
  dial_all-HasRecords db (lead ∷ leads) out fresh e =
      let (first, e₁, e') = >>=-ok (dial_one d db lead script) _ e in
      let (rest, e₂, e'') = >>=-ok (dial_all d first.0 leads script) _ e' in
      let done = dial_one_records d db lead script first fresh e₁ in
      let tail =
        dial_all-HasRecords first.0 leads rest (dial_one-FreshAttempts db lead first fresh done)
          e₂ in
      let a = dialled_attempt d db lead script done.row in
      let is : (rest.0, first.1 ∷ rest.1) ≡ out = cc e'' in
      let (id, of_lead, number) = dialled_attempt-keys db lead done.row in
      subst (HasRecords db (lead ∷ leads)) is (record {
        records = a ∷ tail.records;
        added =
            tail.added
            ∙ ap (λ xs. xs ++ tail.records) done.recorded
            ∙ append_assoc db.call_attempts (a ∷ []) tail.records;
        of_leads = cc (tail.of_leads, of_lead, number);
        reported = cc (tail.reported, done.result.0, done.result.1, of_lead, id);
      })

-- The calls before and after a tick.
pub record TickKeeps (args : ClaimArgs) (db : Db) (out : Db × CallingTickResult) : Type 0 where
  pub records : List CallAttempt
  pub added : out.0.call_attempts ≡ db.call_attempts ++ records
  pub reported : map report_key out.1.dialled ≡ map record_key records
  pub tenant_cap :
      tenant_in_flight out.0 args.tenant_id
      ≤ max (tenant_in_flight db args.tenant_id) (tenant_limit db args.tenant_id)
  pub campaign_cap :
      (c : Campaign)
      → find_campaign db args.campaign_id ≡ some c
      → campaign_in_flight out.0 args.campaign_id
        ≤ max (campaign_in_flight db args.campaign_id) c.concurrency_limit

-- A count over a table that grew.
count_grown :
    (p : CallAttempt → Bool) (old records new : List CallAttempt)
    → new ≡ (old ++ records)
    → count_where p new ≤ count_where p old + length records
count_grown p old records new e =
    rw e (omega (arith, count_where-append p old records, count_where-le-length p records))

module _ (cipher : Cipher) (intl : ℕ → String → RawParts) (held : ℕ → Bool) (args : ClaimArgs)
    (db : Db) (claim : Db × ClaimResult) (claimed : claim_leads cipher intl held args db ≡ ok claim)
    (records new : List CallAttempt) (added : new ≡ (db.call_attempts ++ records))
    (as_many : length records ≡ length claim.1.claimed) where
  tenant_count :
      count_where (λ a. a.tenant_id == args.tenant_id && is_in_flight a.status) new
      ≤ max (tenant_in_flight db args.tenant_id) (tenant_limit db args.tenant_id)
  unfolding tenant_in_flight
  tenant_count =
      let grown =
        count_grown (λ a. a.tenant_id == args.tenant_id && is_in_flight a.status) db.call_attempts
          records new added in
      elim (claim_leads_caps cipher intl held args db claim claimed) [
        | inl nothing ↦
            let no_row : length claim.1.claimed ≡ 0 =
              ap (λ (xs : List ClaimedLead). length xs) nothing in
            omega (arith, grown, as_many, no_row)
        | inr (c, d, found, running, decided, opened, in_tenant, in_campaign, most, hundred) ↦
            omega (arith, grown, as_many, in_tenant)
      ]

  campaign_count :
      (c : Campaign)
      → find_campaign db args.campaign_id ≡ some c
      → count_where (λ a. opt_is a.campaign_id args.campaign_id && is_in_flight a.status) new
        ≤ max (campaign_in_flight db args.campaign_id) c.concurrency_limit
  unfolding campaign_in_flight
  campaign_count c found =
      let grown =
        count_grown (λ a. opt_is a.campaign_id args.campaign_id && is_in_flight a.status)
          db.call_attempts records new added in
      elim (claim_leads_caps cipher intl held args db claim claimed) [
        | inl nothing ↦
            let no_row : length claim.1.claimed ≡ 0 =
              ap (λ (xs : List ClaimedLead). length xs) nothing in
            omega (arith, grown, as_many, no_row)
        | inr (c', d, found', running, decided, opened, in_tenant, in_campaign, most, hundred) ↦
            let same : c' ≡ c = cc (sym found' ∙ found) in
            let limit = ap (λ (x : Campaign). x.concurrency_limit) same in
            omega (arith, grown, as_many, in_campaign, limit)
      ]

-- A tick that goes through records each call that it places, under the lead and the id that it
-- reports, and erases no record; and with every call that it placed counted as in flight the tenant
-- and the campaign stay within their limits, or at what was in flight before the tick.
pub run_calling_tick_caps :
    (cipher : Cipher) (intl : ℕ → String → RawParts) (held : ℕ → Bool) (d : Dialler)
    (args : ClaimArgs) (db : Db) (out : Db × CallingTickResult)
    → FreshAttempts db
    → run_calling_tick cipher intl held d args db ≡ ok out
    → TickKeeps args db out
unfolding run_calling_tick tenant_in_flight campaign_in_flight
run_calling_tick_caps cipher intl held d args db out fresh e =
    let (claim, e₁, e₂) = >>=-ok (claim_leads cipher intl held args db) _ e in
    let (script, e₃, e₄) = >>=-ok (load_script claim.0 args.campaign_id) _ e₂ in
    let (done, e₅, e₆) = >>=-ok (dial_all d claim.0 claim.1.claimed script) _ e₄ in
    let (calls, ids) = claim_leads-KeepsCalls cipher intl held args db claim e₁ in
    let fresh' : FreshAttempts claim.0 = rw (calls, ids) fresh in
    let h = dial_all-HasRecords d script claim.0 claim.1.claimed done fresh' e₅ in
    let added = h.added ∙ ap (λ xs. xs ++ h.records) calls in
    let as_many = length-eq-map attempt_key claim_key h.records claim.1.claimed h.of_leads in
    let is : (done.0, record { dialled = done.1; skipped = claim.1.skipped }) ≡ out = cc e₆ in
    subst (TickKeeps args db) is (record {
      records = h.records;
      added = added;
      reported = h.reported;
      tenant_cap =
          tenant_count cipher intl held args db claim e₁ h.records done.0.call_attempts added
            as_many;
      campaign_cap =
          campaign_count cipher intl held args db claim e₁ h.records done.0.call_attempts added
            as_many;
    })
