-- ===== src/Queue/Claiming.antt =====
-- lib/calling/queue.ts, `claimLeads`: the loop over the candidates and what stands before it.
pub mod Rounds
pub mod Limits
pub mod Safety
pub mod Locks
pub mod Calls
mod Tests
use voice_call.Base.{
  ℕ, ◌+◌, ◌≡◌, String, Bool, Option, none, some, List, [], ◌∷◌, ◌==◌, if◌then◌else◌, Outcome, ok,
  ◌>>=◌, or_throw, campaign_not_found,
}
use voice_call.Schema.{Campaign, Lead, Db, find_campaign, update_lead}
use voice_call.Pii.{Cipher, truthy, decrypt_pii_or_null}
use voice_call.Eligibility.{EligibilityResult, eligible, ineligible, check_eligibility}
use voice_call.Windows.{RawParts, WindowDecision, is_within_window, window_from_config}
use voice_call.Queue.{
  ClaimedLead, outside_calling_window, tenant_concurrency_reached, campaign_concurrency_reached,
  became_ineligible, no_phone, absent, opens_at, because, Skip, ClaimResult, ClaimArgs,
  nothing_claimed, skip_all, defer_queue, reclaim, candidates, tenant_headroom, claim_headroom,
  audit_claims, campaign_headroom, tenant_limit, claim_limit, input_of, quarantined_lead,
  refused_lead, locked_lead, claimed_lead,
}

pub data Verdict : Type 0 where
  claim : ClaimedLead → Verdict
  pass : Skip → Verdict

pub add : Verdict → ClaimResult → ClaimResult
add (claim c) r = record r { claimed = c ∷ r.claimed }
add (pass s) r = record r { skipped = s ∷ r.skipped }

module _ (cipher : Cipher) where
  -- The round of the loop for one row: it reads and writes the database as it stands.
  pub claim_with_phone : Campaign → ClaimArgs → Db → Lead → Option String → Db × Verdict
  claim_with_phone c args db row none = (
    update_lead db row.id quarantined_lead,
    pass (record { lead_id = some row.id; reason = no_phone; detail = absent }),
  )
  claim_with_phone c args db row (some phone) =
      elim (check_eligibility cipher db (input_of args row phone)) [
        | ineligible reason detail ↦ (
          update_lead db row.id (refused_lead reason detail),
          pass (record {
            lead_id = some row.id;
            reason = became_ineligible;
            detail = because reason;
          }),
        )
        | eligible ↦ (
          update_lead db row.id (locked_lead args.worker_id db.now),
          claim (claimed_lead c args db row phone),
        )
      ]

  pub claim_one : Campaign → ClaimArgs → Db → Lead → Outcome (Db × Verdict)
  claim_one c args db row = do
    phone ← decrypt_pii_or_null cipher row.phone_enc
    ok (claim_with_phone c args db row (truthy phone))

  pub claim_rows : Campaign → ClaimArgs → Db → List Lead → Outcome (Db × ClaimResult)
  claim_rows c args db [] = ok (db, nothing_claimed)
  claim_rows c args db (row ∷ rows) = do
    first ← claim_one c args db row
    rest ← claim_rows c args first.0 rows
    ok (rest.0, add first.1 rest.1)

  pub claim_candidates : (ℕ → Bool) → Campaign → ClaimArgs → Db → Outcome (Db × ClaimResult)
  claim_candidates held c args db =
      let pool = reclaim db args.campaign_id in
      do
        done ←
            claim_rows c args (record db { leads = pool })
              (candidates held args (claim_headroom c db args) pool)
        ok (audit_claims args done.1 done.0, done.1)

  -- The caps, then the claims.
  claim_open : (ℕ → Bool) → Campaign → ClaimArgs → Db → Outcome (Db × ClaimResult)
  claim_open held c args db =
      if claim_headroom c db args == 0
      then ok (
        db,
        skip_all
            (if tenant_headroom db args == 0
              then tenant_concurrency_reached
              else campaign_concurrency_reached)
            absent,
      )
      else claim_candidates held c args db

  claim_decided :
      (ℕ → Bool) → Campaign → ClaimArgs → Db → WindowDecision → Outcome (Db × ClaimResult)
  claim_decided held c args db decision =
      if decision.allowed
      then claim_open held c args db
      else ok (
        defer_queue db args.campaign_id decision.next_open_at,
        skip_all outside_calling_window (opens_at decision.next_open_at),
      )

  claim_running :
      (ℕ → String → RawParts) → (ℕ → Bool) → Campaign → ClaimArgs → Db → Outcome (Db × ClaimResult)
  claim_running intl held c args db = do
    decision ← is_within_window intl args.now (window_from_config c.calling_config c.timezone)
    claim_decided held c args db decision

  unfoldable pub claim_leads :
      (ℕ → String → RawParts) → (ℕ → Bool) → ClaimArgs → Db → Outcome (Db × ClaimResult)
  unfolding claim_running claim_decided claim_open claim_candidates claim_rows claim_one
      claim_with_phone add claim_headroom tenant_headroom campaign_headroom claim_limit tenant_limit
      candidates reclaim audit_claims claimed_lead defer_queue
  claim_leads intl held args db = do
    c ← or_throw (find_campaign db args.campaign_id) campaign_not_found
    if c.active then claim_running intl held c args db else ok (db, nothing_claimed)
