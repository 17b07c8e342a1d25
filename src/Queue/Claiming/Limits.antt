-- ===== src/Queue/Claiming/Limits.antt =====
-- When anything is claimed at all, and how many leads.
use voice_call.Base.{
  ℕ, suc, ◌+◌, ◌≤◌, ◌≡◌, ◌≢◌, ◌⊎◌, inl, inr, String, Bool, true, some, List, [], ◌∷◌, arith, ◌==◌,
  ok, >>=-ok, Bool-cases, length, length-take-le, or_throw, take, sort_by, select_where,
}
use voice_call.Schema.{Campaign, Lead, Db, find_campaign}
use voice_call.Pii.{Cipher}
use voice_call.Windows.{RawParts, WindowDecision, is_within_window, window_from_config}
use voice_call.Queue.{
  ClaimArgs, ClaimResult, candidates, reclaim, tenant_limit, tenant_in_flight, campaign_in_flight,
  claim_limit, tenant_headroom, campaign_headroom, claim_headroom, dial_order, is_candidate,
}
use voice_call.Queue.Claiming.{
  Verdict, add, claim_one, claim_rows, claim_candidates, claim_open, claim_decided, claim_running,
  claim_leads,
}

module _ (cipher : Cipher) (c : Campaign) (args : ClaimArgs) where
  length-claimed-add :
      (v : Verdict) (r : ClaimResult) → length (add v r).claimed ≤ suc (length r.claimed)
  unfolding add
  length-claimed-add v r = ground arith

  length-claim_rows-le :
      (db : Db) (rows : List Lead) (out : Db × ClaimResult)
      → claim_rows cipher c args db rows ≡ ok out
      → length out.1.claimed ≤ length rows
  unfolding claim_rows
  length-claim_rows-le db [] out e = ground arith
  length-claim_rows-le db (row ∷ rows) out e =
      let (first, e₁, e') = >>=-ok (claim_one cipher c args db row) _ e in
      let (rest, e₂, e'') = >>=-ok (claim_rows cipher c args first.0 rows) _ e' in
      ground
        (arith, e'', length-claimed-add first.1 rest.1, length-claim_rows-le first.0 rows rest e₂)

-- A call of `claimLeads` that reaches its loop.
pub record ReachesLoop (cipher : Cipher) (intl : ℕ → String → RawParts) (held : ℕ → Bool)
    (args : ClaimArgs) (db : Db) (out : Db × ClaimResult) : Type 0 where
  pub campaign : Campaign
  pub found : find_campaign db args.campaign_id ≡ some campaign
  pub running : campaign.active ≡ true
  pub decision : WindowDecision
  pub decided :
      is_within_window intl args.now (window_from_config campaign.calling_config campaign.timezone)
      ≡ ok decision
  pub open_now : decision.allowed ≡ true
  pub room : claim_headroom campaign db args ≢ 0
  pub claims : claim_candidates cipher held campaign args db ≡ ok out

module _ (cipher : Cipher) (intl : ℕ → String → RawParts) (held : ℕ → Bool) (args : ClaimArgs)
    (db : Db) (out : Db × ClaimResult) where
  claim_open-cases :
      (c : Campaign)
      → claim_open cipher held c args db ≡ ok out
      → (out.1.claimed ≡ [])
        ⊎ ((claim_headroom c db args ≢ 0) × (claim_candidates cipher held c args db ≡ ok out))
  unfolding claim_open
  claim_open-cases c e = elim (Bool-cases (claim_headroom c db args == 0)) [
    | inl full ↦ inl (ground arith)
    | inr room ↦ inr (ground arith, ground arith)
  ]

  claim_running-cases :
      (c : Campaign)
      → find_campaign db args.campaign_id ≡ some c
      → c.active ≡ true
      → claim_running cipher intl held c args db ≡ ok out
      → (out.1.claimed ≡ []) ⊎ ReachesLoop cipher intl held args db out
  unfolding claim_running claim_decided
  claim_running-cases c found running e =
      let (d, decided, e₁) =
        >>=-ok (is_within_window intl args.now (window_from_config c.calling_config c.timezone)) _
          e in
      elim (Bool-cases d.allowed) [
        | inr shut ↦ inl (ground (arith, e₁))
        | inl open_now ↦ elim (claim_open-cases c (ground (arith, e₁))) [
          | inl none_left ↦ inl none_left
          | inr (room, claims) ↦ inr (record {
            campaign = c;
            found = found;
            running = running;
            decision = d;
            decided = decided;
            open_now = open_now;
            room = room;
            claims = claims;
          })
        ]
      ]

  pub claim_leads-cases :
      claim_leads cipher intl held args db ≡ ok out
      → (out.1.claimed ≡ []) ⊎ ReachesLoop cipher intl held args db out
  unfolding claim_leads
  claim_leads-cases e =
      let (c, thrown, e₁) = >>=-ok (or_throw (find_campaign db args.campaign_id) _) _ e in
      let found : find_campaign db args.campaign_id ≡ some c = ground (arith, thrown) in
      elim (Bool-cases c.active) [
        | inl running ↦ claim_running-cases c found running (ground (arith, e₁))
        | inr paused ↦ inl (ground (arith, e₁))
      ]

  claim_candidates-length :
      (c : Campaign)
      → claim_candidates cipher held c args db ≡ ok out
      → length out.1.claimed ≤ claim_headroom c db args
  unfolding claim_candidates candidates
  claim_candidates-length c e =
      let pool = reclaim db args.campaign_id in
      let found = sort_by dial_order (select_where (is_candidate held args) pool) in
      let rows = take (claim_headroom c db args) found in
      let (done, e₁, e₂) =
        >>=-ok (claim_rows cipher c args (record db { leads = pool }) rows) _ e in
      ground (
        arith,
        e₂,
        length-claim_rows-le cipher c args (record db { leads = pool }) rows done e₁,
        length-take-le (claim_headroom c db args) found,
      )

-- The caps. Whenever leads are claimed the campaign runs and its window is open, and the calls
-- already in flight together with the claimed ones stay within the tenant's limit and within the
-- campaign's; no call of `claimLeads` takes more than its own limit, which is 100 at most.
pub claim_leads_caps :
    (cipher : Cipher) (intl : ℕ → String → RawParts) (held : ℕ → Bool) (args : ClaimArgs) (db : Db)
    (out : Db × ClaimResult)
    → claim_leads cipher intl held args db ≡ ok out
    → (out.1.claimed ≡ [])
      ⊎ ((c : Campaign) × (d : WindowDecision) × (find_campaign db args.campaign_id ≡ some c)
          × (c.active ≡ true)
          × (is_within_window intl args.now (window_from_config c.calling_config c.timezone) ≡ ok d)
          × (d.allowed ≡ true)
          × (length out.1.claimed + tenant_in_flight db args.tenant_id
              ≤ tenant_limit db args.tenant_id)
          × (length out.1.claimed + campaign_in_flight db args.campaign_id ≤ c.concurrency_limit)
          × (length out.1.claimed ≤ claim_limit args)
          × (claim_limit args ≤ 100))
unfolding claim_headroom tenant_headroom campaign_headroom claim_limit
claim_leads_caps cipher intl held args db out e =
    elim (claim_leads-cases cipher intl held args db out e) [
      | inl nothing ↦ inl nothing
      | inr l ↦
          let bound = claim_candidates-length cipher intl held args db out l.campaign l.claims in
          inr (
            l.campaign,
            l.decision,
            l.found,
            l.running,
            l.decided,
            l.open_now,
            omega (arith, bound, l.room),
            omega (arith, bound, l.room),
            omega (arith, bound),
            omega arith,
          )
    ]
