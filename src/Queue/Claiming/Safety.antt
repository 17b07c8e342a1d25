-- ===== src/Queue/Claiming/Safety.antt =====
-- Who is claimed: only leads that wait in the campaign's queue and may be dialled.
use voice_call.Base.{
  ℕ, ◌+◌, ◌≤◌, ◌≡◌, refl, sym, ap, ◌∙◌, subst, ◌⊎◌, inl, inr, String, Bool, true, false, none, some,
  List, [], ◌∷◌, arith, ok, >>=-ok, Option-cases, All, All-select_where, All-select_where-All,
  All-sort_by, All-take, All-both, All-listed, Memᴰ, select_where,
}
use voice_call.Schema.{Campaign, Lead, Db, LeadStatus}
use voice_call.Pii.{Cipher, decrypt_pii_or_null}
use voice_call.Eligibility.{check_eligibility, eligible}
use voice_call.Eligibility.Gate.{
  IsCallable, check_eligibility-eligible_iff, check_eligibility-leads,
}
use voice_call.Windows.{RawParts}
use voice_call.Queue.{
  ClaimedLead, ClaimArgs, ClaimResult, candidates, reclaim, claim_headroom, is_candidate,
  dial_order, input_of, claimed_lead, locked_lead,
}
use voice_call.Queue.Claiming.{
  Verdict, claim, pass, add, claim_one, claim_rows, claim_candidates, claim_leads,
}
use voice_call.Queue.Claiming.Rounds.{
  WroteLeads, WroteLeads-trans, update_lead-WroteLeads, claim_one-cases,
}
use voice_call.Queue.Claiming.Limits.{claim_leads-cases}

-- A claim is backed by a row of the queue, read after dead workers' leads were put back.
pub record IsSafeClaim (cipher : Cipher) (held : ℕ → Bool) (args : ClaimArgs) (db : Db)
    (c : ClaimedLead) : Type 0 where
  pub row : Lead
  pub listed : Memᴰ row (reclaim db args.campaign_id)
  pub waiting : row.status ≡ LeadStatus.queued
  pub assigned : row.campaign_id ≡ some args.campaign_id
  pub due : (row.next_call_at ≡ none) ⊎ ((t : ℕ) × (row.next_call_at ≡ some t) × (t ≤ args.now))
  pub unheld : held row.id ≡ false
  pub same_lead : c.lead_id ≡ row.id
  pub next_attempt : c.attempt_no ≡ row.call_attempt_count + 1
  pub phone : decrypt_pii_or_null cipher row.phone_enc ≡ ok (some c.phone_e164)
  pub callable : IsCallable cipher db (input_of args row c.phone_e164)

pub add-All :
    (P : ClaimedLead → Type 0) (v : Verdict) (r : ClaimResult)
    → ((cl : ClaimedLead) → v ≡ claim cl → P cl)
    → All P r.claimed
    → All P (add v r).claimed
unfolding add
add-All P (claim cl) r h k = (h cl refl, k)
add-All P (pass s) r h k = k

module _ (cipher : Cipher) (held : ℕ → Bool) (c : Campaign) (args : ClaimArgs) where
  -- What holds of each row that the loop visits.
  abbrev IsListed : Db → Lead → Type 0
  IsListed db row = Memᴰ row (reclaim db args.campaign_id) × (is_candidate held args row ≡ true)

  pub claim_one-WroteLeads :
      (db : Db) (row : Lead) (out : Db × Verdict)
      → claim_one cipher c args db row ≡ ok out
      → WroteLeads db out.0
  claim_one-WroteLeads db row out e = elim (claim_one-cases cipher c args db row out e) [
    | inl (f, s, keeps, is) ↦
        subst (WroteLeads db) (sym (ap (λ (x : Db × Verdict). x.0) is))
          (update_lead-WroteLeads db row.id f)
    | inr (phone, decrypted, whole, (passed, is)) ↦
        subst (WroteLeads db) (sym (ap (λ (x : Db × Verdict). x.0) is))
          (update_lead-WroteLeads db row.id (locked_lead args.worker_id db.now))
  ]

  check-WroteLeads :
      (start db : Db) (row : Lead) (phone : String)
      → WroteLeads start db
      → check_eligibility cipher db (input_of args row phone) ≡ eligible
      → IsCallable cipher start (input_of args row phone)
  check-WroteLeads start db row phone same passed =
      let i = input_of args row phone in
      (check_eligibility-eligible_iff cipher start i).0 (
        sym (check_eligibility-leads cipher start db.leads i)
        ∙ ap (λ (x : Db). check_eligibility cipher x i) same
        ∙ passed)

  safe_claim :
      (start db : Db) (row : Lead) (phone : String)
      → IsListed start row
      → decrypt_pii_or_null cipher row.phone_enc ≡ ok (some phone)
      → IsCallable cipher start (input_of args row phone)
      → IsSafeClaim cipher held args start (claimed_lead c args db row phone)
  unfolding claimed_lead
  safe_claim start db row phone listed decrypted callable = record {
    row = row;
    listed = listed.0;
    waiting = ground (arith, listed.1);
    assigned = ground (arith, listed.1);
    due = elim (Option-cases row.next_call_at) [
      | inl never ↦ inl never
      | inr (t, at) ↦ inr (t, at, ground (arith, listed.1))
    ];
    unheld = ground (arith, listed.1);
    same_lead = refl;
    next_attempt = refl;
    phone = decrypted;
    callable = callable;
  }

  claim_one-IsSafeClaim :
      (start db : Db) (row : Lead) (out : Db × Verdict) (cl : ClaimedLead)
      → WroteLeads start db
      → IsListed start row
      → claim_one cipher c args db row ≡ ok out
      → out.1 ≡ claim cl
      → IsSafeClaim cipher held args start cl
  claim_one-IsSafeClaim start db row out cl same listed e v =
      elim (claim_one-cases cipher c args db row out e) [
        | inl (f, s, keeps, is) ↦ absurd (cc)
        | inr (phone, decrypted, whole, (passed, is)) ↦
            subst (IsSafeClaim cipher held args start) (cc) (
              safe_claim start db row phone listed decrypted
                (check-WroteLeads start db row phone same passed))
      ]

  claim_rows-IsSafeClaim :
      (start db : Db) (rows : List Lead) (out : Db × ClaimResult)
      → WroteLeads start db
      → All (IsListed start) rows
      → claim_rows cipher c args db rows ≡ ok out
      → All (IsSafeClaim cipher held args start) out.1.claimed
  unfolding claim_rows
  claim_rows-IsSafeClaim start db [] out same listed e =
      let result : [] ≡ out.1.claimed = ground (arith, e) in
      subst (All (IsSafeClaim cipher held args start)) result tt
  claim_rows-IsSafeClaim start db (row ∷ rows) out same listed e =
      let (first, e₁, e') = >>=-ok (claim_one cipher c args db row) _ e in
      let (rest, e₂, e'') = >>=-ok (claim_rows cipher c args first.0 rows) _ e' in
      let wrote = WroteLeads-trans start db first.0 same (claim_one-WroteLeads db row first e₁) in
      let result : add first.1 rest.1 ≡ out.1 = ground (arith, e'') in
      subst (λ (r : ClaimResult). All (IsSafeClaim cipher held args start) r.claimed) result
        (add-All (IsSafeClaim cipher held args start) first.1 rest.1
          (λ cl v. claim_one-IsSafeClaim start db row first cl same listed.0 e₁ v)
          (claim_rows-IsSafeClaim start first.0 rows rest wrote listed.1 e₂))

  candidates-IsListed :
      (db : Db) (n : ℕ) → All (IsListed db) (candidates held args n (reclaim db args.campaign_id))
  unfolding candidates
  candidates-IsListed db n =
      let pool = reclaim db args.campaign_id in
      let listed = λ (l : Lead). Memᴰ l pool in
      All-take (IsListed db) n _ (
        All-sort_by (IsListed db) dial_order _ (
          All-both listed (λ l. is_candidate held args l ≡ true)
            (select_where (is_candidate held args) pool)
            (All-select_where-All listed (is_candidate held args) pool
              (All-listed pool pool (λ x m. m)))
            (All-select_where (λ l. is_candidate held args l ≡ true) (is_candidate held args) pool
              (λ l h. h))))

  claim_candidates-IsSafeClaim :
      (db : Db) (out : Db × ClaimResult)
      → claim_candidates cipher held c args db ≡ ok out
      → All (IsSafeClaim cipher held args db) out.1.claimed
  unfolding claim_candidates
  claim_candidates-IsSafeClaim db out e =
      let pool = reclaim db args.campaign_id in
      let rows = candidates held args (claim_headroom c db args) pool in
      let (done, e₁, e₂) =
        >>=-ok (claim_rows cipher c args (record db { leads = pool }) rows) _ e in
      let result : done.1.claimed ≡ out.1.claimed = ground (arith, e₂) in
      subst (All (IsSafeClaim cipher held args db)) result (
        claim_rows-IsSafeClaim db (record db { leads = pool }) rows done refl
          (candidates-IsListed db (claim_headroom c db args)) e₁)

-- Every claimed lead is a row of the campaign's queue that is due, that no other transaction holds
-- and that may be dialled, checked when it is claimed and not only at intake; the claim carries its
-- decrypted number and the number of its next attempt.
pub claim_leads_safe :
    (cipher : Cipher) (intl : ℕ → String → RawParts) (held : ℕ → Bool) (args : ClaimArgs) (db : Db)
    (out : Db × ClaimResult)
    → claim_leads cipher intl held args db ≡ ok out
    → All (IsSafeClaim cipher held args db) out.1.claimed
claim_leads_safe cipher intl held args db out e =
    elim (claim_leads-cases cipher intl held args db out e) [
      | inl nothing ↦ subst (All (IsSafeClaim cipher held args db)) (sym nothing) tt
      | inr l ↦ claim_candidates-IsSafeClaim cipher held l.campaign args db out l.claims
    ]
