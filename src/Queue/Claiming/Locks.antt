-- ===== src/Queue/Claiming/Locks.antt =====
-- A claimed lead is locked: no later claim takes it before its lock runs out.
use voice_call.Base.{
  ℕ, ◌+◌, ◌≤◌, ◌≡◌, ◌≢◌, refl, sym, ap, ◌∙◌, subst, inl, inr, String, Bool, false, some, List, [],
  ◌∷◌, arith, ◌==◌, ==_iff, if◌then◌else◌, ok, >>=-ok, Bool-cases, All, All-mono, All-mem,
  All-update_where, All-update_where_made, Memᴰ, mem-update_where, Lacks, Distinct, Distinct-take,
  Distinct-select_where, Distinct-sort_by, Distinct-update_where,
}
use voice_call.Schema.{Campaign, Lead, Db, LeadStatus, update_lead, audit_in_tx}
use voice_call.Pii.{Cipher}
use voice_call.Windows.{RawParts}
use voice_call.Queue.{
  ClaimedLead, ClaimArgs, ClaimResult, candidates, reclaim, claim_headroom, is_candidate,
  dial_order, is_stranded, unlocked, claimed_lead, locked_lead, lock_ttl_ms, audit_claims,
}
use voice_call.Queue.Claiming.{
  Verdict, claim, add, claim_one, claim_rows, claim_candidates, claim_leads,
}
use voice_call.Queue.Claiming.Rounds.{claim_one-cases}
use voice_call.Queue.Claiming.Limits.{claim_leads-cases}
use voice_call.Queue.Claiming.Safety.{claim_leads_safe, add-All}

-- The primary key of leads.
abbrev pub LeadKeys : List Lead → Type 0
LeadKeys = Distinct (λ l. l.id)

pub record IsLocked (worker : String) (now : ℕ) (l : Lead) : Type 0 where
  pub calling : l.status ≡ LeadStatus.calling
  pub owner : l.locked_by ≡ some worker
  pub until : l.lock_expires_at ≡ some (now + lock_ttl_ms)

-- The lead `id` is locked, wherever it stands in the table.
abbrev pub Locked : String → ℕ → ℕ → List Lead → Type 0
Locked worker now id = All (λ l. l.id ≡ id → IsLocked worker now l)

Locked-update_lead :
    (worker : String) (now : ℕ) (db db' : Db) (changed id : ℕ) (f : Lead → Lead)
    → changed ≢ id
    → ((l : Lead) → (f l).id ≡ l.id)
    → update_lead db changed f ≡ db'
    → Locked worker now id db.leads
    → Locked worker now id db'.leads
unfolding update_lead
Locked-update_lead worker now db db' changed id f other keeps is h =
    subst (λ (x : Db). Locked worker now id x.leads) is
      (All-update_where (λ l. l.id ≡ id → IsLocked worker now l) (λ l. l.id == changed) f db.leads
        (λ l hit _ same. absurd (other (sym ((==_iff l.id changed).0 hit) ∙ sym (keeps l) ∙ same)))
        h)

Locked-locked_lead :
    (worker : String) (db db' : Db) (id : ℕ)
    → update_lead db id (locked_lead worker db.now) ≡ db'
    → Locked worker db.now id db'.leads
unfolding update_lead
Locked-locked_lead worker db db' id is =
    subst (λ (x : Db). Locked worker db.now id x.leads) is
      (All-update_where_made (λ l. l.id ≡ id → IsLocked worker db.now l) (λ l. l.id == id)
        (locked_lead worker db.now) db.leads
        (λ l hit same. record { calling = refl; owner = refl; until = refl })
        (λ l miss same. absurd (ground arith)))

module _ (cipher : Cipher) (c : Campaign) (args : ClaimArgs) where
  -- A round leaves the locks of other leads alone, and locks the lead that it claims.
  claim_one-Locked :
      (db : Db) (row : Lead) (out : Db × Verdict) (id : ℕ)
      → row.id ≢ id
      → claim_one cipher c args db row ≡ ok out
      → Locked args.worker_id db.now id db.leads
      → Locked args.worker_id db.now id out.0.leads
  claim_one-Locked db row out id other e h = elim (claim_one-cases cipher c args db row out e) [
    | inl (f, s, keeps, is) ↦
        Locked-update_lead args.worker_id db.now db out.0 row.id id f other keeps
          (sym (ap (λ (x : Db × Verdict). x.0) is)) h
    | inr (phone, decrypted, whole, (passed, is)) ↦
        Locked-update_lead args.worker_id db.now db out.0 row.id id
          (locked_lead args.worker_id db.now) other (λ l. refl)
          (sym (ap (λ (x : Db × Verdict). x.0) is)) h
  ]

  claim_one-locks :
      (db : Db) (row : Lead) (out : Db × Verdict) (cl : ClaimedLead)
      → claim_one cipher c args db row ≡ ok out
      → out.1 ≡ claim cl
      → (cl.lead_id ≡ row.id) × Locked args.worker_id db.now row.id out.0.leads
  unfolding claimed_lead
  claim_one-locks db row out cl e v = elim (claim_one-cases cipher c args db row out e) [
    | inl (f, s, keeps, is) ↦ absurd (cc)
    | inr (phone, decrypted, whole, (passed, is)) ↦
        let mine : claimed_lead c args db row phone ≡ cl = cc in
        (
          sym (ap (λ (x : ClaimedLead). x.lead_id) mine),
          Locked-locked_lead args.worker_id db out.0 row.id
              (sym (ap (λ (x : Db × Verdict). x.0) is)),
        )
  ]

  claim_one-now :
      (db : Db) (row : Lead) (out : Db × Verdict)
      → claim_one cipher c args db row ≡ ok out
      → out.0.now ≡ db.now
  unfolding update_lead
  claim_one-now db row out e = elim (claim_one-cases cipher c args db row out e) [
    | inl (f, s, keeps, is) ↦ ap (λ (x : Db × Verdict). x.0.now) is
    | inr (phone, decrypted, whole, (passed, is)) ↦ ap (λ (x : Db × Verdict). x.0.now) is
  ]

  -- The loop leaves the locks of leads that it does not visit alone.
  claim_rows-Locked :
      (db : Db) (rows : List Lead) (out : Db × ClaimResult) (id : ℕ)
      → Lacks (λ l. l.id) id rows
      → claim_rows cipher c args db rows ≡ ok out
      → Locked args.worker_id db.now id db.leads
      → Locked args.worker_id db.now id out.0.leads
  unfolding claim_rows
  claim_rows-Locked db [] out id lacks e h =
      let result : db ≡ out.0 = ground (arith, e) in
      subst (λ (x : Db). Locked args.worker_id db.now id x.leads) result h
  claim_rows-Locked db (row ∷ rows) out id lacks e h =
      let (first, e₁, e') = >>=-ok (claim_one cipher c args db row) _ e in
      let (rest, e₂, e'') = >>=-ok (claim_rows cipher c args first.0 rows) _ e' in
      let now = claim_one-now db row first e₁ in
      let kept = claim_one-Locked db row first id lacks.0 e₁ h in
      let result : rest.0 ≡ out.0 = ground (arith, e'') in
      subst (λ (x : Db). Locked args.worker_id db.now id x.leads) result
        (subst (λ t. Locked args.worker_id t id rest.0.leads) now
          (claim_rows-Locked first.0 rows rest id lacks.1 e₂
            (subst (λ t. Locked args.worker_id t id first.0.leads) (sym now) kept)))

  claim_rows-locks :
      (db : Db) (rows : List Lead) (out : Db × ClaimResult)
      → LeadKeys rows
      → claim_rows cipher c args db rows ≡ ok out
      → All (λ cl. Locked args.worker_id db.now cl.lead_id out.0.leads) out.1.claimed
  unfolding claim_rows
  claim_rows-locks db [] out keys e =
      let result : [] ≡ out.1.claimed = ground (arith, e) in
      subst (All (λ cl. Locked args.worker_id db.now cl.lead_id out.0.leads)) result tt
  claim_rows-locks db (row ∷ rows) out keys e =
      let (first, e₁, e') = >>=-ok (claim_one cipher c args db row) _ e in
      let (rest, e₂, e'') = >>=-ok (claim_rows cipher c args first.0 rows) _ e' in
      let now = claim_one-now db row first e₁ in
      let written : rest.0 ≡ out.0 = ground (arith, e'') in
      let result : add first.1 rest.1 ≡ out.1 = ground (arith, e'') in
      let P = λ (cl : ClaimedLead). Locked args.worker_id db.now cl.lead_id rest.0.leads in
      let later : All P rest.1.claimed =
        subst (λ t. All (λ cl. Locked args.worker_id t cl.lead_id rest.0.leads) rest.1.claimed) now
          (claim_rows-locks first.0 rows rest keys.1 e₂) in
      let here : (cl : ClaimedLead) → first.1 ≡ claim cl → P cl = λ cl v.
        let (same, locked) = claim_one-locks db row first cl e₁ v in
        subst (λ id. Locked args.worker_id db.now id rest.0.leads) (sym same)
          (subst (λ t. Locked args.worker_id t row.id rest.0.leads) now
            (claim_rows-Locked first.0 rows rest row.id keys.0 e₂
              (subst (λ t. Locked args.worker_id t row.id first.0.leads) (sym now) locked))) in
      subst
        (λ (r : ClaimResult).
          All (λ cl. Locked args.worker_id db.now cl.lead_id out.0.leads) r.claimed)
        result
        (subst
          (λ (x : Db).
            All (λ cl. Locked args.worker_id db.now cl.lead_id x.leads)
              (add first.1 rest.1).claimed)
          written (add-All P first.1 rest.1 here later))

LeadKeys-reclaim : (db : Db) (campaign : ℕ) → LeadKeys db.leads → LeadKeys (reclaim db campaign)
unfolding reclaim
LeadKeys-reclaim db campaign keys =
    Distinct-update_where _ (is_stranded campaign db.now) unlocked (λ l. refl) db.leads keys

LeadKeys-candidates :
    (held : ℕ → Bool) (args : ClaimArgs) (n : ℕ) (ls : List Lead)
    → LeadKeys ls
    → LeadKeys (candidates held args n ls)
unfolding candidates
LeadKeys-candidates held args n ls keys =
    Distinct-take _ n _
      (Distinct-sort_by _ dial_order _ (Distinct-select_where _ (is_candidate held args) ls keys))

audit_claims-leads :
    (args : ClaimArgs) (r : ClaimResult) (db : Db) → (audit_claims args r db).leads ≡ db.leads
unfolding audit_claims audit_in_tx
audit_claims-leads args r db = ground arith

claim_candidates-locks :
    (cipher : Cipher) (held : ℕ → Bool) (c : Campaign) (args : ClaimArgs) (db : Db)
    (out : Db × ClaimResult)
    → LeadKeys db.leads
    → claim_candidates cipher held c args db ≡ ok out
    → All (λ cl. Locked args.worker_id db.now cl.lead_id out.0.leads) out.1.claimed
unfolding claim_candidates
claim_candidates-locks cipher held c args db out keys e =
    let pool = reclaim db args.campaign_id in
    let rows = candidates held args (claim_headroom c db args) pool in
    let (done, e₁, e₂) = >>=-ok (claim_rows cipher c args (record db { leads = pool }) rows) _ e in
    let result : (audit_claims args done.1 done.0, done.1) ≡ out = cc e₂ in
    subst
      (λ (o : Db × ClaimResult).
        All (λ cl. Locked args.worker_id db.now cl.lead_id o.0.leads) o.1.claimed)
      result
      (subst (λ ls. All (λ cl. Locked args.worker_id db.now cl.lead_id ls) done.1.claimed)
        (sym (audit_claims-leads args done.1 done.0))
        (claim_rows-locks cipher c args (record db { leads = pool }) rows done
          (LeadKeys-candidates held args _ pool (LeadKeys-reclaim db args.campaign_id keys)) e₁))

-- Every claimed lead is left in status calling, locked by the worker until five minutes after the
-- transaction's time.
pub claim_leads_locks :
    (cipher : Cipher) (intl : ℕ → String → RawParts) (held : ℕ → Bool) (args : ClaimArgs) (db : Db)
    (out : Db × ClaimResult)
    → LeadKeys db.leads
    → claim_leads cipher intl held args db ≡ ok out
    → All (λ c. Locked args.worker_id db.now c.lead_id out.0.leads) out.1.claimed
claim_leads_locks cipher intl held args db out keys e =
    elim (claim_leads-cases cipher intl held args db out e) [
      | inl nothing ↦
          subst (All (λ c. Locked args.worker_id db.now c.lead_id out.0.leads)) (sym nothing) tt
      | inr l ↦ claim_candidates-locks cipher held l.campaign args db out keys l.claims
    ]

-- A lead whose lock has not run out is no row of the queue, also after the reclaiming.
Locked-not-queued :
    (worker : String) (since : ℕ) (later : Db) (campaign id : ℕ) (row : Lead)
    → Locked worker since id later.leads
    → later.now ≤ since + lock_ttl_ms
    → Memᴰ row (reclaim later campaign)
    → row.status ≡ LeadStatus.queued
    → row.id ≢ id
unfolding reclaim
Locked-not-queued worker since later campaign id row locked early m waiting same =
    let (x, listed, is) =
      mem-update_where (is_stranded campaign later.now) unlocked later.leads row m in
    let lock = All-mem (λ l. l.id ≡ id → IsLocked worker since l) later.leads x locked listed in
    let held = lock (kept x is) in
    let calling = held.calling in
    let until = held.until in
    let fresh : is_stranded campaign later.now x ≡ false = ground arith in absurd (ground arith)
  where
    kept :
        (x : Lead) → row ≡ (if is_stranded campaign later.now x then unlocked x else x) → x.id ≡ id
    kept x is = elim (Bool-cases (is_stranded campaign later.now x)) [
      | inl stranded ↦ sym (ap (λ (l : Lead). l.id) (rw stranded at is)) ∙ same
      | inr fresh ↦ sym (ap (λ (l : Lead). l.id) (rw fresh at is)) ∙ same
    ]

-- No lead is dialled twice: a claim made before the locks of an earlier one run out, by any worker
-- and for any campaign, over the leads as that one left them, takes none of its leads.
pub claim_leads_disjoint :
    (cipher : Cipher) (intl intl' : ℕ → String → RawParts) (held held' : ℕ → Bool)
    (args args' : ClaimArgs) (db later : Db) (out out' : Db × ClaimResult)
    → LeadKeys db.leads
    → claim_leads cipher intl held args db ≡ ok out
    → later.leads ≡ out.0.leads
    → later.now ≤ db.now + lock_ttl_ms
    → claim_leads cipher intl' held' args' later ≡ ok out'
    → All (λ c. All (λ c'. c'.lead_id ≢ c.lead_id) out'.1.claimed) out.1.claimed
claim_leads_disjoint cipher intl intl' held held' args args' db later out out' keys e same early
      e' =
    All-mono _ (λ c. All (λ c'. c'.lead_id ≢ c.lead_id) out'.1.claimed) out.1.claimed
      (λ c locked.
        All-mono _ (λ c'. c'.lead_id ≢ c.lead_id) out'.1.claimed
          (λ c' safe q.
            Locked-not-queued args.worker_id db.now later args'.campaign_id c.lead_id safe.row
              (subst (Locked args.worker_id db.now c.lead_id) (sym same) locked) early safe.listed
              safe.waiting (sym safe.same_lead ∙ q))
          (claim_leads_safe cipher intl' held' args' later out' e'))
      (claim_leads_locks cipher intl held args db out keys e)
