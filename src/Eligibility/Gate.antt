-- ===== src/Eligibility/Gate.antt =====
-- What `checkEligibility` lets through, and what it never does.
use voice_call.Base.{
  ℕ, ◌<◌, ◌≡◌, refl, ◌↔◌, inl, inr, String, true, false, not, Option, none, some, List, [], ◌∷◌,
  ◌⊎◌, ap, subst, arith, str_eq, eq_iff, get_or, All, Memᴰ, Bool-cases, Option-cases, any-false_iff,
  any-mem, mem-any, holds-false_iff, All-mono, ◌==◌, ◌&&◌,
}
use voice_call.Schema.{
  Tenant, Campaign, Consent, Lead, Db, TenantStatus, is_active_consent, is_revoked, find_tenant,
  find_campaign,
}
use voice_call.Pii.{Cipher, blind_index, truthy}
use voice_call.Eligibility.{
  EligibilityInput, eligible, tenant_is_active, blocks_tenant, blocks_campaign, is_renewed,
  consent_is_withdrawn, off_allowlist, check_rules, check_campaign, on_tenant_dnc, on_campaign_dnc,
  check_eligibility,
}

-- A consent that a later, active one of the same lead replaces.
abbrev pub IsRenewed : Db → Consent → Type 0
IsRenewed db c =
    (a : Consent) × Memᴰ a db.consents
    × (a.lead_id ≡ c.lead_id)
    × (is_active_consent a.status ≡ true)
    × (c.captured_at < a.captured_at)

-- Every withdrawn or expired consent of the lead is replaced.
abbrev pub IsConsented : Db → ℕ → Type 0
IsConsented db lead =
    All (λ c. c.lead_id ≡ lead → is_revoked c.status ≡ true → IsRenewed db c) db.consents

-- The rules of a campaign, for the lead's phone, attempts and consents.
pub record IsOpenTo (db : Db) (i : EligibilityInput) (c : Campaign) : Type 0 where
  pub running : c.active ≡ true
  pub listed :
      (c.dial_allowlist ≡ [])
      ⊎ ((phone : String) × (truthy i.phone_e164 ≡ some phone) × Memᴰ phone c.dial_allowlist)
  pub attempts_left : i.call_attempt_count < get_or c.calling_config.max_attempts 3
  pub consented : c.service_call_campaign ≡ false → IsConsented db i.lead_id

is_renewed_iff : (db : Db) (c : Consent) → (is_renewed db.consents c ≡ true) ↔ IsRenewed db c
is_renewed_iff db c = (
  λ e. let (a, m, h) = any-mem _ db.consents e in (a, m, ground arith, ground arith, ground arith),
  λ (a, m, same, live, later). mem-any _ db.consents a m (ground arith),
)

withdrawn-false-IsConsented :
    (db : Db) (lead : ℕ) → consent_is_withdrawn db lead ≡ false → IsConsented db lead
unfolding consent_is_withdrawn
withdrawn-false-IsConsented db lead e =
    All-mono _ (λ c. c.lead_id ≡ lead → is_revoked c.status ≡ true → IsRenewed db c) db.consents
      (λ c h same revoked. (is_renewed_iff db c).0 (ground arith))
      ((any-false_iff _ db.consents).0 e)

IsConsented-withdrawn-false :
    (db : Db) (lead : ℕ) → IsConsented db lead → consent_is_withdrawn db lead ≡ false
unfolding consent_is_withdrawn
IsConsented-withdrawn-false db lead k = (any-false_iff _ db.consents).1 (
    All-mono (λ c. c.lead_id ≡ lead → is_revoked c.status ≡ true → IsRenewed db c) _ db.consents
      (λ c h. not_withdrawn c h) k)
  where
    not_withdrawn :
        (c : Consent)
        → (c.lead_id ≡ lead → is_revoked c.status ≡ true → IsRenewed db c)
        → (c.lead_id == lead && is_revoked c.status && not (is_renewed db.consents c)) ≡ false
    not_withdrawn c h = elim (Bool-cases (c.lead_id == lead && is_revoked c.status)) [
      | inl e ↦ ground (arith, (is_renewed_iff db c).1 (h (ground arith) (ground arith)))
      | inr e ↦ ground arith
    ]

off_allowlist-listed :
    (xs : List String) (phone : Option String)
    → off_allowlist xs phone ≡ false
    → (xs ≡ []) ⊎ ((p : String) × (phone ≡ some p) × Memᴰ p xs)
unfolding off_allowlist
off_allowlist-listed [] phone e = inl refl
off_allowlist-listed (x ∷ xs) none e = absurd (cc)
off_allowlist-listed (x ∷ xs) (some p) e =
    let (y, m, h) = any-mem (λ listed. str_eq listed p) (x ∷ xs) (ground arith) in
    inr (p, refl, subst (λ z. Memᴰ z (x ∷ xs)) ((eq_iff y p).0 h) m)

listed-off_allowlist :
    (xs : List String) (phone : Option String)
    → (xs ≡ []) ⊎ ((p : String) × (phone ≡ some p) × Memᴰ p xs)
    → off_allowlist xs phone ≡ false
unfolding off_allowlist
listed-off_allowlist [] phone h = refl
listed-off_allowlist (x ∷ xs) phone (inl e) = cc
listed-off_allowlist (x ∷ xs) phone (inr (p, e, m)) =
    rw e (ap not (mem-any (λ listed. str_eq listed p) (x ∷ xs) p m ((eq_iff p p).1 refl)))

check_rules-eligible :
    (db : Db) (i : EligibilityInput) (c : Campaign)
    → check_rules db i c ≡ eligible
    → IsOpenTo db i c
unfolding check_rules
check_rules-eligible db i c e = record {
  running = ground arith;
  listed = off_allowlist-listed c.dial_allowlist (truthy i.phone_e164) (ground arith);
  attempts_left = ground arith;
  consented = λ s. withdrawn-false-IsConsented db i.lead_id (ground arith);
}

IsOpenTo-check_rules :
    (db : Db) (i : EligibilityInput) (c : Campaign)
    → IsOpenTo db i c
    → check_rules db i c ≡ eligible
unfolding check_rules
IsOpenTo-check_rules db i c o = ground (
  arith,
  listed-off_allowlist c.dial_allowlist (truthy i.phone_e164) o.listed,
  λ (s : c.service_call_campaign ≡ false). IsConsented-withdrawn-false db i.lead_id (o.consented s),
)

-- A lead that may be dialled: an active tenant, no do-not-call mark on the lead, on the tenant's
-- list or on the campaign's, and a campaign that is open to it.
pub record IsCallable (cipher : Cipher) (db : Db) (i : EligibilityInput) : Type 0 where
  pub tenant : Tenant
  pub tenant_found : find_tenant db i.tenant_id ≡ some tenant
  pub tenant_active : tenant.status ≡ TenantStatus.active
  pub unflagged : i.lead_dnc ≡ false
  pub off_tenant_list :
      (phone : String)
      → truthy i.phone_e164 ≡ some phone
      → All (λ e. blocks_tenant (blind_index cipher i.tenant_id phone) e ≡ false) db.dnc_entries
  pub campaign_id : ℕ
  pub campaign : Campaign
  pub assigned : i.campaign_id ≡ some campaign_id
  pub campaign_found : find_campaign db campaign_id ≡ some campaign
  pub off_campaign_list :
      (phone : String)
      → truthy i.phone_e164 ≡ some phone
      → All
          (λ e. blocks_campaign campaign_id (blind_index cipher i.tenant_id phone) e ≡ false)
          db.dnc_entries
  pub open_to : IsOpenTo db i campaign

tenant_is_active-find :
    (db : Db) (id : ℕ)
    → tenant_is_active db id ≡ true
    → (t : Tenant) × (find_tenant db id ≡ some t) × (t.status ≡ TenantStatus.active)
unfolding tenant_is_active
tenant_is_active-find db id e = elim (Option-cases (find_tenant db id)) [
  | inl h ↦ absurd (ground arith)
  | inr (t, h) ↦ (t, h, ground arith)
]

check_campaign-eligible :
    (db : Db) (i : EligibilityInput) (o : Option ℕ)
    → check_campaign db i o ≡ eligible
    → (id : ℕ) × (c : Campaign) × (o ≡ some id) × (find_campaign db id ≡ some c) × IsOpenTo db i c
unfolding check_campaign
check_campaign-eligible db i none e = absurd (cc)
check_campaign-eligible db i (some id) e = elim (Option-cases (find_campaign db id)) [
  | inl h ↦ absurd (ground arith)
  | inr (c, h) ↦ (id, c, refl, h, check_rules-eligible db i c (ground arith))
]

module _ (cipher : Cipher) (db : Db) (i : EligibilityInput) where
  eligible-stages :
      check_eligibility cipher db i ≡ eligible
      → (tenant_is_active db i.tenant_id ≡ true)
        × (i.lead_dnc ≡ false)
        × (on_tenant_dnc cipher db i ≡ false)
        × (on_campaign_dnc cipher db i ≡ false)
        × (check_campaign db i i.campaign_id ≡ eligible)
  unfolding check_eligibility
  eligible-stages e = ground arith

  on_tenant_dnc-false_iff : (on_tenant_dnc cipher db i ≡ false) ↔ (
      (phone : String)
      → truthy i.phone_e164 ≡ some phone
      → All (λ e. blocks_tenant (blind_index cipher i.tenant_id phone) e ≡ false) db.dnc_entries)
  unfolding on_tenant_dnc
  on_tenant_dnc-false_iff =
      let each = holds-false_iff _ (truthy i.phone_e164) in
      (
        λ e phone h. (any-false_iff _ db.dnc_entries).0 (each.0 e phone h),
        λ k. each.1 (λ phone h. (any-false_iff _ db.dnc_entries).1 (k phone h)),
      )

  on_campaign_dnc-false_iff :
      (id : ℕ)
      → i.campaign_id ≡ some id
      → (on_campaign_dnc cipher db i ≡ false) ↔ (
          (phone : String)
          → truthy i.phone_e164 ≡ some phone
          → All
              (λ e. blocks_campaign id (blind_index cipher i.tenant_id phone) e ≡ false)
              db.dnc_entries)
  unfolding on_campaign_dnc
  on_campaign_dnc-false_iff id h = rw h (
    λ e phone g.
        (any-false_iff _ db.dnc_entries).0 ((holds-false_iff _ (truthy i.phone_e164)).0 e phone g),
    λ k.
        (holds-false_iff _ (truthy i.phone_e164)).1
          (λ phone g. (any-false_iff _ db.dnc_entries).1 (k phone g)),
  )

  callable-tenant : IsCallable cipher db i → tenant_is_active db i.tenant_id ≡ true
  unfolding tenant_is_active
  callable-tenant k = rw (k.tenant_found, k.tenant_active)

  callable-campaign : IsCallable cipher db i → check_campaign db i i.campaign_id ≡ eligible
  unfolding check_campaign
  callable-campaign k =
      rw (k.assigned, check_campaign)
        (rw (k.campaign_found, check_campaign) (IsOpenTo-check_rules db i k.campaign k.open_to))

  -- Exactly the leads that may be dialled pass: `checkEligibility` answers `eligible` if the tenant
  -- is active, neither the lead nor its number is marked do-not-call, the campaign runs and allows
  -- the number, attempts are left, and every withdrawn consent is renewed or the campaign makes
  -- service calls; and in no other case.
  pub check_eligibility-eligible_iff :
      (check_eligibility cipher db i ≡ eligible) ↔ IsCallable cipher db i
  unfolding check_eligibility
  check_eligibility-eligible_iff = (forward, backward)
    where
      forward : check_eligibility cipher db i ≡ eligible → IsCallable cipher db i
      forward e =
          let (live, unflagged, off_list, off_campaign, rules) = eligible-stages e in
          let (t, found, running) = tenant_is_active-find db i.tenant_id live in
          let (id, c, assigned, c_found, open_to) =
            check_campaign-eligible db i i.campaign_id rules in
          record {
            tenant = t;
            tenant_found = found;
            tenant_active = running;
            unflagged = unflagged;
            off_tenant_list = on_tenant_dnc-false_iff.0 off_list;
            campaign_id = id;
            campaign = c;
            assigned = assigned;
            campaign_found = c_found;
            off_campaign_list = (on_campaign_dnc-false_iff id assigned).0 off_campaign;
            open_to = open_to;
          }

      backward : IsCallable cipher db i → check_eligibility cipher db i ≡ eligible
      backward k = ground (
        arith,
        callable-tenant k,
        on_tenant_dnc-false_iff.1 k.off_tenant_list,
        (on_campaign_dnc-false_iff k.campaign_id k.assigned).1 k.off_campaign_list,
        callable-campaign k,
      )

-- The check reads no lead: it answers alike whatever is written to that table.
pub check_eligibility-leads :
    (cipher : Cipher) (db : Db) (leads : List Lead) (i : EligibilityInput)
    → check_eligibility cipher (record db { leads = leads }) i ≡ check_eligibility cipher db i
unfolding check_eligibility tenant_is_active find_tenant on_tenant_dnc on_campaign_dnc
    check_campaign check_rules consent_is_withdrawn find_campaign
check_eligibility-leads cipher db leads i = refl
