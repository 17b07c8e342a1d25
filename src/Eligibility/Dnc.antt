-- ===== src/Eligibility/Dnc.antt =====
-- Permanent suppression: what it writes, and that it holds against every later check.
use voice_call.Base.{
  ◌≡◌, refl, sym, ap, ◌∙◌, inl, inr, String, true, ◌&&◌, none, some, List, ◌⊎◌, arith, eq_iff, any,
  ◌==◌, Bool-cases, Option-cases, any-append_last, any-mem, mem-any,
}
use voice_call.Schema.{
  Lead, DncEntry, Db, is_tenant_scope, find_lead, find_lead-update_lead, update_lead,
}
use voice_call.Pii.{Cipher, blind_index, truthy}
use voice_call.Eligibility.{
  EligibilityInput, ineligible, blocks_tenant, on_tenant_dnc, check_eligibility, add_tenant_dnc,
  Suppression, suppressed_lead, dnc_entry, record_dnc, suppress_lead, dnc_tenant, tenant_inactive,
  lead_dnc_flag,
}

add_tenant_dnc-blocks :
    (e : DncEntry) (entries : List DncEntry)
    → is_tenant_scope e.scope ≡ true
    → any (blocks_tenant e.phone_bidx) (add_tenant_dnc e entries) ≡ true
unfolding add_tenant_dnc
add_tenant_dnc-blocks e entries scope =
    elim (Bool-cases
      (any (λ d. d.tenant_id == e.tenant_id && blocks_tenant e.phone_bidx d) entries)) [
        | inl found ↦
            let (d, m, h) = any-mem _ entries found in
            rw found (mem-any (blocks_tenant e.phone_bidx) entries d m (ground arith))
        | inr missing ↦ rw missing (
            any-append_last (blocks_tenant e.phone_bidx) entries e
              (ground (arith, eq_iff e.phone_bidx e.phone_bidx)))
      ]

-- One entry a number: a second one for the same tenant and index adds no row.
add_tenant_dnc-again :
    (e : DncEntry) (entries : List DncEntry)
    → is_tenant_scope e.scope ≡ true
    → add_tenant_dnc e (add_tenant_dnc e entries) ≡ add_tenant_dnc e entries
unfolding add_tenant_dnc
add_tenant_dnc-again e entries scope =
    let matches = λ (d : DncEntry). d.tenant_id == e.tenant_id && blocks_tenant e.phone_bidx d in
    elim (Bool-cases (any matches entries)) [
      | inl found ↦ rw found (rw found refl)
      | inr missing ↦ rw missing (
          rw (any-append_last matches entries e (ground (arith, eq_iff e.phone_bidx e.phone_bidx)))
            refl)
    ]

module _ (cipher : Cipher) (db : Db) (args : Suppression) where
  suppress_lead-dnc :
      (phone : String)
      → truthy args.phone_e164 ≡ some phone
      → any
          (blocks_tenant (blind_index cipher args.tenant_id phone))
          (suppress_lead cipher db args).dnc_entries
        ≡ true
  unfolding suppress_lead record_dnc update_lead dnc_entry
  suppress_lead-dnc phone e =
      rw (e, record_dnc) (add_tenant_dnc-blocks (dnc_entry cipher args phone) db.dnc_entries refl)

  on_tenant_dnc-suppress_lead :
      (later : Db) (input : EligibilityInput) (phone : String)
      → truthy args.phone_e164 ≡ some phone
      → truthy input.phone_e164 ≡ some phone
      → input.tenant_id ≡ args.tenant_id
      → later.dnc_entries ≡ (suppress_lead cipher db args).dnc_entries
      → on_tenant_dnc cipher later input ≡ true
  unfolding on_tenant_dnc
  on_tenant_dnc-suppress_lead later input phone e f same kept =
      rw f (rw (same, kept) (suppress_lead-dnc phone e))

-- A number suppressed once is refused from then on, whatever happens to leads, consents, campaigns
-- and their configuration: as long as the do-not-call list is kept, a check of the same number for
-- the same tenant answers with the tenant's list, or with one of the two stronger reasons.
pub check_eligibility-suppress_lead :
    (cipher : Cipher) (db : Db) (args : Suppression) (later : Db) (input : EligibilityInput)
    (phone : String)
    → truthy args.phone_e164 ≡ some phone
    → truthy input.phone_e164 ≡ some phone
    → input.tenant_id ≡ args.tenant_id
    → later.dnc_entries ≡ (suppress_lead cipher db args).dnc_entries
    → (check_eligibility cipher later input ≡ ineligible tenant_inactive "Tenant is not active")
      ⊎ (check_eligibility cipher later input
          ≡ ineligible lead_dnc_flag "Lead is marked do-not-call")
      ⊎ (check_eligibility cipher later input
          ≡ ineligible dnc_tenant "Number is on the tenant DNC list")
unfolding check_eligibility
check_eligibility-suppress_lead cipher db args later input phone e f same kept =
    ground (arith, on_tenant_dnc-suppress_lead cipher db args later input phone e f same kept)

record_dnc-leads :
    (cipher : Cipher) (db : Db) (args : Suppression) → (record_dnc cipher db args).leads ≡ db.leads
unfolding record_dnc
record_dnc-leads cipher db args = ground arith

-- The suppressed lead is marked, leaves the queue and loses its next call and its lock.
pub find_lead-suppress_lead :
    (cipher : Cipher) (db : Db) (args : Suppression) {l : Lead}
    → find_lead db args.lead_id ≡ some l
    → find_lead (suppress_lead cipher db args) args.lead_id ≡ some (suppressed_lead args.reason l)
unfolding suppress_lead find_lead
find_lead-suppress_lead cipher db args {l} e =
    find_lead-update_lead (record_dnc cipher db args) args.lead_id (suppressed_lead args.reason)
      {l = l} (λ l. refl) (rw (record_dnc-leads cipher db args) e)

module _ (cipher : Cipher) (args : Suppression) where
  dnc_entries-suppress_none :
      (db : Db)
      → truthy args.phone_e164 ≡ none
      → (suppress_lead cipher db args).dnc_entries ≡ db.dnc_entries
  unfolding suppress_lead record_dnc update_lead
  dnc_entries-suppress_none db e = rw (e, record_dnc) refl

  dnc_entries-suppress_some :
      (db : Db) (phone : String)
      → truthy args.phone_e164 ≡ some phone
      → (suppress_lead cipher db args).dnc_entries
        ≡ add_tenant_dnc (dnc_entry cipher args phone) db.dnc_entries
  unfolding suppress_lead record_dnc update_lead
  dnc_entries-suppress_some db phone e = rw (e, record_dnc) refl

  -- Suppressing the same number again adds no second entry to the do-not-call list.
  pub dnc_entries-suppress_lead_again :
      (db : Db)
      → (suppress_lead cipher (suppress_lead cipher db args) args).dnc_entries
        ≡ (suppress_lead cipher db args).dnc_entries
  unfolding dnc_entry
  dnc_entries-suppress_lead_again db = elim (Option-cases (truthy args.phone_e164)) [
    | inl e ↦ dnc_entries-suppress_none (suppress_lead cipher db args) e
    | inr (phone, e) ↦
        let entry = dnc_entry cipher args phone in
        let first = dnc_entries-suppress_some db phone e in
        dnc_entries-suppress_some (suppress_lead cipher db args) phone e
        ∙ ap (add_tenant_dnc entry) first
        ∙ add_tenant_dnc-again entry db.dnc_entries refl
        ∙ sym first
  ]

pub suppress_lead-call_attempts :
    (cipher : Cipher) (db : Db) (args : Suppression)
    → (suppress_lead cipher db args).call_attempts ≡ db.call_attempts
unfolding suppress_lead record_dnc update_lead
suppress_lead-call_attempts cipher db args = ground arith

pub suppress_lead-call_analyses :
    (cipher : Cipher) (db : Db) (args : Suppression)
    → (suppress_lead cipher db args).call_analyses ≡ db.call_analyses
unfolding suppress_lead record_dnc update_lead
suppress_lead-call_analyses cipher db args = ground arith

pub suppress_lead-callbacks :
    (cipher : Cipher) (db : Db) (args : Suppression)
    → (suppress_lead cipher db args).callbacks ≡ db.callbacks
unfolding suppress_lead record_dnc update_lead
suppress_lead-callbacks cipher db args = ground arith
