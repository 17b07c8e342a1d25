-- ===== src/Queue/Claiming/Rounds.antt =====
-- One round of the claiming loop: the lead is either put aside or claimed.
use voice_call.Base.{
  ℕ, ◌≡◌, refl, sym, ap, subst, ◌∙◌, ◌⊎◌, inl, inr, String, Option, none, some, ok, >>=-ok,
}
use voice_call.Schema.{Campaign, Lead, Db, update_lead}
use voice_call.Pii.{Cipher, truthy, decrypt_pii_or_null}
use voice_call.Pii.Laws.{truthy-some}
use voice_call.Eligibility.{
  SuppressionReason, EligibilityResult, eligible, ineligible, check_eligibility,
}
use voice_call.Queue.{
  ClaimArgs, Skip, became_ineligible, because, input_of, quarantined_lead, refused_lead,
  locked_lead, claimed_lead,
}
use voice_call.Queue.Claiming.{Verdict, claim, pass, claim_with_phone, claim_one}

-- Nothing but leads was written on the way from `db` to `db'`.
abbrev pub WroteLeads : Db → Db → Type 0
WroteLeads db db' = record db { leads = db'.leads } ≡ db'

pub WroteLeads-trans : (a b c : Db) → WroteLeads a b → WroteLeads b c → WroteLeads a c
WroteLeads-trans a b c p q = ap (λ (x : Db). record x { leads = c.leads }) p ∙ q

pub update_lead-WroteLeads :
    (db : Db) (id : ℕ) (f : Lead → Lead) → WroteLeads db (update_lead db id f)
unfolding update_lead
update_lead-WroteLeads db id f = refl

EligibilityResult-cases :
    (r : EligibilityResult)
    → (r ≡ eligible) ⊎ ((s : SuppressionReason) × (detail : String) × (r ≡ ineligible s detail))
EligibilityResult-cases eligible = inl refl
EligibilityResult-cases (ineligible s detail) = inr (s, detail, refl)

module _ (cipher : Cipher) (c : Campaign) (args : ClaimArgs) (db : Db) (row : Lead) where
  -- The lead is put aside by an update that keeps its id.
  abbrev pub IsPutAside : Db × Verdict → Type 0
  IsPutAside out =
      (f : Lead → Lead) × (s : Skip) × ((l : Lead) → (f l).id ≡ l.id)
      × (out ≡ (update_lead db row.id f, pass s))

  abbrev pub IsClaimedAs : Db × Verdict → String → Type 0
  IsClaimedAs out phone =
      (check_eligibility cipher db (input_of args row phone) ≡ eligible)
      × (out ≡ (
        update_lead db row.id (locked_lead args.worker_id db.now),
        claim (claimed_lead c args db row phone),
      ))

  with_phone-cases :
      (o : Option String)
      → IsPutAside (claim_with_phone cipher c args db row o)
        ⊎ ((phone : String) × (o ≡ some phone)
            × IsClaimedAs (claim_with_phone cipher c args db row o) phone)
  unfolding claim_with_phone
  with_phone-cases none = inl (quarantined_lead, _, (λ l. refl), refl)
  with_phone-cases (some phone) =
      elim (EligibilityResult-cases (check_eligibility cipher db (input_of args row phone))) [
        | inl yes_call ↦ inr (phone, refl, (yes_call, rw (yes_call, claim_with_phone) refl))
        | inr (s, detail, refused) ↦ inl (
          refused_lead s detail,
          record { lead_id = some row.id; reason = became_ineligible; detail = because s },
          (λ l. refl),
          rw (refused, claim_with_phone) refl,
        )
      ]

  pub claim_one-cases :
      (out : Db × Verdict)
      → claim_one cipher c args db row ≡ ok out
      → IsPutAside out
        ⊎ ((phone : String) × (decrypt_pii_or_null cipher row.phone_enc ≡ ok (some phone))
            × (truthy (some phone) ≡ some phone)
            × IsClaimedAs out phone)
  unfolding claim_one
  claim_one-cases out e =
      let (o, decrypted, e') = >>=-ok (decrypt_pii_or_null cipher row.phone_enc) _ e in
      let same : claim_with_phone cipher c args db row (truthy o) ≡ out = cc e' in
      elim (subst
        (λ z. IsPutAside z ⊎ ((phone : String) × (truthy o ≡ some phone) × IsClaimedAs z phone))
        same (with_phone-cases (truthy o))) [
          | inl aside ↦ inl aside
          | inr (phone, some_phone, claimed_as) ↦
              let whole = truthy-some o phone some_phone in
              inr (phone, decrypted ∙ ap ok whole, sym (ap truthy whole) ∙ some_phone, claimed_as)
        ]
