-- ===== src/Intake.antt =====
-- lib/leads/intake.ts: what an inbound event says, and the row of its lead. `nonce` gives the nonces
-- of the encrypted columns, in the order of the statement.
pub mod Consents
pub mod Ingest
use voice_call.Base.{
  ℕ, suc, ◌+◌, String, Bool, true, false, not, ◌&&◌, ◌||◌, Option, none, some, List, [], ◌∷◌, ◌++◌,
  ◌==◌, str_eq, if◌then◌else◌, holds, get_or, or_else, any, first_where, update_where, Outcome, ok,
  err, unique_violation, Option-cases,
}
use voice_call.Schema.{Db, Lead, LeadStatus, Envelope, ConsentBasis, Campaign, find_campaign}
use voice_call.Pii.{Cipher, truthy, encrypt_pii_or_null, blind_index}
use voice_call.Phone.{
  PhoneResult, callable, rejected, PhoneParser, normalize_phone, normalize_email,
  default_calling_country,
}

pub record Contact : Type 0 where
  pub name : Option String
  pub phone : Option String
  pub email : Option String
  pub requirement : Option String

pub record EventConsent : Type 0 where
  pub basis : ConsentBasis
  pub source : String
  pub evidence_ref : Option String
  pub captured_at : Option String

pub record IntakeEvent : Type 0 where
  pub tenant_id : ℕ
  pub campaign_id : Option ℕ
  pub source : String
  pub record_id : Option String
  pub contact : Contact
  pub consent : Option EventConsent
  pub correlation_id : Option String

pub record NormalizedContact : Type 0 where
  pub phone : PhoneResult
  pub phone_bidx : Option String
  pub email : Option String
  pub email_bidx : Option String

abbrev pub campaign_of : Db → IntakeEvent → Option Campaign
campaign_of db event = elim event.campaign_id [ none ↦ none | some id ↦ find_campaign db id ]

-- campaign?.calling_config?.country ?? DEFAULT_CALLING_COUNTRY
default_country : Option Campaign → String
default_country none = default_calling_country
default_country (some c) = get_or c.calling_config.country default_calling_country

abbrev pub e164_of : PhoneResult → Option String
e164_of (callable e164 country last4) = some e164
e164_of (rejected reason detail) = none

abbrev last4_of : PhoneResult → Option String
last4_of (callable e164 country last4) = some last4
last4_of (rejected reason detail) = none

abbrev country_of : PhoneResult → Option String
country_of (callable e164 country last4) = country
country_of (rejected reason detail) = none

abbrev pub has_record : String → Lead → Bool
has_record record_id l = holds (λ r. str_eq r record_id) l.hubspot_record_id

abbrev has_phone : String → Lead → Bool
has_phone index l = holds (λ b. str_eq b index) l.phone_bidx

abbrev has_email : String → Lead → Bool
has_email index l = holds (λ b. str_eq b index) l.email_bidx

-- The row that a clause finds, if the clause is asked at all.
abbrev row_by : (String → Lead → Bool) → Option String → List Lead → Option Lead
row_by test value leads = elim value [ none ↦ none | some v ↦ first_where (test v) leads ]

unfoldable pub find_existing : Db → Option String → Option String → Option String → Option Lead
find_existing db record_id phone_bidx email_bidx =
    or_else (row_by has_record (truthy record_id) db.leads) (
      or_else (row_by has_phone (truthy phone_bidx) db.leads)
        (row_by has_email (truthy email_bidx) db.leads))

-- The other row that the unique index on the record id would refuse.
unfoldable pub record_taken : Db → ℕ → Option String → Bool
record_taken db id record_id =
    holds (λ r. any (λ l. not (l.id == id) && has_record r l) db.leads) record_id

module _ (cipher : Cipher) (parse : PhoneParser) (lower : String → String) where
  abbrev index_of : ℕ → Option String → Option String
  index_of tenant value = elim value [ none ↦ none | some v ↦ some (blind_index cipher tenant v) ]

  unfoldable pub normalized : Db → IntakeEvent → NormalizedContact
  unfolding default_country
  normalized db event =
      let phone =
        normalize_phone parse event.contact.phone (some (default_country (campaign_of db event))) in
      let email = normalize_email lower event.contact.email in
      record {
        phone = phone;
        phone_bidx = index_of event.tenant_id (truthy (e164_of phone));
        email = email;
        email_bidx = index_of event.tenant_id (truthy email);
      }

-- n.phone.ok ? n.phone.e164 : event.contact.phone
abbrev stored_phone : IntakeEvent → PhoneResult → Option String
stored_phone event (callable e164 country last4) = some e164
stored_phone event (rejected reason detail) = event.contact.phone

module _ (cipher : Cipher) (nonce : ℕ → String) where
  unfoldable pub new_lead : Db → IntakeEvent → NormalizedContact → Lead
  new_lead db event n = record {
    id = db.next_id;
    campaign_id = event.campaign_id;
    hubspot_record_id = event.record_id;
    source = event.source;
    created_at = db.now;
    name_enc = encrypt_pii_or_null cipher (nonce 0) event.contact.name;
    phone_enc = encrypt_pii_or_null cipher (nonce 1) (stored_phone event n.phone);
    email_enc = encrypt_pii_or_null cipher (nonce 2) n.email;
    enquiry_enc = encrypt_pii_or_null cipher (nonce 3) event.contact.requirement;
    phone_bidx = n.phone_bidx;
    email_bidx = n.email_bidx;
    phone_last4 = last4_of n.phone;
    phone_country = country_of n.phone;
    status = LeadStatus.new;
    status_reason = none;
    dnc = false;
    call_attempt_count = 0;
    next_call_at = none;
    last_call_at = none;
    queued_at = none;
    locked_by = none;
    locked_at = none;
    lock_expires_at = none;
    correlation_id = event.correlation_id;
  }

  unfoldable pub insert_lead : Db → IntakeEvent → NormalizedContact → Outcome (Db × ℕ)
  insert_lead db event n =
      if record_taken db db.next_id event.record_id
      then err unique_violation
      else ok (
        record db { next_id = suc db.next_id; leads = db.leads ++ new_lead db event n ∷ [] },
        db.next_id,
      )

  -- coalesce($n, column): what the event does not say stays.
  abbrev pub merged_lead : IntakeEvent → NormalizedContact → Lead → Lead
  merged_lead event n l = record l {
    campaign_id = or_else event.campaign_id l.campaign_id;
    hubspot_record_id = or_else event.record_id l.hubspot_record_id;
    name_enc = or_else (encrypt_pii_or_null cipher (nonce 0) event.contact.name) l.name_enc;
    phone_enc = or_else (encrypt_pii_or_null cipher (nonce 1) (e164_of n.phone)) l.phone_enc;
    email_enc = or_else (encrypt_pii_or_null cipher (nonce 2) n.email) l.email_enc;
    phone_bidx = or_else n.phone_bidx l.phone_bidx;
    email_bidx = or_else n.email_bidx l.email_bidx;
    phone_last4 = or_else (last4_of n.phone) l.phone_last4;
    phone_country = or_else (country_of n.phone) l.phone_country;
    enquiry_enc =
        or_else (encrypt_pii_or_null cipher (nonce 3) event.contact.requirement) l.enquiry_enc;
  }

  pub merge_lead : Db → ℕ → IntakeEvent → NormalizedContact → Outcome (Db × ℕ)
  merge_lead db id event n =
      if record_taken db id event.record_id
      then err unique_violation
      else ok
          (record db { leads = update_where (λ l. l.id == id) (merged_lead event n) db.leads }, id)

  -- The lead that the event is about, found or made.
  unfoldable pub upsert_lead : Db → IntakeEvent → NormalizedContact → Option Lead → Outcome (Db × ℕ)
  upsert_lead db event n none = insert_lead db event n
  upsert_lead db event n (some e) = merge_lead db e.id event n
