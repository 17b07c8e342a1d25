-- ===== src/Intake/Ingest/Redelivery.antt =====
-- An event for a CRM record that was taken in already.
use voice_call.Base.{none}
use voice_call.Schema.{Lead}

-- A lead without what an event says of its contact.
abbrev pub aside_contact : Lead → Lead
aside_contact l = record l {
  campaign_id = none;
  hubspot_record_id = none;
  name_enc = none;
  phone_enc = none;
  email_enc = none;
  phone_bidx = none;
  email_bidx = none;
  phone_last4 = none;
  phone_country = none;
  enquiry_enc = none;
}
