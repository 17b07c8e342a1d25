-- ===== src/HubspotEvent/Parsing.antt =====
-- lib/leads/hubspot-event.ts: the properties of a contact, the ones to ask for, and their check.
use voice_call.Base.{
  String, not, Option, none, some, List, [], ◌∷◌, ◌++◌, map, select_where, Outcome, ok, err, ◌>>=◌,
  trim, is_empty, invalid_properties,
}
use voice_call.CampaignRouting.{
  Property, null, text, number, flag, Properties, property_at, distinct_texts,
}

-- The properties that the mapping reads. The status may be a Boolean, the object id a number.
pub record ContactProperties : Type 0 where
  pub firstname : Option String
  pub lastname : Option String
  pub phone : Option String
  pub mobilephone : Option String
  pub email : Option String
  pub requirement : Option String
  pub product_interest : Option String
  pub what_are_you_looking_for : Option String
  pub message : Option String
  pub consent_basis : Option String
  pub consent_source : Option String
  pub consent_evidence_ref : Option String
  pub consent_captured_at : Option String
  pub hs_legal_basis : Option String
  pub hs_marketable_status : Option Property
  pub hs_analytics_source : Option String
  pub hs_latest_source : Option String
  pub hs_object_id : Option Property
  pub createdate : Option String

abbrev pub known_properties : List String
known_properties =
    "firstname" ∷ "lastname" ∷ "phone" ∷ "mobilephone" ∷ "email" ∷ "requirement"
    ∷ "product_interest" ∷ "what_are_you_looking_for" ∷ "message" ∷ "consent_basis"
    ∷ "consent_source" ∷ "consent_evidence_ref" ∷ "consent_captured_at" ∷ "hs_legal_basis"
    ∷ "hs_marketable_status" ∷ "hs_analytics_source" ∷ "hs_latest_source" ∷ "hs_object_id"
    ∷ "createdate" ∷ []

unfoldable pub contact_properties_to_fetch : List String → List String
contact_properties_to_fetch extra =
    distinct_texts [] (select_where (λ p. not (is_empty p)) (map trim (known_properties ++ extra)))

-- z.string().nullish()
unfoldable pub as_text : Option Property → Outcome (Option String)
as_text found = elim found [
  | none ↦ ok none
  | some value ↦ elim value [
    | null ↦ ok none
    | text s ↦ ok (some s)
    | number n ↦ err invalid_properties
    | flag b ↦ err invalid_properties
  ]
]

-- z.union([z.string(), z.boolean()]).nullish() and z.union([z.string(), z.number()]).nullish()
unfoldable pub as_status : Option Property → Outcome (Option Property)
as_status found = elim found [
  | none ↦ ok none
  | some value ↦ elim value [
    | null ↦ ok none
    | text s ↦ ok (some (text s))
    | number n ↦ err invalid_properties
    | flag b ↦ ok (some (flag b))
  ]
]

unfoldable pub as_id : Option Property → Outcome (Option Property)
as_id found = elim found [
  | none ↦ ok none
  | some value ↦ elim value [
    | null ↦ ok none
    | text s ↦ ok (some (text s))
    | number n ↦ ok (some (number n))
    | flag b ↦ err invalid_properties
  ]
]

unfoldable pub parse_properties : Properties → Outcome ContactProperties
unfolding as_text as_status as_id
parse_properties props = do
  firstname ← as_text (property_at "firstname" props)
  lastname ← as_text (property_at "lastname" props)
  phone ← as_text (property_at "phone" props)
  mobilephone ← as_text (property_at "mobilephone" props)
  email ← as_text (property_at "email" props)
  requirement ← as_text (property_at "requirement" props)
  product_interest ← as_text (property_at "product_interest" props)
  what_are_you_looking_for ← as_text (property_at "what_are_you_looking_for" props)
  message ← as_text (property_at "message" props)
  basis ← as_text (property_at "consent_basis" props)
  consent_source ← as_text (property_at "consent_source" props)
  consent_evidence_ref ← as_text (property_at "consent_evidence_ref" props)
  consent_captured_at ← as_text (property_at "consent_captured_at" props)
  hs_legal_basis ← as_text (property_at "hs_legal_basis" props)
  hs_marketable_status ← as_status (property_at "hs_marketable_status" props)
  hs_analytics_source ← as_text (property_at "hs_analytics_source" props)
  hs_latest_source ← as_text (property_at "hs_latest_source" props)
  hs_object_id ← as_id (property_at "hs_object_id" props)
  createdate ← as_text (property_at "createdate" props)
  ok (record {
    firstname = firstname;
    lastname = lastname;
    phone = phone;
    mobilephone = mobilephone;
    email = email;
    requirement = requirement;
    product_interest = product_interest;
    what_are_you_looking_for = what_are_you_looking_for;
    message = message;
    consent_basis = basis;
    consent_source = consent_source;
    consent_evidence_ref = consent_evidence_ref;
    consent_captured_at = consent_captured_at;
    hs_legal_basis = hs_legal_basis;
    hs_marketable_status = hs_marketable_status;
    hs_analytics_source = hs_analytics_source;
    hs_latest_source = hs_latest_source;
    hs_object_id = hs_object_id;
    createdate = createdate;
  })
