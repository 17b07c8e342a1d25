-- ===== src/HubspotEvent/Laws.antt =====
-- The mapping reads nothing that is not asked for.
use voice_call.Base.{
  ◌≡◌, refl, inl, inr, String, true, List, [], ◌∷◌, any, map, select_where, str_eq, eq_iff, All,
  Bool-cases, subst, is_empty, not, trim, is_blank, is_space, ◌++◌,
}
use voice_call.CampaignRouting.{Properties, property_at}
use voice_call.CampaignRouting.Distinct.{is_listed, distinct_texts-listed}
use voice_call.HubspotEvent.{parse_properties, contact_properties_to_fetch, known_properties}

All-listed {ℓ} :
    (P : String → Type ℓ) (name : String) (names : List String)
    → is_listed name names ≡ true
    → All P names
    → P name
unfolding any
All-listed P name [] h all = absurd (cc)
All-listed P name (x ∷ xs) h all = elim (Bool-cases (str_eq x name)) [
  | inl e ↦ subst P ((eq_iff x name).0 e) all.0
  | inr e ↦ All-listed P name xs (rw e at h) all.1
]

selected-listed :
    (name : String) (xs extra : List String)
    → is_listed name (select_where (λ p. not (is_empty p)) (map trim xs)) ≡ true
    → is_listed name (select_where (λ p. not (is_empty p)) (map trim (xs ++ extra))) ≡ true
unfolding any select_where
selected-listed name [] extra h = absurd (cc)
selected-listed name (x ∷ xs) extra h = elim (Bool-cases (is_empty (trim x))) [
  | inl blank ↦ rw blank (selected-listed name xs extra (rw blank at h))
  | inr said ↦
      let given = rw said at h in
      rw said (elim (Bool-cases (str_eq (trim x) name)) [
        | inl e ↦ rw e refl
        | inr e ↦ rw e (selected-listed name xs extra (rw e at given))
      ])
]

-- The names that the mapping reads are all asked for.
abbrev IsKnown : String → Type 0
IsKnown name =
    is_listed name (select_where (λ p. not (is_empty p)) (map trim known_properties)) ≡ true

agree :
    (p q : Properties) (extra : List String) (name : String)
    → IsKnown name
    → All (λ n. property_at n p ≡ property_at n q) (contact_properties_to_fetch extra)
    → property_at name p ≡ property_at name q
unfolding contact_properties_to_fetch any
agree p q extra name known same =
    All-listed (λ n. property_at n p ≡ property_at n q) name (contact_properties_to_fetch extra)
      (distinct_texts-listed name []
        (select_where (λ n. not (is_empty n)) (map trim (known_properties ++ extra)))
        (selected-listed name known_properties extra known))
      same

module _ (p q : Properties) (extra : List String)
    (same : All (λ n. property_at n p ≡ property_at n q) (contact_properties_to_fetch extra)) where
  -- What is read is asked for: two contacts that agree on the properties that are fetched, whatever
  -- routing adds to them, are read alike, so that no property is read that was never requested.
  pub parse_properties_fetched : parse_properties p ≡ parse_properties q
  unfolding parse_properties any select_where trim is_blank is_space
  parse_properties_fetched =
      rw
        (
          agree p q extra "firstname" refl same,
          agree p q extra "lastname" refl same,
          agree p q extra "phone" refl same,
          agree p q extra "mobilephone" refl same,
          agree p q extra "email" refl same,
          agree p q extra "requirement" refl same,
          agree p q extra "product_interest" refl same,
          agree p q extra "what_are_you_looking_for" refl same,
          agree p q extra "message" refl same,
          agree p q extra "consent_basis" refl same,
          agree p q extra "consent_source" refl same,
          agree p q extra "consent_evidence_ref" refl same,
          agree p q extra "consent_captured_at" refl same,
          agree p q extra "hs_legal_basis" refl same,
          agree p q extra "hs_marketable_status" refl same,
          agree p q extra "hs_analytics_source" refl same,
          agree p q extra "hs_latest_source" refl same,
          agree p q extra "hs_object_id" refl same,
          agree p q extra "createdate" refl same,
        )
        refl
