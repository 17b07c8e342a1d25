-- ===== src/CampaignRouting/Laws.antt =====
-- Which campaign a contact is routed to, and that none is guessed.
use voice_call.Base.{
  ℕ, ◌≡◌, ◌≢◌, refl, ◌↔◌, inl, inr, String, true, false, none, List, [], ◌∷◌, arith, first_where,
  All, Memᴰ, mem-first_where, first_where-true, first_where-none_iff, Option-cases, length,
}
use voice_call.Schema.{Db, Campaign}
use voice_call.CampaignRouting.{
  Properties, MatchedOn, property, default, only_active_campaign, CampaignRoute, RoutingOutcome,
  routed, unrouted, active_campaigns, last_resort, by_default, by_property, route_among, selects,
  selected_by, resolve_campaign_for_contact,
}

-- No campaign of the list is selected by the contact's properties.
abbrev pub NoneSelected : (String → String) → Properties → List Campaign → Type 0
NoneSelected lower properties rows = All (λ c. selects lower properties c ≡ false) rows

abbrev pub NoDefault : List Campaign → Type 0
NoDefault rows = All (λ c. c.intake_default ≡ false) rows

-- The reason that a route gives, as a fact about the campaigns.
abbrev pub Justified :
    (String → String) → Properties → List Campaign → Campaign → MatchedOn → Type 0
Justified lower properties rows c property = selects lower properties c ≡ true
Justified lower properties rows c default =
    (c.intake_default ≡ true) × NoneSelected lower properties rows
Justified lower properties rows c only_active_campaign =
    (rows ≡ c ∷ []) × NoneSelected lower properties rows × NoDefault rows

pub record Chosen (lower : String → String) (properties : Properties) (rows : List Campaign)
    (r : CampaignRoute) : Type 0 where
  pub campaign : Campaign
  pub listed : Memᴰ campaign rows
  pub chosen : r.campaign_id ≡ campaign.id
  pub why : Justified lower properties rows campaign r.matched_on

abbrev pub IsUnrouted : RoutingOutcome → Type 0
IsUnrouted (routed r) = ⊥
IsUnrouted (unrouted reason) = Unit

module _ (lower : String → String) (properties : Properties) where
  last_resort-Chosen :
      (rows : List Campaign) (r : CampaignRoute)
      → NoneSelected lower properties rows
      → NoDefault rows
      → last_resort rows ≡ routed r
      → Chosen lower properties rows r
  unfolding last_resort
  last_resort-Chosen [] r unselected plain e = absurd (cc)
  last_resort-Chosen (c ∷ []) r unselected plain e =
      let is : record { campaign_id = c.id; matched_on = only_active_campaign; detail = none } ≡ r =
        cc e in
      rw (← is) (record {
        campaign = c;
        listed = Memᴰ.head refl;
        chosen = refl;
        why = (refl, unselected, plain);
      })
  last_resort-Chosen (c ∷ d ∷ rows) r unselected plain e = absurd (cc)

  by_default-Chosen :
      (rows : List Campaign) (r : CampaignRoute)
      → NoneSelected lower properties rows
      → by_default rows ≡ routed r
      → Chosen lower properties rows r
  unfolding by_default
  by_default-Chosen rows r unselected e =
      elim (Option-cases (first_where (λ c. c.intake_default) rows)) [
        | inl plain ↦
            last_resort-Chosen rows r unselected
              ((first_where-none_iff (λ c. c.intake_default) rows).0 plain)
              (rw (plain, by_default) at e)
        | inr (c, found) ↦
            let is : record { campaign_id = c.id; matched_on = default; detail = none } ≡ r =
              cc (rw (found, by_default) at e) in
            rw (← is) (record {
              campaign = c;
              listed = mem-first_where (λ c. c.intake_default) rows found;
              chosen = refl;
              why = (first_where-true (λ c. c.intake_default) rows found, unselected);
            })
      ]

  by_property-Chosen :
      (rows : List Campaign) (r : CampaignRoute)
      → by_property lower properties rows ≡ routed r
      → Chosen lower properties rows r
  unfolding by_property
  by_property-Chosen rows r e = elim (Option-cases (first_where (selects lower properties) rows)) [
    | inl missed ↦
        by_default-Chosen rows r ((first_where-none_iff (selects lower properties) rows).0 missed)
          (rw (missed, by_property) at e)
    | inr (c, found) ↦
        let is : record {
          campaign_id = c.id;
          matched_on = property;
          detail = selected_by lower properties c;
        }
            ≡ r =
          cc (rw (found, by_property) at e) in
        rw (← is) (record {
          campaign = c;
          listed = mem-first_where (selects lower properties) rows found;
          chosen = refl;
          why = first_where-true (selects lower properties) rows found;
        })
  ]

  -- A route is never a guess: the campaign is an active one of the client, and it was chosen because
  -- the contact's property selects it, or else because it is the client's default and no property
  -- selects any, or else because it is the client's only active one and there is no default.
  pub resolve_campaign_for_contact_sound :
      (db : Db) (tenant : ℕ) (r : CampaignRoute)
      → resolve_campaign_for_contact lower db tenant properties ≡ routed r
      → Chosen lower properties (active_campaigns db tenant) r
  unfolding resolve_campaign_for_contact
  resolve_campaign_for_contact_sound db tenant r e = among (active_campaigns db tenant) e
    where
      among :
          (rows : List Campaign)
          → route_among lower properties rows ≡ routed r
          → Chosen lower properties rows r
      among [] h = absurd (cc)
      among (c ∷ rows) h = by_property-Chosen (c ∷ rows) r h

  last_resort-IsUnrouted :
      (rows : List Campaign) → IsUnrouted (last_resort rows) ↔ (length rows ≢ 1)
  unfolding last_resort
  last_resort-IsUnrouted [] = (λ h. omega arith, λ h. tt)
  last_resort-IsUnrouted (c ∷ []) = (λ h. absurd h, λ h. h refl)
  last_resort-IsUnrouted (c ∷ d ∷ rows) = (λ h. omega arith, λ h. tt)

  by_default-IsUnrouted :
      (rows : List Campaign) → IsUnrouted (by_default rows) ↔ (NoDefault rows × (length rows ≢ 1))
  unfolding by_default
  by_default-IsUnrouted rows =
      let by_first = first_where-none_iff (λ (c : Campaign). c.intake_default) rows in
      elim (Option-cases (first_where (λ c. c.intake_default) rows)) [
        | inl plain ↦
            rw (plain, by_default)
              (
                λ h. (by_first.0 plain, (last_resort-IsUnrouted rows).0 h),
                λ h. (last_resort-IsUnrouted rows).1 h.1,
              )
        | inr (c, found) ↦ rw (found, by_default) (λ h. absurd h, λ h. cc (by_first.1 h.0))
      ]

  by_property-IsUnrouted :
      (rows : List Campaign)
      → IsUnrouted (by_property lower properties rows)
        ↔ (NoneSelected lower properties rows × NoDefault rows × (length rows ≢ 1))
  unfolding by_property
  by_property-IsUnrouted rows =
      let by_first = first_where-none_iff (selects lower properties) rows in
      elim (Option-cases (first_where (selects lower properties) rows)) [
        | inl missed ↦
            rw (missed, by_property)
              (
                λ h.
                    let (plain, many) = (by_default-IsUnrouted rows).0 h in
                    (by_first.0 missed, plain, many),
                λ h. (by_default-IsUnrouted rows).1 (h.1, h.2),
              )
        | inr (c, found) ↦ rw (found, by_property) (λ h. absurd h, λ h. cc (by_first.1 h.0))
      ]

  -- A contact stays unrouted in no other case than these: no property of it selects an active
  -- campaign of the client, none of them is the default, and there is not exactly one.
  pub resolve_campaign_for_contact-IsUnrouted_iff :
      (db : Db) (tenant : ℕ)
      → let rows = active_campaigns db tenant in
        IsUnrouted (resolve_campaign_for_contact lower db tenant properties)
        ↔ (NoneSelected lower properties rows × NoDefault rows × (length rows ≢ 1))
  unfolding resolve_campaign_for_contact
  resolve_campaign_for_contact-IsUnrouted_iff db tenant = among (active_campaigns db tenant)
    where
      among :
          (rows : List Campaign)
          → IsUnrouted (route_among lower properties rows)
            ↔ (NoneSelected lower properties rows × NoDefault rows × (length rows ≢ 1))
      among [] = (λ h. (tt, tt, omega arith), λ h. tt)
      among (c ∷ rows) = by_property-IsUnrouted (c ∷ rows)
