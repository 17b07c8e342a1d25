-- ===== src/CampaignRouting.antt =====
-- lib/leads/campaign-routing.ts: the campaign of a contact that names none. String.prototype's
-- toLowerCase is a parameter; the rows of the campaigns stand in the order of created_at.
pub mod Laws
pub mod Distinct
mod Tests
use voice_call.Base.{
  ℕ, zero, suc, String, Bool, true, false, not, ◌&&◌, Option, none, some, List, [], ◌∷◌, ◌==◌,
  str_eq, if◌then◌else◌, any, map, first_where, select_where, length, ◌+text◌, decimal, join, trim,
  is_empty, is_some,
}
use voice_call.Schema.{Db, Campaign}
use voice_call.Pii.{truthy}

-- A contact property: null, or something that String() turns into a text.
pub data Property : Type 0 where
  null : Property
  text : String → Property
  number : ℕ → Property
  flag : Bool → Property

pub data MatchedOn : Type 0 where
  property default only_active_campaign : MatchedOn

pub record CampaignRoute : Type 0 where
  pub campaign_id : ℕ
  pub matched_on : MatchedOn
  pub detail : Option String

pub data RoutingOutcome : Type 0 where
  routed : CampaignRoute → RoutingOutcome
  unrouted : (reason : String) → RoutingOutcome

abbrev pub Properties : Type 0
Properties = List (String × Property)

-- properties[name]; none is undefined
unfoldable pub property_at : String → Properties → Option Property
property_at name [] = none
property_at name (p ∷ ps) =
    let rest = property_at name ps in if str_eq p.0 name then some p.1 else rest

abbrev pub is_of_tenant : ℕ → Campaign → Bool
is_of_tenant tenant c = c.tenant_id == tenant && c.active

pub active_campaigns : Db → ℕ → List Campaign
active_campaigns db tenant = select_where (is_of_tenant tenant) db.campaigns

abbrev pub route : Campaign → MatchedOn → Option String → RoutingOutcome
route c on detail = routed (record { campaign_id = c.id; matched_on = on; detail = detail })

-- One active campaign, or none that can be chosen.
pub last_resort : List Campaign → RoutingOutcome
last_resort (c ∷ []) = route c only_active_campaign none
last_resort rows = unrouted (
    "no campaign matched and no default is set ("
    +text decimal (length rows)
    +text " active: "
    +text join ", " (map (λ c. c.name) rows)
    +text ")")

pub by_default : List Campaign → RoutingOutcome
by_default rows = elim (first_where (λ c. c.intake_default) rows) [
  | some c ↦ route c default none
  | none ↦ last_resort rows
]

module _ (lower : String → String) where
  -- text === "" ? null : text
  abbrev normalised_text : String → Option String
  normalised_text given = truthy (some (lower (trim given)))

  unfoldable pub normalise : Option Property → Option String
  normalise none = none
  normalise (some null) = none
  normalise (some (text s)) = normalised_text s
  normalise (some (number n)) = normalised_text (decimal n)
  normalise (some (flag b)) = normalised_text (if b then "true" else "false")

  -- The value of the campaign's property, if it selects the campaign.
  pub selected_by : Properties → Campaign → Option String
  selected_by properties c = elim (truthy c.intake_property) [
    | none ↦ none
    | some name ↦ elim (normalise (property_at name properties)) [
      | none ↦ none
      | some value ↦
          if any (λ v. elim (normalise (some (text v))) [ none ↦ false | some t ↦ str_eq t value ])
            c.intake_values
          then some (name +text "=" +text value)
          else none
    ]
  ]

  abbrev pub selects : Properties → Campaign → Bool
  selects properties c = is_some (selected_by properties c)

  pub by_property : Properties → List Campaign → RoutingOutcome
  by_property properties rows = elim (first_where (selects properties) rows) [
    | some c ↦ route c property (selected_by properties c)
    | none ↦ by_default rows
  ]

  pub route_among : Properties → List Campaign → RoutingOutcome
  route_among properties [] =
      unrouted "no active campaign for this client - activate one before HubSpot sends leads"
  route_among properties (c ∷ rows) = by_property properties (c ∷ rows)

  unfoldable pub resolve_campaign_for_contact : Db → ℕ → Properties → RoutingOutcome
  unfolding active_campaigns route_among by_property by_default last_resort selected_by property_at
  resolve_campaign_for_contact db tenant properties =
      route_among properties (active_campaigns db tenant)

-- select distinct intake_property … is not null
add_distinct : String → List String → List String
add_distinct x [] = x ∷ []
add_distinct x (y ∷ ys) = let rest = add_distinct x ys in if str_eq y x then y ∷ ys else y ∷ rest

unfoldable pub distinct_texts : List String → List String → List String
unfolding add_distinct
distinct_texts seen [] = seen
distinct_texts seen (x ∷ xs) = distinct_texts (add_distinct x seen) xs

properties_of : List Campaign → List String
properties_of [] = []
properties_of (c ∷ rows) = elim c.intake_property [
  | none ↦ properties_of rows
  | some p ↦ p ∷ properties_of rows
]

unfoldable pub routing_properties : Db → ℕ → List String
unfolding distinct_texts properties_of
routing_properties db tenant =
    distinct_texts [] (properties_of (select_where (λ c. c.tenant_id == tenant) db.campaigns))
