-- ===== src/CampaignRouting/Tests.antt =====
-- Routing to a campaign by a property of the contact, and with nothing to go by.
use voice_call.Base.{
  ◌≡◌, ◌≢◌, refl, ◌↔◌, true, some, [], ◌∷◌, any, trim, is_blank, is_space, first_where,
  select_where, length,
}
use voice_call.Fixtures.{a_db, a_campaign, plain_lower}
use voice_call.Schema.{Db, Campaign}
use voice_call.Pii.{truthy}
use voice_call.CampaignRouting.{
  text, property, CampaignRoute, routed, Properties, active_campaigns, normalise,
  resolve_campaign_for_contact,
}
use voice_call.CampaignRouting.Laws.{
  Chosen, NoneSelected, NoDefault, IsUnrouted, resolve_campaign_for_contact_sound,
  resolve_campaign_for_contact-IsUnrouted_iff,
}

abbrev windows : Campaign
windows = record a_campaign {
  id = 3;
  name = "Windows";
  active = true;
  intake_property = some "product";
  intake_values = "windows" ∷ [];
}

abbrev two_campaigns : Db
two_campaigns = record (a_db [] []) {
  campaigns = record a_campaign { active = true } ∷ windows ∷ [];
}

abbrev for_windows : Properties
for_windows = ("product", text "windows") ∷ []

abbrev to_windows : CampaignRoute
to_windows = record { campaign_id = 3; matched_on = property; detail = some "product=windows" }

windows_chosen :
    resolve_campaign_for_contact plain_lower two_campaigns 1 for_windows ≡ routed to_windows
unfolding resolve_campaign_for_contact normalise truthy trim is_blank is_space any first_where
    select_where
windows_chosen = refl

resolve_campaign_for_contact_sound_example :
    Chosen plain_lower for_windows (active_campaigns two_campaigns 1) to_windows
resolve_campaign_for_contact_sound_example =
    resolve_campaign_for_contact_sound plain_lower for_windows two_campaigns 1 to_windows
      windows_chosen

resolve_campaign_for_contact-IsUnrouted_iff_example :
    IsUnrouted (resolve_campaign_for_contact plain_lower two_campaigns 1 []) ↔ (
      NoneSelected plain_lower [] (active_campaigns two_campaigns 1)
      × NoDefault (active_campaigns two_campaigns 1)
      × (length (active_campaigns two_campaigns 1) ≢ 1))
resolve_campaign_for_contact-IsUnrouted_iff_example =
    resolve_campaign_for_contact-IsUnrouted_iff plain_lower [] two_campaigns 1
