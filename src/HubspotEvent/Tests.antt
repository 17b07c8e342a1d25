-- ===== src/HubspotEvent/Tests.antt =====
-- The properties that a contact is fetched with, where a campaign routes by another one.
use voice_call.Base.{◌≡◌, refl, [], ◌∷◌, any, trim, is_blank, is_space, select_where, length}
use voice_call.CampaignRouting.{distinct_texts}
use voice_call.HubspotEvent.{contact_properties_to_fetch}

one_more_property : length (contact_properties_to_fetch (" product " ∷ "" ∷ "email" ∷ [])) ≡ 20
unfolding contact_properties_to_fetch select_where trim is_blank is_space any distinct_texts
one_more_property = refl
