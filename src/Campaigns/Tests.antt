-- ===== src/Campaigns/Tests.antt =====
-- A configuration that is saved and loaded again.
use voice_call.Base.{◌+◌, ◌==◌, ◌&&◌, ℕ, ◌≡◌, refl, true, some, [], ◌∷◌, any, first_where, ok}
use voice_call.Fixtures.{a_db, a_campaign, result_or}
use voice_call.Schema.{Db, Campaign, QuestionConfig, CampaignConfig, CampaignVersion, find_campaign}
use voice_call.Campaigns.{
  SaveArgs, default_campaign_config, load_campaign_config, save_campaign_config, store, clashes,
  repeats,
}
use voice_call.Campaigns.Stored.{as_stored}
use voice_call.Campaigns.Saving.{
  load_campaign_config-save_campaign_config, save_campaign_config-versions,
}

abbrev asked : QuestionConfig
asked = record {
  field_name = "need";
  question = "What do you need?";
  required = true;
  position = 1;
}

abbrev given : CampaignConfig
given = record (default_campaign_config "Flats") { questions = asked ∷ [] }

abbrev args : SaveArgs
args = record {
  tenant_id = 1;
  campaign_id = 2;
  config = given;
  user_id = 9;
  change_note = some "first";
}

before : Db
before = a_db [] []

abbrev after : Db × ℕ
after = result_or (before, 0) (save_campaign_config before args)

saves : save_campaign_config before args ≡ ok after
unfolding save_campaign_config store clashes repeats first_where any before default_campaign_config
saves = refl

load_campaign_config-save_campaign_config_example :
    (after.1 ≡ a_campaign.config_version + 1)
    × (load_campaign_config after.0 2
        ≡ some (record {
          id = 2;
          config_version = a_campaign.config_version + 1;
          active = true;
          config = as_stored given;
        }))
unfolding find_campaign first_where before
load_campaign_config-save_campaign_config_example =
    load_campaign_config-save_campaign_config before args after saves a_campaign refl refl

save_campaign_config-versions_example :
    (c : Campaign) × (first_where (λ x. x.id == 2 && x.tenant_id == 1) before.campaigns ≡ some c)
    × (after.1 ≡ c.config_version + 1)
    × (first_where
          (λ v. v.campaign_id == 2 && v.version == c.config_version + 1)
          after.0.campaign_versions
        ≡ some (record {
          tenant_id = 1;
          campaign_id = 2;
          version = c.config_version + 1;
          snapshot = given;
          changed_by = 9;
          change_note = some "first";
        }))
    × ((campaign version : ℕ) (v : CampaignVersion)
        → first_where
            (λ x. x.campaign_id == campaign && x.version == version)
            before.campaign_versions
          ≡ some v
        → first_where
            (λ x. x.campaign_id == campaign && x.version == version)
            after.0.campaign_versions
          ≡ some v)
save_campaign_config-versions_example = save_campaign_config-versions before args after saves
