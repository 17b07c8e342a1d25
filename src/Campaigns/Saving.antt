-- ===== src/Campaigns/Saving.antt =====
-- What a saved configuration reads back as, and the history of its versions.
use voice_call.Base.{
  ℕ, ◌+◌, ◌≡◌, refl, ◌∙◌, inl, inr, true, false, not, some, List, [], ◌∷◌, arith, ◌==◌, ◌&&◌, ap,
  ==_refl, ==_iff, All, any, map, first_where, first_where-true, select_where, update_where,
  first_where-both, first_where-update_where, first_where-append, first_where-append_last,
  first_where-none_iff, select_where-replaced, any-false_iff, ok, >>=-ok, or_throw, Bool-cases,
}
use voice_call.Schema.{Db, Campaign, CampaignVersion, QuestionConfig, CampaignConfig, find_campaign}
use voice_call.Campaigns.Stored.{as_stored, as_stored_lem}
use voice_call.Campaigns.{
  load_campaign_config, SaveArgs, saved_campaign, is_target, clashes, repeats, question_row,
  replaced_questions, new_version, is_version, saved, store, save_campaign_config,
}

rows-of_campaign :
    (campaign : ℕ) (qs : List QuestionConfig)
    → All (λ q. (q.campaign_id == campaign) ≡ true) (map (question_row campaign) qs)
rows-of_campaign campaign [] = tt
rows-of_campaign campaign (q ∷ qs) = (==_refl campaign, rows-of_campaign campaign qs)

module _ (db : Db) (args : SaveArgs) (out : Db × ℕ)
    (done : save_campaign_config db args ≡ ok out) where
  -- The campaign that a save found, and what it wrote.
  record Saved : Type 0 where
    c : Campaign
    found : first_where (is_target args) db.campaigns ≡ some c
    fresh : any (is_version args.campaign_id (c.config_version + 1)) db.campaign_versions ≡ false
    wrote : (saved db args (c.config_version + 1), c.config_version + 1) ≡ out

  save-Saved : Saved
  unfolding save_campaign_config store
  save-Saved =
      let (c, looked, e) = >>=-ok (or_throw (first_where (is_target args) db.campaigns) _) _ done in
      let version = c.config_version + 1 in
      elim (Bool-cases (any (clashes args) db.campaigns)) [
        | inl clash ↦ absurd (cc (rw clash at e))
        | inr unique ↦ elim (Bool-cases (repeats args.config.questions)) [
          | inl twice ↦ absurd (cc (rw (unique, twice) at e))
          | inr once ↦
              elim (Bool-cases (any (is_version args.campaign_id version) db.campaign_versions)) [
                | inl taken ↦ absurd (cc (rw (unique, once, taken) at e))
                | inr fresh ↦ record {
                  c = c;
                  found = ground (arith, looked);
                  fresh = fresh;
                  wrote = cc (rw (unique, once, fresh) at e);
                }
              ]
        ]
      ]

  -- What was saved is what is loaded, under the version number after the campaign's: the configuration
  -- reads back as given, but for blanks around the routing texts, keys that the JSON columns leave to
  -- their defaults and the order of the questions; no question of before is left, and whether the
  -- campaign is active has not changed.
  pub load_campaign_config-save_campaign_config :
      (c : Campaign)
      → find_campaign db args.campaign_id ≡ some c
      → c.tenant_id ≡ args.tenant_id
      → (out.1 ≡ c.config_version + 1)
        × (load_campaign_config out.0 args.campaign_id
            ≡ some (record {
              id = c.id;
              config_version = c.config_version + 1;
              active = c.active;
              config = as_stored args.config;
            }))
  unfolding load_campaign_config find_campaign saved replaced_questions
  load_campaign_config-save_campaign_config c found owned =
      let s = save-Saved in
      let target : first_where (is_target args) db.campaigns ≡ some c =
        first_where-both (λ x. x.id == args.campaign_id) (λ x. x.tenant_id == args.tenant_id)
          db.campaigns found ((==_iff c.tenant_id args.tenant_id).1 owned) in
      let is : s.c ≡ c = cc (s.found, target) in
      let after : first_where (λ x. x.id == args.campaign_id)
            (update_where (is_target args) (saved_campaign args) db.campaigns)
          ≡ some (saved_campaign args c) =
        first_where-update_where (λ x. x.id == args.campaign_id) (is_target args)
          (saved_campaign args) db.campaigns (λ x. refl) found
        ∙ rw (first_where-true (is_target args) db.campaigns target) refl in
      let asked : select_where (λ q. q.campaign_id == args.campaign_id) (replaced_questions db args)
          ≡ map (question_row args.campaign_id) args.config.questions =
        select_where-replaced (λ q. q.campaign_id == args.campaign_id)
          (λ q. not (q.campaign_id == args.campaign_id)) db.questions
          (map (question_row args.campaign_id) args.config.questions) (λ q h. ground arith)
          (rows-of_campaign args.campaign_id args.config.questions) in
      rw (← s.wrote) (
        ap (λ (x : Campaign). x.config_version + 1) is,
        rw (after, load_campaign_config)
            (rw asked (
              ap
                (λ (config : CampaignConfig). some (record {
                  id = c.id;
                  config_version = c.config_version + 1;
                  active = c.active;
                  config = config;
                }))
                (as_stored_lem args.campaign_id args.config))),
      )

  -- Versions name what was configured. A save found the campaign with its tenant and hands out the
  -- number after the campaign's, under which the history has the configuration as it was given, who
  -- saved it and why; and every version that could be read before reads as it did.
  pub save_campaign_config-versions :
      (c : Campaign) × (first_where
          (λ x. x.id == args.campaign_id && x.tenant_id == args.tenant_id)
          db.campaigns
        ≡ some c)
      × (out.1 ≡ c.config_version + 1)
      × (first_where
            (λ v. v.campaign_id == args.campaign_id && v.version == c.config_version + 1)
            out.0.campaign_versions
          ≡ some (record {
            tenant_id = args.tenant_id;
            campaign_id = args.campaign_id;
            version = c.config_version + 1;
            snapshot = args.config;
            changed_by = args.user_id;
            change_note = args.change_note;
          }))
      × ((campaign version : ℕ) (v : CampaignVersion)
          → first_where
              (λ x. x.campaign_id == campaign && x.version == version)
              db.campaign_versions
            ≡ some v
          → first_where
              (λ x. x.campaign_id == campaign && x.version == version)
              out.0.campaign_versions
            ≡ some v)
  unfolding saved
  save_campaign_config-versions =
      let s = save-Saved in
      rw (← s.wrote) (
        s.c,
        s.found,
        refl,
        first_where-append_last (is_version args.campaign_id (s.c.config_version + 1))
            db.campaign_versions (new_version args (s.c.config_version + 1))
            ((first_where-none_iff _ db.campaign_versions).1
              ((any-false_iff _ db.campaign_versions).0 s.fresh))
            (rw (==_refl args.campaign_id) (==_refl (s.c.config_version + 1))),
        λ campaign version v old.
            first_where-append (is_version campaign version) db.campaign_versions _ old,
      )
