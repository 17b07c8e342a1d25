-- ===== src/Campaigns/Stored.antt =====
-- What a configuration that is given to lib/campaigns/config.ts reads back as, said without its code.
use Prim.Native.String.{compare}
use text.Mathlib.Text.{is_lt}
use voice_call.Base.{
  ℕ, ◌≡◌, refl, ap, ◌∙◌, String, Bool, ◌||◌, Option, none, some, List, [], ◌∷◌, ltb, ◌==◌, str_eq,
  if◌then◌else◌, or_else, map, sort_by, sort_by-map, map-map-id, trim, is_empty,
}
use voice_call.Base.Int.{pos, negsuc}
use voice_call.Schema.{QuestionConfig, CampaignConfig}
use voice_call.Pii.{truthy}
use voice_call.Worker.{question_order}
use voice_call.Campaigns.{
  question_config, question_row, trimmed_or_null, with_default_calling, with_default_routing,
  with_default_scoring,
}

-- A text without the blanks around it; nothing, if there is nothing else.
abbrev pub stripped : Option String → Option String
stripped none = none
stripped (some text) = if is_empty (trim text) then none else some (trim text)

-- By position, and by name where two have the same.
abbrev pub precedes : QuestionConfig → QuestionConfig → Bool
precedes a b =
    if a.position == b.position
    then is_lt (compare a.field_name b.field_name) || str_eq a.field_name b.field_name
    else ltb a.position b.position

-- A configuration as it reads back: the routing texts are trimmed, keys that are left out of the JSON
-- columns have their defaults, and the questions are in the order of their positions.
abbrev pub as_stored : CampaignConfig → CampaignConfig
as_stored config = record config {
  intake_property = stripped config.intake_property;
  intake_values = map trim config.intake_values;
  calling_config = record {
    window_start = or_else config.calling_config.window_start (some "09:30");
    window_end = or_else config.calling_config.window_end (some "18:30");
    timezone = config.calling_config.timezone;
    days = config.calling_config.days;
    max_attempts = or_else config.calling_config.max_attempts (some 3);
    retry_minutes = or_else config.calling_config.retry_minutes (some (15 ∷ 120 ∷ 1440 ∷ []));
    busy_retry_minutes = config.calling_config.busy_retry_minutes;
    country = or_else config.calling_config.country (some "IN");
  };
  routing_config = record {
    hot_threshold = or_else config.routing_config.hot_threshold (some (pos 75));
    interested_threshold = or_else config.routing_config.interested_threshold (some (pos 50));
  };
  scoring_rubric = record {
    current_need_confirmed = or_else config.scoring_rubric.current_need_confirmed (some (pos 25));
    short_timeline = or_else config.scoring_rubric.short_timeline (some (pos 25));
    budget_known = or_else config.scoring_rubric.budget_known (some (pos 15));
    specific_product = or_else config.scoring_rubric.specific_product (some (pos 10));
    accepts_human_followup = or_else config.scoring_rubric.accepts_human_followup (some (pos 15));
    vague_curiosity = or_else config.scoring_rubric.vague_curiosity (some (pos 5));
    long_term_no_plan = or_else config.scoring_rubric.long_term_no_plan (some (pos 0));
    explicit_rejection = or_else config.scoring_rubric.explicit_rejection (some (negsuc 99));
  };
  questions = sort_by precedes config.questions;
}

truthy_lem : (text : String) → truthy (some text) ≡ (if is_empty text then none else some text)
unfolding truthy
truthy_lem String.[] = refl
truthy_lem (String.◌∷◌ c s) = refl

trimmed_or_null-stripped : (text : Option String) → trimmed_or_null text ≡ stripped text
trimmed_or_null-stripped none = refl
trimmed_or_null-stripped (some text) = truthy_lem (trim text)

questions-stored :
    (campaign : ℕ) (questions : List QuestionConfig)
    → map question_config (sort_by question_order (map (question_row campaign) questions))
      ≡ sort_by precedes questions
questions-stored campaign questions =
    ap (map question_config) (sort_by-map (question_row campaign) question_order questions)
    ∙ map-map-id (question_row campaign) question_order question_config (sort_by precedes questions)
        (λ q. refl)

or_else-none {ℓ} : {A : Type ℓ} (o : Option A) → or_else o none ≡ o
or_else-none none = refl
or_else-none (some a) = refl

-- The code's defaults, trimmed texts and sorted rows are those.
pub as_stored_lem :
    (campaign : ℕ) (config : CampaignConfig)
    → record config {
      intake_property = trimmed_or_null config.intake_property;
      intake_values = map trim config.intake_values;
      calling_config = with_default_calling config.calling_config;
      routing_config = with_default_routing config.routing_config;
      scoring_rubric = with_default_scoring config.scoring_rubric;
      questions =
          map question_config
            (sort_by question_order (map (question_row campaign) config.questions));
    }
      ≡ as_stored config
unfolding with_default_calling with_default_routing with_default_scoring
as_stored_lem campaign config =
    let calling = config.calling_config in
    rw
      (
        trimmed_or_null-stripped,
        questions-stored,
        or_else-none calling.timezone,
        or_else-none calling.days,
        or_else-none calling.busy_retry_minutes,
      )
      refl
