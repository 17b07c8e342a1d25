-- ===== src/Resolution/Correcting.antt =====
-- The fields that an operator may correct, the check of the corrected result, and what the audit
-- trail keeps of it.
use voice_call.Base.{
  ℕ, String, Bool, true, false, not, ◌&&◌, Option, none, some, List, [], ◌∷◌, ◌++◌, leb, ◌==◌,
  str_eq, get_or, text_length,
}
use voice_call.Schema.Qualification.{QualificationResult, RedactedResult, Intent, Timeline}
use voice_call.Review.{intent_text, timeline_text}

-- The fields that the operator changed.
pub record Corrections : Type 0 where
  pub intent : Option Intent
  pub confidence : Option ℕ
  pub reason : Option String
  pub summary : Option String
  pub still_interested : Option (Option Bool)
  pub timeline : Option Timeline
  pub budget : Option (Option String)
  pub location : Option (Option String)
  pub product_interest : Option (Option String)
  pub callback_requested : Option Bool
  pub callback_time_iso : Option (Option String)
  pub human_followup : Option Bool
  pub do_not_call : Option Bool
  pub wrong_number : Option Bool

unfoldable pub merged : QualificationResult → Corrections → QualificationResult
merged r c = record {
  intent = get_or c.intent r.intent;
  confidence = get_or c.confidence r.confidence;
  reason = get_or c.reason r.reason;
  summary = get_or c.summary r.summary;
  still_interested = get_or c.still_interested r.still_interested;
  timeline = get_or c.timeline r.timeline;
  budget = get_or c.budget r.budget;
  location = get_or c.location r.location;
  product_interest = get_or c.product_interest r.product_interest;
  callback_requested = get_or c.callback_requested r.callback_requested;
  callback_time_iso = get_or c.callback_time_iso r.callback_time_iso;
  human_followup = get_or c.human_followup r.human_followup;
  do_not_call = get_or c.do_not_call r.do_not_call;
  wrong_number = get_or c.wrong_number r.wrong_number;
}

-- QualificationSchema.safeParse(…).success, of a value with the schema's fields: a confidence of at
-- most 1, and short texts
unfoldable pub is_valid : QualificationResult → Bool
is_valid r =
    leb r.confidence 1000 && leb (text_length r.reason) 500 && leb (text_length r.summary) 500

pub redact : QualificationResult → RedactedResult
redact r = record {
  intent = r.intent;
  confidence = r.confidence;
  still_interested = r.still_interested;
  timeline = r.timeline;
  budget = r.budget;
  location = r.location;
  product_interest = r.product_interest;
  callback_requested = r.callback_requested;
  callback_time_iso = r.callback_time_iso;
  human_followup = r.human_followup;
  do_not_call = r.do_not_call;
  wrong_number = r.wrong_number;
}

abbrev same_bool : Bool → Bool → Bool
same_bool true b = b
same_bool false b = not b

abbrev same_text : Option String → Option String → Bool
same_text none none = true
same_text (some a) (some b) = str_eq a b
same_text _ _ = false

abbrev same_answer : Option Bool → Option Bool → Bool
same_answer none none = true
same_answer (some a) (some b) = same_bool a b
same_answer _ _ = false

abbrev changed : Bool → String → List String
changed true name = []
changed false name = name ∷ []

pub changed_fields : QualificationResult → QualificationResult → List String
changed_fields a b =
    changed (str_eq (intent_text a.intent) (intent_text b.intent)) "intent"
    ++ changed (a.confidence == b.confidence) "confidence"
    ++ changed (str_eq a.reason b.reason) "reason"
    ++ changed (str_eq a.summary b.summary) "summary"
    ++ changed (same_answer a.still_interested b.still_interested) "still_interested"
    ++ changed (str_eq (timeline_text a.timeline) (timeline_text b.timeline)) "timeline"
    ++ changed (same_text a.budget b.budget) "budget"
    ++ changed (same_text a.location b.location) "location"
    ++ changed (same_text a.product_interest b.product_interest) "product_interest"
    ++ changed (same_bool a.callback_requested b.callback_requested) "callback_requested"
    ++ changed (same_text a.callback_time_iso b.callback_time_iso) "callback_time_iso"
    ++ changed (same_bool a.human_followup b.human_followup) "human_followup"
    ++ changed (same_bool a.do_not_call b.do_not_call) "do_not_call"
    ++ changed (same_bool a.wrong_number b.wrong_number) "wrong_number"
