-- ===== src/Schema/Qualification.antt =====
-- qualification/schema.ts: the structured result of an analysed call. A confidence, a number
-- between 0 and 1, is kept in thousandths, the precision of the column that stores it.
use Prim.Native.Nat.{ℕ}
use Prim.Native.String.{String}
use mathlib.Core.Bool.{Bool, false}
use mathlib.Core.Option.{Option, none}
use voice_call.Base.{◌+text◌}

pub data Intent : Type 0 where
  hot interested warm follow_up not_interested : Intent
  wrong_number no_answer busy do_not_call unknown : Intent

pub data Timeline : Type 0 where
  within_3_months within_6_months within_12_months beyond_12_months unknown : Timeline

pub record QualificationResult : Type 0 where
  pub intent : Intent
  pub confidence : ℕ
  pub reason : String
  pub summary : String
  pub still_interested : Option Bool
  pub timeline : Timeline
  pub budget : Option String
  pub location : Option String
  pub product_interest : Option String
  pub callback_requested : Bool
  pub callback_time_iso : Option String
  pub human_followup : Bool
  pub do_not_call : Bool
  pub wrong_number : Bool

unfoldable pub unknown_result : String → QualificationResult
unknown_result reason = record {
  intent = Intent.unknown;
  confidence = 0;
  reason = reason;
  summary = "Automated analysis did not produce a usable result.";
  still_interested = none;
  timeline = Timeline.unknown;
  budget = none;
  location = none;
  product_interest = none;
  callback_requested = false;
  callback_time_iso = none;
  human_followup = false;
  do_not_call = false;
  wrong_number = false;
}

-- The statuses of a call with no conversation in it.
pub data Unconnected : Type 0 where
  no_answer busy failed canceled : Unconnected

abbrev pub unconnected_text : Unconnected → String
unconnected_text Unconnected.no_answer = "no_answer"
unconnected_text Unconnected.busy = "busy"
unconnected_text Unconnected.failed = "failed"
unconnected_text Unconnected.canceled = "canceled"

abbrev pub unconnected_intent : Unconnected → Intent
unconnected_intent Unconnected.no_answer = Intent.no_answer
unconnected_intent Unconnected.busy = Intent.busy
unconnected_intent _ = Intent.unknown

unfoldable pub result_for_unconnected_call : Unconnected → QualificationResult
unfolding unknown_result
result_for_unconnected_call status =
    let base = unknown_result (
      "Call ended with status "
      +text unconnected_text status
      +text "; no conversation took place.") in
    record base {
      intent = unconnected_intent status;
      confidence = 1000;
      summary = "No conversation: call " +text unconnected_text status +text ".";
    }

-- A result without its free text.
pub record RedactedResult : Type 0 where
  pub intent : Intent
  pub confidence : ℕ
  pub still_interested : Option Bool
  pub timeline : Timeline
  pub budget : Option String
  pub location : Option String
  pub product_interest : Option String
  pub callback_requested : Bool
  pub callback_time_iso : Option String
  pub human_followup : Bool
  pub do_not_call : Bool
  pub wrong_number : Bool
