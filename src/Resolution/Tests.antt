-- ===== src/Resolution/Tests.antt =====
-- A held result that is rejected, corrected, and resolved again.
use voice_call.Base.{
  ℕ, ◌≡◌, ◌≢◌, refl, String, Option, none, some, [], ◌∷◌, ok, first_where, update_where,
  text_length,
}
use voice_call.Base.Int.{pos}
use voice_call.Fixtures.{plain_cipher, result_or, a_db, a_lead, an_attempt, keen_result}
use voice_call.Schema.{
  Db, LeadStatus, CallStatus, CallAnalysis, CallAttempt, ReviewStatus, find_attempt, find_lead,
  audit_in_tx,
}
use voice_call.Schema.Qualification.{Intent}
use voice_call.Pii.{decrypt_pii_or_null, decrypt_pii}
use voice_call.Pipeline.{commit_analysis}
use voice_call.Pipeline.Qualify.Laws.{SameDownstream}
use voice_call.Resolution.{
  ResolveArgs, ResolveResult, ResolutionAction, confirm, reject, resolve_review, is_valid,
  update_analysis, record_release,
}
use voice_call.Resolution.Release.{Released, resolve_review-Released}
use voice_call.Resolution.Laws.{analysis_in, resolve_review_once, resolve_review-reject}

abbrev held_analysis : CallAnalysis
held_analysis = record {
  id = 9;
  call_id = 4;
  intent = Intent.hot;
  score = pos 80;
  qualification = "qualified";
  result = keen_result;
  signals = [];
  routing_action = "hot_sales_routing";
  confidence = 950;
  model = "model";
  prompt_version = "v1";
  review_status = ReviewStatus.pending_review;
  review_reason = none;
  reviewed_by = none;
  reviewed_at = none;
}

abbrev held_db : Db
held_db =
    record (a_db (a_lead 7 LeadStatus.pending_review ∷ [])
      (an_attempt 4 7 CallStatus.completed ∷ [])) { call_analyses = held_analysis ∷ [] }

abbrev by_operator : ResolutionAction → ResolveArgs
by_operator action = record {
  tenant_id = 1;
  analysis_id = 9;
  action = action;
  reviewer_id = 3;
  reviewer_label = "ops";
  note = none;
}

abbrev unreadable : String → Option ℕ
unreadable text = none

abbrev nothing : Db × ResolveResult
nothing = (
  held_db,
  record {
    analysis_id = 0;
    review_status = ReviewStatus.rejected;
    score = pos 0;
    intent = Intent.unknown;
    routing_action = "";
  },
)

abbrev after : ResolutionAction → Db × ResolveResult
after action =
    result_or nothing (resolve_review plain_cipher unreadable 10500 held_db (by_operator action))

rejected-ok :
    resolve_review plain_cipher unreadable 10500 held_db (by_operator reject) ≡ ok (after reject)
unfolding resolve_review is_valid text_length first_where find_attempt
rejected-ok = refl

confirmed-ok :
    resolve_review plain_cipher unreadable 10500 held_db (by_operator confirm) ≡ ok (after confirm)
unfolding resolve_review is_valid text_length first_where find_attempt decrypt_pii commit_analysis
    decrypt_pii_or_null find_lead record_release update_analysis update_where audit_in_tx
confirmed-ok = refl

resolve_review-reject_example : SameDownstream held_db (after reject).0
resolve_review-reject_example =
    resolve_review-reject plain_cipher unreadable 10500 held_db (by_operator reject) (after reject)
      rejected-ok refl

resolve_review_once_example :
    resolve_review plain_cipher unreadable 20000 (after reject).0 (by_operator confirm)
    ≢ ok (after confirm)
resolve_review_once_example =
    resolve_review_once plain_cipher unreadable unreadable 10500 20000 held_db (after reject).0
      (by_operator reject) (by_operator confirm) (after reject) (after confirm) rejected-ok refl
      refl

resolve_review-Released_example :
    (a : CallAnalysis) × (c : CallAttempt) × (analysis_in 9 held_db.call_analyses ≡ some a)
    × (find_attempt held_db a.call_id ≡ some c)
    × Released plain_cipher unreadable 10500 held_db
        (by_operator confirm)
        a
        c
        a.result
        (after confirm)
resolve_review-Released_example =
    resolve_review-Released plain_cipher unreadable 10500 held_db (by_operator confirm)
      (after confirm) confirmed-ok (λ e. cc)
