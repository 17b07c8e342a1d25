-- ===== src/Resolution/Release.antt =====
-- What is released, said of the answers alone: their score, their routing, and what is stored of them.
use voice_call.Base.{
  ℕ, ◌≡◌, ◌≢◌, refl, sym, ap, ◌∙◌, subst, inl, inr, String, true, Option, none, some, ◌==◌, get_or,
  first_where, ok,
}
use voice_call.Base.Int.{ℤ}
use voice_call.Schema.{
  Db, CallAnalysis, CallAttempt, Campaign, ReviewStatus, find_attempt, find_campaign, audit_in_tx,
  RubricConfig, RoutingConfig,
}
use voice_call.Schema.Qualification.{QualificationResult}
use voice_call.Pii.{Cipher}
use voice_call.Scoring.{
  RoutingAction, rubric_from_config, thresholds_from_config, score_result, decide_routing,
}
use voice_call.Pipeline.{commit_analysis, action_text, no_rubric, no_routing}
use voice_call.Pipeline.Commit.{commit_analysis-call_analyses}
use voice_call.Resolution.{
  ResolveArgs, ResolveResult, ResolutionAction, confirm, reject, correct, corrected, merged,
  is_valid, ScoringConfig, load_scoring_config, update_analysis, released_analysis, record_release,
  released_args, resolve_review, released_status, score_of, action_of,
}
use voice_call.Resolution.Laws.{analysis_in, updated, Committed, resolve_review-Resolved}

-- The answers that stand: those of the analysis, or the operator's where there is a correction.
abbrev pub answers : ResolutionAction → QualificationResult → QualificationResult
answers confirm r = r
answers reject r = r
answers (correct c) r = record {
  intent = get_or c.intent r.intent;
  confidence = get_or c.confidence r.confidence;
  reason = get_or c.reason r.reason;
  summary = get_or c.summary r.summary;
  still_interested = get_or c.still_interested r.still_interested;
  timeline = get_or c.timeline r.timeline;
  budget = get_or c.budget r.budget;
  location = get_or c.location r.location;
  product_interest = get_or c.product_interest r.product_interest;
  callback_requested = get_or c.callback_requested r.callback_requested;
  callback_time_iso = get_or c.callback_time_iso r.callback_time_iso;
  human_followup = get_or c.human_followup r.human_followup;
  do_not_call = get_or c.do_not_call r.do_not_call;
  wrong_number = get_or c.wrong_number r.wrong_number;
}

abbrev pub verdict : ResolutionAction → ReviewStatus
verdict (correct corrections) = ReviewStatus.corrected
verdict _ = ReviewStatus.confirmed

abbrev pub rubric_of : Option Campaign → RubricConfig
rubric_of none = no_rubric
rubric_of (some c) = c.scoring_rubric

abbrev pub routing_in : Option Campaign → RoutingConfig
routing_in none = no_routing
routing_in (some c) = c.routing_config

module _ (db : Db) where
  abbrev pub campaign_with : Option ℕ → Option Campaign
  campaign_with none = none
  campaign_with (some campaign) = first_where (λ c. c.id == campaign) db.campaigns

  -- What the campaign of a call has stored for the scoring; nothing, where it has no campaign.
  abbrev pub stored_rubric : Option ℕ → RubricConfig
  stored_rubric campaign = rubric_of (campaign_with campaign)

  abbrev pub stored_routing : Option ℕ → RoutingConfig
  stored_routing campaign = routing_in (campaign_with campaign)

  abbrev pub score_by_campaign : Option ℕ → QualificationResult → ℤ
  score_by_campaign campaign r =
      (score_result r (rubric_from_config (stored_rubric campaign))).score

  abbrev pub routing_by_campaign : Option ℕ → QualificationResult → RoutingAction
  routing_by_campaign campaign r =
      (decide_routing r (score_by_campaign campaign r)
        (thresholds_from_config (stored_routing campaign))).action

  load_scoring_config_lem :
      (campaign : Option ℕ)
      → load_scoring_config db campaign ≡ record {
        rubric = rubric_from_config (stored_rubric campaign);
        thresholds = thresholds_from_config (stored_routing campaign);
      }
  unfolding load_scoring_config find_campaign
  load_scoring_config_lem none = refl
  load_scoring_config_lem (some campaign) =
      found (first_where (λ c. c.id == campaign) db.campaigns) refl
    where
      found :
          (o : Option Campaign)
          → first_where (λ c. c.id == campaign) db.campaigns ≡ o
          → load_scoring_config db (some campaign) ≡ record {
            rubric = rubric_from_config (rubric_of o);
            thresholds = thresholds_from_config (routing_in o);
          }
      found none e = rw (e, load_scoring_config) refl
      found (some c) e = rw (e, load_scoring_config) refl

-- What a release of the analysis `a` of the call `c` leaves: the answer, the row, and the commit.
pub record Released (cipher : Cipher) (read_time : String → Option ℕ) (wall : ℕ) (db : Db)
    (args : ResolveArgs) (a : CallAnalysis) (c : CallAttempt) (r : QualificationResult)
    (out : Db × ResolveResult) : Type 0 where
  pub valid : is_valid r ≡ true
  pub answer :
      (out.1.score ≡ score_by_campaign db c.campaign_id r)
      × (out.1.intent ≡ r.intent)
      × (out.1.review_status ≡ verdict args.action)
      × (out.1.routing_action ≡ action_text (routing_by_campaign db c.campaign_id r))
  pub row : CallAnalysis
  pub there : analysis_in args.analysis_id out.0.call_analyses ≡ some row
  pub stored :
      (row.result ≡ r)
      × (row.score ≡ score_by_campaign db c.campaign_id r)
      × (row.intent ≡ r.intent)
      × (row.routing_action ≡ action_text (routing_by_campaign db c.campaign_id r))
      × (row.review_status ≡ verdict args.action)
      × (row.reviewed_by ≡ some args.reviewer_id)
  pub before : Db
  pub kept : record before { call_analyses = db.call_analyses; audit_events = db.audit_events } ≡ db
  pub committed :
      commit_analysis cipher read_time wall before (record {
        tenant_id = args.tenant_id;
        analysis_id = args.analysis_id;
        call_id = c.id;
        lead_id = c.lead_id;
        campaign_id = c.campaign_id;
        attempt_no = c.attempt_no;
        result = r;
        score = score_by_campaign db c.campaign_id r;
        routing_action = routing_by_campaign db c.campaign_id r;
      })
      ≡ ok out.0

answers-corrected :
    (action : ResolutionAction) (r : QualificationResult) → corrected action r ≡ answers action r
unfolding merged
answers-corrected confirm r = refl
answers-corrected reject r = refl
answers-corrected (correct corrections) r = refl

verdict_lem : (action : ResolutionAction) → released_status action ≡ verdict action
verdict_lem confirm = refl
verdict_lem reject = refl
verdict_lem (correct corrections) = refl

module _ (cipher : Cipher) (read_time : String → Option ℕ) (wall : ℕ) (db : Db) (args : ResolveArgs)
    (out : Db × ResolveResult)
    (resolved : resolve_review cipher read_time wall db args ≡ ok out) where
  Committed-Released :
      (a : CallAnalysis) (c : CallAttempt) (r : QualificationResult)
      → analysis_in args.analysis_id db.call_analyses ≡ some a
      → Committed cipher read_time wall db args a c r out
      → Released cipher read_time wall db args a c r out
  unfolding record_release update_analysis audit_in_tx released_analysis score_of action_of
  Committed-Released a c r found (valid, committed, answer) =
      let config = load_scoring_config db c.campaign_id in
      let is = load_scoring_config_lem db c.campaign_id in
      let score : score_of config r ≡ score_by_campaign db c.campaign_id r =
        ap (λ (s : ScoringConfig). score_of s r) is in
      let action : action_of config r ≡ routing_by_campaign db c.campaign_id r =
        ap (λ (s : ScoringConfig). action_of s r) is in
      record {
        valid = valid;
        answer = (
          ap (λ (o : ResolveResult). o.score) answer ∙ score,
          ap (λ (o : ResolveResult). o.intent) answer,
          ap (λ (o : ResolveResult). o.review_status) answer ∙ verdict_lem args.action,
          ap (λ (o : ResolveResult). o.routing_action) answer ∙ ap action_text action,
        );
        row = released_analysis db.now args config r a;
        there =
            ap (analysis_in args.analysis_id) (
              commit_analysis-call_analyses cipher read_time wall
                (record_release db args config a r) (released_args args config c r) out.0 committed)
            ∙ updated cipher read_time wall db args out resolved
                (released_analysis db.now args config r) a (λ x. refl) found;
        stored = (refl, score, refl, ap action_text action, verdict_lem args.action, refl);
        before = record_release db args config a r;
        kept = refl;
        committed =
            ap
              (λ (s : ScoringConfig).
                commit_analysis cipher read_time wall (record_release db args config a r)
                  (released_args args s c r))
              (sym is)
            ∙ committed;
      }

  -- What is released is scored from its answers alone. A confirmation or a correction that goes
  -- through found the analysis and its call; the answers that stand, which are the analysis's or the
  -- operator's corrections of them, are valid. The score and the routing that the campaign's rubric
  -- and thresholds give to those answers are what is answered, what the analysis has stored beside
  -- the answers, the reviewer and the new review status, and what is committed for the call, in a
  -- database that has changed only in its analyses and its audit trail.
  pub resolve_review-Released :
      args.action ≢ reject
      → (a : CallAnalysis) × (c : CallAttempt) × (analysis_in args.analysis_id db.call_analyses
          ≡ some a)
        × (find_attempt db a.call_id ≡ some c)
        × Released cipher read_time wall db args a c (answers args.action a.result) out
  resolve_review-Released accepted =
      let s = resolve_review-Resolved cipher read_time wall db args out resolved in
      elim s.ending [
        | inl (is, rejected) ↦ absurd (accepted is)
        | inr (unlike, committed) ↦ (
          s.a,
          s.c,
          s.found,
          s.joined,
          Committed-Released s.a s.c (answers args.action s.a.result) s.found (
              subst
                (λ (r : QualificationResult). Committed cipher read_time wall db args s.a s.c r out)
                (answers-corrected args.action s.a.result) committed),
        )
      ]
