-- ===== src/Resolution/Laws.antt =====
-- A review is resolved once, and a rejection reaches nothing.
use voice_call.Base.{
  ℕ, ◌≡◌, ◌≢◌, refl, sym, ap, ◌∙◌, subst, ◌⊎◌, inl, inr, String, true, false, Option, some, List,
  arith, ◌==◌, first_where, first_where-true, update_where, ok, >>=-ok, or_throw, Bool-cases,
  first_where-update_where,
}
use voice_call.Schema.{Db, CallAnalysis, CallAttempt, find_attempt, audit_in_tx}
use voice_call.Schema.Qualification.{QualificationResult}
use voice_call.Pii.{Cipher}
use voice_call.Results.Retrying.{apply_retry_decision-kept}
use voice_call.Pipeline.{commit_analysis}
use voice_call.Pipeline.Commit.{commit_analysis-call_analyses}
use voice_call.Pipeline.Qualify.Laws.{SameDownstream}
use voice_call.Resolution.{
  ResolveArgs, ResolveResult, ResolutionAction, confirm, reject, correct, corrected, merged,
  is_valid, is_pending, load_scoring_config, update_analysis, rejected_analysis, released_analysis,
  reject_review, record_release, released_args, released_result, release_review, resolve_pending,
  resolve_stored, resolve_review, retry_of, released_status,
}

abbrev pub analysis_in : ℕ → List CallAnalysis → Option CallAnalysis
analysis_in id rows = first_where (λ a. a.id == id) rows

module _ (cipher : Cipher) (read_time : String → Option ℕ) (wall : ℕ) (db : Db) (args : ResolveArgs)
    (a : CallAnalysis) (c : CallAttempt) where
  abbrev pub Rejected : Db × ResolveResult → Type 0
  Rejected out = (args.action ≡ reject) × (reject_review wall db args a c ≡ out)

  -- The result that is released is recorded, and then committed as an automatic one would be.
  abbrev pub Committed : QualificationResult → Db × ResolveResult → Type 0
  Committed r out =
      let config = load_scoring_config db c.campaign_id in
      (is_valid r ≡ true)
      × (commit_analysis cipher read_time wall (record_release db args config a r)
            (released_args args config c r)
          ≡ ok out.0)
      × (out.1 ≡ released_result args config r)

  release_review-Committed :
      (r : QualificationResult) (out : Db × ResolveResult)
      → release_review cipher read_time wall db args a c r ≡ ok out
      → Committed r out
  unfolding release_review
  release_review-Committed r out e =
      let config = load_scoring_config db c.campaign_id in
      elim (Bool-cases (is_valid r)) [
        | inl valid ↦
            let (db', committed, e') =
              >>=-ok
                (commit_analysis cipher read_time wall (record_release db args config a r)
                  (released_args args config c r))
                _ (rw valid at e) in
            let is : (db', released_result args config r) ≡ out = cc e' in
            (
              valid,
              committed ∙ ap (λ (o : Db × ResolveResult). ok o.0) is,
              sym (ap (λ (o : Db × ResolveResult). o.1) is),
            )
        | inr bad ↦ absurd (cc (rw bad at e))
      ]

  resolve_pending-cases :
      (action : ResolutionAction) (out : Db × ResolveResult)
      → args.action ≡ action
      → resolve_pending cipher read_time wall db args a c action ≡ ok out
      → Rejected out ⊎ ((args.action ≢ reject) × Committed (corrected action a.result) out)
  unfolding resolve_pending
  resolve_pending-cases reject out is e = inl (is, cc e)
  resolve_pending-cases confirm out is e = inr ((λ k. cc), release_review-Committed a.result out e)
  resolve_pending-cases (correct corrections) out is e =
      inr ((λ k. cc), release_review-Committed (merged a.result corrections) out e)

-- A resolution that went through: it found the analysis waiting, and rejected or released it.
pub record Resolved (cipher : Cipher) (read_time : String → Option ℕ) (wall : ℕ) (db : Db)
    (args : ResolveArgs) (out : Db × ResolveResult) : Type 0 where
  pub a : CallAnalysis
  pub c : CallAttempt
  pub found : analysis_in args.analysis_id db.call_analyses ≡ some a
  pub joined : find_attempt db a.call_id ≡ some c
  pub waits : is_pending a.review_status ≡ true
  pub ending :
      Rejected cipher read_time wall db args a c out
      ⊎ ((args.action ≢ reject)
          × Committed cipher read_time wall db args a c (corrected args.action a.result) out)

module _ (cipher : Cipher) (read_time : String → Option ℕ) (wall : ℕ) (db : Db) (args : ResolveArgs)
    (out : Db × ResolveResult)
    (resolved : resolve_review cipher read_time wall db args ≡ ok out) where
  pub resolve_review-Resolved : Resolved cipher read_time wall db args out
  unfolding resolve_review resolve_stored
  resolve_review-Resolved =
      let (a, looked, e₁) =
        >>=-ok (or_throw (analysis_in args.analysis_id db.call_analyses) _) _ resolved in
      let (c, joined, e₂) = >>=-ok (or_throw (find_attempt db a.call_id) _) _ e₁ in
      elim (Bool-cases (is_pending a.review_status)) [
        | inr over ↦ absurd (cc (rw over at e₂))
        | inl waits ↦
            let e₃ : resolve_stored cipher read_time wall db args a c ≡ ok out = rw waits at e₂ in
            elim (Bool-cases (is_valid a.result)) [
              | inr bad ↦ absurd (cc (rw (bad, resolve_stored) at e₃))
              | inl good ↦ record {
                a = a;
                c = c;
                found = ground (arith, looked);
                joined = ground (arith, joined);
                waits = waits;
                ending =
                    resolve_pending-cases cipher read_time wall db args a c args.action out refl
                      (rw (good, resolve_stored) at e₃);
              }
            ]
      ]

  -- The analysis as the resolution leaves it.
  abbrev settled_row : CallAnalysis → CallAttempt → ResolutionAction → CallAnalysis
  settled_row a c reject = rejected_analysis db.now args a
  settled_row a c action =
      released_analysis db.now args (load_scoring_config db c.campaign_id)
        (corrected args.action a.result) a

  pub updated :
      (f : CallAnalysis → CallAnalysis) (a : CallAnalysis)
      → ((x : CallAnalysis) → (f x).id ≡ x.id)
      → analysis_in args.analysis_id db.call_analyses ≡ some a
      → analysis_in args.analysis_id
          (update_where (λ x. x.id == args.analysis_id) f db.call_analyses)
        ≡ some (f a)
  updated f a keeps found =
      first_where-update_where (λ x. x.id == args.analysis_id) (λ x. x.id == args.analysis_id) f
        db.call_analyses (λ x. ap (λ (n : ℕ). n == args.analysis_id) (keeps x)) found
      ∙ rw (first_where-true (λ x. x.id == args.analysis_id) db.call_analyses found) refl

  -- After a resolution the analysis stands in the table, and waits no more.
  resolved_row :
      (row : CallAnalysis) × (analysis_in args.analysis_id out.0.call_analyses ≡ some row)
      × (is_pending row.review_status ≡ false)
  unfolding reject_review record_release update_analysis audit_in_tx released_analysis
  resolved_row =
      let r = resolve_review-Resolved in
      elim r.ending [
        | inl (is, rejected) ↦ (
          rejected_analysis db.now args r.a,
          ap (λ (o : Db × ResolveResult). analysis_in args.analysis_id o.0.call_analyses)
                (sym rejected)
              ∙ ap (analysis_in args.analysis_id) (
                  (apply_retry_decision-kept
                    (update_analysis db args.analysis_id (rejected_analysis db.now args))
                    (retry_of args r.c) wall).0)
              ∙ updated (rejected_analysis db.now args) r.a (λ x. refl) r.found,
          refl,
        )
        | inr (unlike, (valid, committed, answer)) ↦
            let config = load_scoring_config db r.c.campaign_id in
            let result = corrected args.action r.a.result in
            (
              released_analysis db.now args config result r.a,
              ap (analysis_in args.analysis_id) (
                    commit_analysis-call_analyses cipher read_time wall
                      (record_release db args config r.a result)
                      (released_args args config r.c result) out.0 committed)
                  ∙ updated (released_analysis db.now args config result) r.a (λ x. refl) r.found,
              released_over args.action,
            )
      ]
    where
      released_over : (action : ResolutionAction) → is_pending (released_status action) ≡ false
      released_over confirm = refl
      released_over reject = refl
      released_over (correct corrections) = refl

  -- A rejected result reaches nothing: no sync, no callback, no do-not-call entry and no hand-over to
  -- sales is written.
  pub resolve_review-reject : args.action ≡ reject → SameDownstream db out.0
  unfolding reject_review update_analysis audit_in_tx
  resolve_review-reject rejecting =
      let r = resolve_review-Resolved in
      let (analyses, syncs, callbacks, entries, events) =
        apply_retry_decision-kept
          (update_analysis db args.analysis_id (rejected_analysis db.now args)) (retry_of args r.c)
          wall in
      elim r.ending [
        | inl (is, rejected) ↦
            subst (λ (o : Db × ResolveResult). SameDownstream db o.0) rejected
              (record {
                syncs = syncs;
                promises = callbacks;
                suppressions = entries;
                handovers = events;
              })
        | inr (unlike, released) ↦ absurd (unlike rejecting)
      ]

-- A review is resolved once. When an operator confirmed, corrected or rejected an analysis, no later
-- resolution of it goes through, by whomever and with whatever action, and however the rest of the
-- database has changed since: a second click commits nothing.
pub resolve_review_once :
    (cipher : Cipher) (read_time read_time' : String → Option ℕ) (wall wall' : ℕ) (db later : Db)
    (args args' : ResolveArgs) (out out' : Db × ResolveResult)
    → resolve_review cipher read_time wall db args ≡ ok out
    → later.call_analyses ≡ out.0.call_analyses
    → args'.analysis_id ≡ args.analysis_id
    → resolve_review cipher read_time' wall' later args' ≢ ok out'
resolve_review_once cipher read_time read_time' wall wall' db later args args' out out' resolved
      same same_id again =
    let (row, there, over) = resolved_row cipher read_time wall db args out resolved in
    let r = resolve_review-Resolved cipher read_time' wall' later args' out' again in
    let is : some row ≡ some r.a =
      sym there
      ∙ ap (analysis_in args.analysis_id) (sym same)
      ∙ ap (λ (n : ℕ). analysis_in n later.call_analyses) (sym same_id)
      ∙ r.found in
    let equal : row ≡ r.a = cc is in absurd (cc (over, r.waits, equal))
