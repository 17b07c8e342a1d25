-- ===== src/Dispatch.antt =====
-- lib/calling/dispatch.ts: a tick for each campaign that a request queued a lead for.
mod Laws
mod Tests
use voice_call.Base.{
  ℕ, ◌+◌, String, Bool, true, false, ◌&&◌, Option, none, some, List, [], ◌∷◌, ◌==◌, any, map,
  count_where, select_where, if◌then◌else◌, Error, Outcome, ok, err,
}
use voice_call.Schema.{Db}
use voice_call.Pii.{Cipher}
use voice_call.Windows.{RawParts}
use voice_call.Queue.{ClaimArgs, ClaimSkipReason, Skip}
use voice_call.Worker.{Dialler, DialStatus, DialResult, CallingTickResult, run_calling_tick}

pub record DispatchResult : Type 0 where
  pub campaign_id : ℕ
  pub dialled : ℕ
  pub failed : ℕ
  pub skipped : List ClaimSkipReason
  pub error : Option Error

-- A request for the ticks; `at` is when the transaction of a campaign's tick starts.
pub record DispatchArgs : Type 0 where
  pub tenant_id : ℕ
  pub worker_id : String
  pub limit : Option ℕ
  pub at : ℕ → ℕ

abbrev reason_number : ClaimSkipReason → ℕ
reason_number ClaimSkipReason.outside_calling_window = 0
reason_number ClaimSkipReason.tenant_concurrency_reached = 1
reason_number ClaimSkipReason.campaign_concurrency_reached = 2
reason_number ClaimSkipReason.became_ineligible = 3
reason_number ClaimSkipReason.no_phone = 4

-- [...new Set(xs)]: what was seen before is left out.
unfoldable pub distinct_by {ℓ} : {A : Type ℓ} → (A → ℕ) → List ℕ → List A → List A
distinct_by key seen [] = []
distinct_by key seen (x ∷ xs) =
    let rest = distinct_by key seen xs in
    let more = distinct_by key (key x ∷ seen) xs in
    if any (λ k. k == key x) seen then rest else x ∷ more

abbrev pub distinct : List ℕ → List ℕ
distinct ids = distinct_by (λ id. id) [] ids

abbrev pub was_initiated : DialResult → Bool
was_initiated d = elim d.status [ DialStatus.initiated ↦ true | _ ↦ false ]

abbrev pub was_refused : DialResult → Bool
was_refused d = elim d.status [ DialStatus.provider_failed ↦ true | _ ↦ false ]

abbrev pub summary : ℕ → CallingTickResult → DispatchResult
summary campaign tick = record {
  campaign_id = campaign;
  dialled = count_where was_initiated tick.dialled;
  failed = count_where was_refused tick.dialled;
  skipped = distinct_by reason_number [] (map (λ s. s.reason) tick.skipped);
  error = none;
}

-- A tick in a transaction of its own: an error rolls it back, and is reported.
abbrev pub settled : Db → ℕ → Outcome (Db × CallingTickResult) → Db × DispatchResult
settled db campaign (ok out) = (out.0, summary campaign out.1)
settled db campaign (err e) =
    (db, record { campaign_id = campaign; dialled = 0; failed = 0; skipped = []; error = some e })

module _ (cipher : Cipher) (intl : ℕ → String → RawParts) (held : ℕ → Bool) (d : Dialler)
    (args : DispatchArgs) where
  abbrev pub tick_args : ℕ → ClaimArgs
  tick_args campaign = record {
    tenant_id = args.tenant_id;
    campaign_id = campaign;
    worker_id = args.worker_id;
    limit = args.limit;
    now = args.at campaign;
  }

  -- The dialler of the request: its worker, at the application's own address.
  abbrev pub dialler : Dialler
  dialler = record d { worker_id = args.worker_id }

  abbrev pub tick_of : ℕ → Db → Outcome (Db × CallingTickResult)
  tick_of campaign db =
      run_calling_tick cipher intl held dialler (tick_args campaign)
        (record db { now = args.at campaign })

  pub dial_one_campaign : ℕ → Db → Db × DispatchResult
  dial_one_campaign campaign db = settled db campaign (tick_of campaign db)

  pub dial_campaigns : List ℕ → Db → Db × List DispatchResult
  dial_campaigns [] db = (db, [])
  dial_campaigns (id ∷ ids) db =
      let first = dial_one_campaign id db in
      let rest = dial_campaigns ids first.0 in (rest.0, first.1 ∷ rest.1)

  pub dispatch_dial : List ℕ → Db → Db × List DispatchResult
  dispatch_dial campaign_ids db = dial_campaigns (distinct campaign_ids) db

-- What an intake answers, as far as it matters here.
pub record DialCandidate : Type 0 where
  pub queued : Bool
  pub campaign_id : Option ℕ

-- The campaigns of the queued outcomes that have one.
pub queued_campaigns : List DialCandidate → List ℕ
queued_campaigns [] = []
queued_campaigns (o ∷ os) =
    let rest = queued_campaigns os in
    elim o.campaign_id [ none ↦ rest | some c ↦ if o.queued then c ∷ rest else rest ]

unfoldable pub campaigns_to_dial : List DialCandidate → List ℕ
unfolding queued_campaigns
campaigns_to_dial outcomes = distinct (queued_campaigns outcomes)
