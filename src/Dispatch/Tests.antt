-- ===== src/Dispatch/Tests.antt =====
-- A dispatch for a campaign with a queued lead, named twice, and for one that does not exist.
use voice_call.Base.{ℕ, ◌≡◌, refl, Bool, true, false, some, List, [], ◌∷◌, any}
use voice_call.Fixtures.{a_db, a_lead, plain_cipher, monday_morning}
use voice_call.Schema.{Db, LeadStatus, CallStatus}
use voice_call.Worker.{Dialler, placed}
use voice_call.Dispatch.{DispatchArgs, DialCandidate, distinct, dispatch_dial, distinct_by}
use voice_call.Dispatch.Laws.{Accounted, dispatch_dial-Accounted}

abbrev line : Dialler
line = record {
  worker_id = "w1";
  webhook_base_url = "https://app";
  create_call = λ provider request. placed "call-9" CallStatus.ringing;
  wall = λ id. 20000;
  draw = λ id. 500;
}

abbrev args : DispatchArgs
args = record { tenant_id = 1; worker_id = "intake"; limit = some 5; at = λ campaign. 10000 }

abbrev one_queued : Db
one_queued = a_db (a_lead 7 LeadStatus.queued ∷ []) []

abbrev none_held : ℕ → Bool
none_held id = false

named : distinct (2 ∷ 9 ∷ 2 ∷ []) ≡ (2 ∷ 9 ∷ [])
unfolding distinct_by any
named = refl

dispatch_dial-Accounted_example :
    Accounted one_queued
      (distinct (2 ∷ 9 ∷ 2 ∷ []))
      (dispatch_dial plain_cipher monday_morning none_held line args (2 ∷ 9 ∷ 2 ∷ []) one_queued)
dispatch_dial-Accounted_example =
    dispatch_dial-Accounted plain_cipher monday_morning none_held line args (2 ∷ 9 ∷ 2 ∷ [])
      one_queued tt

abbrev outcomes : List DialCandidate
outcomes =
    record { queued = true; campaign_id = some 2 }
    ∷ record { queued = false; campaign_id = some 9 }
    ∷ record { queued = true; campaign_id = some 2 }
    ∷ []
