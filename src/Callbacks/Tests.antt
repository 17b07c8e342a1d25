-- ===== src/Callbacks/Tests.antt =====
-- Two promises to call back, of which one was kept and one was missed.
use voice_call.Base.{
  ℕ, ◌+◌, ◌*◌, ◌<◌, ◌≡◌, refl, true, false, ◌⊎◌, some, none, [], ◌∷◌, arith, any, All, Memᴰ, map,
  select_where, sort_by,
}
use voice_call.Fixtures.{a_db, a_lead, an_attempt}
use voice_call.Schema.{Db, Callback, CallbackStatus, CallStatus, LeadStatus}
use voice_call.Callbacks.{was_called, mark_missed_callbacks, is_overdue, overdue_callbacks}
use voice_call.Callbacks.Laws.{mark_missed_callbacks_sound}

abbrev a_callback : ℕ → ℕ → ℕ → Callback
a_callback id lead at = record {
  id = id;
  tenant_id = 1;
  lead_id = lead;
  call_id = none;
  scheduled_for = at;
  status = CallbackStatus.scheduled;
  resolved_at = none;
  resolved_by = none;
  fulfilled_call_id = none;
  note = none;
}

-- Lead 7 was called at 5 seconds, lead 8 was not; it is 8000 seconds now.
abbrev promised : Db
promised =
    record (a_db (a_lead 7 LeadStatus.queued ∷ []) (an_attempt 4 7 CallStatus.completed ∷ [])) {
      now = 8000000;
      callbacks = a_callback 20 7 4000 ∷ a_callback 21 8 4000 ∷ [];
    }

mark_missed_callbacks_sound_example :
    let out = mark_missed_callbacks promised none none none in
    All
      (λ cb.
        (cb.status ≡ CallbackStatus.scheduled)
        × (cb.scheduled_for + 120 * 60000 < 8000000)
        × (was_called promised.call_attempts cb ≡ false))
      out.1
    × ((cb : Callback)
        → Memᴰ cb out.1
        → Memᴰ
            (record cb { status = CallbackStatus.missed; resolved_at = some 8000000 })
            out.0.callbacks)
    × ((y : Callback)
        → Memᴰ y out.0.callbacks
        → Memᴰ y promised.callbacks
          ⊎ ((cb : Callback) × Memᴰ cb out.1
              × (y ≡ record cb { status = CallbackStatus.missed; resolved_at = some 8000000 })))
    × ((cb : Callback)
        → Memᴰ cb promised.callbacks
        → was_called promised.call_attempts cb ≡ true
        → Memᴰ cb out.0.callbacks)
mark_missed_callbacks_sound_example =
    mark_missed_callbacks_sound promised none none none ((λ e. omega arith, tt), (tt, tt))

only_21_missed : map (λ cb. cb.id) (mark_missed_callbacks promised none none none).1 ≡ 21 ∷ []
unfolding mark_missed_callbacks overdue_callbacks is_overdue select_where sort_by any
only_21_missed = refl
