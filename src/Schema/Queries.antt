-- ===== src/Schema/Queries.antt =====
-- The statements by primary key, which most operations issue, and a fresh id.
pub mod Laws
use voice_call.Base.{ℕ, suc, String, Bool, Option, List, first_where, update_where, ◌==◌, ◌&&◌}
use voice_call.Schema.Tables.{Tenant, Campaign, Lead, CallAttempt, Callback, SyncItem, Db}

unfoldable pub find_tenant : Db → ℕ → Option Tenant
find_tenant db id = first_where (λ t. t.id == id) db.tenants

unfoldable pub find_campaign : Db → ℕ → Option Campaign
find_campaign db id = first_where (λ c. c.id == id) db.campaigns

abbrev pub lead_in : ℕ → List Lead → Option Lead
lead_in id = first_where (λ l. l.id == id)

unfoldable pub find_lead : Db → ℕ → Option Lead
find_lead db id = lead_in id db.leads

unfoldable pub find_attempt : Db → ℕ → Option CallAttempt
find_attempt db id = first_where (λ a. a.id == id) db.call_attempts

-- update leads set f where id = id
unfoldable pub update_lead : Db → ℕ → (Lead → Lead) → Db
update_lead db id f = record db { leads = update_where (λ l. l.id == id) f db.leads }

unfoldable pub update_attempt : Db → ℕ → (CallAttempt → CallAttempt) → Db
update_attempt db id f = record db {
  call_attempts = update_where (λ a. a.id == id) f db.call_attempts;
}
