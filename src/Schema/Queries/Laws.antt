-- ===== src/Schema/Queries/Laws.antt =====
-- Reading a row back after an update by its key.
use voice_call.Base.{
  ℕ, ◌≡◌, refl, ap, ◌∙◌, some, List, [], ◌∷◌, arith, first_where, update_where, ◌==◌, ==_iff,
  first_where-true,
}
use mathlib.Core.Option
use voice_call.Schema.Tables.{Lead, Db}
use voice_call.Schema.Queries.{lead_in, find_lead, update_lead}

pub lead_in-update_where :
    (id : ℕ) (f : Lead → Lead) (ls : List Lead)
    → ((l : Lead) → (f l).id ≡ l.id)
    → lead_in id (update_where (λ l. l.id == id) f ls) ≡ Option.map f (lead_in id ls)
unfolding first_where update_where
lead_in-update_where id f [] k = refl
lead_in-update_where id f (l ∷ ls) k = ground (arith, k l, lead_in-update_where id f ls k)

pub find_lead-update_lead :
    (db : Db) (id : ℕ) (f : Lead → Lead) {l : Lead}
    → ((l : Lead) → (f l).id ≡ l.id)
    → find_lead db id ≡ some l
    → find_lead (update_lead db id f) id ≡ some (f l)
unfolding find_lead update_lead
find_lead-update_lead db id f k e = lead_in-update_where id f db.leads k ∙ ap (Option.map f) e

pub find_lead-id : (db : Db) (id : ℕ) {l : Lead} → find_lead db id ≡ some l → l.id ≡ id
unfolding find_lead
find_lead-id db id {l} e = (==_iff l.id id).0 (first_where-true (λ l. l.id == id) db.leads e)
