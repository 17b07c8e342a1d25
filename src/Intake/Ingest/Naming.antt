-- ===== src/Intake/Ingest/Naming.antt =====
-- A record id names one lead: the row that an event for it finds, and the row that an upsert leaves.
use voice_call.Base.{
  ℕ, suc, ◌≡◌, ◌⊎◌, refl, ◌∙◌, inl, inr, String, Bool, true, false, not, ◌&&◌, Option, none, some,
  List, [], ◌∷◌, ◌++◌, ◌==◌, ==_refl, any, first_where, update_where, ok, Bool-cases, Option-cases,
  or_else, mem-first_where, mem-any, first_where-append_last, first_where-update_where_made,
  any-update_where_other, any-append_unmatched, str_eq, eq_iff,
}
use voice_call.Schema.{Db, Lead}
use voice_call.Pii.{Cipher, truthy}
use voice_call.Intake.{
  IntakeEvent, NormalizedContact, find_existing, has_record, record_taken, upsert_lead, insert_lead,
  merge_lead, merged_lead, new_lead, row_by, has_phone, has_email,
}

-- The lead that a record id names.
abbrev pub by_record : String → List Lead → Option Lead
by_record r leads = first_where (has_record r) leads

str_eq_refl : (r : String) → str_eq r r ≡ true
str_eq_refl r = (eq_iff r r).1 refl

-- What an upsert for the record `r` leaves: the record names the lead, and no other row has it.
pub record Names (r : String) (leads : List Lead) (lead : ℕ) : Type 0 where
  pub row : Lead
  pub found : by_record r leads ≡ some row
  pub named : (row.id == lead) ≡ true
  pub sole : any (λ l. not (l.id == lead) && has_record r l) leads ≡ false

module _ (cipher : Cipher) (nonce : ℕ → String) (event : IntakeEvent) (n : NormalizedContact)
    (r : String) (given : event.record_id ≡ some r) where
  merged-has_record : (l : Lead) → has_record r (merged_lead cipher nonce event n l) ≡ true
  merged-has_record l = rw given (str_eq_refl r)

  merge_lead-Names :
      (db : Db) (id : ℕ) (out : Db × ℕ)
      → ((l : Lead) → by_record r db.leads ≡ some l → (l.id == id) ≡ true)
      → any (λ l. l.id == id) db.leads ≡ true
      → merge_lead cipher nonce db id event n ≡ ok out
      → Names r out.0.leads out.1
  unfolding merge_lead record_taken
  merge_lead-Names db id out first there e =
      let taken : Bool = any (λ l. not (l.id == id) && has_record r l) db.leads in
      elim (Bool-cases (any (λ l. not (l.id == id) && has_record r l) db.leads)) [
        | inl dup ↦ absurd (cc (rw (given, dup) at e))
        | inr free ↦
            let leads =
              update_where (λ l. l.id == id) (merged_lead cipher nonce event n) db.leads in
            let is : (record db { leads = leads }, id) ≡ out = cc (rw (given, free) at e) in
            let (row, found, named) =
              first_where-update_where_made (has_record r) (λ l. l.id == id)
                (merged_lead cipher nonce event n) db.leads (λ l h. h) (λ l h. merged-has_record l)
                first there in
            rw (← is) (record {
              row = row;
              found = found;
              named = named;
              sole =
                  any-update_where_other (λ l. not (l.id == id) && has_record r l) (λ l. l.id == id)
                    (merged_lead cipher nonce event n) db.leads (λ l h. rw h refl)
                    (λ l h. rw h refl)
                  ∙ free;
            })
      ]

  insert_lead-Names :
      (db : Db) (out : Db × ℕ)
      → by_record r db.leads ≡ none
      → insert_lead cipher nonce db event n ≡ ok out
      → Names r out.0.leads out.1
  unfolding insert_lead record_taken new_lead
  insert_lead-Names db out missing e =
      elim (Bool-cases (any (λ l. not (l.id == db.next_id) && has_record r l) db.leads)) [
        | inl dup ↦ absurd (cc (rw (given, dup) at e))
        | inr free ↦
            let row = new_lead cipher nonce db event n in
            let is : (
              record db { next_id = suc db.next_id; leads = db.leads ++ row ∷ [] },
              db.next_id,
            )
                ≡ out =
              cc (rw (given, free) at e) in
            rw (← is) (record {
              row = row;
              found =
                  first_where-append_last (has_record r) db.leads row missing
                    (rw given (str_eq_refl r));
              named = ==_refl db.next_id;
              sole =
                  any-append_unmatched (λ l. not (l.id == db.next_id) && has_record r l) db.leads
                    row free (rw (==_refl db.next_id) refl);
            })
      ]

-- A row that a clause finds stands in the table.
row_by-any :
    (test : String → Lead → Bool) (value : Option String) (leads : List Lead) (e : Lead)
    → row_by test value leads ≡ some e
    → any (λ l. l.id == e.id) leads ≡ true
row_by-any test none leads e found = absurd (cc)
row_by-any test (some v) leads e found =
    mem-any (λ l. l.id == e.id) leads e (mem-first_where (test v) leads found) (==_refl e.id)

or_else-some : (a b : Option Lead) (e : Lead) → or_else a b ≡ some e → (a ≡ some e) ⊎ (b ≡ some e)
or_else-some none b e h = inr h
or_else-some (some x) b e h = inl h

find_existing-any :
    (db : Db) (record_id phone email : Option String) (e : Lead)
    → find_existing db record_id phone email ≡ some e
    → any (λ l. l.id == e.id) db.leads ≡ true
unfolding find_existing
find_existing-any db record_id phone email e found =
    elim (or_else-some (row_by has_record (truthy record_id) db.leads) _ e found) [
      | inl first ↦ row_by-any has_record (truthy record_id) db.leads e first
      | inr rest ↦ elim (or_else-some (row_by has_phone (truthy phone) db.leads) _ e rest) [
        | inl second ↦ row_by-any has_phone (truthy phone) db.leads e second
        | inr third ↦ row_by-any has_email (truthy email) db.leads e third
      ]
    ]

pub find_existing-record :
    (db : Db) (r : String) (phone email : Option String) (l : Lead)
    → truthy (some r) ≡ some r
    → by_record r db.leads ≡ some l
    → find_existing db (some r) phone email ≡ some l
unfolding find_existing
find_existing-record db r phone email l said found = rw said (rw found refl)

module _ (cipher : Cipher) (nonce : ℕ → String) (event : IntakeEvent) (n : NormalizedContact)
    (r : String) (given : event.record_id ≡ some r) (said : truthy (some r) ≡ some r) where
  pub upsert_lead-Names :
      (db : Db) (existing : Option Lead) (out : Db × ℕ)
      → find_existing db event.record_id n.phone_bidx n.email_bidx ≡ existing
      → upsert_lead cipher nonce db event n existing ≡ ok out
      → Names r out.0.leads out.1
  unfolding upsert_lead
  upsert_lead-Names db none out looked e = elim (Option-cases (by_record r db.leads)) [
    | inl missing ↦ insert_lead-Names cipher nonce event n r given db out missing e
    | inr (l, found) ↦
        absurd (
          cc (find_existing-record db r n.phone_bidx n.email_bidx l said found, rw given at looked))
  ]
  upsert_lead-Names db (some x) out looked e =
      merge_lead-Names cipher nonce event n r given db x.id out
        (λ l found.
          let same : l ≡ x = cc (
            find_existing-record db r n.phone_bidx n.email_bidx l said found,
            rw given at looked,
          ) in
          rw same (==_refl x.id))
        (find_existing-any db event.record_id n.phone_bidx n.email_bidx x looked) e
