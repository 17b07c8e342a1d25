-- ===== src/CampaignRouting/Distinct.antt =====
-- Every text of a list is among its distinct ones.
use voice_call.Base.{◌≡◌, String, Bool, true, ◌||◌, List, [], ◌∷◌, arith, any, str_eq, eq_iff}
use voice_call.CampaignRouting.{distinct_texts, add_distinct}

abbrev pub is_listed : String → List String → Bool
is_listed name names = any (λ t. str_eq t name) names

add_distinct-listed :
    (name x : String) (seen : List String)
    → (is_listed name seen || str_eq x name) ≡ true
    → is_listed name (add_distinct x seen) ≡ true
unfolding add_distinct any
add_distinct-listed name x [] h = ground arith
add_distinct-listed name x (y ∷ ys) h =
    ground (arith, eq_iff y x, eq_iff y name, eq_iff x name, add_distinct-listed name x ys)

pub distinct_texts-listed :
    (name : String) (seen xs : List String)
    → (is_listed name seen || is_listed name xs) ≡ true
    → is_listed name (distinct_texts seen xs) ≡ true
unfolding distinct_texts any
distinct_texts-listed name seen [] h = ground arith
distinct_texts-listed name seen (x ∷ xs) h =
    ground
      (arith, add_distinct-listed name x seen, distinct_texts-listed name (add_distinct x seen) xs)
