-- ===== src/Phone.antt =====
-- lib/phone.ts: a number that can be called, and the canonical form of an email address. The library
-- libphonenumber-js is a parameter, and so is String.prototype.toLowerCase.
use Prim.Native.Char.{code}
use voice_call.Base.{
  ℕ, suc, String, Bool, false, not, ◌&&◌, ◌||◌, Option, none, some, ltb, leb, ◌==◌, str_eq,
  if◌then◌else◌, holds, ◌+text◌, decimal, is_blank, trim,
}
use voice_call.Pii.{truthy, last_four}

pub data PhoneRejection : Type 0 where
  missing too_short not_a_number invalid_for_region not_callable : PhoneRejection

pub data PhoneResult : Type 0 where
  callable : (e164 : String) → (country : Option String) → (last4 : String) → PhoneResult
  rejected : PhoneRejection → (detail : String) → PhoneResult

-- What parsePhoneNumberWithError gives for a text and a default country: an error's message, or a
-- number with the answers of isValid and getType.
pub record ParsedPhone : Type 0 where
  pub number : String
  pub country : Option String
  pub is_valid : Bool
  pub type : Option String

pub data ParseReply : Type 0 where
  unparseable : String → ParseReply
  parsed : ParsedPhone → ParseReply

abbrev pub PhoneParser : Type 0
PhoneParser = String → Option String → ParseReply

abbrev pub rejection_text : PhoneRejection → String
rejection_text missing = "missing"
rejection_text too_short = "too_short"
rejection_text not_a_number = "not_a_number"
rejection_text invalid_for_region = "invalid_for_region"
rejection_text not_callable = "not_callable"

-- The matches of /\d/g.
digit_count : String → ℕ
digit_count String.[] = 0
digit_count (String.◌∷◌ c s) =
    let n = digit_count s in if leb b'0' (code c) && leb (code c) b'9' then suc n else n

is_uncallable : String → Bool
is_uncallable type =
    str_eq type "VOICEMAIL"
    || str_eq type "PREMIUM_RATE"
    || str_eq type "PAGER"
    || str_eq type "SHARED_COST"

abbrev type_text : Option String → String
type_text none = "undefined"
type_text (some type) = type

-- for a country, if one is known
abbrev region_text : Option String → String
region_text country = elim (truthy country) [ none ↦ "" | some name ↦ " for " +text name ]

pub check_parsed : ParsedPhone → PhoneResult
check_parsed phone =
    if not phone.is_valid
    then rejected invalid_for_region ("Not a valid number" +text region_text phone.country)
    else if holds is_uncallable phone.type
    then rejected not_callable ("Number type is " +text type_text phone.type)
    else callable phone.number phone.country (last_four phone.number)

pub check_reply : ParseReply → PhoneResult
check_reply (unparseable message) = rejected not_a_number message
check_reply (parsed phone) = check_parsed phone

pub normalize_given : PhoneParser → String → Option String → PhoneResult
normalize_given parse cleaned country =
    if ltb (digit_count cleaned) 7
    then rejected too_short ("Only " +text decimal (digit_count cleaned) +text " digits")
    else check_reply (parse cleaned country)

unfoldable pub normalize_phone : PhoneParser → Option String → Option String → PhoneResult
unfolding normalize_given check_reply check_parsed digit_count is_uncallable
normalize_phone parse none country = rejected missing "No phone number supplied"
normalize_phone parse (some raw) country =
    if is_blank raw
    then rejected missing "No phone number supplied"
    else normalize_given parse (trim raw) country

-- text.includes("@")
has_at_sign : String → Bool
has_at_sign String.[] = false
has_at_sign (String.◌∷◌ c s) = code c == b'@' || has_at_sign s

unfoldable pub normalize_email : (String → String) → Option String → Option String
unfolding has_at_sign
normalize_email lower raw = elim (truthy raw) [
  | none ↦ none
  | some text ↦
      let trimmed = lower (trim text) in if has_at_sign trimmed then some trimmed else none
]

abbrev pub default_calling_country : String
default_calling_country = "IN"
