-- ===== src/Pii.antt =====
-- lib/crypto/pii.ts: encrypted columns and the blind index. AES-GCM and HMAC are node:crypto's, an
-- interface here with the keys inside; a nonce, `randomBytes(12)`, is an argument.
pub mod Laws
mod Tests
use Prim.Native.String
use voice_call.Base.{
  ℕ, zero, suc, ◌-◌, ◌≡◌, String, Option, none, some, Outcome, ok, Error, unsupported_envelope,
  authentication_failed, err, or_throw, ◌>>=◌, ◌==◌, if◌then◌else◌, ◌+text◌, decimal,
}
use voice_call.Schema.{Envelope}

-- `unseal` returns none where `final()` throws. What is sealed under a nonce unseals.
pub record Cipher : Type 0 where
  pub seal : String → String → String × String
  pub unseal : String → String → String → Option String
  pub hmac : String → String
  pub unseal-seal : (iv text : String) → unseal iv (seal iv text).0 (seal iv text).1 ≡ some text

abbrev pub envelope_version : ℕ
envelope_version = 1

-- A value that JavaScript's truth test passes: neither null nor "".
unfoldable pub truthy : Option String → Option String
truthy none = none
truthy (some String.[]) = none
truthy (some (String.◌∷◌ c s)) = some (String.◌∷◌ c s)

module _ (cipher : Cipher) where
  open cipher use {seal, unseal, hmac}

  unfoldable pub encrypt_pii : String → String → Envelope
  encrypt_pii iv plaintext = record {
    version = envelope_version;
    iv = iv;
    auth_tag = (seal iv plaintext).0;
    ciphertext = (seal iv plaintext).1;
  }

  unfoldable pub decrypt_pii : Envelope → Outcome String
  decrypt_pii blob =
      if blob.version == envelope_version
      then or_throw (unseal blob.iv blob.auth_tag blob.ciphertext) authentication_failed
      else err unsupported_envelope

  unfoldable pub encrypt_pii_or_null : String → Option String → Option Envelope
  unfolding truthy
  encrypt_pii_or_null iv value = elim (truthy value) [
    | none ↦ none
    | some text ↦ some (encrypt_pii iv text)
  ]

  unfoldable pub decrypt_pii_or_null : Option Envelope → Outcome (Option String)
  decrypt_pii_or_null none = ok none
  decrypt_pii_or_null (some blob) = do text ← decrypt_pii blob; ok (some text)

  -- hmac.update(tenant).update(" ").update(value)
  unfoldable pub blind_index : ℕ → String → String
  blind_index tenant_id value = hmac (decimal tenant_id +text " " +text value)

char_count : String → ℕ
char_count String.[] = 0
char_count (String.◌∷◌ c s) = suc (char_count s)

drop_chars : ℕ → String → String
drop_chars zero s = s
drop_chars (suc n) String.[] = ""
drop_chars (suc n) (String.◌∷◌ c s) = drop_chars n s

-- value.slice(-4)
unfoldable pub last_four : String → String
unfolding char_count drop_chars
last_four value = drop_chars (char_count value - 4) value

unfoldable pub mask_phone : String → String
mask_phone e164 = "******" +text last_four e164
