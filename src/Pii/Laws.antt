-- ===== src/Pii/Laws.antt =====
-- What the encrypted columns keep.
use voice_call.Base.{◌≡◌, String, Option, none, some, ok, inl, inr, Option-cases}
use voice_call.Pii.{
  Cipher, truthy, encrypt_pii, decrypt_pii, encrypt_pii_or_null, decrypt_pii_or_null,
}

module _ (cipher : Cipher) where
  pub decrypt_pii-encrypt_pii :
      (iv text : String) → decrypt_pii cipher (encrypt_pii cipher iv text) ≡ ok text
  unfolding decrypt_pii encrypt_pii
  decrypt_pii-encrypt_pii iv text = rw (cipher.unseal-seal iv text)

-- An encrypted column reads back as what was written, with an empty text read back as null.
pub decrypt_pii_or_null-encrypt_pii_or_null :
    (cipher : Cipher) (iv : String) (value : Option String)
    → decrypt_pii_or_null cipher (encrypt_pii_or_null cipher iv value) ≡ ok (truthy value)
unfolding decrypt_pii_or_null encrypt_pii_or_null
decrypt_pii_or_null-encrypt_pii_or_null cipher iv value = elim (Option-cases (truthy value)) [
  | inl e ↦ rw (e, encrypt_pii_or_null)
  | inr (text, e) ↦ rw (e, encrypt_pii_or_null) (rw (decrypt_pii-encrypt_pii cipher iv text))
]

pub truthy-some : (o : Option String) (s : String) → truthy o ≡ some s → o ≡ some s
unfolding truthy
truthy-some none s e = cc
truthy-some (some String.[]) s e = absurd (cc)
truthy-some (some (String.◌∷◌ c r)) s e = e
