-- ===== src/Sealing/Opened.antt =====
-- What was sealed is opened again.
use personal_cloud.Prelude.{
  Bool-cases, inl, inr, String, ℕ, ◌≡◌, ◌≤◌, refl, false, ◌||◌, some, List, [], ◌∷◌, ◌++◌, length,
  arith, ltb, ◌==◌, All, ap, ◌∙◌,
}
use personal_cloud.Prelude.Outcome.{ok, ◌>>=◌}
use personal_cloud.Sealing.Base64.{Bytes, Text, base64url, btoa}
use personal_cloud.Sealing.Utf8.{encode}
use personal_cloud.Sealing.Restored.{IsPlain, encode-IsByte, decode-encode}
use personal_cloud.Sealing.Letters.{IsByte, atob-btoa}
use personal_cloud.Sealing.Decoded.{
  HasNoDot, unbase64-base64url, base64url-HasNoDot, btoa-HasNoDot, base64url_cons, btoa_cons,
}
use personal_cloud.Sealing.Sealed.{
  Cipher, split, is_empty, key_for, seal_credential, open_credential, seal_value, open_value,
}

-- What AES-GCM promises: a ciphertext carries its tag, so it is not empty, and with the same key, vector
-- and context it gives the plaintext back.
pub record IsAead (cipher : Cipher) : Type 0 where
  pub ciphertext_IsByte : (k v c p : Bytes) → All IsByte p → All IsByte (cipher.encrypt k v c p)
  pub ciphertext_cons :
      (k v c p : Bytes) → (b : ℕ) × ((bs : Bytes) × (cipher.encrypt k v c p ≡ b ∷ bs))
  pub decrypts :
      (k v c p : Bytes) → All IsByte p → cipher.decrypt k v c (cipher.encrypt k v c p) ≡ some p

split_lem : (part : Text) → HasNoDot part → split part ≡ part ∷ []
unfolding split
split_lem [] h = refl
split_lem (c ∷ cs) h = rw (split_lem cs h.1, h.0)

split_cons : (text : Text) → (p : Text) × ((ps : List Text) × (split text ≡ p ∷ ps))
unfolding split
split_cons [] = ([], ([], refl))
split_cons (c ∷ cs) =
    let (p, (ps, e)) = split_cons cs in
    elim (Bool-cases (c == b'.')) [
      | inl dot ↦ ([], (p ∷ ps, rw (e, dot)))
      | inr char ↦ (c ∷ p, (ps, rw (e, char)))
    ]

split-append :
    (part rest : Text) → HasNoDot part → split (part ++ (b'.' ∷ rest)) ≡ part ∷ split rest
unfolding split
split-append [] rest h = let (p, (ps, e)) = split_cons rest in rw e
split-append (c ∷ cs) rest h = rw (split-append cs rest h.1, h.0)

long_enough :
    (secret : Text) → 32 ≤ length secret → (is_empty secret || ltb (length secret) 32) ≡ false
long_enough [] h = absurd (omega arith)
long_enough (c ∷ cs) h = ground arith

module _ (cipher : Cipher) (aead : IsAead cipher) (secret context : Text) (b : ℕ) (bs : Bytes)
    (value : Text) (vector_IsByte : All IsByte (b ∷ bs)) (value_IsPlain : IsPlain value)
    (secret_long : 32 ≤ length secret) where
  abbrev key : Bytes
  key = cipher.key (encode secret)

  abbrev sealed : Bytes
  sealed = cipher.encrypt key (b ∷ bs) (encode context) (encode value)

  sealed-IsByte : All IsByte sealed
  sealed-IsByte =
      aead.ciphertext_IsByte key (b ∷ bs) (encode context) (encode value)
        (encode-IsByte value value_IsPlain)

  key_for_lem : (message : String) → key_for cipher message secret ≡ ok key
  key_for_lem message = rw (long_enough secret secret_long)

  credential_parts :
      split (b'v' ∷ b'1' ∷ b'.' ∷ (base64url (b ∷ bs) ++ (b'.' ∷ base64url sealed)))
      ≡ (b'v' ∷ b'1' ∷ []) ∷ base64url (b ∷ bs) ∷ base64url sealed ∷ []
  credential_parts =
      split-append (b'v' ∷ b'1' ∷ []) (base64url (b ∷ bs) ++ (b'.' ∷ base64url sealed))
        (refl, (refl, tt))
      ∙ ap (λ parts. (b'v' ∷ b'1' ∷ []) ∷ parts)
          (split-append (base64url (b ∷ bs)) (base64url sealed)
              (base64url-HasNoDot (b ∷ bs) vector_IsByte)
            ∙ ap (λ parts. base64url (b ∷ bs) ∷ parts)
                (split_lem (base64url sealed) (base64url-HasNoDot sealed sealed-IsByte)))

  value_parts : split (btoa (b ∷ bs) ++ (b'.' ∷ btoa sealed)) ≡ btoa (b ∷ bs) ∷ btoa sealed ∷ []
  value_parts =
      split-append (btoa (b ∷ bs)) (btoa sealed) (btoa-HasNoDot (b ∷ bs) vector_IsByte)
      ∙ ap (λ parts. btoa (b ∷ bs) ∷ parts)
          (split_lem (btoa sealed) (btoa-HasNoDot sealed sealed-IsByte))

  -- The text for a ciphertext is not empty.
  sealed_url : is_empty (base64url sealed) ≡ false
  sealed_url =
      let (c, (cs, e)) = aead.ciphertext_cons key (b ∷ bs) (encode context) (encode value) in
      let (d, (ds, f)) = base64url_cons c cs (rw e at sealed-IsByte) in rw (e, f)

  sealed_text : is_empty (btoa sealed) ≡ false
  sealed_text =
      let (c, (cs, e)) = aead.ciphertext_cons key (b ∷ bs) (encode context) (encode value) in
      let (d, (ds, f)) = btoa_cons c cs in rw (e, f)

  decrypted : cipher.decrypt key (b ∷ bs) (encode context) sealed ≡ some (encode value)
  decrypted =
      aead.decrypts key (b ∷ bs) (encode context) (encode value) (encode-IsByte value value_IsPlain)

  -- A credential that is sealed under a secret of at least 32 characters, with a vector and a ciphertext that
  -- are short enough to be passed to one call, is opened to the same string, under the same secret and
  -- context, whatever the random vector was; its surrogates are paired and it does not begin with a byte
  -- order mark.
  pub open_credential-seal_credential :
      length (b ∷ bs) ≤ cipher.max_arguments
      → length sealed ≤ cipher.max_arguments
      → (seal_credential cipher secret context (b ∷ bs) value
          >>= open_credential cipher secret context)
        ≡ ok value
  unfolding seal_credential open_credential
  open_credential-seal_credential vector_short sealed_short =
      let (c, (cs, vector_url)) = base64url_cons b bs vector_IsByte in
      let vector_passes : ltb cipher.max_arguments (length (b ∷ bs)) ≡ false = ground arith in
      let sealed_passes : ltb cipher.max_arguments (length sealed) ≡ false = ground arith in
      rw (
        key_for_lem "Hosted encryption is not configured",
        vector_passes,
        sealed_passes,
        credential_parts,
        sealed_url,
        ap is_empty vector_url,
        unbase64-base64url (b ∷ bs) vector_IsByte,
        unbase64-base64url sealed sealed-IsByte,
        key_for_lem "Hosted encryption is not configured",
        decrypted,
        decode-encode value value_IsPlain,
      )

  -- A value that is sealed under a secret of at least 32 characters is opened to the same string, under the
  -- same secret and context, whatever the random vector was; its surrogates are paired and it does not
  -- begin with a byte order mark.
  pub open_value-seal_value :
      (seal_value cipher secret context (b ∷ bs) value >>= open_value cipher secret context)
      ≡ ok value
  unfolding seal_value open_value
  open_value-seal_value =
      let (c, (cs, vector_text)) = btoa_cons b bs in
      rw (
        key_for_lem "Encryption is not configured",
        value_parts,
        sealed_text,
        ap is_empty vector_text,
        atob-btoa (b ∷ bs) vector_IsByte,
        atob-btoa sealed sealed-IsByte,
        key_for_lem "Encryption is not configured",
        decrypted,
        decode-encode value value_IsPlain,
      )
