-- ===== src/Sealing/Sealed.antt =====
-- `seal` and `open` of apps/control-cloud/src/auth/crypto.ts (credentials) and of
-- apps/control-cloud/src/crypto.ts (values of a workspace). Strings are their 16-bit units. AES-GCM and
-- SHA-256 are the parameter `Cipher`; the random vector is an argument.
use personal_cloud.Prelude.{
  ℕ, Bool, true, false, String, ◌||◌, Option, none, some, List, [], ◌∷◌, ◌++◌, length, ltb, ◌==◌,
  if◌then◌else◌, not, ◌&&◌,
}
use personal_cloud.Prelude.Outcome.{Result, ok, err, other, ◌>>=◌, ◌>>◌, fail_if}
use personal_cloud.Sealing.Utf8.{encode, decode}
use personal_cloud.Sealing.Base64.{Bytes, Text, base64url, unbase64, btoa, atob}

pub record Cipher : Type 0 where
  -- the digest of the secret's bytes, which is the key
  pub key : Bytes → Bytes
  pub encrypt : (key vector context : Bytes) → Bytes → Bytes
  -- `none`: the call throws, since the tag does not fit
  pub decrypt : (key vector context : Bytes) → Bytes → Option Bytes
  -- how many arguments a call may have; a call with more throws
  pub max_arguments : ℕ

-- `text.split(".")`
abbrev cut : ℕ → List Text → List Text
cut c [] = (c ∷ []) ∷ []
cut c (part ∷ parts) = if c == b'.' then [] ∷ part ∷ parts else (c ∷ part) ∷ parts

unfoldable pub split : Text → List Text
split [] = [] ∷ []
split (c ∷ cs) = cut c (split cs)

-- `parts[n]`, where a part that is not there is tested like an empty one.
abbrev pub first : List Text → Text
first [] = []
first (part ∷ parts) = part

abbrev pub rest_of : List Text → List Text
rest_of [] = []
rest_of (part ∷ parts) = parts

abbrev pub is_empty : Text → Bool
is_empty [] = true
is_empty (c ∷ cs) = false

abbrev pub is_v1 : Text → Bool
is_v1 (v ∷ one ∷ []) = v == b'v' && one == b'1'
is_v1 part = false

-- A call that throws an error of its own.
abbrev pub or_throw : Option Bytes → Result Bytes
or_throw none = err other
or_throw (some bytes) = ok bytes

module _ (cipher : Cipher) where
  abbrev pub key_for : String → Text → Result Bytes
  key_for message secret =
      fail_if (is_empty secret || ltb (length secret) 32) 503 message
      >> ok (cipher.key (encode secret))

  -- `base64url` of auth/crypto.ts, which passes every byte as an argument of one call.
  abbrev pub url_of : Bytes → Result Text
  url_of bytes = if ltb cipher.max_arguments (length bytes) then err other else ok (base64url bytes)

  unfoldable pub seal_credential : (secret context vector value : List ℕ) → Result Text
  seal_credential secret context vector value =
      key_for "Hosted encryption is not configured" secret >>= λ key. url_of vector >>= λ v.
      url_of (cipher.encrypt key vector (encode context) (encode value)) >>= λ encrypted.
      ok (b'v' ∷ b'1' ∷ b'.' ∷ (v ++ (b'.' ∷ encrypted)))

  -- The vector is decoded first, then the key is made, then the rest is decoded.
  abbrev pub decrypt_with :
      Option Bytes → Result Bytes → (context : Text) → Option Bytes → Result Text
  decrypt_with vector key context sealed = or_throw vector >>= λ v. key >>= λ k.
      or_throw sealed >>= λ s.
      or_throw (cipher.decrypt k v (encode context) s) >>= λ bytes. ok (decode bytes)

  -- `open` of auth/crypto.ts
  abbrev pub open_parts : (secret context version iv encrypted : Text) → Result Text
  open_parts secret context version iv encrypted =
      fail_if (not (is_v1 version) || (is_empty iv || is_empty encrypted)) 500
        "Invalid encrypted credential"
      >> decrypt_with (unbase64 iv) (key_for "Hosted encryption is not configured" secret) context
          (unbase64 encrypted)

  unfoldable pub open_credential : (secret context : Text) → Text → Result Text
  open_credential secret context value =
      let parts = split value in
      open_parts secret context (first parts) (first (rest_of parts))
        (first (rest_of (rest_of parts)))

  -- `seal` and `open` of crypto.ts; its `base64` passes at most 8,192 bytes to one call.
  unfoldable pub seal_value : (secret context vector value : List ℕ) → Result Text
  seal_value secret context vector value = key_for "Encryption is not configured" secret >>= λ key.
      ok (btoa vector ++ (b'.' ∷ btoa (cipher.encrypt key vector (encode context) (encode value))))

  abbrev pub open_pair : (secret context iv encrypted : Text) → Result Text
  open_pair secret context iv encrypted =
      fail_if (is_empty iv || is_empty encrypted) 500 "Invalid encrypted value"
      >> decrypt_with (atob iv) (key_for "Encryption is not configured" secret) context
          (atob encrypted)

  unfoldable pub open_value : (secret context : Text) → Text → Result Text
  open_value secret context value =
      let parts = split value in open_pair secret context (first parts) (first (rest_of parts))
