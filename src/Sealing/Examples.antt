-- ===== src/Sealing/Examples.antt =====
-- Tests and instances of the theorems on sealed values.
use personal_cloud.Prelude.{◌≡◌, refl, none, some, [], ◌∷◌, arith, Option, if◌then◌else◌, ◌==◌}
use personal_cloud.Prelude.Outcome.{ok, err, http, ◌>>=◌}
use personal_cloud.Sealing.Base64.{
  Bytes, Text, btoa, atob, base64url, letter, sextet, unpad, bytes_of, strip_pads,
}
use personal_cloud.Sealing.Utf8.{
  encode, decode, code_points, utf8, utf8_all, characters, first_byte, units, strip_mark,
}
use personal_cloud.Sealing.Restored.{IsPlain}
use personal_cloud.Sealing.Sealed.{Cipher, split, seal_credential, open_credential, open_value}
use personal_cloud.Sealing.Opened.{IsAead, open_credential-seal_credential}

-- "Man" and "Ma".
btoa_man : btoa (77 ∷ 97 ∷ 110 ∷ []) ≡ b'T' ∷ b'W' ∷ b'F' ∷ b'u' ∷ []
unfolding btoa letter
btoa_man = refl

btoa_ma : btoa (77 ∷ 97 ∷ []) ≡ b'T' ∷ b'W' ∷ b'E' ∷ b'=' ∷ []
unfolding btoa letter
btoa_ma = refl

base64url_edge : base64url (251 ∷ 255 ∷ []) ≡ b'-' ∷ b'_' ∷ b'8' ∷ []
unfolding base64url btoa letter strip_pads
base64url_edge = refl

atob_single : atob (b'T' ∷ []) ≡ none
unfolding atob unpad sextet bytes_of
atob_single = refl

-- A cipher that keeps what it is given behind one more byte.
abbrev behind : Bytes → Bytes
behind p = 7 ∷ p

abbrev uncovered : Bytes → Option Bytes
uncovered [] = none
uncovered (b ∷ p) = if b == 7 then some p else none

abbrev plain : Cipher
plain = record {
  key = λ secret. secret;
  encrypt = λ k v c p. behind p;
  decrypt = λ k v c s. uncovered s;
  max_arguments = 65536;
}

plain-IsAead : IsAead plain
plain-IsAead = record {
  ciphertext_IsByte = λ k v c p h. (omega arith, h);
  ciphertext_cons = λ k v c p. (7, (p, refl));
  decrypts = λ k v c p h. refl;
}

abbrev secret : Bytes
secret =
    107 ∷ 107 ∷ 107 ∷ 107 ∷ 107 ∷ 107 ∷ 107 ∷ 107 ∷ 107 ∷ 107 ∷ 107 ∷ 107 ∷ 107 ∷ 107 ∷ 107 ∷ 107
    ∷ 107 ∷ 107 ∷ 107 ∷ 107 ∷ 107 ∷ 107 ∷ 107 ∷ 107 ∷ 107 ∷ 107 ∷ 107 ∷ 107 ∷ 107 ∷ 107 ∷ 107 ∷ 107
    ∷ []

-- "é" and a character outside the basic plane, which has two units.
abbrev word : Text
word = 233 ∷ 55357 ∷ 56832 ∷ []

encode-word : encode word ≡ 195 ∷ 169 ∷ 240 ∷ 159 ∷ 152 ∷ 128 ∷ []
unfolding code_points utf8 utf8_all
encode-word = refl

word-IsPlain : IsPlain word
word-IsPlain = (refl, refl)

-- A byte order mark is lost, and a lone surrogate becomes U+FFFD.
decode_mark : decode (encode (65279 ∷ 65 ∷ [])) ≡ 65 ∷ []
unfolding code_points utf8 utf8_all characters first_byte units strip_mark
decode_mark = refl

decode_lone : decode (encode (55357 ∷ 65 ∷ [])) ≡ 65533 ∷ 65 ∷ []
unfolding code_points utf8 utf8_all characters first_byte units strip_mark
decode_lone = refl

-- A byte that follows nothing, and a character that is cut short.
decode_bad : decode (128 ∷ 195 ∷ 65 ∷ 226 ∷ 130 ∷ []) ≡ 65533 ∷ 65533 ∷ 65 ∷ 65533 ∷ []
unfolding characters first_byte units strip_mark
decode_bad = refl

open_credential-seal_credential_example :
    (seal_credential plain secret (1 ∷ []) (2 ∷ 3 ∷ []) word
      >>= open_credential plain secret (1 ∷ []))
    ≡ ok word
unfolding code_points utf8 utf8_all
open_credential-seal_credential_example =
    open_credential-seal_credential plain plain-IsAead secret (1 ∷ []) 2 (3 ∷ []) word (omega arith)
      word-IsPlain (omega arith) (omega arith) (omega arith)

-- A short secret is refused.
short_secret :
    seal_credential plain (233 ∷ 107 ∷ []) [] [] word
    ≡ err (http 503 "Hosted encryption is not configured")
unfolding seal_credential
short_secret = refl

-- Another version, or a missing part, is refused.
open_other :
    open_credential plain secret [] (b'v' ∷ b'2' ∷ b'.' ∷ b'A' ∷ b'.' ∷ b'A' ∷ [])
    ≡ err (http 500 "Invalid encrypted credential")
unfolding open_credential split
open_other = refl

open_short :
    open_value plain secret [] (b'A' ∷ b'.' ∷ []) ≡ err (http 500 "Invalid encrypted value")
unfolding open_value split
open_short = refl
