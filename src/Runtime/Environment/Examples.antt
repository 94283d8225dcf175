-- ===== src/Runtime/Environment/Examples.antt =====
-- Tests and an instance for the environment of a project.
use personal_cloud.Prelude.{◌≡◌, ◌+◌, refl, true, false, some, [], ◌∷◌, arith}
use personal_cloud.Prelude.Outcome.{ok}
use personal_cloud.Runtime.Environment.{
  Text, Variable, Input, Seal, is_key, put_row, check_variable, put_variable, same_text, total_size,
  delete_variable, delete_row,
}
use personal_cloud.Runtime.Environment.Sums.{IsEnvironment}
use personal_cloud.Runtime.Environment.Limits.{put_variable-IsEnvironment}

abbrev token : Text
token = b'K' ∷ b'_' ∷ b'1' ∷ []

abbrev large : Variable
large = record {
  project_id = 7;
  key = b'A' ∷ [];
  value_size = some 114688;
  sealed_length = 200000;
  value_encrypted = 1;
}

abbrev prompt : Seal
prompt value rows = ((value + 100, 40), rows)

abbrev wish : Text → Input
wish key = record { key = key; size = 16384; has_nul = false; value = 5 }

is_key-token : is_key token ≡ true
unfolding is_key
is_key-token = refl

is_key_digit : is_key (b'1' ∷ []) ≡ false
unfolding is_key
is_key_digit = refl

granted : put_variable prompt 7 (wish token) (large ∷ []) ≡ (
  ok tt,
  large
      ∷ record {
        project_id = 7;
        key = token;
        value_size = some 16384;
        sealed_length = 40;
        value_encrypted = 105;
      }
      ∷ [],
)
unfolding put_variable check_variable is_key same_text put_row
granted = refl

removed : delete_variable 7 (b'A' ∷ []) (large ∷ []) ≡ (ok tt, [])
unfolding delete_variable is_key delete_row same_text
removed = refl

-- Two requests that are encrypted at the same time are each within the limit, and exceed it together.
abbrev busy : Seal
busy value rows = ((value + 100, 40), (put_variable prompt 7 (wish (b'B' ∷ [])) rows).1)

exceeded : total_size (put_variable busy 7 (wish token) (large ∷ [])).1 ≡ 147456
unfolding put_variable check_variable is_key same_text put_row
exceeded = refl

large-IsEnvironment : IsEnvironment (large ∷ [])
large-IsEnvironment = record {
  distinct = (tt, tt);
  within = λ p. record { few = ground arith; small = ground arith };
}

put_variable-IsEnvironment_example :
    IsEnvironment (put_variable prompt 7 (wish token) (large ∷ [])).1
put_variable-IsEnvironment_example =
    put_variable-IsEnvironment prompt 7 (wish token) (large ∷ []) (λ value. refl)
      large-IsEnvironment
