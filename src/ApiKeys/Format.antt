-- ===== src/ApiKeys/Format.antt =====
-- src/vyuu_gateway/users/api_keys.py: the text of an API key. A text is a list of code points, a
-- UUID the number of its 128 bits; `upper` is `str.upper`, the functions of bcrypt are parameters.
pub mod RoundTrip
use vyuu_mcp_gateway.Prelude.{
  ℕ, zero, suc, ◌+◌, ◌-◌, ◌*◌, ◌/◌, ◌%◌, Bool, true, false, not, ◌&&◌, ◌||◌, Option, none, some,
  List, [], ◌∷◌, ◌++◌, map, length, ltb, leb, ◌==◌, Result, ok, raise, if◌then◌else◌,
}
use vyuu_mcp_gateway.Audit.Lines.{Text, is_empty}

abbrev pub key_prefix_public_len : ℕ
key_prefix_public_len = 8

-- "vyuu_user_"
abbrev pub _bearer_prefix : Text
_bearer_prefix = 118 ∷ 121 ∷ 117 ∷ 117 ∷ 95 ∷ 117 ∷ 115 ∷ 101 ∷ 114 ∷ 95 ∷ []

abbrev pub underscore : ℕ
underscore = 95

pub data MalformedApiKeyError : Type 0 where
  malformed_api_key : MalformedApiKeyError

pub record IssuedApiKey : Type 0 where
  pub key_id : ℕ
  pub plaintext : Text
  pub key_hash : Text
  pub key_prefix : Text

pub record ParsedApiKey : Type 0 where
  pub key_id : ℕ
  pub secret : Text

-- The lower-case letter of a base-32 digit: `a` to `z`, then `2` to `7`.
abbrev pub letter_of : ℕ → ℕ
letter_of d = if ltb d 26 then 97 + d else 24 + d

-- So many base-32 digits of `n`, before `out`.
unfoldable pub digits : ℕ → ℕ → List ℕ → List ℕ
digits zero n out = out
digits (suc k) n out = digits k (n / 32) (n % 32 ∷ out)

-- 16 bytes are 26 digits of five bits, of which the last two are 0; the padding is stripped.
unfoldable pub _encode_id : ℕ → Text
unfolding digits
_encode_id key_id = map letter_of (digits 26 (key_id * 4) [])

-- The digit of an upper-case letter of the alphabet.
abbrev pub digit_of : ℕ → Option ℕ
digit_of c =
    if leb 65 c && leb c 90
    then some (c - 65)
    else if leb 50 c && leb c 55
    then some (c - 24)
    else none

abbrev pub push_digit : Option ℕ → Option (List ℕ) → Option (List ℕ)
push_digit (some d) (some ds) = some (d ∷ ds)
push_digit _ _ = none

unfoldable pub digits_of : Text → Option (List ℕ)
digits_of [] = some []
digits_of (c ∷ cs) = push_digit (digit_of c) (digits_of cs)

unfoldable pub value : List ℕ → ℕ → ℕ
value [] n = n
value (d ∷ ds) n = value ds (n * 32 + d)

-- The bytes that the digits of a full id stand for; the last two bits are dropped.
abbrev pub id_of : Option (List ℕ) → Option ℕ
id_of none = none
id_of (some ds) = some (value ds 0 / 4)

-- `none` is a `ValueError`. If `upper` changes the length, the padding is wrong or the bytes are too
-- many.
unfoldable pub _decode_id : (Text → Text) → Text → Option ℕ
unfolding digits_of value
_decode_id upper id_b32 =
    if not (length id_b32 == 26) || not (length (upper id_b32) == 26)
    then none
    else id_of (digits_of (upper id_b32))

unfoldable pub _format_bearer : ℕ → Text → Text
unfolding _encode_id
_format_bearer key_id secret = _bearer_prefix ++ (_encode_id key_id ++ underscore ∷ secret)

-- What follows the prefix, if the text has it.
unfoldable pub after_prefix : Text → Text → Option Text
after_prefix [] text = some text
after_prefix (p ∷ ps) [] = none
after_prefix (p ∷ ps) (c ∷ cs) = let rest = after_prefix ps cs in if p == c then rest else none

abbrev pub before_it : ℕ → Option (Text × Text) → Option (Text × Text)
before_it c none = none
before_it c (some (a, b)) = some (c ∷ a, b)

-- What stands before and after the first underscore.
unfoldable pub cut : Text → Option (Text × Text)
cut [] = none
cut (c ∷ cs) = let rest = cut cs in if c == underscore then some ([], cs) else before_it c rest

abbrev pub parsed : Text → Option ℕ → Result MalformedApiKeyError ParsedApiKey
parsed secret none = raise malformed_api_key
parsed secret (some key_id) = ok (record { key_id = key_id; secret = secret })

abbrev pub parse_parts :
    (Text → Text) → Option (Text × Text) → Result MalformedApiKeyError ParsedApiKey
parse_parts upper none = raise malformed_api_key
parse_parts upper (some (id_b32, secret)) =
    if is_empty id_b32 || is_empty secret
    then raise malformed_api_key
    else parsed secret (_decode_id upper id_b32)

abbrev pub parse_body : (Text → Text) → Option Text → Result MalformedApiKeyError ParsedApiKey
parse_body upper none = raise malformed_api_key
parse_body upper (some body) = parse_parts upper (cut body)

unfoldable pub parse_bearer : (Text → Text) → Text → Result MalformedApiKeyError ParsedApiKey
unfolding _decode_id after_prefix cut
parse_bearer upper bearer = parse_body upper (after_prefix _bearer_prefix bearer)

-- text[:n]
abbrev pub first_of : ℕ → Text → Text
first_of zero s = []
first_of (suc n) [] = []
first_of (suc n) (c ∷ s) = c ∷ first_of n s

-- `secret` is the base-64 text of the random bytes, `hash_secret` is `_hash_secret`.
unfoldable pub issue_new_key : (Text → Text) → ℕ → Text → IssuedApiKey
unfolding _format_bearer
issue_new_key hash_secret key_id secret = record {
  key_id = key_id;
  plaintext = _format_bearer key_id secret;
  key_hash = hash_secret secret;
  key_prefix = first_of key_prefix_public_len secret;
}

abbrev pub or_false : Option Bool → Bool
or_false none = false
or_false (some b) = b

-- `checkpw` is `none` where `bcrypt.checkpw` raises.
unfoldable pub verify_secret : (Text → Text → Option Bool) → Text → Text → Bool
verify_secret checkpw secret key_hash =
    if is_empty secret || is_empty key_hash then false else or_false (checkpw secret key_hash)
