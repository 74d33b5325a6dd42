-- ===== src/ApiKeys/Format/RoundTrip.antt =====
-- A key that is issued is read back.
use vyuu_mcp_gateway.Prelude.{
  ℕ, zero, suc, ◌+◌, ◌-◌, ◌*◌, ◌/◌, ◌%◌, ◌^◌, ◌<◌, Bool, true, false, ◌&&◌, Option, some, List, [],
  ◌∷◌, ◌++◌, map, length, All, leb, ◌==◌, ok, ◌≡◌, refl, ap, ◌∙◌, arith, if◌then◌else◌,
}
use vyuu_mcp_gateway.Audit.Lines.{Text, is_empty}
use vyuu_mcp_gateway.ApiKeys.Format.{
  _bearer_prefix, underscore, ParsedApiKey, letter_of, digits, _encode_id, digit_of, digits_of,
  value, _decode_id, _format_bearer, after_prefix, cut, parsed, parse_parts, parse_body,
  parse_bearer, issue_new_key, verify_secret,
}

abbrev pow32 : ℕ → ℕ
pow32 zero = 1
pow32 (suc k) = 32 * pow32 k

value-digits : (k n : ℕ) (out : List ℕ) → n < pow32 k → value (digits k n out) 0 ≡ value out n
unfolding digits value
value-digits zero n out h = ap (value out) (omega (arith, h))
value-digits (suc k) n out h =
    value-digits k (n / 32) (n % 32 ∷ out) (omega (arith, h)) ∙ ap (value out) (omega arith)

length-digits : (k n : ℕ) (out : List ℕ) → length (digits k n out) ≡ k + length out
unfolding digits
length-digits zero n out = omega arith
length-digits (suc k) n out = omega (arith, length-digits k (n / 32) (n % 32 ∷ out))

digits_below : (k n : ℕ) (out : List ℕ) → All (λ d. d < 32) out → All (λ d. d < 32) (digits k n out)
unfolding digits
digits_below zero n out h = h
digits_below (suc k) n out h = digits_below k (n / 32) (n % 32 ∷ out) (omega arith, h)

length-map : {A B : Type 0} (f : A → B) (xs : List A) → length (map f xs) ≡ length xs
length-map f [] = refl
length-map f (x ∷ xs) = ap suc (length-map f xs)

-- `str.upper` of one ASCII character
abbrev pub ascii_upper : ℕ → ℕ
ascii_upper c = if leb 97 c && leb c 122 then c - 32 else c

digit_of-letter : (d : ℕ) → d < 32 → digit_of (ascii_upper (letter_of d)) ≡ some d
digit_of-letter d h = ground arith

digits_of-letters :
    (ds : List ℕ) → All (λ d. d < 32) ds → digits_of (map ascii_upper (map letter_of ds)) ≡ some ds
unfolding digits_of
digits_of-letters [] h = refl
digits_of-letters (d ∷ ds) (small, h) =
    rw (digit_of-letter d small) (rw (digits_of-letters ds h) refl)

cut-letters :
    (ds : List ℕ) (secret : Text)
    → All (λ d. d < 32) ds
    → cut (map letter_of ds ++ underscore ∷ secret) ≡ some (map letter_of ds, secret)
unfolding cut
cut-letters [] secret h = refl
cut-letters (d ∷ ds) secret (small, h) = rw (cut-letters ds secret h) (rw plain refl)
  where
    plain : (letter_of d == underscore) ≡ false
    plain = ground (arith, small)

after_prefix-append : (ps body : Text) → after_prefix ps (ps ++ body) ≡ some body
unfolding after_prefix
after_prefix-append [] body = refl
after_prefix-append (p ∷ ps) body = ground (arith, after_prefix-append ps body)

-- A letter of the base-32 alphabet is ASCII.
abbrev pub IsAscii : Text → Type 0
IsAscii = All (λ c. c < 128)

letters-IsAscii : (ds : List ℕ) → All (λ d. d < 32) ds → IsAscii (map letter_of ds)
letters-IsAscii [] h = tt
letters-IsAscii (d ∷ ds) (small, h) = (ground (arith, small), letters-IsAscii ds h)

module _ (upper : Text → Text)
    (upper_ascii : (s : Text) → IsAscii s → upper s ≡ map ascii_upper s) where
  abbrev id_digits : ℕ → List ℕ
  id_digits key_id = digits 26 (key_id * 4) []

  id_digits_below : (key_id : ℕ) → All (λ d. d < 32) (id_digits key_id)
  id_digits_below key_id = digits_below 26 (key_id * 4) [] tt

  value-id_digits : (key_id : ℕ) → key_id < 2 ^ 128 → value (id_digits key_id) 0 ≡ key_id * 4
  unfolding value
  value-id_digits key_id h = value-digits 26 (key_id * 4) [] (omega (arith, h))

  upper-letters :
      (ds : List ℕ)
      → All (λ d. d < 32) ds
      → upper (map letter_of ds) ≡ map ascii_upper (map letter_of ds)
  upper-letters ds small = upper_ascii (map letter_of ds) (letters-IsAscii ds small)

  _decode_id-_encode_id :
      (key_id : ℕ) → key_id < 2 ^ 128 → _decode_id upper (_encode_id key_id) ≡ some key_id
  unfolding _decode_id _encode_id
  _decode_id-_encode_id key_id h =
      let ds = id_digits key_id in
      let small = id_digits_below key_id in
      let long : length (map letter_of ds) ≡ 26 =
        length-map letter_of ds ∙ length-digits 26 (key_id * 4) [] in
      let long_upper : length (map ascii_upper (map letter_of ds)) ≡ 26 =
        length-map ascii_upper (map letter_of ds) ∙ long in
      rw (upper-letters ds small) (
        rw (long, long_upper, digits_of-letters ds small, value-id_digits key_id h)
          (ap some (omega arith)))

  -- A bearer text that is formatted from a UUID of 128 bits and a secret that is not empty is parsed
  -- to that id and that secret.
  parse_bearer-_format_bearer :
      (key_id : ℕ) (secret : Text)
      → key_id < 2 ^ 128
      → is_empty secret ≡ false
      → parse_bearer upper (_format_bearer key_id secret)
        ≡ ok (record { key_id = key_id; secret = secret })
  unfolding parse_bearer _format_bearer
  parse_bearer-_format_bearer key_id secret h given =
      ap (parse_body upper)
        (after_prefix-append _bearer_prefix (_encode_id key_id ++ underscore ∷ secret))
      ∙ ap (parse_parts upper) cut_id
      ∙ rw given (ap (parsed secret) (_decode_id-_encode_id key_id h))
    where
      cut_id : cut (_encode_id key_id ++ underscore ∷ secret) ≡ some (_encode_id key_id, secret)
      cut_id = cut-letters (id_digits key_id) secret (id_digits_below key_id)

  -- A key that is issued for a UUID of 128 bits, with a secret that is not empty, parses back to that
  -- UUID and a secret that verifies against the stored hash, where bcrypt accepts what it hashed.
  pub issued_key_verifies :
      (hash_secret : Text → Text) (checkpw : Text → Text → Option Bool)
      → ((secret : Text) → checkpw secret (hash_secret secret) ≡ some true)
      → ((secret : Text) → is_empty (hash_secret secret) ≡ false)
      → (key_id : ℕ) (secret : Text) → key_id < 2 ^ 128
      → is_empty secret ≡ false
      → (p : ParsedApiKey) × (parse_bearer upper (issue_new_key hash_secret key_id secret).plaintext
          ≡ ok p)
        × (p.key_id ≡ key_id)
        × (verify_secret checkpw p.secret (issue_new_key hash_secret key_id secret).key_hash ≡ true)
  unfolding issue_new_key verify_secret
  issued_key_verifies hash_secret checkpw accepts hashes key_id secret h given = (
    record { key_id = key_id; secret = secret },
    parse_bearer-_format_bearer key_id secret h given,
    refl,
    rw (given, hashes secret, accepts secret) refl,
  )
