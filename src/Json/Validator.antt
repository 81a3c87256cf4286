-- ===== src/Json/Validator.antt =====
-- `Validator` and `json_validate` of common/json.cpp. A function that moves `pos_` and answers
-- whether it succeeded returns what is left of the text, or `none`.
use vhdp.Base.{
  ℕ, zero, suc, ◌+◌, ◌*◌, Bool, true, false, ◌&&◌, ◌||◌, [], ◌∷◌, Option, some, none, Bytes, codes,
  String, starts_with, if◌then◌else◌, drop, length, ltb, leb, ◌==◌, ◌>>=◌,
}
use vhdp.Strings.{is_digit}
use vhdp.Json.{utf8_seq_len}

unfoldable pub peek : ℕ → Bytes → Bool
peek c [] = false
peek c (x ∷ _) = x == c

abbrev pub is_space : ℕ → Bool
is_space c = c == b' ' || c == 10 || c == 13 || c == 9

unfoldable pub ws : Bytes → Bytes
ws [] = []
ws (c ∷ s) = let rest = ws s in if is_space c then rest else c ∷ s

unfoldable pub lit : String → Bytes → Option Bytes
unfolding starts_with
lit l s = if starts_with (codes l) s then some (drop (length (codes l)) s) else none

unfoldable pub is_hex : ℕ → Bool
is_hex c = (leb b'0' c && leb c b'9') || (leb b'a' c && leb c b'f') || (leb b'A' c && leb c b'F')

-- Where `string` stands: between characters, inside a UTF-8 sequence, behind a backslash, or
-- inside the digits of an escape, with the number of bytes still to come.
pub data Place : Type 0 where
  between behind_backslash : Place
  in_sequence in_digits : ℕ → Place

-- What `string` does at one byte.
pub data Next : Type 0 where
  closes refuses : Next
  goes : Place → Next

unfoldable pub is_escape : ℕ → Bool
is_escape e =
    e == b'"'
    || e == b'\\'
    || e == b'/'
    || e == b'b'
    || e == b'f'
    || e == b'n'
    || e == b'r'
    || e == b't'

-- With the bytes behind it.
unfoldable pub between_step : ℕ → Bytes → Next
between_step c s =
    if c == b'"'
    then closes
    else if ltb c 0x20
    then refuses
    else if c == b'\\'
    then goes behind_backslash
    else elim (utf8_seq_len (c ∷ s)) [
      | zero ↦ refuses
      | suc zero ↦ goes between
      | suc (suc n) ↦ goes (in_sequence n)
    ]

unfoldable pub string_step : Place → ℕ → Bytes → Next
string_step between c s = between_step c s
string_step (in_sequence zero) c s = goes between
string_step (in_sequence (suc n)) c s = goes (in_sequence n)
string_step behind_backslash c s =
    if c == b'u' then goes (in_digits 3) else if is_escape c then goes between else refuses
string_step (in_digits zero) c s = if is_hex c then goes between else refuses
string_step (in_digits (suc n)) c s = if is_hex c then goes (in_digits n) else refuses

-- `string`, behind the opening quote.
unfoldable pub string_from : Place → Bytes → Option Bytes
string_from p [] = none
string_from p (c ∷ s) = elim (string_step p c s) [
  | closes ↦ some s
  | refuses ↦ none
  | goes p' ↦ string_from p' s
]

-- `while (digit()) {}`
unfoldable pub skip_digits : Bytes → Bytes
skip_digits [] = []
skip_digits (c ∷ s) = let rest = skip_digits s in if is_digit c then rest else c ∷ s

-- At least one digit.
unfoldable pub some_digits : Bytes → Option Bytes
unfolding skip_digits
some_digits [] = none
some_digits (c ∷ s) = if is_digit c then some (skip_digits s) else none

unfoldable pub whole_part : Bytes → Option Bytes
unfolding peek some_digits
whole_part s = if peek b'0' s then some (drop 1 s) else some_digits s

unfoldable pub fraction_part : Bytes → Option Bytes
unfolding peek some_digits
fraction_part s = if peek b'.' s then some_digits (drop 1 s) else some s

unfoldable pub skip_sign : Bytes → Bytes
unfolding peek
skip_sign s = if peek b'+' s || peek b'-' s then drop 1 s else s

unfoldable pub exponent_part : Bytes → Option Bytes
unfolding peek some_digits skip_sign
exponent_part s = if peek b'e' s || peek b'E' s then some_digits (skip_sign (drop 1 s)) else some s

unfoldable pub number : Bytes → Option Bytes
unfolding peek whole_part fraction_part exponent_part
number s = do
  a ← whole_part (if peek b'-' s then drop 1 s else s)
  b ← fraction_part a
  exponent_part b

-- The kind of value that a first byte announces.
pub data Lead : Type 0 where
  an_object an_array a_string a_true a_false a_null a_number : Lead

unfoldable pub lead_of : ℕ → Lead
lead_of c =
    if c == b'{'
    then an_object
    else if c == b'['
    then an_array
    else if c == b'"'
    then a_string
    else if c == b't'
    then a_true
    else if c == b'f'
    then a_false
    else if c == b'n'
    then a_null
    else a_number

-- What is read next: a value, or the members or elements behind the opening bracket; each with
-- its depth.
pub data Task : Type 0 where
  value members elements : ℕ → Task

-- The name of a member, with the colon behind it.
unfoldable pub member_name : Bytes → Option Bytes
unfolding peek string_from ws
member_name s = do
  rest ← (if peek b'"' s then string_from between (drop 1 s) else none)
  if peek b':' (ws rest) then some (ws (drop 1 (ws rest))) else none

-- `value`, and the loops of `object` and `array`. Each call behind the first reads a byte or goes
-- from a bracket to its loop.
unfoldable pub check : ℕ → Task → Bytes → Option Bytes
check zero _ s = none
check (suc n) (value d) [] = none
check (suc n) (value d) (c ∷ s) = elim (ltb 256 d) [
  | true ↦ none
  | false ↦ elim (lead_of c) [
    | an_object ↦ elim (peek b'}' (ws s)) [
      | true ↦ some (drop 1 (ws s))
      | false ↦ check n (members (d + 1)) (ws s)
    ]
    | an_array ↦ elim (peek b']' (ws s)) [
      | true ↦ some (drop 1 (ws s))
      | false ↦ check n (elements (d + 1)) (ws s)
    ]
    | a_string ↦ string_from between s
    | a_true ↦ lit "true" (c ∷ s)
    | a_false ↦ lit "false" (c ∷ s)
    | a_null ↦ lit "null" (c ∷ s)
    | a_number ↦ number (c ∷ s)
  ]
]
check (suc n) (members d) s = do
  named ← member_name (ws s)
  read ← check n (value d) named
  elim (peek b',' (ws read)) [
    | true ↦ check n (members d) (drop 1 (ws read))
    | false ↦ if peek b'}' (ws read) then some (drop 1 (ws read)) else none
  ]
check (suc n) (elements d) s = do
  read ← check n (value d) (ws s)
  elim (peek b',' (ws read)) [
    | true ↦ check n (elements d) (drop 1 (ws read))
    | false ↦ if peek b']' (ws read) then some (drop 1 (ws read)) else none
  ]

-- `run`; two calls for each byte are enough.
unfoldable pub json_validate : Bytes → Bool
unfolding check
json_validate text = elim (check (suc (2 * length text + 1)) (value 0) (ws text)) [
  | none ↦ false
  | some rest ↦ elim (ws rest) [ [] ↦ true | _ ∷ _ ↦ false ]
]
