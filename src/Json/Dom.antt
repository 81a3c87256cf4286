-- ===== src/Json/Dom.antt =====
-- cli/json_dom.cpp: the reader of JSON texts that phdp uses, and `quote`. A function that moves
-- `pos_` returns what is left of the text, or `none` where it fails. The type of the numbers and
-- `strtod` are parameters: `strtod` reads a whole text, or fails.
pub mod Quote
pub mod Escape
use vhdp.Base.{
  ◌>>=◌, ℕ, zero, suc, ◌+◌, ◌-◌, ◌*◌, ◌/◌, ◌%◌, Bool, true, false, ◌&&◌, ◌||◌, not, List, [], ◌∷◌,
  ◌++◌, Option, some, none, String, Bytes, codes, starts_with, eq_bytes, if◌then◌else◌, is_empty,
  drop, length, ltb, leb, ◌==◌,
}
use vhdp.Strings.{is_digit}
use vhdp.Json.{hex_digit}
use vhdp.Json.Validator.{peek, ws, lit}

-- `Value`, with its vectors as lists of their own.
mutual
  pub data Value (N : Type 0) : Type 0 where
    null : Value N
    boolean : Bool → Value N
    number : N → Value N
    string : Bytes → Value N
    array : Items N → Value N
    object : Members N → Value N

  pub data Items (N : Type 0) : Type 0 where
    no_items : Items N
    item : Value N → Items N → Items N

  pub data Members (N : Type 0) : Type 0 where
    no_members : Members N
    member : Bytes → Value N → Members N → Members N

-- The letter behind a backslash, other than "u".
unfoldable pub unescape : ℕ → Option ℕ
unescape e =
    if e == b'"'
    then some b'"'
    else if e == b'\\'
    then some b'\\'
    else if e == b'/'
    then some b'/'
    else if e == b'b'
    then some 8
    else if e == b'f'
    then some 12
    else if e == b'n'
    then some 10
    else if e == b'r'
    then some 13
    else if e == b't'
    then some 9
    else none

unfoldable pub put_utf8 : ℕ → Bytes
put_utf8 cp =
    if ltb cp 0x80
    then cp ∷ []
    else if ltb cp 0x800
    then (0xC0 + cp / 64) ∷ (0x80 + cp % 64) ∷ []
    else if ltb cp 0x10000
    then (0xE0 + cp / 4096) ∷ (0x80 + cp / 64 % 64) ∷ (0x80 + cp % 64) ∷ []
    else (0xF0 + cp / 262144)
      ∷ (0x80 + cp / 4096 % 64)
      ∷ (0x80 + cp / 64 % 64)
      ∷ (0x80 + cp % 64)
      ∷ []

unfoldable pub hex_value : ℕ → Option ℕ
hex_value c =
    if leb b'0' c && leb c b'9'
    then some (c - b'0')
    else if leb b'a' c && leb c b'f'
    then some (c - b'a' + 10)
    else if leb b'A' c && leb c b'F'
    then some (c - b'A' + 10)
    else none

-- `hex4`: the value of the next digits, with those read so far.
unfoldable pub hex : ℕ → ℕ → Bytes → Option ℕ
hex zero v s = some v
hex (suc n) v [] = none
hex (suc n) v (c ∷ s) = elim (hex_value c) [ none ↦ none | some d ↦ hex n (v * 16 + d) s ]

-- What the loop of `string` does at one byte: the bytes that it writes, and the number of further
-- bytes that it reads.
pub data Next : Type 0 where
  closes refuses : Next
  writes : Bytes → ℕ → Next

-- A low surrogate, behind a high one and "\u".
unfoldable pub low_half : ℕ → Option ℕ → Next
unfolding put_utf8
low_half cp none = refuses
low_half cp (some lo) =
    if ltb lo 0xDC00 || ltb 0xDFFF lo
    then refuses
    else writes (put_utf8 (0x10000 + (cp - 0xD800) * 1024 + (lo - 0xDC00))) 11

-- Behind "\u".
unfoldable pub unicode : Bytes → Next
unfolding hex low_half put_utf8
unicode s = elim (hex 4 0 s) [
  | none ↦ refuses
  | some cp ↦
      if leb 0xD800 cp && leb cp 0xDBFF && starts_with (codes "\\u") (drop 4 s)
      then low_half cp (hex 4 0 (drop 6 s))
      else writes (put_utf8 cp) 5
]

-- Behind a backslash.
unfoldable pub escape_of : Bytes → Next
escape_of [] = refuses
escape_of (e ∷ s) =
    if e == b'u'
    then unicode s
    else elim (unescape e) [ none ↦ refuses | some x ↦ writes (x ∷ []) 1 ]

unfoldable pub next : ℕ → Bytes → Next
unfolding escape_of
next c s =
    if c == b'"'
    then closes
    else if ltb c 0x20
    then refuses
    else if c == b'\\'
    then escape_of s
    else writes (c ∷ []) 0

abbrev pub prepend : Bytes → Option (Bytes × Bytes) → Option (Bytes × Bytes)
prepend out none = none
prepend out (some (read, rest)) = some (out ++ read, rest)

-- `string`, behind the opening quote: what it reads, and the rest. The number counts the bytes of an
-- escape that were read ahead.
unfoldable pub string_from : ℕ → Bytes → Option (Bytes × Bytes)
string_from n [] = none
string_from (suc n) (c ∷ s) = string_from n s
string_from zero (c ∷ s) = elim (next c s) [
  | closes ↦ some ([], s)
  | refuses ↦ none
  | writes out n ↦ prepend out (string_from n s)
]

unfoldable pub in_number : ℕ → Bool
in_number c = c == b'-' || c == b'+' || c == b'.' || c == b'e' || c == b'E' || is_digit c

-- The longest prefix of such bytes, and the rest.
unfoldable pub span_number : Bytes → Bytes × Bytes
span_number [] = ([], [])
span_number (c ∷ s) =
    let (front, rest) = span_number s in if in_number c then (c ∷ front, rest) else ([], c ∷ s)

-- What is read next: a value, or the members or elements behind a bracket, with their depth.
pub data Task : Type 0 where
  value members elements : ℕ → Task

-- What a task reads.
abbrev pub Read : Type 0 → Task → Type 0
Read N (value d) = Value N
Read N (members d) = Members N
Read N (elements d) = Items N

-- The name of a member, with the colon behind it.
unfoldable pub member_name : Bytes → Option (Bytes × Bytes)
unfolding peek string_from ws
member_name s = do
  (name, rest) ← (if peek b'"' s then string_from 0 (drop 1 s) else none)
  if peek b':' (ws rest) then some (name, ws (drop 1 (ws rest))) else none

module _ {N : Type 0} (strtod : Bytes → Option N) where
  unfoldable pub number_of : Bytes → Option (Value N × Bytes)
  unfolding span_number
  number_of s =
      let (text, rest) = span_number s in
      if is_empty text
      then none
      else elim (strtod text) [ none ↦ none | some v ↦ some (number v, rest) ]

  -- A value that is no object, array or string.
  unfoldable pub literal : Bytes → Option (Value N × Bytes)
  unfolding lit number_of
  literal s = elim (lit "true" s) [
    | some rest ↦ some (boolean true, rest)
    | none ↦ elim (lit "false" s) [
      | some rest ↦ some (boolean false, rest)
      | none ↦ elim (lit "null" s) [ some rest ↦ some (null, rest) | none ↦ number_of s ]
    ]
  ]

  -- `value`, and the loops of `object` and `array`; none of them but the first at the end of the text
  -- or beyond the depth. Each call reads a byte or goes from a bracket to its loop.
  unfoldable pub read : ℕ → (t : Task) → Bytes → Option (Read N t × Bytes)
  unfolding peek ws string_from literal member_name
  read zero _ s = none
  read (suc n) (value d) [] = none
  read (suc n) (value d) (c ∷ s) = elim (ltb 128 d) [
    | true ↦ none
    | false ↦ elim (c == b'{') [
      | true ↦ elim (peek b'}' (ws s)) [
        | true ↦ some (object no_members, drop 1 (ws s))
        | false ↦ do (ms, rest) ← read n (members (d + 1)) (ws s); some (object ms, rest)
      ]
      | false ↦ elim (c == b'[') [
        | true ↦ elim (peek b']' (ws s)) [
          | true ↦ some (array no_items, drop 1 (ws s))
          | false ↦ do (vs, rest) ← read n (elements (d + 1)) (ws s); some (array vs, rest)
        ]
        | false ↦ elim (c == b'"') [
          | true ↦ do (text, rest) ← string_from 0 s; some (string text, rest)
          | false ↦ literal (c ∷ s)
        ]
      ]
    ]
  ]
  read (suc n) (members d) s = do
    (name, named) ← member_name (ws s)
    (v, rest) ← read n (value d) named
    elim (peek b',' (ws rest)) [
      | true ↦ do
        (ms, rest') ← read n (members d) (drop 1 (ws rest))
        some (member name v ms, rest')
      | false ↦
          if peek b'}' (ws rest) then some (member name v no_members, drop 1 (ws rest)) else none
    ]
  read (suc n) (elements d) s = do
    (v, rest) ← read n (value d) (ws s)
    elim (peek b',' (ws rest)) [
      | true ↦ do (vs, rest') ← read n (elements d) (drop 1 (ws rest)); some (item v vs, rest')
      | false ↦ if peek b']' (ws rest) then some (item v no_items, drop 1 (ws rest)) else none
    ]

  -- Two calls for each byte are enough.
  unfoldable pub parse : Bytes → Option (Value N)
  unfolding read ws
  parse text = do
    (v, rest) ← read (suc (2 * length text + 1)) (value 0) (ws text)
    if is_empty (ws rest) then some v else none

-- `Value::get`, on the members of an object.
unfoldable pub get_member : {N : Type 0} → Members N → Bytes → Option (Value N)
unfolding eq_bytes
get_member no_members key = none
get_member (member name v ms) key =
    let rest = get_member ms key in if eq_bytes name key then some v else rest

unfoldable pub get : {N : Type 0} → Value N → Bytes → Option (Value N)
unfolding get_member
get (object ms) key = get_member ms key
get _ key = none

unfoldable pub str : {N : Type 0} → Value N → Bytes → Bytes → Bytes
unfolding get
str v key fallback = elim (get v key) [ some (string s) ↦ s | _ ↦ fallback ]

unfoldable pub flag : {N : Type 0} → Value N → Bytes → Bool → Bool
unfolding get
flag v key fallback = elim (get v key) [ some (boolean b) ↦ b | _ ↦ fallback ]

unfoldable pub num : {N : Type 0} → Value N → Bytes → N → N
unfolding get
num v key fallback = elim (get v key) [ some (number n) ↦ n | _ ↦ fallback ]

-- What `quote` writes for one byte.
unfoldable pub quote_byte : ℕ → Bytes
unfolding hex_digit
quote_byte c =
    if c == b'"'
    then codes "\\\""
    else if c == b'\\'
    then codes "\\\\"
    else if c == 10
    then codes "\\n"
    else if c == 13
    then codes "\\r"
    else if c == 9
    then codes "\\t"
    else if ltb c 0x20
    then codes "\\u00" ++ hex_digit (c / 16) ∷ hex_digit (c % 16) ∷ []
    else c ∷ []

unfoldable pub quote_bytes : Bytes → Bytes
unfolding quote_byte
quote_bytes [] = []
quote_bytes (c ∷ s) = quote_byte c ++ quote_bytes s

unfoldable pub quote : Bytes → Bytes
unfolding quote_bytes
quote s = b'"' ∷ quote_bytes s ++ b'"' ∷ []
