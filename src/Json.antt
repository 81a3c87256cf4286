-- ===== src/Json.antt =====
-- common/json.cpp: JSON strings. A position in a text is the list of the bytes from there on, and
-- a `char` is a number below 256, so that `(b & 0xE0) == 0xC0` is `b / 32 == 6` and `b & 0x1F` is
-- `b % 32`.
pub mod Writer
pub mod Validator
pub mod Quote
pub mod Dom
use vhdp.Base.{
  ℕ, zero, suc, ◌+◌, ◌-◌, ◌*◌, ◌/◌, ◌%◌, Bool, true, false, ◌&&◌, ◌||◌, not, List, [], ◌∷◌, ◌++◌,
  Option, some, none, Bytes, codes, if◌then◌else◌, ltb, leb, ◌==◌,
}

-- The code point behind `n` more continuation bytes, with the bits read so far.
unfoldable pub code_point : ℕ → ℕ → Bytes → Option ℕ
code_point zero cp s = some cp
code_point (suc n) cp [] = none
code_point (suc n) cp (c ∷ s) =
    let rest = code_point n (cp * 64 + c % 64) s in if c / 64 == 2 then rest else none

-- Overlong encodings, surrogates and code points that are out of range.
unfoldable pub is_refused : ℕ → ℕ → Bool
is_refused n cp =
    (n == 2 && ltb cp 0x80)
    || (n == 3 && ltb cp 0x800)
    || (n == 4 && ltb cp 0x10000)
    || ltb 0x10FFFF cp
    || (leb 0xD800 cp && leb cp 0xDFFF)

-- A sequence of `n` bytes whose first one has the bits `cp`.
unfoldable pub seq_len : ℕ → ℕ → Bytes → ℕ
seq_len n cp s = elim (code_point (n - 1) cp s) [
  | none ↦ 0
  | some cp ↦ if is_refused n cp then 0 else n
]

-- The length of the sequence at the front of a text, or 0. The code never asks at the end.
unfoldable pub utf8_seq_len : Bytes → ℕ
unfolding seq_len
utf8_seq_len [] = 0
utf8_seq_len (b ∷ s) =
    if ltb b 0x80
    then 1
    else if b / 32 == 6
    then seq_len 2 (b % 32) s
    else if b / 16 == 14
    then seq_len 3 (b % 16) s
    else if b / 8 == 30
    then seq_len 4 (b % 8) s
    else 0

-- `kHex`
unfoldable pub hex_digit : ℕ → ℕ
hex_digit n = if ltb n 10 then b'0' + n else b'a' + (n - 10)

-- The letter of a two-byte escape, if the byte has one.
unfoldable pub short_escape : ℕ → Option ℕ
short_escape c =
    if c == b'"'
    then some b'"'
    else if c == b'\\'
    then some b'\\'
    else if c == 10
    then some b'n'
    else if c == 13
    then some b'r'
    else if c == 9
    then some b't'
    else if c == 8
    then some b'b'
    else if c == 12
    then some b'f'
    else none

-- What the loop writes at one byte, and how many of the following bytes it copies with it.
unfoldable pub escape_step : ℕ → Bytes → Bytes × ℕ
escape_step c s = elim (short_escape c) [
  | some e ↦ (b'\\' ∷ e ∷ [], 0)
  | none ↦
      if ltb c 0x20
      then (codes "\\u00" ++ hex_digit (c / 16 % 16) ∷ hex_digit (c % 16) ∷ [], 0)
      else elim (utf8_seq_len (c ∷ s)) [ zero ↦ (codes "\\ufffd", 0) | suc n ↦ (c ∷ [], n) ]
]

-- The loop of `json_escape_into`; the number counts the bytes of a sequence still to be copied.
unfoldable pub escape : ℕ → Bytes → Bytes
escape _ [] = []
escape (suc n) (c ∷ s) = c ∷ escape n s
escape zero (c ∷ s) = let (text, n) = escape_step c s in text ++ escape n s

unfoldable pub json_escape_into : Bytes → Bytes → Bytes
unfolding escape
json_escape_into out s = out ++ b'"' ∷ escape 0 s ++ b'"' ∷ []

unfoldable pub json_quote : Bytes → Bytes
unfolding json_escape_into
json_quote s = json_escape_into [] s
