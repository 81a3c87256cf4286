-- ===== src/Strings.antt =====
-- common/strings.cpp: numbers read from text, and `split`. A `std::optional` is an `Option`.
pub mod Numbers
pub mod Split
use vhdp.Base.{
  ℕ, ◌+◌, ◌-◌, ◌*◌, ◌/◌, ◌^◌, Bool, true, false, ◌&&◌, ◌||◌, not, List, [], ◌∷◌, ◌++◌, Option, some,
  none, Bytes, if◌then◌else◌, length, ltb, leb, ◌==◌, is_empty, has_byte,
}
use vhdp.Base.Int.{ℤ, pos, negsuc}

-- The largest `std::uint64_t`, `std::uint32_t` and `std::int32_t`.
abbrev pub max_u64 : ℕ
max_u64 = 2 ^ 64 - 1

abbrev pub max_u32 : ℕ
max_u32 = 2 ^ 32 - 1

abbrev pub max_i32 : ℕ
max_i32 = 2 ^ 31 - 1

abbrev pub is_digit : ℕ → Bool
is_digit c = leb b'0' c && leb c b'9'

-- The loop of `parse_u64`, with the value read so far.
unfoldable pub digits_u64 : ℕ → Bytes → Option ℕ
digits_u64 v [] = some v
digits_u64 v (c ∷ s) =
    let d = c - b'0' in
    let rest = digits_u64 (v * 10 + d) s in
    if not (is_digit c) then none else if ltb ((max_u64 - d) / 10) v then none else rest

unfoldable pub parse_u64 : Bytes → Option ℕ
unfolding digits_u64
parse_u64 s = if is_empty s || ltb 20 (length s) then none else digits_u64 0 s

unfoldable pub parse_u32 : Bytes → Option ℕ
unfolding parse_u64
parse_u32 s = elim (parse_u64 s) [ none ↦ none | some v ↦ if ltb max_u32 v then none else some v ]

-- `-v`, as a signed number.
abbrev pub negate : ℕ → ℤ
negate v = if v == 0 then pos 0 else negsuc (v - 1)

-- `parse_i32` behind its sign.
unfoldable pub signed : Bool → Bytes → Option ℤ
unfolding parse_u64
signed neg s = elim (parse_u64 s) [
  | none ↦ none
  | some v ↦
      if ltb (max_i32 + (if neg then 1 else 0)) v
      then none
      else some (if neg then negate v else pos v)
]

unfoldable pub parse_i32 : Bytes → Option ℤ
unfolding signed
parse_i32 [] = signed false []
parse_i32 (c ∷ s) = if c == b'-' then signed true s else signed false (c ∷ s)

-- The loop of `split`, with the bytes read since the last separator.
unfoldable pub split_from : ℕ → Bytes → Bytes → List Bytes
split_from sep read [] = read ∷ []
split_from sep read (c ∷ s) =
    let rest = split_from sep (if c == sep then [] else read ++ c ∷ []) s in
    if c == sep then read ∷ rest else rest

unfoldable pub split : Bytes → ℕ → List Bytes
unfolding split_from
split s sep = split_from sep [] s

unfoldable pub contains_nul : Bytes → Bool
unfolding has_byte
contains_nul s = has_byte 0 s
