-- ===== src/Strings/Numbers.antt =====
-- `parse_u64` and `parse_u32` against the value that a numeral stands for.
use vhdp.Base.{
  ℕ, ◌+◌, ◌-◌, ◌*◌, ◌^◌, ◌≤◌, Bool, true, ◌&&◌, [], ◌∷◌, some, none, Bytes, if◌then◌else◌, length,
  ltb, leb, ◌≡◌, refl, arith,
}
use vhdp.Strings.{is_digit, digits_u64, parse_u64, max_u64}

-- The number that digits written behind `v` make.
unfoldable pub value_from : ℕ → Bytes → ℕ
value_from v [] = v
value_from v (c ∷ s) = value_from (v * 10 + (c - b'0')) s

unfoldable pub all_digits : Bytes → Bool
all_digits [] = true
all_digits (c ∷ s) = is_digit c && all_digits s

value_from-le : (v : ℕ) (s : Bytes) → v ≤ value_from v s
unfolding value_from
value_from-le v [] = omega arith
value_from-le v (c ∷ s) = omega (arith, value_from-le (v * 10 + (c - b'0')) s)

digits_u64_exact :
    (v : ℕ) (s : Bytes)
    → v ≤ max_u64
    → digits_u64 v s
      ≡ (if all_digits s && leb (value_from v s) max_u64 then some (value_from v s) else none)
unfolding digits_u64 value_from all_digits
digits_u64_exact v [] h = ground arith
digits_u64_exact v (c ∷ s) h =
    ground (arith, digits_u64_exact (v * 10 + (c - b'0')) s, value_from-le (v * 10 + (c - b'0')) s)

-- `parse_u64` accepts exactly the numerals of 1 to 20 decimal digits whose value is below 2 ^ 64,
-- and returns that value: the overflow test in front of each multiplication refuses no number that
-- fits and lets none through that does not.
pub parse_u64_exact :
    (s : Bytes)
    → parse_u64 s ≡ (
        if leb 1 (length s) && leb (length s) 20 && all_digits s && ltb (value_from 0 s) (2 ^ 64)
        then some (value_from 0 s)
        else none)
unfolding parse_u64
parse_u64_exact [] = refl
parse_u64_exact (c ∷ s) = ground (arith, digits_u64_exact 0 (c ∷ s))
