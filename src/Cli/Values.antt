-- ===== src/Cli/Values.antt =====
-- The values of options: `parse_u32`, `parse_timeout`, `one_of`, `parse_bind` and `split_inline` of
-- cli/cli_args.cpp. An error is its message.
use vhdp.Base.{
  ℕ, zero, suc, ◌+◌, ◌-◌, ◌*◌, ◌^◌, Bool, true, false, ◌&&◌, ◌||◌, not, List, [], ◌∷◌, ◌++◌, Option,
  some, none, Bytes, codes, eq_bytes, if◌then◌else◌, length, ltb, leb, ◌==◌, is_empty,
}
use vhdp.Path.{is_absolute}
use vhdp.Strings.{is_digit, split}

-- A result, or the message of a `ParseError`.
pub data Result {ℓ} (A : Type ℓ) : Type ℓ where
  ok : A → Result A
  error : Bytes → Result A

infixl 5 ◌>>=◌
abbrev pub ◌>>=◌ {ℓ κ} : {A : Type ℓ} {B : Type κ} → Result A → (A → Result B) → Result B
ok a >>= f = f a
error m >>= f = error m

-- `kMaxTimeoutMs`
abbrev pub max_timeout_ms : ℕ
max_timeout_ms = 366 * 24 * 3600 * 1000

-- The value of a text of digits behind `v`; `none` at another byte.
unfoldable pub digits : ℕ → Bytes → Option ℕ
digits v [] = some v
digits v (c ∷ s) = let rest = digits (v * 10 + (c - b'0')) s in if is_digit c then rest else none

unfoldable pub parse_u32 : Bytes → Option ℕ
unfolding digits
parse_u32 s =
    if is_empty s || ltb 10 (length s)
    then none
    else elim (digits 0 s) [ none ↦ none | some v ↦ if leb (2 ^ 32 - 1) v then none else some v ]

-- `find` of a byte: what stands in front of the first one and behind it, if there is one.
unfoldable pub cut : ℕ → Bytes → Bytes × Option Bytes
cut sep [] = ([], none)
cut sep (c ∷ s) =
    let (front, behind) = cut sep s in if c == sep then ([], some s) else (c ∷ front, behind)

-- The loop over three digits of the fraction, those that are missing counting as zeros.
unfoldable pub fraction : ℕ → ℕ → Bytes → Option ℕ
fraction zero f s = some f
fraction (suc left) f [] = fraction left (f * 10) []
fraction (suc left) f (c ∷ s) =
    let rest = fraction left (f * 10 + (c - b'0')) s in if is_digit c then rest else none

unfoldable pub milliseconds : Bytes → Bytes → Option ℕ
unfolding digits fraction
milliseconds whole frac = elim (digits 0 whole) [
  | none ↦ none
  | some sec ↦ elim (fraction 3 0 frac) [
    | none ↦ none
    | some f ↦
        let ms = sec * 1000 + f in if ltb 0 ms && leb ms max_timeout_ms then some ms else none
  ]
]

unfoldable pub parse_timeout : Bytes → Option ℕ
unfolding milliseconds cut
parse_timeout s =
    let (whole, behind) = cut b'.' s in
    let bad : Bool = elim behind [
      | none ↦ false
      | some frac ↦ is_empty frac || ltb 3 (length frac)
    ] in
    let frac : Bytes = elim behind [ none ↦ [] | some frac ↦ frac ] in
    if is_empty whole || ltb 8 (length whole) || bad then none else milliseconds whole frac

unfoldable pub one_of : Bytes → List Bytes → Bool
one_of v [] = false
one_of v (a ∷ allowed) = eq_bytes v a || one_of v allowed

-- `BindArg`
pub record BindArg : Type 0 where
  pub host : Bytes
  pub guest : Bytes
  pub read_write : Bool

abbrev pub bad_bind : Bytes → Bytes → Bytes
bad_bind spec why = codes "invalid --bind '" ++ (spec ++ (codes "': " ++ why))

-- The mode behind HOST:GUEST, if there is one.
unfoldable pub bind_mode : List Bytes → Result Bool
bind_mode [] = ok false
bind_mode (mode ∷ _) =
    if eq_bytes mode (codes "rw")
    then ok true
    else if eq_bytes mode (codes "ro")
    then ok false
    else error (codes "invalid --bind mode '" ++ (mode ++ codes "': use ro or rw"))

unfoldable pub bind_guest : Bytes → Bytes → Bytes → Bool → Result BindArg
bind_guest spec host guest rw_mode =
    if not (is_absolute guest)
    then error (bad_bind spec (codes "GUEST must be an absolute path"))
    else ok (record { host = host; guest = guest; read_write = rw_mode })

unfoldable pub bind_parts : Bytes → List Bytes → Result BindArg
unfolding bind_mode
bind_parts spec (host ∷ guest ∷ modes) =
    if ltb 1 (length modes)
    then error (
        bad_bind spec
          (codes "expected HOST:GUEST[:ro|rw] (paths containing ':' are not supported)"))
    else if is_empty host || is_empty guest
    then error (bad_bind spec (codes "HOST and GUEST must not be empty"))
    else do rw_mode ← bind_mode modes; bind_guest spec host guest rw_mode
bind_parts spec _ =
    error
      (bad_bind spec (codes "expected HOST:GUEST[:ro|rw] (paths containing ':' are not supported)"))

unfoldable pub parse_bind : Bytes → Result BindArg
unfolding bind_parts
parse_bind spec = bind_parts spec (split spec b':')

-- `split_inline`: the name, and the value behind the first "=".
unfoldable pub split_inline : Bytes → Bytes × Option Bytes
unfolding cut
split_inline token = cut b'=' token
