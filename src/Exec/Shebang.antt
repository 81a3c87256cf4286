-- ===== src/Exec/Shebang.antt =====
-- `parse_shebang` of engines/rootless/exec_resolver.cpp. The result is the interpreter with its
-- argument, if it has one, where the code answers true.
pub mod Line
use vhdp.Base.{
  ℕ, ◌==◌, ◌||◌, not, ◌&&◌, Bool, true, false, [], ◌∷◌, Option, some, none, Bytes, codes, drop,
  length, is_empty, starts_with, if◌then◌else◌,
}

abbrev pub newline : ℕ
newline = 10

-- `is_space`
abbrev pub is_space : ℕ → Bool
is_space c = c == b' ' || c == 9

-- What is trimmed at the end of the argument.
abbrev pub is_trimmed : ℕ → Bool
is_trimmed c = is_space c || c == 13

-- The bytes in front of the first one that fails a test, and those from there on.
unfoldable pub take_while : (ℕ → Bool) → Bytes → Bytes
take_while p [] = []
take_while p (c ∷ s) = let rest = take_while p s in if p c then c ∷ rest else []

unfoldable pub drop_while : (ℕ → Bool) → Bytes → Bytes
drop_while p [] = []
drop_while p (c ∷ s) = let rest = drop_while p s in if p c then rest else c ∷ s

-- A text less the bytes at its end that pass a test.
unfoldable pub trim_end : (ℕ → Bool) → Bytes → Bytes
trim_end p [] = []
trim_end p (c ∷ s) = let rest = trim_end p s in if is_empty rest && p c then [] else c ∷ rest

abbrev pub in_line : ℕ → Bool
in_line c = not (c == newline)

abbrev pub in_interp : ℕ → Bool
in_interp c = not (is_space c) && not (c == 0)

abbrev pub is_not_nul : ℕ → Bool
is_not_nul c = not (c == 0)

-- The argument in what stands behind the interpreter.
unfoldable pub shebang_arg : Bytes → Option Bytes
unfolding take_while drop_while trim_end
shebang_arg s =
    let arg = take_while is_not_nul (trim_end is_trimmed (drop_while is_space s)) in
    if is_empty arg then none else some arg

unfoldable pub parse_shebang : Bytes → Option (Bytes × Option Bytes)
unfolding shebang_arg
parse_shebang buf =
    let trimmed = drop_while is_space (take_while in_line (drop 2 buf)) in
    let interp = take_while in_interp trimmed in
    if not (starts_with (codes "#!") buf) || is_empty interp
    then none
    else some (interp, shebang_arg (drop (length interp) trimmed))
