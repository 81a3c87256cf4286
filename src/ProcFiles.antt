-- ===== src/ProcFiles.antt =====
-- platform/linux/proc.cpp: small files and links of /proc. strtol(3) is the parameter `strtol`, which
-- reads the number that a text starts with, if there is one.
use vhdp.Base.{
  ◌*◌, ℕ, ◌-◌, Bool, true, ◌&&◌, ◌||◌, List, [], ◌∷◌, ◌++◌, Option, some, none, Bytes, codes,
  if◌then◌else◌, length, leb, ◌==◌, is_empty, starts_with, drop, take,
}
use vhdp.Base.Decimal.{to_string}
use vhdp.Resolver.Kernel.{Reply, ok, err}
use vhdp.Exec.Calls.{Chunk, interrupted, broken, bytes, System}

-- The loop of `read_small_file`, with what has been read so far.
unfoldable pub read_chunks : ℕ → Bytes → List Chunk → Reply Bytes
read_chunks max out [] = ok out
read_chunks max out (a ∷ chunks) = if leb max (length out) then ok out else elim a [
  | interrupted ↦ read_chunks max out chunks
  | broken e ↦ err e
  | bytes b ↦
      if is_empty b then ok out else read_chunks max (out ++ take (max - length out) b) chunks
]

-- A failure is its errno; the source wraps it in a status that no caller looks at.
unfoldable pub read_small_file : System → Bytes → ℕ → Reply Bytes
unfolding read_chunks
read_small_file s path max_bytes = elim (s.open_file path) [
  | err e ↦ err e
  | ok f ↦ read_chunks max_bytes [] f.read
]

-- The bytes up to the end of the line.
unfoldable pub line_of : Bytes → Bytes
line_of [] = []
line_of (c ∷ text) = let rest = line_of text in if c == 10 then [] else c ∷ rest

-- What follows the blanks and the tabulators at the front.
unfoldable pub skip_blanks : Bytes → Bytes
skip_blanks [] = []
skip_blanks (c ∷ text) =
    let rest = skip_blanks text in if c == b' ' || c == 9 then rest else c ∷ text

-- The loop over the lines of `proc_status_field`: whether a line starts here.
unfoldable pub find_field : Bytes → Bool → Bytes → Option Bytes
unfolding line_of skip_blanks
find_field needle at_start [] = none
find_field needle at_start (c ∷ text) =
    let rest = find_field needle (c == 10) text in
    if at_start && starts_with needle (c ∷ text)
    then some (skip_blanks (line_of (drop (length needle) (c ∷ text))))
    else rest

-- `max_bytes` of `read_small_file` where no other is given
abbrev pub small_file_max : ℕ
small_file_max = 64 * 1024

unfoldable pub proc_status_field : System → ℕ → Bytes → Option Bytes
unfolding read_small_file find_field
proc_status_field s pid key =
    let path : Bytes =
      if pid == 0
      then codes "/proc/self/status"
      else codes "/proc/" ++ (to_string pid ++ codes "/status") in
    elim (read_small_file s path small_file_max) [
      | err e ↦ none
      | ok text ↦ find_field (key ++ b':' ∷ []) true text
    ]
