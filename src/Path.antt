-- ===== src/Path.antt =====
-- vfs/guest_path.hpp and .cpp: lexical operations on paths. A component is a slice of its path in
-- the source and a byte string here.
pub mod Components
pub mod Normalize
pub mod Below
use vhdp.Base.{
  ℕ, ◌+◌, Bool, true, false, not, ◌&&◌, ◌||◌, List, [], ◌∷◌, ◌++◌, Option, some, none, Bytes, codes,
  eq_bytes, ◌==◌, if◌then◌else◌, is_empty, length, ltb, take, drop, last?, pop_back, get_elem?,
}

abbrev pub slash : ℕ
slash = b'/'

-- `kPathMax`, including the terminating NUL
abbrev pub path_max : ℕ
path_max = 4096

-- "." and ".."
abbrev pub dot : Bytes
dot = b'.' ∷ []

abbrev pub dotdot : Bytes
dotdot = b'.' ∷ b'.' ∷ []

-- "/"
abbrev pub root : Bytes
root = slash ∷ []

unfoldable pub is_absolute : Bytes → Bool
is_absolute [] = false
is_absolute (c ∷ _) = c == slash

-- What `components` pushes for the bytes between two slashes.
unfoldable pub emit : Bytes → List Bytes
emit c = if is_empty c || eq_bytes c dot then [] else c ∷ []

-- The loop of `components`, with the bytes of the component that is being read.
unfoldable pub scan : Bytes → Bytes → List Bytes
unfolding emit
scan read [] = emit read
scan read (c ∷ cs) =
    (if c == slash then emit read else []) ++ scan (if c == slash then [] else read ++ c ∷ []) cs

unfoldable pub components : Bytes → List Bytes
unfolding scan
components = scan []

unfoldable pub any_dotdot : List Bytes → Bool
any_dotdot [] = false
any_dotdot (c ∷ cs) = eq_bytes c dotdot || any_dotdot cs

unfoldable pub has_dotdot : Bytes → Bool
unfolding components any_dotdot
has_dotdot p = any_dotdot (components p)

-- The components behind slashes, and `build` of vfs/resolver.cpp, which `normalize_lexical` has
-- inline.
unfoldable pub concat_slashed : List Bytes → Bytes
concat_slashed [] = []
concat_slashed (c ∷ cs) = slash ∷ (c ++ concat_slashed cs)

unfoldable pub build : List Bytes → Bytes
unfolding concat_slashed
build [] = root
build (c ∷ cs) = concat_slashed (c ∷ cs)

-- The loop of `normalize_lexical` over the components, with its stack, bottom first.
unfoldable pub apply_dotdots : List Bytes → List Bytes → List Bytes
apply_dotdots stack [] = stack
apply_dotdots stack (c ∷ cs) =
    apply_dotdots (if eq_bytes c dotdot then pop_back stack else stack ++ c ∷ []) cs

unfoldable pub normalize_lexical : Bytes → Bytes
unfolding components apply_dotdots build
normalize_lexical abs = build (apply_dotdots [] (components abs))

-- Whether the last byte of `s` is a slash; false for an empty string.
unfoldable pub ends_in_slash : Bytes → Bool
ends_in_slash s = elim (last? s) [ none ↦ false | some c ↦ c == slash ]

unfoldable pub join : Bytes → Bytes → Bytes
unfolding is_absolute ends_in_slash
join base rel =
    if is_absolute rel then rel else if ends_in_slash base then base ++ rel else base ++ slash ∷ rel

-- `path[n] == '/'`
abbrev pub slash_at : Bytes → ℕ → Bool
slash_at path n = elim (get_elem? path n) [ none ↦ false | some c ↦ c == slash ]

unfoldable pub is_below : Bytes → Bytes → Bool
unfolding is_absolute
is_below path prefix =
    if eq_bytes prefix root
    then is_absolute path
    else if ltb (length path) (length prefix) || not (eq_bytes (take (length prefix) path) prefix)
    then false
    else length path == length prefix || slash_at path (length prefix)

unfoldable pub suffix_after : Bytes → Bytes → Bytes
suffix_after path prefix =
    if eq_bytes prefix root
    then (if eq_bytes path root then [] else path)
    else drop (length prefix) path
