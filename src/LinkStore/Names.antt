-- ===== src/LinkStore/Names.antt =====
-- The record of an object in engines/rootless/link_store.cpp: the text that its link has.
pub mod RoundTrip
use vhdp.Base.{
  ℕ, ◌+◌, Bool, true, false, ◌&&◌, ◌||◌, not, List, [], ◌∷◌, ◌++◌, Option, some, none, Bytes,
  length, ltb, ◌==◌, has_byte, is_empty, if◌then◌else◌, eq_bytes,
}
use vhdp.Base.Decimal.{to_string}

-- `Record`
pub record Entry : Type 0 where
  pub count : ℕ
  pub names : List Bytes

-- `Record{}`
abbrev pub new_entry : Entry
new_entry = record { count = 1; names = [] }

-- `kRecordMax`
abbrev pub record_max : ℕ
record_max = 4095

abbrev pub newline : ℕ
newline = 10

-- The loop of `write_record` over the names, with the text so far.
unfoldable pub add_names : Bytes → List Bytes → Bytes
unfolding has_byte
add_names body [] = body
add_names body (name ∷ names) =
    let body' : Bytes =
      if has_byte newline name || ltb record_max (length body + 1 + length name)
      then body
      else body ++ newline ∷ name in
    add_names body' names

unfoldable pub record_text : Entry → Bytes
unfolding add_names
record_text e = add_names (to_string e.count) e.names

-- What stands in front of the first newline, and the pieces behind it.
unfoldable pub pieces : Bytes → Bytes × List Bytes
pieces [] = ([], [])
pieces (c ∷ s) =
    let (first, others) = pieces s in
    if c == newline then ([], first ∷ others) else (c ∷ first, others)

unfoldable pub not_empty : List Bytes → List Bytes
not_empty [] = []
not_empty (name ∷ names) = let rest = not_empty names in if is_empty name then rest else name ∷ rest

-- The count that a text says, or that of `Record{}`.
unfoldable pub read_count : Option ℕ → ℕ
read_count none = 1
read_count (some n) = if ltb 0 n && ltb n 0x7FFFFFFF then n else 1

-- `read_record` on the text of the link.
unfoldable pub parse_record : (Bytes → Option ℕ) → Bytes → Entry
unfolding pieces not_empty read_count
parse_record strtoul raw =
    let (head, others) = pieces raw in
    record { count = read_count (strtoul head); names = not_empty others }

-- `std::remove` with `erase`, `std::replace` and `std::find` on names.
unfoldable pub remove_name : Bytes → List Bytes → List Bytes
unfolding eq_bytes
remove_name gone [] = []
remove_name gone (name ∷ names) =
    let rest = remove_name gone names in if eq_bytes name gone then rest else name ∷ rest

unfoldable pub replace_name : Bytes → Bytes → List Bytes → List Bytes
unfolding eq_bytes
replace_name from to [] = []
replace_name from to (name ∷ names) =
    (if eq_bytes name from then to else name) ∷ replace_name from to names

unfoldable pub has_name : Bytes → List Bytes → Bool
unfolding eq_bytes
has_name wanted [] = false
has_name wanted (name ∷ names) = eq_bytes name wanted || has_name wanted names

-- A name is added where it is not found.
unfoldable pub with_name : Bytes → List Bytes → List Bytes
unfolding has_name
with_name name names = if has_name name names then names else names ++ name ∷ []
