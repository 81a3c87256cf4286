-- ===== src/Tests/Links.antt =====
-- A file system in which one file cannot be moved and nothing can be removed, and a link to that file.
use vhdp.Base.{
  has_byte, ℕ, Bool, true, false, [], ◌∷◌, Option, some, none, Bytes, codes, ◌≡◌, refl, arith,
  eq_bytes, if◌then◌else◌,
}
use vhdp.Base.Decimal.{to_string}
use vhdp.Strings.{parse_u64}
use vhdp.Mounts.{Mount, root_mount}
use vhdp.Resolver.Kernel.{err, enoent, eacces}
use vhdp.LinkStore.Calls.{Calls}
use vhdp.LinkStore.Names.{Entry, record_text, parse_record}
use vhdp.LinkStore.Names.RoundTrip.{lines, parse-record_text}
use vhdp.LinkStore.{store_of, object_path, record_path}
use vhdp.LinkStore.Store.{State, eexist, temporary_path}
use vhdp.LinkStore.Store.Laws.{Tree, put, Laws}

abbrev twice : Entry
twice = record { count = 2; names = codes "/srv/a" ∷ codes "/srv/b" ∷ [] }

parse-record_text_example : parse_record parse_u64 (record_text twice) ≡ twice
unfolding parse_u64 to_string has_byte lines
parse-record_text_example =
    parse-record_text parse_u64 twice refl (omega arith) (omega arith)
      (
        record { not_empty = refl; one_line = refl },
        (record { not_empty = refl; one_line = refl }, tt),
      )
      (omega arith)

data Node : Type 0 where
  file folder : Node
  link : Bytes → Node

abbrev is_folder : Node → Bool
is_folder folder = true
is_folder _ = false

-- The file that cannot be moved.
abbrev fixed : Bytes
fixed = codes "/srv/a"

-- A call that makes something at a path where nothing is.
abbrev make : Tree Node → Bytes → Node → Option ℕ × Tree Node
make fs p n = elim (fs p) [ some _ ↦ (some eexist, fs) | none ↦ (none, put p (some n) fs) ]

abbrev move : Tree Node → Bytes → Bytes → Option ℕ × Tree Node
move fs a b =
    if eq_bytes a fixed
    then (some eacces, fs)
    else elim (fs a) [ none ↦ (some enoent, fs) | some n ↦ (none, put b (some n) (put a none fs)) ]

abbrev calls : Calls (Tree Node)
calls = record {
  symlink = λ fs t p. make fs p (link t);
  unlink = λ fs p. (some eacces, fs);
  rename = move;
  mkdir = λ fs p. make fs p folder;
  lock = λ fs p. put p (some file) fs;
  readlink = λ fs p. err enoent;
  lstat = λ fs p. err enoent;
  readdir = λ fs p. [];
  mkostemp = λ fs p. (none, fs);
  hard_link = λ fs a b. (some eacces, fs);
  strtoul = parse_u64;
}

abbrev start : State (Tree Node)
start = record {
  fs = put fixed (some file) (put (codes "/srv") (some folder) (λ _. none));
  counter = 0;
  stores_checked = 0;
  stores_present = false;
  objects = [];
  by_path = [];
}

abbrev mount : Mount
mount = root_mount (codes "/srv") false

abbrev id : Bytes
id = codes "0123456789abcdef0123456789abcdef"

abbrev new_name : Bytes
new_name = codes "/srv/b"

abbrev object : Bytes
object = object_path (store_of mount) id

abbrev final_path : Bytes
final_path = record_path (store_of mount) id

abbrev tmp : Bytes
tmp = temporary_path calls 7 1 final_path
