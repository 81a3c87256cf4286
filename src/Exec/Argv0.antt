-- ===== src/Exec/Argv0.antt =====
-- `loader_supports_argv0` of engines/rootless/exec_resolver.cpp.
pub mod Scan
use vhdp.Base.{
  ◌*◌, ℕ, ◌+◌, ◌-◌, Bool, true, false, ◌&&◌, ◌||◌, List, [], ◌∷◌, ◌++◌, Option, some, none, Bytes,
  codes, if◌then◌else◌, length, leb, ltb, ◌==◌, drop, is_empty, not,
}
use vhdp.Resolver.Kernel.{Reply, ok, err}
use vhdp.Resolver.Links.{has_infix}
use vhdp.Exec.Calls.{Chunk, interrupted, broken, bytes, Key, File, System}

-- `argv0_cache_`; the first entry of a key counts.
abbrev pub Argv0Cache : Type 0
Argv0Cache = List (Key × Bool)

-- `kLoaderScanMax`
abbrev pub loader_scan_max : ℕ
loader_scan_max = 16 * 1024 * 1024

-- `kNeedle`
abbrev pub needle : Bytes
needle = codes "--argv0"

unfoldable pub same_key : Key → Key → Bool
same_key a b = a.dev == b.dev && a.ino == b.ino && a.size == b.size && a.mtime == b.mtime

unfoldable pub find_key : Argv0Cache → Key → Option Bool
unfolding same_key
find_key [] k = none
find_key (e ∷ c) k = let rest = find_key c k in if same_key e.0 k then some e.1 else rest

-- The end of a buffer that is carried over to the next read.
unfoldable pub carried : Bytes → Bytes
carried view = if leb 6 (length view) then drop (length view - 6) view else view

-- The loop, with the bytes carried over and how many have been read.
unfoldable pub scan_loader : Bytes → ℕ → List Chunk → Bool
unfolding carried
scan_loader carry total [] = false
scan_loader carry total (a ∷ chunks) = if leb loader_scan_max total then false else elim a [
  | interrupted ↦ scan_loader carry total chunks
  | broken e ↦ false
  | bytes b ↦
      let view = carry ++ b in
      let rest = scan_loader (carried view) (total + length b) chunks in
      if is_empty b then false else if has_infix needle view then true else rest
]

unfoldable pub loader_supports_argv0 : System → Bytes → Argv0Cache → Bool × Argv0Cache
unfolding find_key scan_loader
loader_supports_argv0 s host_loader c = elim (s.stat host_loader) [
  | err e ↦ (false, c)
  | ok key ↦ elim (find_key c key) [
    | some found ↦ (found, c)
    | none ↦
        let found : Bool = elim (s.open_file host_loader) [
          | err e ↦ false
          | ok f ↦ scan_loader [] 0 f.read
        ] in
        (found, (key, found) ∷ c)
  ]
]
