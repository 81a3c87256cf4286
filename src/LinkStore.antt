-- ===== src/LinkStore.antt =====
-- engines/rootless/link_store.hpp and .cpp: the emulation of hard links. The operations that touch
-- the file system are in Store.
pub mod Calls
pub mod Names
pub mod Store
pub mod Release
pub mod Scan
use vhdp.Base.{
  ℕ, suc, ◌+◌, ◌-◌, Bool, true, false, List, [], ◌∷◌, ◌++◌, Bytes, codes, if◌then◌else◌, length,
}
use vhdp.Path.{slash, is_below, suffix_after, components}
use vhdp.Mounts.{Mount}
use vhdp.LinkMarker.{link_store_dir, link_store_path}

unfoldable pub store_of : Mount → Bytes
unfolding link_store_path
store_of m = link_store_path m.host

-- "../" for each component behind the first.
unfoldable pub climb : List Bytes → Bytes
climb [] = []
climb (p ∷ []) = []
climb (p ∷ q ∷ ps) = codes "../" ++ climb (q ∷ ps)

unfoldable pub target_for : Mount → Bytes → Bytes → Bytes
unfolding climb store_of is_below suffix_after components
target_for m name id =
    let rel : Bytes =
      if is_below name m.host
      then climb (components (suffix_after name m.host)) ++ link_store_dir
      else store_of m in
    rel ++ slash ∷ id

-- The path of an object, of its record and of a record that is being written.
unfoldable pub object_path : Bytes → Bytes → Bytes
object_path store id = store ++ slash ∷ id

unfoldable pub record_path : Bytes → Bytes → Bytes
unfolding object_path
record_path store id = object_path store id ++ codes ".n"
