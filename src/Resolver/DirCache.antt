-- ===== src/Resolver/DirCache.antt =====
-- `DirCache` of vfs/resolver.hpp: the unordered map is an association list.
use vhdp.Base.{ℕ, List, [], ◌∷◌, Option, some, none, Bytes, eq_bytes, if◌then◌else◌, length, leb}
use vhdp.Resolver.Kernel.{Stat}

-- `DirCache::Entry`
pub record Entry : Type 0 where
  pub host : Bytes
  pub dev : ℕ
  pub ino : ℕ

abbrev pub Cache : Type 0
Cache = List (Bytes × Entry)

-- `kMaxEntries`
abbrev pub max_entries : ℕ
max_entries = 8192

unfoldable pub find : Cache → Bytes → Option Entry
find [] guest = none
find ((g, e) ∷ c) guest = if eq_bytes g guest then some e else find c guest

-- `erase`
unfoldable pub drop_entry : Cache → Bytes → Cache
drop_entry [] guest = []
drop_entry ((g, e) ∷ c) guest =
    let rest = drop_entry c guest in if eq_bytes g guest then rest else (g, e) ∷ rest

-- The entry of `guest`, which is there, gets a new device and inode.
unfoldable pub update : Cache → Bytes → Stat → Cache
update [] guest st = []
update ((g, e) ∷ c) guest st =
    (if eq_bytes g guest then (g, record e { dev = st.dev; ino = st.ino }) else (g, e))
    ∷ update c guest st

unfoldable pub put : Cache → Bytes → Bytes → Stat → Cache
unfolding find update
put c guest host st = elim (find c guest) [
  | some e ↦ update c guest st
  | none ↦
      (guest, record { host = host; dev = st.dev; ino = st.ino })
      ∷ (if leb max_entries (length c) then [] else c)
]
