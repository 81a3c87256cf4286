-- ===== src/LinkStore/Store/Refused.antt =====
-- A new link that is refused, whichever call fails, those that undo the others included.
use vhdp.Base.{ℕ, suc, Bool, false, some, none, Bytes, codes, ◌++◌, eq_bytes, ◌≡◌, ◌⊎◌}
use vhdp.Mounts.{Mount}
use vhdp.LinkStore.Calls.{Calls}
use vhdp.LinkStore.{store_of, object_path, record_path}
use vhdp.LinkStore.Store.{State, temporary_path}
use vhdp.LinkStore.Store.Laws.{Tree, Laws}

abbrev pub lock_path : Bytes → Bytes
lock_path store = store ++ codes "/.lock"

-- A path that is none of these: the store, its lock file, the record, the record's temporary name and
-- the new name.
pub record Clear (store final_path tmp new p : Bytes) : Type 0 where
  pub no_store : eq_bytes p store ≡ false
  pub no_lock : eq_bytes p (lock_path store) ≡ false
  pub no_record : eq_bytes p final_path ≡ false
  pub no_tmp : eq_bytes p tmp ≡ false
  pub no_new : eq_bytes p new ≡ false

-- A path that is none of them, nor the old name, nor the object's.
pub record Away (store final_path tmp new old object p : Bytes) : Type 0 where
  pub clear : Clear store final_path tmp new p
  pub no_old : eq_bytes p old ≡ false
  pub no_object : eq_bytes p object ≡ false

-- The file `n` is at its old name; or it is at the object's path, and a call that moves it back from
-- there has failed while nothing stood at the old name.
abbrev pub IsSafe : {F N : Type 0} → Calls F → (F → Tree N) → N → Bytes → Bytes → Tree N → Type 0
IsSafe {F} k view n old object v =
    (v old ≡ some n)
    ⊎ ((v object ≡ some n)
        × (fs : F) × (e : ℕ) × (view fs object ≡ some n)
        × (view fs old ≡ none)
        × ((k.rename fs object old).0 ≡ some e))

-- At the new name there is what was there, or a call that removes it has failed.
abbrev pub IsGone : {F N : Type 0} → Calls F → Bytes → Tree N → Tree N → Type 0
IsGone {F} k new t v = (v new ≡ t new) ⊎ ((fs : F) × (e : ℕ) × ((k.unlink fs new).0 ≡ some e))

module _ {F N : Type 0} (k : Calls F) (view : F → Tree N) (link : Bytes → N) (is_dir : N → Bool)
    (laws : Laws k view link is_dir) (pid : ℕ) (s : State F) (m : Mount) (id old new : Bytes)
    (n : N)
    (old_clear : Clear
      (store_of m)
      (record_path (store_of m) id)
      (temporary_path k pid (suc s.counter) (record_path (store_of m) id))
      new
      old)
    (object_clear : Clear
      (store_of m)
      (record_path (store_of m) id)
      (temporary_path k pid (suc s.counter) (record_path (store_of m) id))
      new
      (object_path (store_of m) id))
    (apart : eq_bytes old (object_path (store_of m) id) ≡ false) (file : is_dir n ≡ false) where
  abbrev store : Bytes
  store = store_of m

  abbrev object : Bytes
  object = object_path store id

  abbrev final_path : Bytes
  final_path = record_path store id

  abbrev tmp : Bytes
  tmp = temporary_path k pid (suc s.counter) final_path

  abbrev IsClear : Bytes → Type 0
  IsClear = Clear store final_path tmp new

  abbrev IsAway : Bytes → Type 0
  IsAway = Away store final_path tmp new old object

  -- The paths that are none of the seven show what they showed at first.
  abbrev Others : Tree N → Type 0
  Others v = (p : Bytes) → IsAway p → v p ≡ view s.fs p

  -- The file is still at its old name.
  abbrev Still : Tree N → Type 0
  Still v = (v old ≡ some n) × (v object ≡ none) × Others v

  -- The file is safe.
  abbrev Kept : Tree N → Type 0
  Kept v = IsSafe k view n old object v × Others v

  -- A change at a path, or at two, that are not the file's.
  abbrev Changes : Tree N → Tree N → Type 0
  Changes v u = (p : Bytes) → IsClear p → u p ≡ v p

  -- The end of a link that is refused: the file is safe, and the new name is taken away.
  abbrev Undone : Tree N → Type 0
  Undone v = Kept v × IsGone k new (view s.fs) v
