-- ===== src/LinkStore/Store.antt =====
-- The operations of engines/rootless/link_store.cpp. Each one takes the system calls, the process id
-- and, where it makes an object, the random id.
pub mod Laws
pub mod Refused
use vhdp.Base.{
  ◌%◌, ◌^◌, ℕ, suc, ◌+◌, ◌-◌, Bool, true, false, ◌&&◌, ◌||◌, not, List, [], ◌∷◌, ◌++◌, Option, some,
  none, Bytes, codes, length, ltb, leb, ◌==◌, eq_bytes, if◌then◌else◌,
}
use vhdp.Base.Decimal.{to_string}
use vhdp.Resolver.Kernel.{Reply, ok, err, enoent, enametoolong}
use vhdp.Mounts.{Mount, MountTable, mounts, Kind, rootfs, bind}
use vhdp.LinkMarker.{link_target_id, is_link_id}
use vhdp.LinkStore.Calls.{Calls, Key}
use vhdp.LinkStore.Names.{
  Entry, new_entry, record_max, record_text, parse_record, remove_name, replace_name, with_name,
}
use vhdp.LinkStore.{store_of, target_for, object_path, record_path}

-- `EEXIST`
abbrev pub eexist : ℕ
eexist = 17

-- `EPERM`
abbrev pub eperm : ℕ
eperm = 1

-- `Object`
pub record Object : Type 0 where
  pub store : Bytes
  pub id : Bytes

-- The members, the counter of names and the file system; times are in nanoseconds. In a map the first entry of a key counts.
pub record State (F : Type 0) : Type 0 where
  pub fs : F
  pub counter : ℕ
  pub objects : List (Key × Object)
  pub by_path : List (Bytes × Key)
  pub stores_checked : ℕ
  pub stores_present : Bool

abbrev pub same_key : Key → Key → Bool
same_key a b = a.0 == b.0 && a.1 == b.1

unfoldable pub find_object : List (Key × Object) → Key → Option Object
find_object [] key = none
find_object (e ∷ rest) key =
    let found = find_object rest key in if same_key e.0 key then some e.1 else found

unfoldable pub erase_object : List (Key × Object) → Key → List (Key × Object)
erase_object [] key = []
erase_object (e ∷ rest) key =
    let kept = erase_object rest key in if same_key e.0 key then kept else e ∷ kept

unfoldable pub find_path : List (Bytes × Key) → Bytes → Option Key
unfolding eq_bytes
find_path [] path = none
find_path (e ∷ rest) path =
    let found = find_path rest path in if eq_bytes e.0 path then some e.1 else found

unfoldable pub erase_path : List (Bytes × Key) → Bytes → List (Bytes × Key)
unfolding eq_bytes
erase_path [] path = []
erase_path (e ∷ rest) path =
    let kept = erase_path rest path in if eq_bytes e.0 path then kept else e ∷ kept

module _ {F : Type 0} (k : Calls F) (pid : ℕ) where
  -- `read_link`: a target that fills the buffer is refused.
  unfoldable pub read_link : F → Bytes → Reply Bytes
  read_link fs path = elim (k.readlink fs path) [
    | err e ↦ err e
    | ok s ↦ if leb (record_max + 1) (length s) then err enametoolong else ok s
  ]

  unfoldable pub entry_id : F → Bytes → Bytes
  unfolding read_link
  entry_id fs name = elim (read_link fs name) [ err e ↦ [] | ok target ↦ link_target_id target ]

  unfoldable pub read_record : F → Bytes → Bytes → Option Entry
  unfolding read_link
  read_record fs store id = elim (read_link fs (record_path store id)) [
    | err e ↦ none
    | ok raw ↦ some (parse_record k.strtoul raw)
  ]

  -- The name that a record has until it is renamed.
  unfoldable pub temporary_path : ℕ → Bytes → Bytes
  temporary_path counter final_path =
      final_path ++ codes "." ++ to_string pid ++ codes "." ++ to_string counter

  unfoldable pub write_record : State F → Bytes → Bytes → Entry → Option ℕ × State F
  unfolding temporary_path
  write_record s store id e =
      let final_path = record_path store id in
      let counter = suc s.counter in
      let tmp = temporary_path counter final_path in
      let (e1, fs1) = k.symlink s.fs (record_text e) tmp in
      elim e1 [
        | some e ↦ (some e, record s { fs = fs1; counter = counter })
        | none ↦
            let (e2, fs2) = k.rename fs1 tmp final_path in
            elim e2 [
              | some e ↦ (some e, record s { fs = (k.unlink fs2 tmp).1; counter = counter })
              | none ↦ (none, record s { fs = fs2; counter = counter })
            ]
      ]

  unfoldable pub remove_record : State F → Bytes → Bytes → State F
  remove_record s store id = record s { fs = (k.unlink s.fs (record_path store id)).1 }

  unfoldable pub remember : State F → Bytes → Bytes → State F
  remember s store id = elim (k.lstat s.fs (object_path store id)) [
    | err e ↦ s
    | ok key ↦ record s {
      objects = (key, record { store = store; id = id }) ∷ s.objects;
      by_path = (object_path store id, key) ∷ s.by_path;
    }
  ]

  unfoldable pub forget : State F → Bytes → Bytes → State F
  unfolding find_path erase_object erase_path
  forget s store id = elim (find_path s.by_path (object_path store id)) [
    | none ↦ s
    | some key ↦ record s {
      objects = erase_object s.objects key;
      by_path = erase_path s.by_path (object_path store id);
    }
  ]

  unfoldable pub note_object : State F → Mount → Bytes → State F
  unfolding remember find_path
  note_object s m id = elim (find_path s.by_path (object_path (store_of m) id)) [
    | none ↦ remember s (store_of m) id
    | some key ↦ s
  ]

  unfoldable pub count_for : State F → Key → Option ℕ
  unfolding find_object read_record
  count_for s key = elim (find_object s.objects key) [
    | none ↦ none
    | some o ↦ elim (read_record s.fs o.store o.id) [ none ↦ none | some e ↦ some e.count ]
  ]

  -- `StoreLock`
  unfoldable pub lock_store : State F → Bytes → State F
  lock_store s store = record s { fs = k.lock s.fs (store ++ codes "/.lock") }

  -- `undo_new`
  abbrev pub undo_new : State F → Bytes → State F
  undo_new s new_host = record s { fs = (k.unlink s.fs new_host).1 }

  -- `link_new` with the record written: the file moves into the store.
  unfoldable pub move_object : State F → Mount → Bytes → Bytes → Bytes → Option ℕ × State F
  unfolding remember remove_record
  move_object s m id old_host new_host =
      let store = store_of m in
      let object = object_path store id in
      let (e1, fs1) = k.rename s.fs old_host object in
      elim e1 [
        | some e ↦ (some e, undo_new (remove_record (record s { fs = fs1 }) store id) new_host)
        | none ↦
            let (e2, fs2) = k.symlink fs1 (target_for m old_host id) old_host in
            elim e2 [
              | some e ↦
                  let back = (k.rename fs2 object old_host).1 in
                  (some e, undo_new (remove_record (record s { fs = back }) store id) new_host)
              | none ↦ (none, remember (record s { fs = fs2 }) store id)
            ]
      ]

  -- `link_new` with the new name made and the store there.
  unfoldable pub fill_store : State F → Mount → Bytes → Bytes → Bytes → Option ℕ × State F
  unfolding move_object lock_store write_record
  fill_store s m id old_host new_host =
      let store = store_of m in
      let (e, s1) =
        write_record (lock_store s store) store id
          (record { count = 2; names = old_host ∷ new_host ∷ [] }) in
      elim e [
        | some e ↦ (some e, undo_new s1 new_host)
        | none ↦ move_object s1 m id old_host new_host
      ]

  unfoldable pub link_new : State F → Mount → Bytes → Bytes → Bytes → Option ℕ × State F
  unfolding fill_store
  link_new s m id old_host new_host =
      let (e1, fs1) = k.symlink s.fs (target_for m new_host id) new_host in
      elim e1 [
        | some e ↦ (some e, record s { fs = fs1 })
        | none ↦
            let (e2, fs2) = k.mkdir fs1 (store_of m) in
            elim e2 [
              | none ↦ fill_store (record s { fs = fs2 }) m id old_host new_host
              | some e ↦
                  if e == eexist
                  then fill_store (record s { fs = fs2 }) m id old_host new_host
                  else (some e, undo_new (record s { fs = fs2 }) new_host)
            ]
      ]

  -- `link_existing` under the lock, with the object still there.
  unfoldable pub add_link : State F → Bytes → Bytes → Bytes → Option ℕ × State F
  unfolding read_record write_record remember
  add_link s store id new_host =
      let found : Entry = elim (read_record s.fs store id) [ none ↦ new_entry | some e ↦ e ] in
      let (e, s1) =
        write_record s store id
          (record { count = found.count + 1; names = with_name new_host found.names }) in
      elim e [ some e ↦ (some e, undo_new s1 new_host) | none ↦ (none, remember s1 store id) ]

  unfoldable pub link_existing : State F → Mount → Bytes → Bytes → Option ℕ × State F
  unfolding add_link lock_store
  link_existing s m id new_host =
      let store = store_of m in
      elim (k.lstat s.fs (object_path store id)) [
        | err e ↦ (some enoent, s)
        | ok key ↦
            let (e1, fs1) = k.symlink s.fs (target_for m new_host id) new_host in
            elim e1 [
              | some e ↦ (some e, record s { fs = fs1 })
              | none ↦
                  let s1 = lock_store (record s { fs = fs1 }) store in
                  elim (k.lstat s1.fs (object_path store id)) [
                    | err e ↦ (some enoent, undo_new s1 new_host)
                    | ok key ↦ add_link s1 store id new_host
                  ]
            ]
      ]
