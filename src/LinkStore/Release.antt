-- ===== src/LinkStore/Release.antt =====
-- A name of an object that goes away or moves: engines/rootless/link_store.cpp from unlink_name on.
use vhdp.Base.{
  ℕ, ◌-◌, Bool, true, false, List, [], ◌∷◌, Option, some, none, Bytes, ◌==◌, eq_bytes,
  if◌then◌else◌,
}
use vhdp.Mounts.{Mount}
use vhdp.LinkStore.Calls.{Calls}
use vhdp.LinkStore.Names.{Entry, remove_name, replace_name, with_name}
use vhdp.LinkStore.{store_of, object_path}
use vhdp.LinkStore.Store.{
  State, entry_id, read_record, write_record, remove_record, forget, lock_store,
}

module _ {F : Type 0} (k : Calls F) (pid : ℕ) where
  -- The loop of `release` over the names that are left, when one link is left: whether the object has
  -- been moved back to one of them.
  unfoldable pub restore : F → Bytes → Bytes → List Bytes → Bool × F
  unfolding entry_id eq_bytes
  restore fs store id [] = (false, fs)
  restore fs store id (name ∷ names) = elim (eq_bytes (entry_id k pid fs name) id) [
    | false ↦ restore fs store id names
    | true ↦
        let (e, fs') = k.rename fs (object_path store id) name in
        elim e [ none ↦ (true, fs') | some e ↦ restore fs' store id names ]
  ]

  -- `release` with the record that it has found and the name taken out.
  unfoldable pub drop_link : State F → Bytes → Bytes → Entry → State F
  unfolding restore forget write_record remove_record
  drop_link s store id e =
      if e.count == 0
      then remove_record k pid
          (record (forget k pid s store id) { fs = (k.unlink s.fs (object_path store id)).1 }) store
          id
      else if e.count == 1
      then (let (restored, fs) = restore s.fs store id e.names in
          if restored
          then remove_record k pid (forget k pid (record s { fs = fs }) store id) store id
          else (write_record k pid (record s { fs = fs }) store id e).1)
      else (write_record k pid s store id e).1

  unfoldable pub release : State F → Bytes → Bytes → Bytes → State F
  unfolding drop_link lock_store read_record
  release s store id gone =
      let s1 = lock_store k pid s store in
      elim (read_record k pid s1.fs store id) [
        | none ↦ s1
        | some e ↦
            drop_link s1 store id (record { count = e.count - 1; names = remove_name gone e.names })
      ]

  unfoldable pub unlink_name : State F → Mount → Bytes → Bytes → Option ℕ × State F
  unfolding release
  unlink_name s m id host_name =
      let (e, fs) = k.unlink s.fs host_name in
      elim e [
        | some e ↦ (some e, record s { fs = fs })
        | none ↦ (none, release (record s { fs = fs }) (store_of m) id host_name)
      ]

  unfoldable pub name_dropped : State F → Mount → Bytes → Bytes → State F
  unfolding release
  name_dropped s m id host_name = release s (store_of m) id host_name

  unfoldable pub name_moved : State F → Mount → Bytes → Bytes → Bytes → State F
  unfolding read_record write_record lock_store
  name_moved s m id from to =
      let store = store_of m in
      let s1 = lock_store k pid s store in
      elim (read_record k pid s1.fs store id) [
        | none ↦ s1
        | some e ↦
            (write_record k pid s1 store id
              (record { count = e.count; names = with_name to (replace_name from to e.names) })).1
      ]
