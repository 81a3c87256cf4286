-- ===== src/LinkStore/Scan.antt =====
-- The searches for objects, the probe of link(2) and the random ids of
-- engines/rootless/link_store.cpp.
use vhdp.Base.{
  ◌/◌, ◌%◌, ◌^◌, ℕ, ◌+◌, ◌-◌, Bool, true, false, ◌&&◌, ◌||◌, not, List, [], ◌∷◌, ◌++◌, some, none,
  Bytes, codes, ltb, ◌==◌, if◌then◌else◌,
}
use vhdp.Mounts.{Mount, MountTable, mounts, Kind, rootfs, bind}
use vhdp.LinkMarker.{is_link_id}
use vhdp.LinkStore.Calls.{Calls}
use vhdp.LinkStore.{store_of}
use vhdp.LinkStore.Store.{State, remember, eperm}
use vhdp.Path.{slash, ends_in_slash}
use vhdp.Json.{hex_digit}
use vhdp.Resolver.Kernel.{eacces}

module _ {F : Type 0} (k : Calls F) (pid : ℕ) where
  unfoldable pub remember_all : State F → Bytes → List Bytes → State F
  unfolding remember
  remember_all s store [] = s
  remember_all s store (name ∷ names) =
      remember_all (if is_link_id name then remember k pid s store name else s) store names

  abbrev pub holds_links : Kind → Bool
  holds_links rootfs = true
  holds_links bind = true
  holds_links _ = false

  unfoldable pub scan_mounts : State F → List Mount → State F
  unfolding remember_all
  scan_mounts s [] = s
  scan_mounts s (m ∷ ms) =
      let s' =
        if holds_links m.kind
        then remember_all s (store_of m) (k.readdir s.fs (store_of m))
        else s in
      scan_mounts s' ms

  unfoldable pub scan : State F → MountTable → State F
  unfolding scan_mounts
  scan s t = scan_mounts s (mounts t)

  unfoldable pub any_link_id : List Bytes → Bool
  any_link_id [] = false
  any_link_id (name ∷ names) = is_link_id name || any_link_id names

  -- The search of `stores_present` for an object in the stores of some mounts.
  unfoldable pub any_object : F → List Mount → Bool
  unfolding any_link_id
  any_object fs [] = false
  any_object fs (m ∷ ms) =
      (holds_links m.kind && any_link_id (k.readdir fs (store_of m))) || any_object fs ms

  -- `kRecheckNs`
  abbrev pub recheck_ns : ℕ
  recheck_ns = 500000000

  -- The clock says `now`.
  unfoldable pub check_stores : State F → ℕ → MountTable → Bool × State F
  unfolding any_object
  check_stores s now t =
      let present = any_object s.fs (mounts t) in
      if not (s.stores_checked == 0) && ltb ((now + 2 ^ 64 - s.stores_checked) % 2 ^ 64) recheck_ns
      then (s.stores_present, s)
      else (present, record s { stores_checked = now; stores_present = present })

  -- `kernel_refuses_link`, with the file system that the probe leaves.
  unfoldable pub kernel_refuses_link : F → Bytes → Bool × F
  unfolding ends_in_slash
  kernel_refuses_link fs dir =
      let base : Bytes = if ends_in_slash dir then dir else dir ++ slash ∷ [] in
      let (made, fs1) = k.mkostemp fs (base ++ codes ".vhdp-link-probe-") in
      elim made [
        | none ↦ (false, fs1)
        | some name ↦
            let other = name ++ codes ".l" in
            let (e, fs2) = k.hard_link fs1 name other in
            elim e [
              | none ↦ (false, (k.unlink (k.unlink fs2 other).1 name).1)
              | some e ↦ (e == eacces || e == eperm, (k.unlink fs2 name).1)
            ]
      ]

-- The text of `random_id` for its random bytes.
unfoldable pub hex_id : Bytes → Bytes
unfolding hex_digit
hex_id [] = []
hex_id (c ∷ raw) = hex_digit (c / 16) ∷ hex_digit (c % 16) ∷ hex_id raw
