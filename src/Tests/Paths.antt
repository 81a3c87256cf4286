-- ===== src/Tests/Paths.antt =====
-- Paths, mount tables, link targets and the resolver.
use vhdp.Base.{
  ap, ◌↔◌, ◌∙◌, sym, true, false, [], ◌∷◌, ◌++◌, Bytes, codes, ◌≡◌, ◌≢◌, refl, All, some, inl, inr,
  eq_bytes,
}
use vhdp.Path.{
  slash, dotdot, root, is_absolute, emit, scan, components, concat_slashed, build, apply_dotdots,
  normalize_lexical, is_below, suffix_after,
}
use vhdp.Path.Components.{IsComponent, components-IsComponent}
use vhdp.Path.Normalize.{IsNormal, normalize_lexical-IsNormal, IsName, normalize_lexical-dotdot}
use vhdp.Path.Below.{is_prefix, is_below-is_prefix}
use vhdp.Mounts.{
  bind, Mount, MountTable, mounts, new_table, add, pick, longest, mount_for_guest, append_suffix,
  to_host, mount_for_host, to_guest,
}
use vhdp.Mounts.Best.{In, IsLongest, IsTable, mount_for_guest-IsLongest, mount_for_guest_order}
use vhdp.Mounts.Mapping.{HasCanonicalPaths, to_host-is_below, to_guest-to_host}
use vhdp.LinkMarker.{is_link_id, all_lower_hex, is_lower_hex, link_store_path, link_target_id}
use vhdp.LinkMarker.RoundTrip.{link_target_id-link_store_path, link_target_id-IsTarget, IsTarget}

abbrev data_mount : Mount
data_mount = record {
  guest = codes "/data";
  host = codes "/mnt/data";
  read_only = true;
  kind = bind;
  source = codes "/mnt/data";
}

-- The root file system at /srv/root, and /mnt/data at /data.
abbrev table : MountTable
table = add (new_table (codes "/srv/root") false) data_mount

root-IsNormal : IsNormal root
root-IsNormal = ([], tt, unfold build in refl)

IsNormal-data : IsNormal (codes "/data")
unfolding normalize_lexical components scan emit apply_dotdots build concat_slashed eq_bytes
IsNormal-data = normalize_lexical-IsNormal (codes "/data")

IsNormal-mnt : IsNormal (codes "/mnt/data")
unfolding normalize_lexical components scan emit apply_dotdots build concat_slashed eq_bytes
IsNormal-mnt = normalize_lexical-IsNormal (codes "/mnt/data")

IsNormal-srv : IsNormal (codes "/srv/root")
unfolding normalize_lexical components scan emit apply_dotdots build concat_slashed eq_bytes
IsNormal-srv = normalize_lexical-IsNormal (codes "/srv/root")

IsNormal-file : IsNormal (codes "/data/x")
unfolding normalize_lexical components scan emit apply_dotdots build concat_slashed eq_bytes
IsNormal-file = normalize_lexical-IsNormal (codes "/data/x")

table-IsNormal : (m : Mount) → In m (mounts table) → IsNormal m.guest × IsNormal m.host
table-IsNormal m (inl e) = rw e (root-IsNormal, IsNormal-srv)
table-IsNormal m (inr (inl e)) = rw e (IsNormal-data, IsNormal-mnt)
table-IsNormal m (inr (inr x)) = elim x [ ]

table_canonical : HasCanonicalPaths table
table_canonical = record {
  front_root = refl;
  guest_normal = λ m i. (table-IsNormal m i).0;
  host_normal = λ m i. (table-IsNormal m i).1;
}

to_host-is_below_example :
    let (m, host) = to_host table (codes "/data/x") in
    In m (mounts table) × (is_below host m.host ≡ true) × IsNormal host
to_host-is_below_example = to_host-is_below table (codes "/data/x") table_canonical IsNormal-file

to_guest-to_host_example :
    to_guest table (to_host table (codes "/data/x")).1 ≡ some (codes "/data/x")
unfolding mount_for_host to_host mount_for_guest longest pick is_below suffix_after append_suffix
    eq_bytes is_absolute
to_guest-to_host_example =
    to_guest-to_host table (codes "/data/x") table_canonical IsNormal-file refl

mount_for_guest-IsLongest_example :
    (m : Mount) × (mount_for_guest table (codes "/data/x") ≡ some m)
    × IsLongest (λ x. x.guest) (codes "/data/x") (mounts table) m
mount_for_guest-IsLongest_example =
    mount_for_guest-IsLongest table (codes "/data/x") refl (unfold is_absolute in refl)

abbrev inner_mount : Mount
inner_mount = record data_mount { guest = codes "/data/x"; host = codes "/mnt/x" }

-- Two nested mounts, added in both orders.
abbrev outer_first : MountTable
outer_first = add table inner_mount

abbrev inner_first : MountTable
inner_first = add (add (new_table (codes "/srv/root") false) inner_mount) data_mount

reordered : (m : Mount) → In m (mounts outer_first) ↔ In m (mounts inner_first)
reordered m = (there, back)
  where
    there : In m (mounts outer_first) → In m (mounts inner_first)
    there (inl e) = inl e
    there (inr (inl e)) = inr (inr (inl e))
    there (inr (inr (inl e))) = inr (inl e)
    there (inr (inr (inr n))) = elim n [ ]

    back : In m (mounts inner_first) → In m (mounts outer_first)
    back (inl e) = inl e
    back (inr (inl e)) = inr (inr (inl e))
    back (inr (inr (inl e))) = inr (inl e)
    back (inr (inr (inr n))) = elim n [ ]

outer_first-IsNormal : (m : Mount) → In m (mounts outer_first) → IsNormal m.guest
outer_first-IsNormal m (inl e) = rw e root-IsNormal
outer_first-IsNormal m (inr (inl e)) = rw e IsNormal-data
outer_first-IsNormal m (inr (inr (inl e))) = rw e IsNormal-file
outer_first-IsNormal m (inr (inr (inr n))) = elim n [ ]

-- The two guest paths have different lengths.
data-inner : data_mount.guest ≢ inner_mount.guest
data-inner h = cc

outer_first_distinct :
    (x y : Mount)
    → In x (mounts outer_first)
    → In y (mounts outer_first)
    → x.guest ≡ y.guest
    → x ≡ y
outer_first_distinct x y (inl e) (inl f) g = cc
outer_first_distinct x y (inl e) (inr (inl f)) g = cc
outer_first_distinct x y (inl e) (inr (inr (inl f))) g = cc
outer_first_distinct x y (inr (inl e)) (inl f) g = cc
outer_first_distinct x y (inr (inl e)) (inr (inl f)) g = cc
outer_first_distinct x y (inr (inl e)) (inr (inr (inl f))) g =
    absurd (data-inner (ap (λ m. Mount.guest m) (sym e) ∙ g ∙ ap (λ m. Mount.guest m) f))
outer_first_distinct x y (inr (inr (inl e))) (inl f) g = cc
outer_first_distinct x y (inr (inr (inl e))) (inr (inl f)) g =
    absurd (data-inner (ap (λ m. Mount.guest m) (sym f) ∙ sym g ∙ ap (λ m. Mount.guest m) e))
outer_first_distinct x y (inr (inr (inl e))) (inr (inr (inl f))) g = cc
outer_first_distinct x y (inl e) (inr (inr (inr n))) g = elim n [ ]
outer_first_distinct x y (inr (inl e)) (inr (inr (inr n))) g = elim n [ ]
outer_first_distinct x y (inr (inr (inl e))) (inr (inr (inr n))) g = elim n [ ]
outer_first_distinct x y (inr (inr (inr n))) _ g = elim n [ ]

outer_first-IsTable : IsTable outer_first
outer_first-IsTable = record {
  front_root = refl;
  normal = outer_first-IsNormal;
  distinct = outer_first_distinct;
}

inner_first-IsTable : IsTable inner_first
inner_first-IsTable = record {
  front_root = refl;
  normal = λ m i. outer_first-IsNormal m ((reordered m).1 i);
  distinct = λ x y i j. outer_first_distinct x y ((reordered x).1 i) ((reordered y).1 j);
}

mount_for_guest_order_example :
    mount_for_guest outer_first (codes "/data/x/y")
    ≡ mount_for_guest inner_first (codes "/data/x/y")
mount_for_guest_order_example =
    mount_for_guest_order outer_first inner_first (codes "/data/x/y") outer_first-IsTable
      inner_first-IsTable reordered (unfold is_absolute in refl)

a-IsName : IsName (codes "a")
a-IsName = record {
  is_component = record { ne_empty = λ e. cc; ne_dot = λ e. cc; no_slash = (λ e. cc, tt) };
  ne_dotdot = λ e. cc;
}

normalize_lexical-dotdot_example :
    (normalize_lexical (normalize_lexical (codes "/a/../b") ++ slash ∷ codes "../c")
      ≡ normalize_lexical (codes "/a/../b" ++ slash ∷ codes "../c"))
    × (normalize_lexical
          (codes "/a/../b" ++ slash ∷ (codes "a" ++ slash ∷ (dotdot ++ slash ∷ codes "../c")))
        ≡ normalize_lexical (codes "/a/../b" ++ slash ∷ codes "../c"))
    × (normalize_lexical (slash ∷ (dotdot ++ slash ∷ codes "../c"))
        ≡ normalize_lexical (slash ∷ codes "../c"))
normalize_lexical-dotdot_example =
    normalize_lexical-dotdot (codes "/a/../b") (codes "../c") (codes "a") a-IsName

components_ab : All IsComponent (codes "a" ∷ codes "b" ∷ [])
unfolding components scan emit eq_bytes
components_ab = components-IsComponent (codes "/a/b")

is_below-is_prefix_example :
    is_below (build (codes "a" ∷ codes "b" ∷ [])) (build (codes "a" ∷ []))
    ≡ is_prefix (codes "a" ∷ []) (codes "a" ∷ codes "b" ∷ [])
is_below-is_prefix_example =
    is_below-is_prefix (codes "a" ∷ []) (codes "a" ∷ codes "b" ∷ []) (components_ab.0, tt)
      components_ab

abbrev id : Bytes
id = codes "0123456789abcdef0123456789abcdef"

link_target_id-link_store_path_example :
    link_target_id (link_store_path (codes "/data") ++ slash ∷ id) ≡ id
unfolding is_link_id all_lower_hex
link_target_id-link_store_path_example = link_target_id-link_store_path (codes "/data") id refl

abbrev store_target : Bytes
store_target = link_store_path (codes "/data") ++ slash ∷ id

store_target-id : link_target_id store_target ≡ id
unfolding is_link_id all_lower_hex is_lower_hex
store_target-id = link_target_id-link_store_path (codes "/data") id refl

store_target_found : link_target_id store_target ≢ []
store_target_found e = cc (sym store_target-id ∙ e)

link_target_id-IsTarget_example : IsTarget store_target (link_target_id store_target)
link_target_id-IsTarget_example = link_target_id-IsTarget store_target store_target_found
