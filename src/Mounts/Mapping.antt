-- ===== src/Mounts/Mapping.antt =====
-- `to_host` and `to_guest` on normal paths.
use vhdp.Base.{
  eq_bytes_iff, is_empty, ap₂, append-nil, eq_bytes_refl, eq_bytes, All-append, All, true, List, [],
  ◌∷◌, ◌++◌, ◌≡◌, refl, sym, ap, ◌∙◌, arith, Bytes, some, subst, if◌then◌else◌, Bool-cases, inl,
  inr,
}
use vhdp.Path.{root, is_below, is_absolute, build, concat_slashed, suffix_after}
use vhdp.Path.Normalize.{IsName, IsNormal, All-IsComponent}
use vhdp.Path.Below.{build-append, is_prefix, is_below-is_prefix, suffix_after-build, build-ne-root}
use vhdp.Mounts.{
  Mount, MountTable, mounts, to_host, to_guest, append_suffix, guest_under, mount_for_host,
  mount_for_guest,
}
use vhdp.Mounts.Best.{In, IsLongest, mount_for_guest-IsLongest}

-- A table as the session builds it: the root file system first, every path canonical.
pub record HasCanonicalPaths (t : MountTable) : Type 0 where
  pub front_root : t.front.guest ≡ root
  pub guest_normal : (m : Mount) → In m (mounts t) → IsNormal m.guest
  pub host_normal : (m : Mount) → In m (mounts t) → IsNormal m.host

All-split : (cs bs : List Bytes) → All IsName (cs ++ bs) → All IsName bs
All-split [] bs h = h
All-split (c ∷ cs) bs h = All-split cs bs h.1

is_prefix-split :
    (bs cs : List Bytes) → is_prefix bs cs ≡ true → (rest : List Bytes) × (cs ≡ bs ++ rest)
unfolding is_prefix
is_prefix-split [] cs h = (cs, refl)
is_prefix-split (b ∷ bs) [] h = cc
is_prefix-split (b ∷ bs) (c ∷ cs) h = elim (Bool-cases (eq_bytes b c)) [
  | inl e ↦
      let (rest, p) = is_prefix-split bs cs (rw e at h) in
      (rest, ap₂ ◌∷◌ (sym ((eq_bytes_iff b c).0 e)) p)
  | inr e ↦ absurd (ground arith)
]

is_prefix-append : (bs cs : List Bytes) → is_prefix bs (bs ++ cs) ≡ true
unfolding is_prefix
is_prefix-append [] cs = refl
is_prefix-append (b ∷ bs) cs = rw (eq_bytes_refl b, is_prefix-append bs cs)

append_suffix-build :
    (hs rest : List Bytes)
    → All IsName hs
    → append_suffix (build hs) (concat_slashed rest) ≡ build (hs ++ rest)
unfolding append_suffix
append_suffix-build [] [] h = unfold build concat_slashed in refl
append_suffix-build [] (r ∷ rest) h = unfold build concat_slashed eq_bytes in refl
append_suffix-build (x ∷ hs) [] h = rw append-nil (unfold concat_slashed in refl)
append_suffix-build (x ∷ hs) (r ∷ rest) h =
    rw build-append (unfold concat_slashed in rw (build-ne-root x hs h.0.is_component))

-- The branch of `guest_under` at the guest path `build gs`.
under : List Bytes → Bytes → Bytes
under gs rest =
    if eq_bytes (build gs) root then (if is_empty rest then root else rest) else build gs ++ rest

under-build :
    (gs rest : List Bytes) → All IsName gs → under gs (concat_slashed rest) ≡ build (gs ++ rest)
unfolding under
under-build [] [] h = unfold build concat_slashed eq_bytes in refl
under-build [] (r ∷ rest) h = unfold build concat_slashed eq_bytes in refl
under-build (x ∷ gs) rest h = rw (build-append, build-ne-root x gs h.0.is_component)

guest_under-build :
    (m : Mount) (gs hs rest : List Bytes)
    → All IsName gs
    → All IsName hs
    → All IsName rest
    → m.guest ≡ build gs
    → m.host ≡ build hs
    → guest_under m (build (hs ++ rest)) ≡ build (gs ++ rest)
guest_under-build m gs hs rest hg hh hr eg eh =
    let tail : suffix_after (build (hs ++ rest)) m.host ≡ concat_slashed rest =
      rw eh (suffix_after-build hs rest (All-IsComponent hs hh) (All-IsComponent rest hr)) in
    unfold guest_under in rw (tail, eg) (unfold under in under-build gs rest hg)

-- Where a normal guest path goes: its components are those of its mount's guest path, then a rest,
-- and the host path is the mount's with the same rest.
pub record Mapped (t : MountTable) (guest : Bytes) : Type 0 where
  pub mount : Mount
  pub found : mount_for_guest t guest ≡ some mount
  pub longest : IsLongest (λ x. x.guest) guest (mounts t) mount
  pub guest_names : List Bytes
  pub host_names : List Bytes
  pub rest : List Bytes
  pub guest_ok : All IsName guest_names
  pub host_ok : All IsName host_names
  pub rest_ok : All IsName rest
  pub mount_guest : mount.guest ≡ build guest_names
  pub mount_host : mount.host ≡ build host_names
  pub guest_is : guest ≡ build (guest_names ++ rest)
  pub host_is : to_host t guest ≡ (mount, build (host_names ++ rest))

pub absolute-build : (cs : List Bytes) → is_absolute (build cs) ≡ true
unfolding is_absolute build concat_slashed
absolute-build [] = refl
absolute-build (c ∷ cs) = refl

to_host-found :
    (t : MountTable) (guest : Bytes) (m : Mount)
    → mount_for_guest t guest ≡ some m
    → to_host t guest ≡ (m, append_suffix m.host (suffix_after guest m.guest))
unfolding to_host
to_host-found t guest m e = rw (to_host, e)

Mapped-rest :
    (t : MountTable) (guest : Bytes) (m : Mount) (gs hs rest : List Bytes)
    → mount_for_guest t guest ≡ some m
    → IsLongest (λ x. x.guest) guest (mounts t) m
    → All IsName gs
    → All IsName hs
    → All IsName rest
    → m.guest ≡ build gs
    → m.host ≡ build hs
    → guest ≡ build (gs ++ rest)
    → Mapped t guest
Mapped-rest t guest m gs hs rest found l hg hh hr eg eh same =
    let tail : suffix_after guest m.guest ≡ concat_slashed rest =
      rw (same, eg)
        (suffix_after-build gs rest (All-IsComponent gs hg) (All-IsComponent rest hr)) in
    record {
      mount = m;
      found = found;
      longest = l;
      guest_names = gs;
      host_names = hs;
      rest = rest;
      guest_ok = hg;
      host_ok = hh;
      rest_ok = hr;
      mount_guest = eg;
      mount_host = eh;
      guest_is = same;
      host_is =
          to_host-found t guest m found
          ∙ ap (λ s. (m, s)) (rw (tail, eh) (append_suffix-build hs rest hh));
    }

pub to_host-Mapped :
    (t : MountTable) (guest : Bytes) → HasCanonicalPaths t → IsNormal guest → Mapped t guest
to_host-Mapped t guest h (cs, names, e) =
    let abs : is_absolute guest ≡ true = ap is_absolute e ∙ absolute-build cs in
    let (m, found, l) = mount_for_guest-IsLongest t guest h.front_root abs in
    let (gs, hg, eg) = h.guest_normal m l.is_in in
    let (hs, hh, eh) = h.host_normal m l.is_in in
    let prefix : is_prefix gs cs ≡ true =
      sym (is_below-is_prefix gs cs (All-IsComponent gs hg) (All-IsComponent cs names))
      ∙ sym (ap₂ is_below e eg)
      ∙ l.below in
    let (rest, split) = is_prefix-split gs cs prefix in
    Mapped-rest t guest m gs hs rest found l hg hh
      (All-split gs rest (subst (All IsName) split names)) eg eh (e ∙ ap build split)

-- In a table of canonical paths, whose first mount is the root file system's, a normal guest path
-- is mapped below the host path of its mount, to a normal host path: no guest
-- path leads to a host path outside the trees that the table was given.
pub to_host-is_below :
    (t : MountTable) (guest : Bytes)
    → HasCanonicalPaths t
    → IsNormal guest
    → let (m, host) = to_host t guest in
      In m (mounts t) × (is_below host m.host ≡ true) × IsNormal host
to_host-is_below t guest h n =
    let w = to_host-Mapped t guest h n in
    let all = All-append IsName w.host_names w.rest w.host_ok w.rest_ok in
    subst (λ (r : Mount × Bytes). In r.0 (mounts t) × (is_below r.1 r.0.host ≡ true) × IsNormal r.1)
      (sym w.host_is)
      (
        w.longest.is_in,
        ap (is_below (build (w.host_names ++ w.rest))) w.mount_host
            ∙ is_below-is_prefix w.host_names (w.host_names ++ w.rest) (All-IsComponent _ w.host_ok)
                (All-IsComponent _ all)
            ∙ is_prefix-append w.host_names w.rest,
        (w.host_names ++ w.rest, all, refl),
      )

to_guest-found :
    (t : MountTable) (host : Bytes) (m : Mount)
    → mount_for_host t host ≡ some m
    → to_guest t host ≡ some (guest_under m host)
unfolding to_guest
to_guest-found t host m e = rw (to_guest, e)

-- In such a table of canonical paths, mapping a normal guest path to the host and back returns it, if the host path belongs to no other
-- mount than the one that the guest path was mapped through.
pub to_guest-to_host :
    (t : MountTable) (guest : Bytes)
    → HasCanonicalPaths t
    → IsNormal guest
    → mount_for_host t (to_host t guest).1 ≡ some (to_host t guest).0
    → to_guest t (to_host t guest).1 ≡ some guest
to_guest-to_host t guest h n back =
    let w = to_host-Mapped t guest h n in
    to_guest-found t (to_host t guest).1 (to_host t guest).0 back
    ∙ ap some (
        rw w.host_is (
          guest_under-build w.mount w.guest_names w.host_names w.rest w.guest_ok w.host_ok w.rest_ok
            w.mount_guest w.mount_host)
        ∙ sym w.guest_is)
