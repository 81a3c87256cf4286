-- ===== src/Resolver.antt =====
-- vfs/resolver.hpp and .cpp. The host kernel's lstat(2) and readlink(2) are the parameter `Host`: a
-- snapshot of the file system for the time of one resolution. An errno is its Linux number.
pub mod Kernel
pub mod DirCache
pub mod Links
pub mod Confined
pub mod Start
use vhdp.Base.{
  ℕ, zero, suc, ◌+◌, ◌-◌, Bool, true, false, ◌&&◌, ◌||◌, not, List, [], ◌∷◌, ◌++◌, Option, some,
  none, Bytes, eq_bytes, if◌then◌else◌, length, leb, ltb, ◌==◌, take, drop, last?, pop_back,
  is_empty, starts_with,
}
use vhdp.Path.{
  slash, dot, dotdot, path_max, is_absolute, components, any_dotdot, concat_slashed, build,
  ends_in_slash,
}
use vhdp.Mounts.{Mount, MountTable, Kind, proc, device, to_host}
use vhdp.LinkMarker.{link_store_dir, link_id_len, is_link_id, link_store_path, link_target_id}
use vhdp.Resolver.Kernel.{
  Host, Reply, ok, err, FileKind, symlink, directory, other, Stat, read_link, enoent, eacces,
  enotdir, einval, enametoolong, eloop,
}
use vhdp.Resolver.DirCache.{Cache, Entry, find, drop_entry, put}
use vhdp.Resolver.Links.{Options, is_proc, Target, leads, magic, link_target}

-- `Resolved`, without the defaults of a failed resolution.
pub record Resolved : Type 0 where
  pub guest : Bytes
  pub host : Bytes
  pub mount : Mount
  pub exists : Bool
  pub is_dir : Bool
  pub final_is_symlink : Bool
  pub proc_magic : Bool
  pub link_id : Bytes

-- The local variables of the loop, and the directory cache.
pub record Walk : Type 0 where
  pub done : List Bytes
  pub exists : Bool
  pub is_dir : Bool
  pub final_symlink : Bool
  pub cache : Cache

-- A symbolic link that is followed: what was found at it.
pub record Link : Type 0 where
  pub guest : Bytes
  pub host : Bytes
  pub mount : Mount
  pub known : Option Bytes
  pub walk : Walk

-- What one component does: the resolution fails, goes on, or follows a link.
pub data Look : Type 0 where
  fails : ℕ → Look
  goes : Walk → Look
  follows : Link → Look

abbrev pub is_symlink : FileKind → Bool
is_symlink symlink = true
is_symlink _ = false

abbrev pub is_directory : FileKind → Bool
is_directory directory = true
is_directory _ = false

abbrev pub is_device : Kind → Bool
is_device device = true
is_device _ = false

unfoldable pub only_dots : List Bytes → Bool
only_dots [] = true
only_dots (p ∷ ps) = eq_bytes p dot && only_dots ps

-- An object of the store that stands for a file: present, no directory and no link.
unfoldable pub is_object : Host → Mount → Bytes → Bool
is_object h mount id = elim (h.lstat (link_store_path mount.host ++ slash ∷ id)) [
  | err e ↦ false
  | ok st ↦ not (is_directory st.file_kind) && not (is_symlink st.file_kind)
]

-- Whether a link that would not be followed is seen through, with the target that was read.
unfoldable pub see_through : Host → Options → Mount → Bytes → Option Bytes × Bool
unfolding is_object
see_through h o mount host =
    if not o.see_through_links || is_proc mount.kind
    then (none, false)
    else elim (read_link h host) [
      | err e ↦ (none, false)
      | ok target ↦
          let id = link_target_id target in (some target, not (is_empty id) && is_object h mount id)
    ]

-- The component has been pushed and lstat has answered.
unfoldable pub after_lstat : Host → Options → Bool → Mount → Bytes → Bytes → Walk → Stat → Look
unfolding see_through
after_lstat h o must_follow mount guest host w st =
    let link = is_symlink st.file_kind in
    let (known, seen) = see_through h o mount host in
    let dir = is_directory st.file_kind in
    if link && must_follow
    then follows (record { guest = guest; host = host; mount = mount; known = none; walk = w })
    else if link && seen
    then follows (record { guest = guest; host = host; mount = mount; known = known; walk = w })
    else goes (record w {
      exists = true;
      is_dir = dir;
      final_symlink = link;
      cache =
          if dir && o.use_cache && not (is_proc mount.kind) && not (is_device mount.kind)
          then put w.cache guest host st
          else w.cache;
    })

-- lstat has failed with this errno.
unfoldable pub after_error : Bool → Mount → Walk → ℕ → Look
after_error last mount w e =
    if e == enoent
    then goes (record w { exists = false; is_dir = false })
    else if e == eacces && last && is_proc mount.kind
    then goes (record w { exists = true; is_dir = false; final_symlink = false })
    else fails e

-- What lstat has answered of the component that has been pushed, in the walk `w`.
unfoldable pub after_reply :
    Host → Options → List Bytes → Mount → Bytes → Bytes → Walk → Reply Stat → Look
unfolding after_lstat after_error only_dots
after_reply h o pending mount guest host w (err e) = after_error (only_dots pending) mount w e
after_reply h o pending mount guest host w (ok st) =
    let last = only_dots pending in
    let must_follow = not last || o.follow_final || not (is_empty pending) in
    after_lstat h o must_follow mount guest host w st

-- A component that is a name, in a directory that exists.
unfoldable pub visit : Host → MountTable → Options → Bytes → List Bytes → Walk → Look
unfolding after_reply
visit h t o comp pending w =
    let w' = record w { done = w.done ++ comp ∷ [] } in
    let guest = build w'.done in
    let (mount, host) = to_host t guest in
    after_reply h o pending mount guest host w' (h.lstat host)

unfoldable pub look : Host → MountTable → Options → Bytes → List Bytes → Walk → Look
unfolding visit
look h t o comp pending w =
    if eq_bytes comp dot
    then (if not w.is_dir && w.exists then fails enotdir else goes w)
    else if eq_bytes comp dotdot
    then (if not w.exists
        then fails enoent
        else if not w.is_dir
        then fails enotdir
        else goes (record w { done = pop_back w.done; is_dir = true }))
    else if not w.exists
    then fails enoent
    else if not w.is_dir
    then fails enotdir
    else visit h t o comp pending w

pub data Answer : Type 0 where
  failed : ℕ → Answer
  resolved : Resolved → Answer

-- The id of the object that the final path is, if it is one.
unfoldable pub object_id : Walk → Mount → Bytes → Bytes
object_id w mount guest =
    let store = link_store_path mount.guest in
    let id : Bytes = elim (last? w.done) [ none ↦ [] | some c ↦ c ] in
    let dir : Bytes = elim (last? (pop_back w.done)) [ none ↦ [] | some c ↦ c ] in
    if (w.exists
        && not w.is_dir
        && not w.final_symlink
        && leb 2 (length w.done)
        && eq_bytes dir link_store_dir
        && is_link_id id)
      && (length guest == length store + 1 + link_id_len && starts_with store guest)
    then id
    else []

-- What `resolve` does behind the loop.
unfoldable pub finish : MountTable → Bool → Walk → Answer
unfolding object_id
finish t trailing_slash w =
    let guest = build w.done in
    let (mount, host) = to_host t guest in
    let host' = if trailing_slash && not (ends_in_slash host) then host ++ slash ∷ [] else host in
    if leb path_max (length host')
    then failed enametoolong
    else resolved (record {
      guest = guest;
      host = host';
      mount = mount;
      exists = w.exists;
      is_dir = w.exists && w.is_dir;
      final_is_symlink = w.exists && w.final_symlink;
      proc_magic = false;
      link_id = object_id w mount guest;
    })

-- The link leads to an object that only the kernel can name.
unfoldable pub finish_magic : Bool → Link → Answer
finish_magic last l =
    if not last
    then failed enotdir
    else resolved (record {
      guest = l.guest;
      host = l.host;
      mount = l.mount;
      exists = true;
      is_dir = false;
      final_is_symlink = false;
      proc_magic = true;
      link_id = [];
    })

-- The "." that a trailing slash adds to the components.
unfoldable pub trailing : Bool → List Bytes
trailing slashed = if slashed then dot ∷ [] else []

-- The components that a target puts in front of the pending ones, and the walk that takes them.
unfoldable pub target_components : Bytes → List Bytes
target_components target =
    components target ++ trailing (ltb 1 (length target) && ends_in_slash target)

unfoldable pub enter : Walk → Bytes → Walk
enter w target = record w {
  done = if is_absolute target then [] else pop_back w.done;
  is_dir = true;
  exists = true;
}

-- A link is followed to where `link_target` says; `go` is the rest of the loop from there.
unfoldable pub take_link :
    List Bytes → Link → Reply Target → (Bytes → Answer × Cache) → Answer × Cache
take_link pending l (err e) go = (failed e, l.walk.cache)
take_link pending l (ok magic) go = (finish_magic (only_dots pending) l, l.walk.cache)
take_link pending l (ok (leads target)) go =
    if is_empty target then (failed enoent, l.walk.cache) else go target

-- The loop of `resolve`. The number is how many links may still be followed; each round takes a
-- component or follows a link, so the loop ends. The cache comes back with the answer.
unfoldable pub loop : Host → MountTable → Options → Bool → ℕ → List Bytes → Walk → Answer × Cache
loop h t o slashed budget [] w = (finish t slashed w, w.cache)
loop h t o slashed zero (comp ∷ pending) w = elim (look h t o comp pending w) [
  | fails e ↦ (failed e, w.cache)
  | goes w' ↦ loop h t o slashed zero pending w'
  | follows l ↦ (failed eloop, l.walk.cache)
]
loop h t o slashed (suc budget) (comp ∷ pending) w = elim (look h t o comp pending w) [
  | fails e ↦ (failed e, w.cache)
  | goes w' ↦ loop h t o slashed (suc budget) pending w'
  | follows l ↦ take_link pending l (link_target h t o l.mount l.guest l.host l.known) (λ target.
      loop h t o slashed budget (target_components target ++ pending) (enter l.walk target))
]

-- Whether lstat still shows the directory of a cache entry.
unfoldable pub still_there : Host → Entry → Bool
still_there h e = elim (h.lstat e.host) [
  | err n ↦ false
  | ok st ↦ is_directory st.file_kind && st.dev == e.dev && st.ino == e.ino
]

-- How many components the longest cached directory among the first `n` covers, and the cache.
unfoldable pub cached_prefix : Host → List Bytes → ℕ → Cache → ℕ × Cache
unfolding still_there
cached_prefix h pending zero c = (0, c)
cached_prefix h pending (suc n) c =
    let shorter = cached_prefix h pending n c in
    let key = concat_slashed (take (suc n) pending) in
    elim (find c key) [
      | none ↦ shorter
      | some e ↦ if still_there h e then (suc n, c) else (0, drop_entry c key)
    ]

unfoldable pub start : Host → Options → List Bytes → Bool → Cache → ℕ × Cache
unfolding cached_prefix
start h o pending slashed c =
    if o.use_cache && not (any_dotdot pending) && leb 2 (length pending)
    then cached_prefix h pending (length pending - 1 - (if slashed then 1 else 0)) c
    else (0, c)

-- `resolve` behind its checks.
unfoldable pub resolve_components :
    Host → MountTable → Bytes → Bool → Options → Cache → Answer × Cache
resolve_components h t guest_abs slashed o c =
    let pending = components guest_abs ++ trailing slashed in
    let (n, c') = start h o pending slashed c in
    loop h t o slashed o.max_symlinks (drop n pending) (record {
      done = take n pending;
      exists = true;
      is_dir = true;
      final_symlink = false;
      cache = c';
    })

unfoldable pub resolve : Host → MountTable → Bytes → Options → Cache → Answer × Cache
resolve h t guest_abs o c =
    let slashed = ltb 1 (length guest_abs) && ends_in_slash guest_abs in
    if not (is_absolute guest_abs)
    then (failed einval, c)
    else if leb path_max (length guest_abs)
    then (failed enametoolong, c)
    else resolve_components h t guest_abs slashed o c
