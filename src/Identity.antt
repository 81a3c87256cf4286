-- ===== src/Identity.antt =====
-- The emulated credentials of a guest: `Creds` of engines/rootless/supervisor.hpp, `creds_of` of
-- supervisor.cpp and `handle_identity` of syscall_handlers.cpp. The memory of the tracee is read and
-- written by the kernel: it is the parameter `Memory`, in words of 32 bits.
pub mod Drop
pub mod Errors
use vhdp.Base.{
  ℕ, ◌+◌, ◌-◌, ◌*◌, ◌%◌, ◌^◌, Bool, true, false, ◌&&◌, ◌||◌, not, List, [], ◌∷◌, Option, some, none,
  if◌then◌else◌, length, ltb, leb, ◌==◌,
}
use vhdp.Base.Int.{ℤ, pos, negsuc}

-- `ruid euid suid fsuid`, or `rgid egid sgid fsgid`.
pub record Ids : Type 0 where
  pub real : ℕ
  pub effective : ℕ
  pub saved : ℕ
  pub fs : ℕ

pub record Creds : Type 0 where
  pub user : Ids
  pub group : Ids
  pub groups : List ℕ

-- Which half of the credentials a call is about.
pub data Who : Type 0 where
  user group : Who

-- The system calls, by `info.handler` and `info.nr`.
pub data Call : Type 0 where
  getuid geteuid getgid getegid getresuid getresgid : Call
  getgroups setgroups unknown : Call
  setid setreid setresid setfsid : Who → Call

-- `SyscallAction`: the kernel runs the call, or it is skipped and returns the number.
pub data Action : Type 0 where
  kernel : Action
  answer : ℤ → Action

-- Words of the tracee's memory behind an address, `none` where they are not mapped.
pub record Memory (M : Type 0) : Type 0 where
  pub read_mem : M → ℕ → ℕ → Option (List ℕ)
  pub write_mem : M → ℕ → List ℕ → Option M

-- -EPERM, -EFAULT and -EINVAL
abbrev pub minus : ℕ → Action
minus e = answer (negsuc (e - 1))

abbrev pub eperm : ℕ
eperm = 1

abbrev pub efault : ℕ
efault = 14

abbrev pub einval : ℕ
einval = 22

-- `kKeep`
abbrev pub keep : ℕ
keep = 2 ^ 32 - 1

-- `static_cast<std::int32_t>`
abbrev pub to_i32 : ℕ → ℤ
to_i32 n = let w = n % 2 ^ 32 in if ltb w (2 ^ 31) then pos w else negsuc (2 ^ 32 - 1 - w)

abbrev pub half : Who → Creds → Ids
half user c = c.user
half group c = c.group

abbrev pub set_half : Who → Creds → Ids → Creds
set_half user c ids = record c { user = ids }
set_half group c ids = record c { group = ids }

abbrev pub in3 : ℕ → Ids → Bool
in3 v ids = v == ids.real || v == ids.effective || v == ids.saved

-- `setuid` and `setgid`: the new ids, or EPERM.
unfoldable pub set_id : Bool → ℕ → Ids → Option Ids
set_id priv u ids =
    if priv
    then some (record { real = u; effective = u; saved = u; fs = u })
    else if u == ids.real || u == ids.saved
    then some (record ids { effective = u; fs = u })
    else none

unfoldable pub set_re_id : Bool → ℕ → ℕ → Ids → Option Ids
set_re_id priv r e ids =
    if not priv
      && ((not (r == keep) && not (r == ids.real) && not (r == ids.effective))
          || (not (e == keep) && not (in3 e ids)))
    then none
    else let real = if r == keep then ids.real else r in
      let effective = if e == keep then ids.effective else e in
      some (record {
        real = real;
        effective = effective;
        saved =
            if not (r == keep) || (not (e == keep) && not (e == ids.real))
            then effective
            else ids.saved;
        fs = effective;
      })

-- Whether one of the three ids may be set.
abbrev may_set : ℕ → Ids → Bool
may_set x ids = x == keep || in3 x ids

unfoldable pub set_res_id : Bool → ℕ → ℕ → ℕ → Ids → Option Ids
set_res_id priv r e s ids =
    if not priv && not (may_set r ids && may_set e ids && may_set s ids)
    then none
    else let effective = if e == keep then ids.effective else e in
      some (record {
        real = if r == keep then ids.real else r;
        effective = effective;
        saved = if s == keep then ids.saved else s;
        fs = effective;
      })

unfoldable pub set_fs_id : Bool → ℕ → Ids → Ids
set_fs_id priv f ids =
    if not (f == keep) && (priv || in3 f ids || f == ids.fs) then record ids { fs = f } else ids

-- The arguments are a function of their index.
abbrev pub Args : Type 0
Args = ℕ → ℕ

abbrev pub arg_id : Args → ℕ → ℕ
arg_id a i = a i % 2 ^ 32

abbrev pub is_privileged : Creds → Bool
is_privileged c = c.user.effective == 0

module _ {M : Type 0} (k : Memory M) (a : Args) where
  -- The lambda `write_three`.
  unfoldable pub write_three : Ids → M → Action × M
  write_three ids m = elim (k.write_mem m (a 0) (ids.real ∷ [])) [
    | none ↦ (minus efault, m)
    | some m1 ↦ elim (k.write_mem m1 (a 1) (ids.effective ∷ [])) [
      | none ↦ (minus efault, m1)
      | some m2 ↦ elim (k.write_mem m2 (a 2) (ids.saved ∷ [])) [
        | none ↦ (minus efault, m2)
        | some m3 ↦ (answer (pos 0), m3)
      ]
    ]
  ]

  -- With the size that the guest's buffer has.
  unfoldable pub get_groups : ℤ → List ℕ → M → Action × M
  get_groups (negsuc _) groups m = (minus einval, m)
  get_groups (pos size) groups m =
      let n = length groups in
      if size == 0
      then (answer (pos n), m)
      else if ltb size n
      then (minus einval, m)
      else if n == 0
      then (answer (pos 0), m)
      else elim (k.write_mem m (a 1) groups) [
        | none ↦ (minus efault, m)
        | some m' ↦ (answer (pos n), m')
      ]

  -- The new groups, or the error.
  unfoldable pub set_groups : ℤ → Creds → M → Action × Creds
  set_groups (negsuc _) c m = (minus einval, c)
  set_groups (pos n) c m =
      if ltb 65536 n
      then (minus einval, c)
      else if n == 0
      then (answer (pos 0), record c { groups = [] })
      else elim (k.read_mem m (a 1) n) [
        | none ↦ (minus efault, c)
        | some groups ↦ (answer (pos 0), record c { groups = groups })
      ]

  -- What a call that may be refused does to its half of the credentials.
  abbrev pub settle : Who → Creds → Option Ids → Action × Creds
  settle w c none = (minus eperm, c)
  settle w c (some ids) = (answer (pos 0), set_half w c ids)

  -- The calls that set something.
  unfoldable pub change : Call → Creds → M → Action × Creds
  unfolding set_groups set_id set_re_id set_res_id set_fs_id
  change setgroups c m = if is_privileged c then set_groups (to_i32 (a 0)) c m else (minus eperm, c)
  change (setid w) c m = settle w c (set_id (is_privileged c) (arg_id a 0) (half w c))
  change (setreid w) c m =
      settle w c (set_re_id (is_privileged c) (arg_id a 0) (arg_id a 1) (half w c))
  change (setresid w) c m =
      settle w c (set_res_id (is_privileged c) (arg_id a 0) (arg_id a 1) (arg_id a 2) (half w c))
  change (setfsid w) c m = (
    answer (pos (half w c).fs),
    set_half w c (set_fs_id (is_privileged c) (arg_id a 0) (half w c)),
  )
  change _ c m = (kernel, c)

  -- The new memory, where the call writes to it.
  unfoldable pub handle_identity : Call → Creds → M → Action × Creds × M
  unfolding write_three get_groups change
  handle_identity getuid c m = (answer (pos c.user.real), c, m)
  handle_identity geteuid c m = (answer (pos c.user.effective), c, m)
  handle_identity getgid c m = (answer (pos c.group.real), c, m)
  handle_identity getegid c m = (answer (pos c.group.effective), c, m)
  handle_identity getresuid c m = let (r, m') = write_three c.user m in (r, c, m')
  handle_identity getresgid c m = let (r, m') = write_three c.group m in (r, c, m')
  handle_identity getgroups c m = let (r, m') = get_groups (to_i32 (a 0)) c.groups m in (r, c, m')
  handle_identity call c m = let (r, c') = change call c m in (r, c', m)

-- `creds_`: the credentials of the thread groups that asked for them.
abbrev pub Table : Type 0
Table = List (ℕ × Creds)

unfoldable pub find_creds : Table → ℕ → Option Creds
find_creds [] tgid = none
find_creds ((g, c) ∷ table) tgid =
    let rest = find_creds table tgid in if g == tgid then some c else rest

abbrev same_ids : ℕ → Ids
same_ids id = record { real = id; effective = id; saved = id; fs = id }

-- `creds_of`, with the identity that the session presents and the host's.
unfoldable pub creds_of : ℕ × ℕ → Option ℕ × Option ℕ → Table → ℕ → Creds × Table
unfolding find_creds
creds_of (host_uid, host_gid) (uid, gid) table tgid = elim (find_creds table tgid) [
  | some c ↦ (c, table)
  | none ↦
      let u : ℕ = elim uid [ none ↦ host_uid | some u ↦ u ] in
      let g : ℕ = elim gid [ none ↦ host_gid | some g ↦ g ] in
      let c : Creds = record { user = same_ids u; group = same_ids g; groups = g ∷ [] } in
      (c, (tgid, c) ∷ table)
]
