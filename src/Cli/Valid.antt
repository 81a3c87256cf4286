-- ===== src/Cli/Valid.antt =====
-- What a successful parse of `phdp run` guarantees of its options.
use vhdp.Base.{
  ℕ, ◌≤◌, ◌<◌, ◌*◌, Bytes, true, List, [], ◌∷◌, ◌++◌, Option, some, none, ◌≡◌, refl, arith, All,
  All-append, eq_bytes, Option-cases, inl, inr, ltb, if-elim, ◌||◌,
}
use vhdp.Path.{is_absolute}
use vhdp.Cli.{
  RunOptions, default_run, has_key, set_id, set_timeout, set_event_fd, engines, networks,
  seccomp_modes, dev_modes, proc_modes, Result, ok, error, BindArg, max_timeout_ms, one_of,
  bind_parts, bind_guest, milliseconds, parse_timeout, parse_u32,
}

-- What holds of a value, if there is one.
abbrev If {ℓ} : {A : Type ℓ} → (A → Type 0) → Option A → Type 0
If P none = Unit
If P (some a) = P a

-- The options that a run may be given: known words, an absolute working directory, entries with
-- a key, absolute guest paths, and numbers in their ranges.
pub data IsRun (o : RunOptions) : Type 0 where
  valid :
      one_of o.engine engines ≡ true
      → one_of o.network networks ≡ true
      → one_of o.seccomp seccomp_modes ≡ true
      → one_of o.dev dev_modes ≡ true
      → one_of o.proc proc_modes ≡ true
      → If (λ p. is_absolute p ≡ true) o.cwd
      → All (λ kv. has_key kv ≡ true) o.env
      → All (λ b. is_absolute (BindArg.guest b) ≡ true) o.binds
      → If (λ ms. (0 < ms) × (ms ≤ max_timeout_ms)) o.timeout_ms
      → If (λ fd. (2 ≤ fd) × (fd ≤ 1024 * 1024)) o.event_fd
      → If (λ id. id ≤ 4294967294) o.uid
      → If (λ id. id ≤ 4294967294) o.gid
      → IsRun o

pub IsRun-default : IsRun default_run
unfolding one_of eq_bytes
IsRun-default = valid refl refl refl refl refl tt tt tt tt tt tt tt

pub engine-IsRun :
    (v : Bytes) (o : RunOptions)
    → one_of v engines ≡ true
    → IsRun o
    → IsRun (record o { engine = v })
engine-IsRun v o p (valid a b c d e f g h i j k l) = valid p b c d e f g h i j k l

pub network-IsRun :
    (v : Bytes) (o : RunOptions)
    → one_of v networks ≡ true
    → IsRun o
    → IsRun (record o { network = v })
network-IsRun v o p (valid a b c d e f g h i j k l) = valid a p c d e f g h i j k l

pub seccomp-IsRun :
    (v : Bytes) (o : RunOptions)
    → one_of v seccomp_modes ≡ true
    → IsRun o
    → IsRun (record o { seccomp = v })
seccomp-IsRun v o p (valid a b c d e f g h i j k l) = valid a b p d e f g h i j k l

pub dev-IsRun :
    (v : Bytes) (o : RunOptions)
    → one_of v dev_modes ≡ true
    → IsRun o
    → IsRun (record o { dev = v })
dev-IsRun v o p (valid a b c d e f g h i j k l) = valid a b c p e f g h i j k l

pub proc-IsRun :
    (v : Bytes) (o : RunOptions)
    → one_of v proc_modes ≡ true
    → IsRun o
    → IsRun (record o { proc = v })
proc-IsRun v o p (valid a b c d e f g h i j k l) = valid a b c d p f g h i j k l

pub cwd-IsRun :
    (v : Bytes) (o : RunOptions)
    → is_absolute v ≡ true
    → IsRun o
    → IsRun (record o { cwd = some v })
cwd-IsRun v o p (valid a b c d e f g h i j k l) = valid a b c d e p g h i j k l

pub env-IsRun :
    (v : Bytes) (o : RunOptions)
    → has_key v ≡ true
    → IsRun o
    → IsRun (record o { env = o.env ++ v ∷ [] })
env-IsRun v o p (valid a b c d e f g h i j k l) =
    valid a b c d e f (All-append (λ kv. has_key kv ≡ true) o.env (v ∷ []) g (p, tt)) h i j k l

pub bind-IsRun :
    (v : BindArg) (o : RunOptions)
    → is_absolute v.guest ≡ true
    → IsRun o
    → IsRun (record o { binds = o.binds ++ v ∷ [] })
bind-IsRun v o p (valid a b c d e f g h i j k l) =
    valid a b c d e f g
      (All-append (λ b'. is_absolute (BindArg.guest b') ≡ true) o.binds (v ∷ []) h (p, tt)) i j k l

pub timeout-IsRun :
    (v : ℕ) (o : RunOptions)
    → (0 < v) × (v ≤ max_timeout_ms)
    → IsRun o
    → IsRun (record o { timeout_ms = some v })
timeout-IsRun v o p (valid a b c d e f g h i j k l) = valid a b c d e f g h p j k l

pub event_fd-IsRun :
    (v : ℕ) (o : RunOptions)
    → (2 ≤ v) × (v ≤ 1024 * 1024)
    → IsRun o
    → IsRun (record o { event_fd = some v })
event_fd-IsRun v o p (valid a b c d e f g h i j k l) = valid a b c d e f g h i p k l

pub uid-IsRun :
    (v : ℕ) (o : RunOptions) → v ≤ 4294967294 → IsRun o → IsRun (record o { uid = some v })
uid-IsRun v o p (valid a b c d e f g h i j k l) = valid a b c d e f g h i j p l

pub gid-IsRun :
    (v : ℕ) (o : RunOptions) → v ≤ 4294967294 → IsRun o → IsRun (record o { gid = some v })
gid-IsRun v o p (valid a b c d e f g h i j k l) = valid a b c d e f g h i j k p

pub rootfs-IsRun : (v : Bytes) (o : RunOptions) → IsRun o → IsRun (record o { rootfs = v })
rootfs-IsRun v o (valid a b c d e f g h i j k l) = valid a b c d e f g h i j k l

pub command-IsRun : (v : List Bytes) (o : RunOptions) → IsRun o → IsRun (record o { command = v })
command-IsRun v o (valid a b c d e f g h i j k l) = valid a b c d e f g h i j k l

-- Options that are valid, or an error.
pub data Good : Result RunOptions → Type 0 where
  good : {o : RunOptions} → IsRun o → Good (ok o)
  bad : {m : Bytes} → Good (error m)

parse_timeout-bounded :
    (v : Bytes) {ms : ℕ} → parse_timeout v ≡ some ms → (0 < ms) × (ms ≤ max_timeout_ms)
unfolding parse_timeout milliseconds
parse_timeout-bounded v h = ground arith

pub bind_parts-absolute :
    (spec : Bytes) (parts : List Bytes) {b : BindArg}
    → bind_parts spec parts ≡ ok b
    → is_absolute b.guest ≡ true
unfolding bind_parts bind_guest
bind_parts-absolute spec [] h = cc
bind_parts-absolute spec (_ ∷ []) h = cc
bind_parts-absolute spec (host ∷ guest ∷ modes) h = ground arith

pub set_timeout-Good : (v : Bytes) (o : RunOptions) → IsRun o → Good (set_timeout v o)
unfolding set_timeout
set_timeout-Good v o g = elim (Option-cases (parse_timeout v)) [
  | inl e ↦ rw (e, set_timeout) bad
  | inr (ms, e) ↦ rw (e, set_timeout) (good (timeout-IsRun ms o (parse_timeout-bounded v e) g))
]

pub set_event_fd-Good : (v : Bytes) (o : RunOptions) → IsRun o → Good (set_event_fd v o)
unfolding set_event_fd
set_event_fd-Good v o g = elim (Option-cases (parse_u32 v)) [
  | inl e ↦ rw (e, set_event_fd) bad
  | inr (fd, e) ↦
      rw (e, set_event_fd)
        (if-elim Good (ltb fd 2 || ltb (1024 * 1024) fd) (λ _. bad)
          (λ f. good (event_fd-IsRun fd o (ground arith, ground arith) g)))
]

parse_u32-bounded : (v : Bytes) {n : ℕ} → parse_u32 v ≡ some n → n ≤ 4294967294
unfolding parse_u32
parse_u32-bounded v h = ground arith

pub set_id-Good :
    (name v : Bytes) (put : ℕ → RunOptions)
    → ((n : ℕ) → n ≤ 4294967294 → IsRun (put n))
    → Good (set_id name v put)
unfolding set_id
set_id-Good name v put g = elim (Option-cases (parse_u32 v)) [
  | inl e ↦ rw (e, set_id) bad
  | inr (id, e) ↦ rw (e, set_id) (good (g id (parse_u32-bounded v e)))
]
