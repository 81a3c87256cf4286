-- ===== src/Config/Valid.antt =====
-- What `validate_config` guarantees of the configuration that it returns.
use vhdp.Base.{
  length, ◌+◌, ◌*◌, ◌≤◌, Bytes, List, [], ◌∷◌, Option, true, false, ◌&&◌, ◌≡◌, ◌≢◌, refl, arith,
  eq_bytes, eq_bytes_iff, ap, subst, inl, inr, codes, ◌⊎◌,
}
use vhdp.Path.{normalize_lexical, is_below, root}
use vhdp.Path.Normalize.{IsNormal, normalize_lexical-IsNormal}
use vhdp.Status.{Code, Status, Result, value, failure}
use vhdp.Config.{
  check_guest, rootfs_invalid, validate_binds, bind_invalid, with_guest, take_bind, Machine,
  SessionConfig, ValidatedConfig, BindSpec, ProcMode, is_proc_host, check_binds, has_path,
  check_root, final_env, validate_config, sum_bytes, canonical_dir,
}

value-out {ℓ} : {A : Type ℓ} {a b : A} → value a ≡ value b → a ≡ b
value-out {a = a} h = ap (λ r. elim r [ value x ↦ x | failure _ ↦ a ]) h

-- The binds behind those whose guest paths are `seen`.
pub data IsBinds (proc : ProcMode) : List Bytes → List BindSpec → Type 0 where
  no_binds : {seen : List Bytes} → IsBinds proc seen []
  one_more :
      {seen : List Bytes} {b : BindSpec} {binds : List BindSpec}
      → IsNormal b.guest
      → b.guest ≢ root
      → (is_proc_host proc ≡ true → is_below b.guest (codes "/proc") ≡ false)
      → has_path b.guest seen ≡ false
      → IsBinds proc (b.guest ∷ seen) binds
      → IsBinds proc seen (b ∷ binds)

not_equal : (a b : Bytes) → eq_bytes a b ≡ false → a ≢ b
not_equal a b h e = cc ((eq_bytes_iff a b).1 e)

Result-cases {ℓ} :
    {A : Type ℓ} (r : Result A) → ((a : A) × (r ≡ value a)) ⊎ ((s : Status) × (r ≡ failure s))
Result-cases (value a) = inl (a, refl)
Result-cases (failure s) = inr (s, refl)

with_guest_guest :
    (b : BindSpec) (g : Bytes) (r : Result Bytes) {out : BindSpec}
    → with_guest b g r ≡ value out
    → out.guest ≡ g
with_guest_guest b g (value p) h = cc
with_guest_guest b g (failure s) h = cc

take_bind-tests :
    (m : Machine) (proc : ProcMode) (seen : List Bytes) (b : BindSpec) {out : BindSpec}
    → take_bind m proc seen b ≡ value out
    → (eq_bytes (normalize_lexical b.guest) root ≡ false)
      × ((is_proc_host proc && is_below (normalize_lexical b.guest) (codes "/proc")) ≡ false)
      × (has_path (normalize_lexical b.guest) seen ≡ false)
      × (with_guest b
            (normalize_lexical b.guest)
            (canonical_dir m b.host bind_invalid (codes "bind source"))
          ≡ value out)
unfolding take_bind
take_bind-tests m proc seen b h = ground arith

-- What the checks of one bind establish.
take_bind-passed :
    (m : Machine) (proc : ProcMode) (seen : List Bytes) (b : BindSpec) {out : BindSpec}
    → take_bind m proc seen b ≡ value out
    → (out.guest ≡ normalize_lexical b.guest)
      × (eq_bytes out.guest root ≡ false)
      × ((is_proc_host proc && is_below out.guest (codes "/proc")) ≡ false)
      × (has_path out.guest seen ≡ false)
unfolding take_bind
take_bind-passed m proc seen b {out = out} h =
    let t = take_bind-tests m proc seen b h in
    let e : out.guest ≡ normalize_lexical b.guest =
      with_guest_guest b (normalize_lexical b.guest) _ t.3 in
    (e, rw e t.0, rw e t.1, rw e t.2)

check_binds-IsBinds :
    (m : Machine) (proc : ProcMode) (seen : List Bytes) (binds : List BindSpec)
    {out : List BindSpec}
    → check_binds m proc seen binds ≡ value out
    → IsBinds proc seen out
unfolding check_binds
check_binds-IsBinds m proc seen [] {out = out} h = subst (IsBinds proc seen) (value-out h) no_binds
check_binds-IsBinds m proc seen (b ∷ binds) {out = out} h =
    elim (Result-cases (take_bind m proc seen b)) [
      | inr (s, e) ↦ cc (rw (e, check_binds) at h)
      | inl (taken, e) ↦
          let t = take_bind-passed m proc seen b e in
          let h' = rw (e, check_binds) at h in
          elim (Result-cases (check_binds m proc (taken.guest ∷ seen) binds)) [
            | inr (s, r) ↦ cc (rw (r, check_binds) at h')
            | inl (rest, r) ↦ subst (IsBinds proc seen) (value-out (rw (r, check_binds) at h')) (
                one_more (rw t.0 (normalize_lexical-IsNormal b.guest))
                  (not_equal taken.guest root t.1) (λ p. ground arith) t.3
                  (check_binds-IsBinds m proc (taken.guest ∷ seen) binds r))
          ]
    ]

-- What a validated configuration guarantees, where `c` is the one that was given.
pub record IsValid (m : Machine) (c : SessionConfig) (v : ValidatedConfig) : Type 0 where
  pub rootfs_canonical : m.real_path c.rootfs ≡ inl v.cfg.rootfs
  pub rootfs_is_dir : m.is_dir v.cfg.rootfs ≡ true
  pub rootfs_not_host : v.cfg.rootfs ≢ root
  pub cwd_normal : IsNormal v.cfg.cwd
  pub bytes_bounded : sum_bytes c.argv + sum_bytes v.final_env ≤ 256 * 1024
  pub binds_at_most : length c.binds ≤ 256
  pub binds_valid : IsBinds c.proc [] v.cfg.binds

canonical_dir-real_path :
    (m : Machine) (p : Bytes) (code : Code) (what : Bytes) {out : Bytes}
    → canonical_dir m p code what ≡ value out
    → m.real_path p ≡ inl out
unfolding canonical_dir
canonical_dir-real_path m p code what h = ground arith

check_root-passed :
    (m : Machine) (p : Bytes) {out : Bytes}
    → check_root m p ≡ value out
    → (m.real_path p ≡ inl out) × (m.is_dir out ≡ true) × (eq_bytes out root ≡ false)
unfolding check_root
check_root-passed m p {out = out} h =
    elim (Result-cases (canonical_dir m p rootfs_invalid (codes "rootfs"))) [
      | inr (s, e) ↦ ground arith
      | inl (a, e) ↦
          let q = canonical_dir-real_path m p rootfs_invalid (codes "rootfs") e in
          (ground arith, ground arith, ground arith)
    ]

final_env-bounded :
    (c : SessionConfig) (host_env : Option (Bytes → Option Bytes)) {out : List Bytes}
    → final_env c host_env ≡ value out
    → sum_bytes c.argv + sum_bytes out ≤ 256 * 1024
unfolding final_env
final_env-bounded c host_env h = ground arith

validate_binds-passed :
    (m : Machine) (c : SessionConfig) (rootfs : Bytes) (env : List Bytes) {v : ValidatedConfig}
    → validate_binds m c rootfs env ≡ value v
    → (v.cfg.rootfs ≡ rootfs)
      × (v.cfg.cwd ≡ normalize_lexical c.cwd)
      × (v.final_env ≡ env)
      × (check_binds m c.proc [] c.binds ≡ value v.cfg.binds)
      × (length c.binds ≤ 256)
unfolding validate_binds
validate_binds-passed m c rootfs env h = ground arith

validate_config-steps :
    (m : Machine) (c : SessionConfig) (host_env : Option (Bytes → Option Bytes))
    {v : ValidatedConfig}
    → validate_config m c host_env ≡ value v
    → (rootfs : Bytes) × (env : List Bytes) × (check_root m c.rootfs ≡ value rootfs)
      × (final_env c host_env ≡ value env)
      × (validate_binds m c rootfs env ≡ value v)
unfolding validate_config
validate_config-steps m c host_env h = elim (Result-cases (check_root m c.rootfs)) [
  | inr (s, e) ↦ cc (rw (e, validate_config) at h)
  | inl (rootfs, r) ↦
      let h1 = rw (r, validate_config) at h in
      elim (Result-cases (check_guest c)) [
        | inr (s, e) ↦ cc (rw e at h1)
        | inl (_, g) ↦
            let h2 = rw g at h1 in
            elim (Result-cases (final_env c host_env)) [
              | inr (s, e) ↦ cc (rw e at h2)
              | inl (env, e) ↦ (rootfs, env, r, e, rw e at h2)
            ]
      ]
]

-- A configuration that passes has the canonical root directory, which is not the host's root, a
-- normalised working directory, arguments and environment of at most 256 KiB, and at most 256 binds,
-- whose guest paths are normalised, pairwise different, not the guest's root and, where the host's /proc is
-- shown, not below /proc.
pub validate_config-IsValid :
    (m : Machine) (c : SessionConfig) (host_env : Option (Bytes → Option Bytes))
    {v : ValidatedConfig}
    → validate_config m c host_env ≡ value v
    → IsValid m c v
validate_config-IsValid m c host_env {v = v} h =
    let (rootfs, env, r, e, h') = validate_config-steps m c host_env h in
    let b = validate_binds-passed m c rootfs env {v = v} h' in
    let passed = check_root-passed m c.rootfs r in
    record {
      rootfs_canonical = rw b.0 passed.0;
      rootfs_is_dir = rw b.0 passed.1;
      rootfs_not_host = rw b.0 (not_equal _ _ passed.2);
      cwd_normal = rw b.1 (normalize_lexical-IsNormal c.cwd);
      bytes_bounded = rw b.2 (final_env-bounded c host_env e);
      binds_at_most = b.4;
      binds_valid = check_binds-IsBinds m c.proc [] c.binds b.3;
    }
