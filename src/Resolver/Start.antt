-- ===== src/Resolver/Start.antt =====
-- A whole resolution, from its checks and the directory cache on, is confined.
use vhdp.Base.{
  length-append, ◌-◌, leb, ◌&&◌, length, ◌≤◌, not, ℕ, zero, suc, Bool, true, false, List, [], ◌∷◌,
  ◌++◌, Bytes, ◌≡◌, refl, ap, subst, arith, inl, inr, Bool-cases, eq_bytes_iff, if◌then◌else◌, All,
  take, drop,
}
use vhdp.Path.{path_max, any_dotdot, dotdot, components, is_absolute}
use vhdp.Path.Components.{IsComponent, components-IsComponent}
use vhdp.Path.Normalize.{IsName}
use vhdp.Mounts.{MountTable}
use vhdp.Mounts.Mapping.{HasCanonicalPaths}
use vhdp.Resolver.Kernel.{Host}
use vhdp.Resolver.DirCache.{Cache}
use vhdp.Resolver.Links.{Options}
use vhdp.Resolver.Confined.{
  IsPending, AnswerIsConfined, no_path, at_path, IsConfined, loop-IsConfined, with_dot-IsPending,
}
use vhdp.Resolver.{
  trailing, resolve_components, Resolved, Answer, failed, resolved, resolve, start, cached_prefix,
}

-- The components that the cache covers are taken off the front of the queue.
All-take : (n : ℕ) (cs : List Bytes) → All IsName cs → All IsName (take n cs)
All-take zero cs h = tt
All-take (suc n) [] h = tt
All-take (suc n) (c ∷ cs) h = (h.0, All-take n cs h.1)

All-drop : (n : ℕ) (cs : List Bytes) → All IsPending cs → All IsPending (drop n cs)
All-drop zero cs h = h
All-drop (suc n) [] h = tt
All-drop (suc n) (c ∷ cs) h = All-drop n cs h.1

take-append : (n : ℕ) (cs ds : List Bytes) → n ≤ length cs → take n (cs ++ ds) ≡ take n cs
take-append zero cs ds h = refl
take-append (suc n) [] ds h = absurd (omega arith)
take-append (suc n) (c ∷ cs) ds h = ap (◌∷◌ c) (take-append n cs ds (omega arith))

any_dotdot-append : (cs ds : List Bytes) → any_dotdot (cs ++ ds) ≡ false → any_dotdot cs ≡ false
unfolding any_dotdot
any_dotdot-append [] ds h = refl
any_dotdot-append (c ∷ cs) ds h = ground (arith, any_dotdot-append cs ds)

names_of : (cs : List Bytes) → All IsComponent cs → any_dotdot cs ≡ false → All IsName cs
unfolding any_dotdot
names_of [] h d = tt
names_of (c ∷ cs) h d = (
  record { is_component = h.0; ne_dotdot = λ e. ground (arith, eq_bytes_iff c dotdot) },
  names_of cs h.1 (ground arith),
)

cached_prefix-le :
    (h : Host) (pending : List Bytes) (n : ℕ) (c : Cache) → (cached_prefix h pending n c).0 ≤ n
unfolding cached_prefix
cached_prefix-le h pending zero c = omega arith
cached_prefix-le h pending (suc n) c = ground (arith, cached_prefix-le h pending n c)

front_names :
    (cs ds : List Bytes) (n : ℕ)
    → All IsComponent cs
    → any_dotdot (cs ++ ds) ≡ false
    → n ≤ length cs
    → All IsName (take n (cs ++ ds))
front_names cs ds n h d l =
    rw (take-append n cs ds l) (All-take n cs (names_of cs h (any_dotdot-append cs ds d)))

middle_false : (a b c : Bool) → (a && not b && c) ≡ true → b ≡ false
middle_false a b c h = ground arith

started :
    (h : Host) (o : Options) (cs ds : List Bytes) (slashed : Bool) (c : Cache)
    → All IsComponent cs
    → length ds ≡ (if slashed then 1 else 0)
    → All IsName (take (start h o (cs ++ ds) slashed c).0 (cs ++ ds))
unfolding start
started h o cs ds slashed c comps l =
    elim (Bool-cases (o.use_cache && not (any_dotdot (cs ++ ds)) && leb 2 (length (cs ++ ds)))) [
      | inr e ↦ rw e tt
      | inl e ↦ rw e (
          front_names cs ds _ comps (middle_false o.use_cache _ _ e) (
            omega (
              arith,
              cached_prefix-le h (cs ++ ds) (length (cs ++ ds) - 1 - (if slashed then 1 else 0)) c,
              length-append cs ds,
              l,
            )))
    ]

length-trailing : (slashed : Bool) → length (trailing slashed) ≡ (if slashed then 1 else 0)
unfolding trailing
length-trailing true = refl
length-trailing false = refl

Answer-inversion :
    {t : MountTable} {a : Answer} (r : Resolved)
    → AnswerIsConfined t a
    → a ≡ resolved r
    → IsConfined t r
Answer-inversion r no_path e = cc
Answer-inversion {t} r (at_path {r = r'} c) e = subst (IsConfined t) (ap (answered r) e) c
  where
    answered : Resolved → Answer → Resolved
    answered d (failed _) = d
    answered d (resolved x) = x

resolve_components-IsConfined :
    (h : Host) (t : MountTable) (guest_abs : Bytes) (slashed : Bool) (o : Options) (c : Cache)
    → HasCanonicalPaths t
    → AnswerIsConfined t (resolve_components h t guest_abs slashed o c).0
unfolding resolve_components
resolve_components-IsConfined h t guest_abs slashed o c paths =
    loop-IsConfined t paths h o slashed o.max_symlinks _ _
      (All-drop _ _ (with_dot-IsPending guest_abs slashed))
      (started h o (components guest_abs) (trailing slashed) slashed c
        (components-IsComponent guest_abs) (length-trailing slashed))

-- In a table of canonical paths, whose first mount is the root file system's, and whatever the
-- symbolic links on the way, a resolution that succeeds returns a normal guest path,
-- the mount of the table that it belongs to, and the host path that the table maps it to (with a
-- slash at the end if the path asked for one), which is below the host path of that mount.
pub resolve-IsConfined :
    (h : Host) (t : MountTable) (guest_abs : Bytes) (o : Options) (c : Cache) {r : Resolved}
    → HasCanonicalPaths t
    → (resolve h t guest_abs o c).0 ≡ resolved r
    → IsConfined t r
unfolding resolve
resolve-IsConfined h t guest_abs o c {r} paths e =
    Answer-inversion r
      (elim (Bool-cases (is_absolute guest_abs)) [
        | inr a ↦ rw a no_path
        | inl a ↦ rw a (elim (Bool-cases (leb path_max (length guest_abs))) [
          | inl l ↦ rw l no_path
          | inr l ↦ rw l (resolve_components-IsConfined h t guest_abs _ o c paths)
        ])
      ])
      e
