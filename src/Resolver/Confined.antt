-- ===== src/Resolver/Confined.antt =====
-- Wherever the links lead, a resolved path stays inside the tree of its mount.
use vhdp.Base.{
  ltb, length, ◌&&◌, length, not, ℕ, zero, suc, Bool, true, false, List, [], ◌∷◌, ◌++◌, Bytes, ◌≡◌,
  ◌⊎◌, refl, subst, arith, inl, inr, Bool-cases, eq_bytes, eq_bytes_iff, if◌then◌else◌, All,
  All-append, All-pop_back, is_empty,
}
use vhdp.Path.{ends_in_slash, slash, dot, dotdot, components, build, is_below, is_absolute}
use vhdp.Path.Components.{IsComponent, components-IsComponent}
use vhdp.Path.Normalize.{IsName, IsNormal}
use vhdp.Mounts.{Mount, MountTable, mounts, to_host}
use vhdp.Mounts.Best.{In}
use vhdp.Mounts.Mapping.{HasCanonicalPaths, to_host-is_below}
use vhdp.Resolver.Kernel.{Host, Reply, ok, err, Stat}
use vhdp.Resolver.DirCache.{Cache}
use vhdp.Resolver.Links.{Options, leads, magic, link_target}
use vhdp.Resolver.{
  trailing, Target, take_link, eloop, after_reply, only_dots, Resolved, Walk, Link, Look, fails,
  goes, follows, look, visit, after_error, after_lstat, Answer, failed, resolved, finish,
  finish_magic, target_components, enter, loop,
}

-- What may stand in the queue: a name, ".." or ".".
abbrev pub IsPending : Bytes → Type 0
IsPending c = IsComponent c ⊎ (c ≡ dot)

-- A walk whose components are names.
abbrev pub IsWalk : Walk → Type 0
IsWalk w = All IsName w.done

-- A path that the table maps: normal, and below the host path of a mount of the table.
abbrev IsMapped : MountTable → Bytes → Mount → Bytes → Type 0
IsMapped t guest m host =
    IsNormal guest × (to_host t guest ≡ (m, host)) × In m (mounts t) × (is_below host m.host ≡ true)

data LookIsWalk (t : MountTable) : Look → Type 0 where
  stop : {e : ℕ} → LookIsWalk t (fails e)
  go_on : {w : Walk} → IsWalk w → LookIsWalk t (goes w)
  follow :
      {l : Link}
      → IsWalk l.walk
      → IsNormal l.guest
      → to_host t l.guest ≡ (l.mount, l.host)
      → LookIsWalk t (follows l)

LookIsWalk-if :
    (t : MountTable) (b : Bool) (x y : Look)
    → (b ≡ true → LookIsWalk t x)
    → (b ≡ false → LookIsWalk t y)
    → LookIsWalk t (if b then x else y)
LookIsWalk-if t true x y hx hy = hx refl
LookIsWalk-if t false x y hx hy = hy refl

ruleset walk_rules = (LookIsWalk-if, stop, go_on, follow, All-pop_back)

after_error-IsWalk :
    (t : MountTable) (last : Bool) (m : Mount) (w : Walk) (e : ℕ)
    → IsWalk w
    → LookIsWalk t (after_error last m w e)
unfolding after_error
after_error-IsWalk t last m w e h = search walk_rules

after_lstat-IsWalk :
    (h : Host) (t : MountTable) (o : Options) (must_follow : Bool) (m : Mount) (guest host : Bytes)
    (w : Walk) (st : Stat)
    → IsWalk w
    → IsNormal guest
    → to_host t guest ≡ (m, host)
    → LookIsWalk t (after_lstat h o must_follow m guest host w st)
unfolding after_lstat
after_lstat-IsWalk h t o must_follow m guest host w st iw n e = search walk_rules

IsName-pending :
    (c : Bytes) → IsPending c → eq_bytes c dot ≡ false → eq_bytes c dotdot ≡ false → IsName c
IsName-pending c p d dd = record {
  is_component = elim p [ inl h ↦ h | inr e ↦ absurd (ground (arith, eq_bytes_iff c dot)) ];
  ne_dotdot = λ e. ground (arith, eq_bytes_iff c dotdot);
}

after_reply-IsWalk :
    (h : Host) (t : MountTable) (o : Options) (pending : List Bytes) (m : Mount)
    (guest host : Bytes) (w : Walk) (r : Reply Stat)
    → IsWalk w
    → IsNormal guest
    → to_host t guest ≡ (m, host)
    → LookIsWalk t (after_reply h o pending m guest host w r)
unfolding after_reply
after_reply-IsWalk h t o pending m guest host w (err e) iw n s = after_error-IsWalk t _ m w e iw
after_reply-IsWalk h t o pending m guest host w (ok st) iw n s =
    after_lstat-IsWalk h t o _ m guest host w st iw n s

visit-IsWalk :
    (h : Host) (t : MountTable) (o : Options) (c : Bytes) (pending : List Bytes) (w : Walk)
    → IsWalk w
    → IsName c
    → LookIsWalk t (visit h t o c pending w)
unfolding visit
visit-IsWalk h t o c pending w iw n =
    let names = All-append IsName w.done (c ∷ []) iw (n, tt) in
    after_reply-IsWalk h t o pending _ _ _ (record w { done = w.done ++ c ∷ [] })
      (h.lstat (to_host t (build (w.done ++ c ∷ []))).1) names (w.done ++ c ∷ [], names, refl) refl

look-IsWalk :
    (h : Host) (t : MountTable) (o : Options) (c : Bytes) (pending : List Bytes) (w : Walk)
    → IsWalk w
    → IsPending c
    → LookIsWalk t (look h t o c pending w)
unfolding look
look-IsWalk h t o c pending w iw p = search (walk_rules, visit-IsWalk, IsName-pending) depth 9

-- What a successful answer promises: its host path is what the table maps its guest path to, below
-- the host path of a mount, up to one slash at the end.
pub record IsConfined (t : MountTable) (r : Resolved) : Type 0 where
  pub guest_normal : IsNormal r.guest
  pub mount_in : In r.mount (mounts t)
  pub host_path : Bytes
  pub mapped : to_host t r.guest ≡ (r.mount, host_path)
  pub below : is_below host_path r.mount.host ≡ true
  pub host_is : (r.host ≡ host_path) ⊎ (r.host ≡ host_path ++ slash ∷ [])

pub data AnswerIsConfined (t : MountTable) : Answer → Type 0 where
  no_path : {e : ℕ} → AnswerIsConfined t (failed e)
  at_path : {r : Resolved} → IsConfined t r → AnswerIsConfined t (resolved r)

IsPending-components : (cs : List Bytes) → All IsComponent cs → All IsPending cs
IsPending-components [] h = tt
IsPending-components (c ∷ cs) h = (inl h.0, IsPending-components cs h.1)

pub with_dot-IsPending : (p : Bytes) (b : Bool) → All IsPending (components p ++ trailing b)
unfolding trailing
with_dot-IsPending p true =
    All-append IsPending (components p) (dot ∷ [])
      (IsPending-components (components p) (components-IsComponent p)) (inr refl, tt)
with_dot-IsPending p false =
    All-append IsPending (components p) []
      (IsPending-components (components p) (components-IsComponent p)) tt

target_components-IsPending : (target : Bytes) → All IsPending (target_components target)
unfolding target_components
target_components-IsPending target =
    with_dot-IsPending target (ltb 1 (length target) && ends_in_slash target)

enter-IsWalk : (w : Walk) (target : Bytes) → IsWalk w → IsWalk (enter w target)
unfolding enter
enter-IsWalk w target iw = elim (Bool-cases (is_absolute target)) [
  | inl e ↦ rw e tt
  | inr e ↦ rw e (All-pop_back IsName w.done iw)
]

-- A path that the table maps, with or without a slash at its end, is confined.
confined :
    (t : MountTable) (r : Resolved) (host : Bytes)
    → HasCanonicalPaths t
    → IsNormal r.guest
    → to_host t r.guest ≡ (r.mount, host)
    → (r.host ≡ host) ⊎ (r.host ≡ host ++ slash ∷ [])
    → IsConfined t r
confined t r host paths n e s =
    let (i, b, _) = to_host-is_below t r.guest paths n in
    record {
      guest_normal = n;
      mount_in = subst (λ (x : Mount × Bytes). In x.0 (mounts t)) e i;
      host_path = host;
      mapped = e;
      below = subst (λ (x : Mount × Bytes). is_below x.1 x.0.host ≡ true) e b;
      host_is = s;
    }

AnswerIsConfined-if :
    (t : MountTable) (b : Bool) (x y : Answer)
    → AnswerIsConfined t x
    → AnswerIsConfined t y
    → AnswerIsConfined t (if b then x else y)
AnswerIsConfined-if t true x y hx hy = hx
AnswerIsConfined-if t false x y hx hy = hy

with_slash :
    (b : Bool) (s : Bytes)
    → let s' = if b then s ++ slash ∷ [] else s in (s' ≡ s) ⊎ (s' ≡ s ++ slash ∷ [])
with_slash true s = inr refl
with_slash false s = inl refl

module _ (t : MountTable) (paths : HasCanonicalPaths t) where
  finish-IsConfined :
      (slashed : Bool) (w : Walk) → IsWalk w → AnswerIsConfined t (finish t slashed w)
  unfolding finish
  finish-IsConfined slashed w iw =
      let (m, host) = to_host t (build w.done) in
      AnswerIsConfined-if t _ _ _ no_path (
        at_path (
          confined t _ host paths (w.done, iw, refl) refl
            (with_slash (slashed && not (ends_in_slash host)) host)))

  finish_magic-IsConfined :
      (last : Bool) (l : Link)
      → IsNormal l.guest
      → to_host t l.guest ≡ (l.mount, l.host)
      → AnswerIsConfined t (finish_magic last l)
  unfolding finish_magic
  finish_magic-IsConfined last l n e =
      AnswerIsConfined-if t (not last) _ _ no_path
        (at_path (confined t _ l.host paths n e (inl refl)))

  -- What the loop does with what the component has done, given that the rest is confined.
  out_of_links :
      (h : Host) (o : Options) (slashed : Bool) (pending : List Bytes) (w : Walk) (lk : Look)
      → LookIsWalk t lk
      → ((w' : Walk) → IsWalk w' → AnswerIsConfined t (loop h t o slashed 0 pending w').0)
      → AnswerIsConfined t
          (elim lk as (λ _. Answer × Cache) [
            | fails e ↦ (failed e, w.cache)
            | goes w' ↦ loop h t o slashed 0 pending w'
            | follows l ↦ (failed eloop, l.walk.cache)
          ]).0
  out_of_links h o slashed pending w _ stop rest = no_path
  out_of_links h o slashed pending w _ (go_on {w = w'} iw) rest = rest w' iw
  out_of_links h o slashed pending w _ (follow iw n e) rest = no_path

  take_link-IsConfined :
      (pending : List Bytes) (l : Link) (r : Reply Target) (go : Bytes → Answer × Cache)
      → IsNormal l.guest
      → to_host t l.guest ≡ (l.mount, l.host)
      → ((target : Bytes) → AnswerIsConfined t (go target).0)
      → AnswerIsConfined t (take_link pending l r go).0
  unfolding take_link
  take_link-IsConfined pending l (err e) go n s rest = no_path
  take_link-IsConfined pending l (ok magic) go n s rest =
      finish_magic-IsConfined (only_dots pending) l n s
  take_link-IsConfined pending l (ok (leads target)) go n s rest =
      elim (Bool-cases (is_empty target)) [ inl e ↦ rw e no_path | inr e ↦ rw e (rest target) ]

  with_links :
      (h : Host) (o : Options) (slashed : Bool) (budget : ℕ) (pending : List Bytes) (w : Walk)
      (lk : Look)
      → LookIsWalk t lk
      → ((w' : Walk)
          → IsWalk w'
          → AnswerIsConfined t (loop h t o slashed (suc budget) pending w').0)
      → ((target : Bytes) (w' : Walk)
          → IsWalk w'
          → AnswerIsConfined t
              (loop h t o slashed budget (target_components target ++ pending) w').0)
      → AnswerIsConfined t
          (elim lk as (λ _. Answer × Cache) [
            | fails e ↦ (failed e, w.cache)
            | goes w' ↦ loop h t o slashed (suc budget) pending w'
            | follows l ↦
                take_link pending l (link_target h t o l.mount l.guest l.host l.known) (λ target.
                  loop h t o slashed budget
                    (target_components target ++ pending)
                    (enter l.walk target))
          ]).0
  with_links h o slashed budget pending w _ stop rest there = no_path
  with_links h o slashed budget pending w _ (go_on {w = w'} iw) rest there = rest w' iw
  with_links h o slashed budget pending w _ (follow {l} iw n e) rest there =
      take_link-IsConfined pending l _ _ n e
        (λ target. there target (enter l.walk target) (enter-IsWalk l.walk target iw))

  pub loop-IsConfined :
      (h : Host) (o : Options) (slashed : Bool) (budget : ℕ) (pending : List Bytes) (w : Walk)
      → All IsPending pending
      → IsWalk w
      → AnswerIsConfined t (loop h t o slashed budget pending w).0
  unfolding loop
  loop-IsConfined h o slashed budget [] w p iw = finish-IsConfined slashed w iw
  loop-IsConfined h o slashed zero (c ∷ pending) w p iw =
      out_of_links h o slashed pending w (look h t o c pending w)
        (look-IsWalk h t o c pending w iw p.0)
        (λ w' iw'. loop-IsConfined h o slashed zero pending w' p.1 iw')
  loop-IsConfined h o slashed (suc budget) (c ∷ pending) w p iw =
      with_links h o slashed budget pending w (look h t o c pending w)
        (look-IsWalk h t o c pending w iw p.0)
        (λ w' iw'. loop-IsConfined h o slashed (suc budget) pending w' p.1 iw')
        (λ target w' iw'.
          loop-IsConfined h o slashed budget (target_components target ++ pending) w'
            (All-append IsPending (target_components target) pending
              (target_components-IsPending target) p.1)
            iw')
