-- ===== src/Mounts/Best.antt =====
-- The mount that a path belongs to: the one with the longest prefix.
use mathlib.Core.Option.{some-injective}
use vhdp.Base.{
  ◌↔◌, eq_bytes_iff, All, true, false, ◌≤◌, List, [], ◌∷◌, ◌≡◌, ◌⊎◌, refl, sym, ap, ◌∙◌, arith,
  Bytes, Option, some, none, subst, eq_bytes, Bool-cases, inl, inr, ltb, length, take,
}
use vhdp.Path.{root, is_below, is_absolute, build, concat_slashed}
use vhdp.Path.Normalize.{IsName, IsNormal}
use vhdp.Mounts.{Mount, MountTable, mounts, pick, longest, mount_for_guest}

-- The mount stands in the list.
abbrev pub In : Mount → List Mount → Type 0
In m [] = ⊥
In m (x ∷ xs) = (m ≡ x) ⊎ In m xs

-- `m` is a mount of the list that the path is below, and no such mount has a longer prefix.
pub record IsLongest (side : Mount → Bytes) (path : Bytes) (ms : List Mount) (m : Mount)
    : Type 0 where
  pub is_in : In m ms
  pub below : is_below path (side m) ≡ true
  pub longer :
      (x : Mount) → In x ms → is_below path (side x) ≡ true → length (side x) ≤ length (side m)

module _ (side : Mount → Bytes) (path : Bytes) where
  -- What a round does to the mount found so far.
  pick-cases :
      (best : Option Mount) (x : Mount)
      → ((pick side path best x ≡ some x)
          × (is_below path (side x) ≡ true)
          × ((b : Mount) → best ≡ some b → length (side b) ≤ length (side x)))
        ⊎ ((pick side path best x ≡ best)
            × (is_below path (side x) ≡ true
                → (b : Mount) × (best ≡ some b) × (length (side x) ≤ length (side b))))
  unfolding pick
  pick-cases best x = elim (Bool-cases (is_below path (side x))) [
    | inr e ↦ inr (rw e, λ h. cc)
    | inl e ↦ below best e
  ]
    where
      below :
          (o : Option Mount)
          → is_below path (side x) ≡ true
          → ((pick side path o x ≡ some x)
              × (is_below path (side x) ≡ true)
              × ((b : Mount) → o ≡ some b → length (side b) ≤ length (side x)))
            ⊎ ((pick side path o x ≡ o)
                × (is_below path (side x) ≡ true
                    → (b : Mount) × (o ≡ some b) × (length (side x) ≤ length (side b))))
      below none e = inl (rw e, e, λ b p. cc)
      below (some b) e = elim (Bool-cases (ltb (length (side b)) (length (side x)))) [
        | inl l ↦ inl (rw (e, l), e, λ c p. ground arith)
        | inr l ↦ inr (rw (e, l), λ h. (b, refl, ground arith))
      ]

  -- What the loop has found when it held `best` with `ms` to go.
  record Found (best : Option Mount) (ms : List Mount) (m : Mount) : Type 0 where
    from : (best ≡ some m) ⊎ (In m ms × (is_below path (side m) ≡ true))
    ge_best : (b : Mount) → best ≡ some b → length (side b) ≤ length (side m)
    ge_rest :
        (x : Mount) → In x ms → is_below path (side x) ≡ true → length (side x) ≤ length (side m)

  Found-taken :
      (best : Option Mount) (x : Mount) (ms : List Mount) (m : Mount)
      → is_below path (side x) ≡ true
      → ((b : Mount) → best ≡ some b → length (side b) ≤ length (side x))
      → Found (some x) ms m
      → Found best (x ∷ ms) m
  Found-taken best x ms m e le f = record {
    from = elim f.from [
      | inl p ↦ inr (
        inl (some-injective m x (sym p)),
        subst (λ y. is_below path (side y) ≡ true) (some-injective x m p) e,
      )
      | inr (i, b) ↦ inr (inr i, b)
    ];
    ge_best = λ b p. omega (arith, le b p, f.ge_best x refl);
    ge_rest = λ y i b. elim i [ inl q ↦ rw q (f.ge_best x refl) | inr j ↦ f.ge_rest y j b ];
  }

  Found-kept :
      (best : Option Mount) (x : Mount) (ms : List Mount) (m : Mount)
      → (is_below path (side x) ≡ true
          → (b : Mount) × (best ≡ some b) × (length (side x) ≤ length (side b)))
      → Found best ms m
      → Found best (x ∷ ms) m
  Found-kept best x ms m le f = record {
    from = elim f.from [ inl p ↦ inl p | inr (i, b) ↦ inr (inr i, b) ];
    ge_best = f.ge_best;
    ge_rest = λ y i h. elim i [
      | inl q ↦
          let (b, p, l) = le (subst (λ z. is_below path (side z) ≡ true) q h) in
          rw q (omega (arith, l, f.ge_best b p))
      | inr j ↦ f.ge_rest y j h
    ];
  }

  longest-Found :
      (best : Option Mount) (ms : List Mount) (m : Mount)
      → longest side path best ms ≡ some m
      → Found best ms m
  unfolding longest
  longest-Found best [] m e = record {
    from = inl e;
    ge_best = λ b p. ground arith;
    ge_rest = λ x h p. absurd h;
  }
  longest-Found best (x ∷ ms) m e =
      let rest = longest-Found (pick side path best x) ms m e in
      elim (pick-cases best x) [
        | inl (p, h, le) ↦ Found-taken best x ms m h le (rw p at rest)
        | inr (p, le) ↦ Found-kept best x ms m le (rw p at rest)
      ]

  pub longest-IsLongest :
      (ms : List Mount) (m : Mount) → longest side path none ms ≡ some m → IsLongest side path ms m
  longest-IsLongest ms m e =
      let f = longest-Found none ms m e in
      elim f.from [ inl p ↦ cc | inr (i, b) ↦ record { is_in = i; below = b; longer = f.ge_rest } ]

  longest_some :
      (b : Mount) (ms : List Mount) → (m : Mount) × (longest side path (some b) ms ≡ some m)
  unfolding longest
  longest_some b [] = (b, refl)
  longest_some b (x ∷ ms) = elim (pick-cases (some b) x) [
    | inl (p, _, _) ↦ rw p (longest_some x ms)
    | inr (p, _) ↦ rw p (longest_some b ms)
  ]

below_root : (guest : Bytes) → is_absolute guest ≡ true → is_below guest root ≡ true
unfolding is_below eq_bytes
below_root guest a = a

pick_first :
    (m : Mount) (guest : Bytes)
    → is_below guest m.guest ≡ true
    → pick (λ x. x.guest) guest none m ≡ some m
unfolding pick
pick_first m guest h = rw h

first_round :
    (t : MountTable) (guest : Bytes)
    → is_below guest t.front.guest ≡ true
    → longest (λ x. x.guest) guest none (mounts t)
      ≡ longest (λ x. x.guest) guest (some t.front) t.added
unfolding longest
first_round t guest h =
    ap (λ o. longest (λ x. x.guest) guest o t.added) (pick_first t.front guest h)

-- `mount_for_guest` returns a mount of the table that the path is below, and no mount of the table
-- that the path is below has a longer guest path. For an absolute path it does return one, if the
-- first mount is the root file system's.
pub mount_for_guest-IsLongest :
    (t : MountTable) (guest : Bytes)
    → t.front.guest ≡ root
    → is_absolute guest ≡ true
    → (m : Mount) × (mount_for_guest t guest ≡ some m) × IsLongest (λ x. x.guest) guest (mounts t) m
unfolding mount_for_guest
mount_for_guest-IsLongest t guest r a =
    let first : is_below guest t.front.guest ≡ true = rw r (below_root guest a) in
    let (m, e) = longest_some (λ x. x.guest) guest t.front t.added in
    let all : longest (λ x. x.guest) guest none (mounts t) ≡ some m =
      first_round t guest first ∙ e in
    (m, all, longest-IsLongest (λ x. x.guest) guest (mounts t) m all)

-- A table whose guest paths are normal and name one mount each.
pub record IsTable (t : MountTable) : Type 0 where
  pub front_root : t.front.guest ≡ root
  pub normal : (m : Mount) → In m (mounts t) → IsNormal m.guest
  pub distinct : (x y : Mount) → In x (mounts t) → In y (mounts t) → x.guest ≡ y.guest → x ≡ y

normal_root : (bs : List Bytes) → All IsName bs → length (build bs) ≤ 1 → build bs ≡ root
unfolding build concat_slashed
normal_root [] h l = refl
normal_root ([] ∷ bs) h l = absurd (h.0.is_component.ne_empty refl)
normal_root ((x ∷ b) ∷ bs) h l = absurd (omega arith)

below_nonroot :
    (path p : Bytes) → eq_bytes p root ≡ false → is_below path p ≡ true → take (length p) path ≡ p
unfolding is_below
below_nonroot path p n h = ground (arith, eq_bytes_iff (take (length p) path) p)

-- A path has one normal prefix of each length.
below_determined :
    (path p q : Bytes)
    → IsNormal p
    → IsNormal q
    → is_below path p ≡ true
    → is_below path q ≡ true
    → length p ≡ length q
    → p ≡ q
below_determined path p q (ps, hp, ep) (qs, hq, eq) bp bq l = elim (Bool-cases (eq_bytes p root)) [
  | inl r ↦
      let one : p ≡ root = (eq_bytes_iff p root).0 r in
      one ∙ sym (eq ∙ normal_root qs hq (omega (arith, ap length one, ap length eq)))
  | inr r ↦ elim (Bool-cases (eq_bytes q root)) [
    | inl s ↦
        let one : q ≡ root = (eq_bytes_iff q root).0 s in
        ep ∙ normal_root ps hp (omega (arith, ap length one, ap length ep)) ∙ sym one
    | inr s ↦ sym (below_nonroot path p r bp) ∙ ap (λ n. take n path) l ∙ below_nonroot path q s bq
  ]
]

-- The order in which mounts were added does not matter: two tables of the same mounts, with normal
-- guest paths that name one mount each, find the same mount for every absolute path.
pub mount_for_guest_order :
    (t t' : MountTable) (guest : Bytes)
    → IsTable t
    → IsTable t'
    → ((m : Mount) → In m (mounts t) ↔ In m (mounts t'))
    → is_absolute guest ≡ true
    → mount_for_guest t guest ≡ mount_for_guest t' guest
mount_for_guest_order t t' guest h h' same a =
    let (m, e, l) = mount_for_guest-IsLongest t guest h.front_root a in
    let (m', e', l') = mount_for_guest-IsLongest t' guest h'.front_root a in
    let i : In m' (mounts t) = (same m').1 l'.is_in in
    let len : length m.guest ≡ length m'.guest =
      omega (arith, l.longer m' i l'.below, l'.longer m ((same m).0 l.is_in) l.below) in
    let guests : m.guest ≡ m'.guest =
      below_determined guest m.guest m'.guest (h.normal m l.is_in) (h.normal m' i) l.below l'.below
        len in
    e ∙ ap some (h.distinct m m' l.is_in i guests) ∙ sym e'
