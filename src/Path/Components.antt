-- ===== src/Path/Components.antt =====
-- What `components` returns, and that it inverts the printing of components behind slashes.
use vhdp.Base.{
  ℕ, List, [], ◌∷◌, ◌++◌, ◌≡◌, ◌≢◌, refl, ◌∙◌, arith, Bytes, eq_bytes, eq_bytes_iff, ◌==◌, All,
  All-append, Bool-cases, inl, inr, append-nil, append_assoc,
}
use vhdp.Path.{slash, dot, emit, scan, components, concat_slashed, build}

-- No byte is a slash.
abbrev pub NoSlash : Bytes → Type 0
NoSlash [] = Unit
NoSlash (c ∷ cs) = (c ≢ slash) × NoSlash cs

-- A name that can stand between slashes: not empty, not ".", with no slash.
pub record IsComponent (c : Bytes) : Type 0 where
  pub ne_empty : c ≢ []
  pub ne_dot : c ≢ dot
  pub no_slash : NoSlash c

NoSlash-concat : (r : Bytes) (c : ℕ) → NoSlash r → c ≢ slash → NoSlash (r ++ c ∷ [])
NoSlash-concat [] c h k = (k, tt)
NoSlash-concat (x ∷ r) c h k = (h.0, NoSlash-concat r c h.1 k)

emit-All : (r : Bytes) → NoSlash r → All IsComponent (emit r)
unfolding emit
emit-All [] h = tt
emit-All (x ∷ xs) h = elim (Bool-cases (eq_bytes (x ∷ xs) dot)) [
  | inl e ↦ rw e tt
  | inr e ↦ rw e (
    record {
      ne_empty = λ p. cc;
      ne_dot = λ p. ground (arith, eq_bytes_iff (x ∷ xs) dot);
      no_slash = h;
    },
    tt,
  )
]

scan-All : (r cs : Bytes) → NoSlash r → All IsComponent (scan r cs)
unfolding scan
scan-All r [] h = emit-All r h
scan-All r (c ∷ cs) h = elim (Bool-cases (c == slash)) [
  | inl e ↦ rw e (All-append IsComponent (emit r) _ (emit-All r h) (scan-All [] cs tt))
  | inr e ↦ rw e (scan-All (r ++ c ∷ []) cs (NoSlash-concat r c h (ground arith)))
]

-- Every component is a proper name.
pub components-IsComponent : (p : Bytes) → All IsComponent (components p)
unfolding components
components-IsComponent p = scan-All [] p tt

pub emit-IsComponent : (c : Bytes) → IsComponent c → emit c ≡ c ∷ []
unfolding emit
emit-IsComponent [] h = absurd (h.ne_empty refl)
emit-IsComponent (x ∷ xs) h = ground (arith, h.ne_dot, eq_bytes_iff (x ∷ xs) dot)

scan_name :
    (r c rest : Bytes) → NoSlash c → scan r (c ++ slash ∷ rest) ≡ emit (r ++ c) ++ scan [] rest
unfolding scan
scan_name r [] rest h = rw append-nil refl
scan_name r (x ∷ c) rest h =
    ground (arith, scan_name (r ++ x ∷ []) c rest h.1, append_assoc r (x ∷ []) c)

pub scan_last : (r c : Bytes) → NoSlash c → scan r c ≡ emit (r ++ c)
unfolding scan
scan_last r [] h = rw append-nil refl
scan_last r (x ∷ c) h = ground (arith, scan_last (r ++ x ∷ []) c h.1, append_assoc r (x ∷ []) c)

-- Behind a name, and with a slash in front, the printed components are read back.
pub scan-concat_slashed :
    (c : Bytes) (cs : List Bytes)
    → IsComponent c
    → All IsComponent cs
    → scan [] (c ++ concat_slashed cs) ≡ c ∷ cs
unfolding concat_slashed
scan-concat_slashed c [] h k = rw append-nil (scan_last [] c h.no_slash ∙ emit-IsComponent c h)
scan-concat_slashed c (d ∷ ds) h k =
    scan_name [] c (d ++ concat_slashed ds) h.no_slash
    ∙ rw (emit-IsComponent c h, scan-concat_slashed d ds k.0 k.1)

-- Reading back what `build` prints gives the components that were printed.
pub components-build : (cs : List Bytes) → All IsComponent cs → components (build cs) ≡ cs
unfolding components build scan emit
components-build [] h = refl
components-build (c ∷ cs) h = scan-concat_slashed c cs h.0 h.1
