-- ===== src/Path/Below.antt =====
-- `is_below` and `suffix_after` on normal paths are about components, not about bytes.
use vhdp.Base.{
  Bool, true, false, ◌&&◌, ◌||◌, not, List, [], ◌∷◌, ◌++◌, ◌≡◌, refl, ◌∙◌, arith, Bytes, eq_bytes,
  eq_bytes_iff, ◌==◌, if◌then◌else◌, All, ltb, append_assoc, take, length, take-append-drop,
  drop-length_append,
}
use vhdp.Path.{slash, root, build, is_absolute, concat_slashed, is_below, suffix_after, slash_at}
use vhdp.Path.Components.{IsComponent, NoSlash}

-- The first list of components is an initial part of the second.
unfoldable pub is_prefix : List Bytes → List Bytes → Bool
is_prefix [] cs = true
is_prefix (b ∷ bs) [] = false
is_prefix (b ∷ bs) (c ∷ cs) = eq_bytes b c && is_prefix bs cs

-- The first string is an initial part of the second, up to its end or a slash.
below_rest : Bytes → Bytes → Bool
below_rest [] [] = true
below_rest [] (c ∷ s) = c == slash
below_rest (x ∷ p) [] = false
below_rest (x ∷ p) (y ∷ s) = x == y && below_rest p s

below_tests-below_rest :
    (prefix path : Bytes)
    → (if ltb (length path) (length prefix) || not (eq_bytes (take (length prefix) path) prefix)
        then false
        else length path == length prefix || slash_at path (length prefix))
      ≡ below_rest prefix path
unfolding below_rest eq_bytes
below_tests-below_rest [] [] = refl
below_tests-below_rest [] (c ∷ s) = ground arith
below_tests-below_rest (x ∷ p) [] = ground arith
below_tests-below_rest (x ∷ p) (y ∷ s) = ground (arith, below_tests-below_rest p s)

below_rest-component :
    (b c : Bytes) (bs cs : List Bytes)
    → NoSlash b
    → NoSlash c
    → below_rest (b ++ concat_slashed bs) (c ++ concat_slashed cs)
      ≡ (eq_bytes b c && below_rest (concat_slashed bs) (concat_slashed cs))
unfolding below_rest eq_bytes concat_slashed
below_rest-component [] [] bs cs h k = refl
below_rest-component [] (y ∷ c) [] cs h k = ground arith
below_rest-component [] (y ∷ c) (b ∷ bs) cs h k = ground arith
below_rest-component (x ∷ b) [] bs [] h k = refl
below_rest-component (x ∷ b) [] bs (c ∷ cs) h k = ground arith
below_rest-component (x ∷ b) (y ∷ c) bs cs h k =
    ground (arith, below_rest-component b c bs cs h.1 k.1)

below_rest-is_prefix :
    (bs cs : List Bytes)
    → All IsComponent bs
    → All IsComponent cs
    → below_rest (concat_slashed bs) (concat_slashed cs) ≡ is_prefix bs cs
unfolding below_rest concat_slashed is_prefix
below_rest-is_prefix [] [] h k = refl
below_rest-is_prefix [] (c ∷ cs) h k = refl
below_rest-is_prefix (b ∷ bs) [] h k = refl
below_rest-is_prefix (b ∷ bs) (c ∷ cs) h k =
    below_rest-component b c bs cs h.0.no_slash k.0.no_slash
    ∙ rw (below_rest-is_prefix bs cs h.1 k.1)

pub build-ne-root :
    (b : Bytes) (bs : List Bytes) → IsComponent b → eq_bytes (build (b ∷ bs)) root ≡ false
unfolding build concat_slashed eq_bytes
build-ne-root [] bs h = absurd (h.ne_empty refl)
build-ne-root (x ∷ b) bs h = refl

below_rest-root :
    (b : Bytes) (bs : List Bytes)
    → IsComponent b
    → below_rest (build (b ∷ bs)) (build []) ≡ is_prefix (b ∷ bs) []
unfolding below_rest build concat_slashed is_prefix
below_rest-root [] bs h = absurd (h.ne_empty refl)
below_rest-root (x ∷ b) bs h = refl

-- Between paths built from proper components `is_below` says exactly that the one's components begin with the other's:
-- "/a/b" is below "/a" and "/a/b", not below "/ab", and everything is below "/".
pub is_below-is_prefix :
    (bs cs : List Bytes)
    → All IsComponent bs
    → All IsComponent cs
    → is_below (build cs) (build bs) ≡ is_prefix bs cs
unfolding is_below
is_below-is_prefix [] [] h k = unfold build is_absolute eq_bytes is_prefix in refl
is_below-is_prefix [] (c ∷ cs) h k =
    unfold build is_absolute eq_bytes is_prefix concat_slashed in refl
is_below-is_prefix (b ∷ bs) [] h k =
    rw (build-ne-root b bs h.0) (below_tests-below_rest _ _ ∙ below_rest-root b bs h.0)
is_below-is_prefix (b ∷ bs) (c ∷ cs) h k =
    rw (build-ne-root b bs h.0)
      (below_tests-below_rest _ _ ∙ unfold build in below_rest-is_prefix (b ∷ bs) (c ∷ cs) h k)

suffix_after-append_nonroot : (p s : Bytes) → eq_bytes p root ≡ false → suffix_after (p ++ s) p ≡ s
unfolding suffix_after
suffix_after-append_nonroot p s h = rw h (drop-length_append p s)

concat_slashed-append :
    (a b : List Bytes) → concat_slashed (a ++ b) ≡ concat_slashed a ++ concat_slashed b
unfolding concat_slashed
concat_slashed-append [] b = refl
concat_slashed-append (c ∷ a) b = rw (concat_slashed-append a b, append_assoc)

pub build-append :
    (b : Bytes) (bs cs : List Bytes) → build (b ∷ (bs ++ cs)) ≡ build (b ∷ bs) ++ concat_slashed cs
unfolding build
build-append b bs cs = concat_slashed-append (b ∷ bs) cs

-- What stands behind a prefix of a path, both built from proper components, is the remaining components behind slashes.
pub suffix_after-build :
    (bs cs : List Bytes)
    → All IsComponent bs
    → All IsComponent cs
    → suffix_after (build (bs ++ cs)) (build bs) ≡ concat_slashed cs
suffix_after-build [] [] h k = unfold suffix_after eq_bytes build concat_slashed in refl
suffix_after-build [] (c ∷ cs) h k =
    unfold suffix_after in rw (build-ne-root c cs k.0) (unfold eq_bytes build in refl)
suffix_after-build (b ∷ bs) cs h k =
    rw (build-append b bs cs)
      (suffix_after-append_nonroot (build (b ∷ bs)) (concat_slashed cs) (build-ne-root b bs h.0))

-- Below a prefix other than "/", the prefix and the suffix make up the path.
pub append-suffix_after :
    (path prefix : Bytes)
    → eq_bytes prefix root ≡ false
    → is_below path prefix ≡ true
    → prefix ++ suffix_after path prefix ≡ path
unfolding is_below suffix_after
append-suffix_after path prefix n h = rw n (
    ground (
      arith,
      eq_bytes_iff (take (length prefix) path) prefix,
      take-append-drop (length prefix) path,
    ))
