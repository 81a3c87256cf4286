-- ===== src/LinkStore/Store/Laws.antt =====
-- What the link store relies on of symlink(2), unlink(2), rename(2), mkdir(2) and its lock file.
use vhdp.Base.{
  ℕ, Bool, false, Option, some, none, Bytes, eq_bytes, eq_bytes_refl, if◌then◌else◌, ◌≡◌, refl,
}
use vhdp.LinkStore.Calls.{Calls}

-- What is at each path.
abbrev pub Tree : Type 0 → Type 0
Tree N = Bytes → Option N

-- A tree with something else at one path.
unfoldable pub put : {N : Type 0} → Bytes → Option N → Tree N → Tree N
put p v t q = if eq_bytes q p then v else t q

abbrev pub Same : {N : Type 0} → Tree N → Tree N → Type 0
Same t u = (q : Bytes) → t q ≡ u q

-- A call changes what is at the path that it names, or fails and changes nothing. `N` is what can be
-- at a path, with the symbolic link that has some text and
-- whether it is a directory; `view` shows the tree of a file system.
pub record Laws {F N : Type 0} (k : Calls F) (view : F → Tree N) (link : Bytes → N)
    (is_dir : N → Bool) : Type 0 where
  pub link_no_dir : (t : Bytes) → is_dir (link t) ≡ false
  pub symlink_fails :
      (fs : F) (t p : Bytes) (e : ℕ)
      → (k.symlink fs t p).0 ≡ some e
      → Same (view (k.symlink fs t p).1) (view fs)
  pub symlink_free : (fs : F) (t p : Bytes) → (k.symlink fs t p).0 ≡ none → view fs p ≡ none
  pub symlink_makes :
      (fs : F) (t p : Bytes)
      → (k.symlink fs t p).0 ≡ none
      → Same (view (k.symlink fs t p).1) (put p (some (link t)) (view fs))
  pub rename_fails :
      (fs : F) (a b : Bytes) (e : ℕ)
      → (k.rename fs a b).0 ≡ some e
      → Same (view (k.rename fs a b).1) (view fs)
  pub rename_moves :
      (fs : F) (a b : Bytes) (n : N)
      → (k.rename fs a b).0 ≡ none
      → view fs a ≡ some n
      → is_dir n ≡ false
      → view fs b ≡ none
      → Same (view (k.rename fs a b).1) (put b (some n) (put a none (view fs)))
  pub rename_other :
      (fs : F) (a b p : Bytes) (n : N)
      → view fs a ≡ some n
      → is_dir n ≡ false
      → eq_bytes p a ≡ false
      → eq_bytes p b ≡ false
      → view (k.rename fs a b).1 p ≡ view fs p
  pub unlink_removes :
      (fs : F) (p : Bytes) → (k.unlink fs p).0 ≡ none → view (k.unlink fs p).1 p ≡ none
  pub unlink_other :
      (fs : F) (p q : Bytes) → eq_bytes q p ≡ false → view (k.unlink fs p).1 q ≡ view fs q
  pub mkdir_makes :
      (fs : F) (p q : Bytes) → eq_bytes q p ≡ false → view (k.mkdir fs p).1 q ≡ view fs q
  pub lock_makes : (fs : F) (p q : Bytes) → eq_bytes q p ≡ false → view (k.lock fs p) q ≡ view fs q

module _ {N : Type 0} where
  pub put_other :
      (p : Bytes) (v : Option N) (t : Tree N) (q : Bytes) → eq_bytes q p ≡ false → put p v t q ≡ t q
  unfolding put
  put_other p v t q e = rw e refl

  pub put_here : (p : Bytes) (v : Option N) (t : Tree N) → put p v t p ≡ v
  unfolding put
  put_here p v t = rw (eq_bytes_refl p) refl
