-- ===== src/Tracee/Text.antt =====
-- What `read_cstring` of engines/rootless/tracee_mem.cpp reads.
use vhdp.Base.{
  append-nil, sym, ltb→lt, take-append-drop, ◌∙◌, length-append, length-drop, leb→le, leb, lt→ltb,
  ap, ℕ-cases, subst, take, drop, ℕ, zero, suc, ◌+◌, ◌-◌, ◌%◌, ◌^◌, ◌≤◌, ◌<◌, true, false, [], ◌∷◌,
  ◌++◌, Option, some, Bytes, length, ltb, ◌≡◌, ◌≢◌, refl, arith, inl, inr, Bool-cases, has_byte,
  append_assoc,
}
use native.Mathlib.Nat.{mod-lt, zero-lt-suc}
use vhdp.Base.Int.{ℤ, pos, negsuc}
use vhdp.Resolver.Kernel.{ok, err, enametoolong}
use vhdp.Tracee.{
  page_of, MemoryCalls, read_mem, page, until_nul, wanted, read_rounds, read_cstring, overflows,
}
use vhdp.Tracee.Stored.{
  stored, until_nul-absent, until_nul-here, has_byte-take, has_byte-drop, stored-last,
  length-stored, stored-head, stored_agree, stored_parts,
}

-- The memory of a process: process_vm_readv reads what is stored, and memory is mapped by pages.
pub record Holds {W : Type 0} (k : MemoryCalls W) (w : W) (tid : ℕ) (mem : ℕ → Option ℕ)
    : Type 0 where
  pub reads :
      (addr len : ℕ) (b : Bytes) → stored mem addr len ≡ some b → k.vm_read w tid addr len ≡ ok b
  pub inside : (addr c : ℕ) → mem addr ≡ some c → addr < 2 ^ 64
  pub paged :
      (addr len c : ℕ)
      → mem addr ≡ some c
      → len ≤ page k - addr % page k
      → (b : Bytes) × (stored mem addr len ≡ some b)

page_of-positive : (z : ℤ) → page_of z ≢ 0
page_of-positive (pos zero) e = omega arith
page_of-positive (pos (suc n)) e = omega arith
page_of-positive (negsuc n) e = omega arith

module _ {W : Type 0} (k : MemoryCalls W) (w : W) (tid : ℕ) (mem : ℕ → Option ℕ)
    (h : Holds k w tid mem) where
  wanted-bounds :
      (max addr got : ℕ)
      → got < max
      → (1 ≤ wanted k max addr got)
        × (wanted k max addr got ≤ page k - addr % page k)
        × (wanted k max addr got ≤ max - got)
  unfolding wanted
  wanted-bounds max addr got lt = elim (ℕ-cases (page k)) [
    | inl e ↦ absurd (page_of-positive k.page_size e)
    | inr (p, e) ↦
        let m : addr % page k < page k = rw e (mod-lt addr (zero-lt-suc p)) in ground arith
  ]

  -- A read of the first bytes of a page that are mapped.
  read_mem-stored :
      (addr len : ℕ) {b : Bytes}
      → 1 ≤ len
      → stored mem addr len ≡ some b
      → read_mem k w tid addr len ≡ ok b
  unfolding read_mem overflows
  read_mem-stored addr zero le e = absurd (omega arith)
  read_mem-stored addr (suc n) {b = b} le e =
      let (c, m) = stored-last mem addr n e in
      let top = h.inside (addr + n) c m in
      let size = length-stored mem addr (suc n) e in rw (h.reads addr (suc n) b e) (ground arith)

  -- What one round reads of a text that starts at a mapped address.
  round :
      (max addr c got : ℕ)
      → mem addr ≡ some c
      → got < max
      → (b : Bytes) × (stored mem addr (wanted k max addr got) ≡ some b)
        × (read_mem k w tid addr (wanted k max addr got) ≡ ok b)
  round max addr c got m lt =
      let (one, in_page, in_max) = wanted-bounds max addr got lt in
      let (b, e) = h.paged addr (wanted k max addr got) c m in_page in
      (b, e, read_mem-stored addr (wanted k max addr got) one e)

  round_ends :
      (max n addr : ℕ) (got : Bytes) {b head : Bytes}
      → length got < max
      → read_mem k w tid addr (wanted k max addr (length got)) ≡ ok b
      → until_nul b ≡ (head, true)
      → read_rounds k w tid max (suc n) addr got ≡ ok (got ++ head)
  unfolding read_rounds
  round_ends max n addr got lt r u = ground (arith, lt→ltb (length got) max lt)

  round_goes_on :
      (max n addr : ℕ) (got : Bytes) {b : Bytes}
      → length got < max
      → read_mem k w tid addr (wanted k max addr (length got)) ≡ ok b
      → until_nul b ≡ (b, false)
      → read_rounds k w tid max (suc n) addr got
        ≡ read_rounds k w tid max n ((addr + wanted k max addr (length got)) % 2 ^ 64) (got ++ b)
  unfolding read_rounds
  round_goes_on max n addr got lt r u = ground (arith, lt→ltb (length got) max lt)

  read_rounds-text :
      (max n addr : ℕ) (got body : Bytes)
      → has_byte 0 body ≡ false
      → stored mem addr (length body + 1) ≡ some (body ++ 0 ∷ [])
      → length got + length body < max
      → max - length got ≤ n
      → read_rounds k w tid max n addr got ≡ ok (got ++ body)
  read_rounds-text max zero addr got body clean e fits fuel = absurd (omega arith)
  read_rounds-text max (suc n) addr got body clean e fits fuel =
      let lt : length got < max = omega (arith, fits) in
      let (c, m) = stored-head mem addr (length body + 1) (omega arith) e in
      let (b, s, r) = round max addr c (length got) m lt in
      let want = wanted k max addr (length got) in
      let (one, _, in_max) = wanted-bounds max addr (length got) lt in
      elim (Bool-cases (leb want (length body))) [
        | inl t ↦
            let le = leb→le want (length body) t in
            let (front, rest) = stored_parts mem addr want body (0 ∷ []) le e in
            let same : b ≡ take want body = cc in
            let (d, top) =
              stored-head mem (addr + want) (length (drop want body) + 1) (omega arith) rest in
            let low = h.inside (addr + want) d top in
            let next : (addr + want) % 2 ^ 64 ≡ addr + want = omega arith in
            let size : length b ≡ want = length-stored mem addr want s in
            let ih =
              read_rounds-text max n (addr + want) (got ++ b) (drop want body)
                (has_byte-drop want body clean) rest
                (omega (arith, fits, length-append got b, length-drop want body))
                (omega (arith, fuel, length-append got b)) in
            round_goes_on max n addr got lt r
              (rw same (until_nul-absent (take want body) (has_byte-take want body clean)))
            ∙ ap (λ a. read_rounds k w tid max n a (got ++ b)) next
            ∙ ih
            ∙ ap ok (
                append_assoc got b (drop want body)
                ∙ ap (λ x. got ++ x) (rw same (take-append-drop want body)))
        | inr t ↦
            let same : body ++ 0 ∷ [] ≡ take (length body + 1) b =
              stored_agree mem addr (length body + 1) want (ground arith) e s in
            let all : b ≡ body ++ 0 ∷ drop (length body + 1) b =
              sym (take-append-drop (length body + 1) b)
              ∙ ap (λ x. x ++ drop (length body + 1) b) (sym same)
              ∙ append_assoc body (0 ∷ []) (drop (length body + 1) b) in
            round_ends max n addr got lt r
              (rw all (until_nul-here body (drop (length body + 1) b) clean))
      ]

  read_rounds-full :
      (max n addr : ℕ) (got : Bytes)
      → max ≤ length got
      → read_rounds k w tid max n addr got ≡ err enametoolong
  unfolding read_rounds
  read_rounds-full max zero addr got le = refl
  read_rounds-full max (suc n) addr got le = ground arith

  read_rounds-endless :
      (max n addr : ℕ) (got body : Bytes)
      → has_byte 0 body ≡ false
      → stored mem addr (length body + 0) ≡ some (body ++ [])
      → length got + length body ≡ max
      → read_rounds k w tid max n addr got ≡ err enametoolong
  read_rounds-endless max zero addr got body clean e fits = unfold read_rounds in refl
  read_rounds-endless max (suc n) addr got body clean e fits =
      elim (Bool-cases (ltb (length got) max)) [
        | inr f ↦ read_rounds-full max (suc n) addr got (ground arith)
        | inl f ↦
            let lt : length got < max = ltb→lt (length got) max f in
            let (c, m) = stored-head mem addr (length body + 0) (omega arith) e in
            let (b, s, r) = round max addr c (length got) m lt in
            let want = wanted k max addr (length got) in
            let (one, _, in_max) = wanted-bounds max addr (length got) lt in
            let le : want ≤ length body = omega arith in
            let (front, rest) = stored_parts mem addr want body [] le e in
            let same : b ≡ take want body = cc in
            let size : length b ≡ want = length-stored mem addr want s in
            round_goes_on max n addr got lt r
              (rw same (until_nul-absent (take want body) (has_byte-take want body clean)))
            ∙ elim (Bool-cases (ltb (length (got ++ b)) max)) [
              | inr g ↦ read_rounds-full max n ((addr + want) % 2 ^ 64) (got ++ b) (ground arith)
              | inl g ↦
                  let lt' = ltb→lt (length (got ++ b)) max g in
                  let (d, top) =
                    stored-head mem (addr + want) (length (drop want body) + 0)
                      (omega (arith, lt', fits, length-append got b, length-drop want body)) rest in
                  let low = h.inside (addr + want) d top in
                  let next : (addr + want) % 2 ^ 64 ≡ addr + want = omega arith in
                  ap (λ a. read_rounds k w tid max n a (got ++ b)) next
                  ∙ read_rounds-endless max n (addr + want) (got ++ b) (drop want body)
                      (has_byte-drop want body clean) rest
                      (omega (arith, fits, length-append got b, length-drop want body))
            ]
      ]

-- In a memory that is mapped by pages, read_cstring returns the text at an address that is not 0
-- exactly: the bytes up to the first NUL, where they are fewer than `max`, whatever pages they cross.
-- Where the first `max` bytes are mapped and have no NUL, it fails with ENAMETOOLONG.
pub read_cstring-text :
    {W : Type 0} (k : MemoryCalls W) (w : W) (tid : ℕ) (mem : ℕ → Option ℕ)
    → Holds k w tid mem
    → (addr max : ℕ) (body : Bytes) → addr ≢ 0
    → has_byte 0 body ≡ false
    → (stored mem addr (length body + 1) ≡ some (body ++ 0 ∷ [])
        → length body < max
        → read_cstring k w tid addr max ≡ ok body)
      × (stored mem addr max ≡ some body → read_cstring k w tid addr max ≡ err enametoolong)
unfolding read_cstring
read_cstring-text k w tid mem h addr max body some_addr clean = (
  λ e fits. ground (
    arith,
    read_rounds-text k w tid mem h max max addr [] body clean e (omega (arith, fits)) (omega arith),
  ),
  λ e.
      let size : length body ≡ max = length-stored mem addr max e in
      let whole : stored mem addr (length body + 0) ≡ some (body ++ []) =
        subst (λ j. stored mem addr j ≡ some (body ++ [])) {x = max} {y = length body + 0}
          (omega (arith, size)) (rw append-nil e) in
      ground (
        arith,
        read_rounds-endless k w tid mem h max max addr [] body clean whole (omega (arith, size)),
      ),
)
