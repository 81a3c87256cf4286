-- ===== src/LinkMarker/RoundTrip.antt =====
-- `link_target_id` reads the id back from every target that is written with `link_store_path`, and
-- recognises nothing else.
use vhdp.Base.{
  ◌<◌, ℕ, ◌+◌, ◌-◌, ◌≤◌, Bool, true, List, [], ◌∷◌, ◌++◌, some, Bytes, ◌≡◌, ◌≢◌, ◌⊎◌, refl, sym, ap,
  ap₂, ◌∙◌, arith, inl, inr, Bool-cases, suc, zero, eq_bytes_iff, eq_bytes_refl, length, ltb, take,
  drop, pop_back, length-append, take-length_append, drop-length_append, append_assoc,
  pop_back-concat, last?-concat, get_elem?, take-append-drop,
}
use vhdp.Path.{slash, ends_in_slash, slash_at}
use vhdp.LinkMarker.{
  target_id_of, store_head_tests, link_store_dir, link_id_len, is_link_id, is_store_head,
  link_target_id, link_store_path,
}

drop-suffix :
    {A : Type 0} (a s : List A) (n : ℕ) → length s ≡ n → drop (length (a ++ s) - n) (a ++ s) ≡ s
drop-suffix a s n e =
    ap (λ k. drop k (a ++ s)) {y = length a} (omega (arith, length-append a s))
    ∙ drop-length_append a s

take-suffix :
    {A : Type 0} (a s : List A) (n : ℕ) → length s ≡ n → take (length (a ++ s) - n) (a ++ s) ≡ a
take-suffix a s n e =
    ap (λ k. take k (a ++ s)) {y = length a} (omega (arith, length-append a s))
    ∙ take-length_append a s

get_elem?-append : {A : Type 0} (p s : List A) (c : A) → get_elem? (p ++ c ∷ s) (length p) ≡ some c
get_elem?-append [] s c = refl
get_elem?-append (x ∷ p) s c = get_elem?-append p s c

-- A string that ends in a slash is something and a slash.
pub ends_in_slash-split : (s : Bytes) → ends_in_slash s ≡ true → (p : Bytes) × (s ≡ p ++ slash ∷ [])
unfolding ends_in_slash
ends_in_slash-split [] h = cc
ends_in_slash-split (x ∷ []) h = ([], ap (λ c. c ∷ []) (ground arith))
ends_in_slash-split (x ∷ y ∷ s) h =
    let (p, e) = ends_in_slash-split (y ∷ s) h in (x ∷ p, ap (◌∷◌ x) e)

pub ends_in_slash-concat : (p : Bytes) → ends_in_slash (p ++ slash ∷ []) ≡ true
unfolding ends_in_slash
ends_in_slash-concat p = rw (ends_in_slash, last?-concat p slash)

slash_at-append : (p s : Bytes) → slash_at (p ++ slash ∷ s) (length p) ≡ true
slash_at-append p s = rw (slash_at, get_elem?-append p s slash)

is_store_head-dir : (p : Bytes) → is_store_head ((p ++ slash ∷ []) ++ link_store_dir) ≡ true
unfolding is_store_head
is_store_head-dir p =
    let size : length ((p ++ slash ∷ []) ++ link_store_dir) ≡ length p + 16 =
      omega (arith, length-append (p ++ slash ∷ []) link_store_dir, length-append p (slash ∷ [])) in
    let before : slash_at ((p ++ slash ∷ []) ++ link_store_dir)
          (length ((p ++ slash ∷ []) ++ link_store_dir) - 15 - 1)
        ≡ true =
      ap₂ slash_at {v = length p} (append_assoc p (slash ∷ []) link_store_dir) (omega (arith, size))
      ∙ slash_at-append p link_store_dir in
    rw (drop-suffix (p ++ slash ∷ []) link_store_dir 15 refl, before, size)
      (unfold store_head_tests in ground (arith, eq_bytes_refl link_store_dir))

is_link_id-length : (id : Bytes) → is_link_id id ≡ true → length id ≡ link_id_len
unfolding is_link_id
is_link_id-length id h = ground arith

known_parts :
    (size : ℕ) (store id : Bytes)
    → length link_store_dir + 1 + link_id_len ≤ size
    → is_link_id id ≡ true
    → is_store_head store ≡ true
    → target_id_of size (store ++ slash ∷ []) id ≡ id
unfolding target_id_of
known_parts size store id n h s =
    rw (h, ends_in_slash-concat store, pop_back-concat store slash, s) (ground arith)

-- The target is something that ends in a slash, the store's name, a slash and the id.
read_back :
    (p id : Bytes)
    → is_link_id id ≡ true
    → link_target_id ((((p ++ slash ∷ []) ++ link_store_dir) ++ slash ∷ []) ++ id) ≡ id
unfolding link_target_id
read_back p id h =
    let head = ((p ++ slash ∷ []) ++ link_store_dir) ++ slash ∷ [] in
    let n = is_link_id-length id h in
    rw (take-suffix head id link_id_len n, drop-suffix head id link_id_len n)
      (known_parts (length (head ++ id)) ((p ++ slash ∷ []) ++ link_store_dir) id
        (omega (
          arith,
          length-append head id,
          length-append ((p ++ slash ∷ []) ++ link_store_dir) (slash ∷ []),
          length-append (p ++ slash ∷ []) link_store_dir,
          length-append p (slash ∷ []),
          n,
        ))
        h (is_store_head-dir p))

-- The target that names an object `id` of 32 lower-case hexadecimal digits in the store of any mount is recognised, and yields `id`.
pub link_target_id-link_store_path :
    (mount_root id : Bytes)
    → is_link_id id ≡ true
    → link_target_id (link_store_path mount_root ++ slash ∷ id) ≡ id
unfolding link_store_path
link_target_id-link_store_path mount_root id h = elim (Bool-cases (ends_in_slash mount_root)) [
  | inl e ↦
      let (p, split) = ends_in_slash-split mount_root e in
      rw e (
        ap (λ r. link_target_id ((r ++ link_store_dir) ++ slash ∷ id)) split
        ∙ ap link_target_id
            (sym (append_assoc ((p ++ slash ∷ []) ++ link_store_dir) (slash ∷ []) id))
        ∙ read_back p id h)
  | inr e ↦ rw e (
      ap (λ r. link_target_id (r ++ slash ∷ id))
        (sym (append_assoc mount_root (slash ∷ []) link_store_dir))
      ∙ ap link_target_id
          (sym (append_assoc ((mount_root ++ slash ∷ []) ++ link_store_dir) (slash ∷ []) id))
      ∙ read_back mount_root id h)
]

-- What a recognised target looks like.
pub record IsTarget (target id : Bytes) : Type 0 where
  pub id_ok : is_link_id id ≡ true
  pub prefix : Bytes
  pub prefix_ok : (prefix ≡ []) ⊎ (ends_in_slash prefix ≡ true)
  pub target_is : target ≡ prefix ++ (link_store_dir ++ slash ∷ id)

ends_in_slash-take :
    (q : Bytes) (n : ℕ) → slash_at q n ≡ true → ends_in_slash (take (suc n) q) ≡ true
unfolding ends_in_slash
ends_in_slash-take [] n h = cc
ends_in_slash-take (x ∷ q) zero h = h
ends_in_slash-take (x ∷ []) (suc n) h = cc
ends_in_slash-take (x ∷ y ∷ q) (suc n) h = ends_in_slash-take (y ∷ q) n h

head_tests :
    (size : ℕ) (tail : Bytes) (b : Bool)
    → store_head_tests size tail b ≡ true
    → (tail ≡ link_store_dir) × ((size ≡ 15) ⊎ ((15 < size) × (b ≡ true)))
unfolding store_head_tests
head_tests size tail b h =
    let same : tail ≡ link_store_dir = (eq_bytes_iff tail link_store_dir).0 (ground arith) in
    elim (Bool-cases (ltb 15 size)) [
      | inl l ↦ (same, inr (ground arith, ground arith))
      | inr l ↦ (same, inl (ground arith))
    ]

store_prefix :
    (q : Bytes)
    → is_store_head q ≡ true
    → (p : Bytes) × ((p ≡ []) ⊎ (ends_in_slash p ≡ true)) × (q ≡ p ++ link_store_dir)
unfolding is_store_head
store_prefix q h =
    let (tail, before) =
      head_tests (length q) (drop (length q - 15) q) (slash_at q (length q - 15 - 1)) h in
    (
      take (length q - 15) q,
      elim before [
        | inl z ↦ inl (ap (λ n. take n q) {y = 0} (omega arith))
        | inr (l, b) ↦ inr (
            ap (λ n. ends_in_slash (take n q)) {y = suc (length q - 15 - 1)} (omega arith)
            ∙ ends_in_slash-take q (length q - 15 - 1) b)
      ],
      sym (take-append-drop (length q - 15) q) ∙ ap (λ d. take (length q - 15) q ++ d) tail,
    )

assemble :
    (target head id : Bytes)
    → target ≡ head ++ id
    → is_link_id id ≡ true
    → ends_in_slash head ≡ true
    → is_store_head (pop_back head) ≡ true
    → IsTarget target id
assemble target head id e i s h =
    let (q, split) = ends_in_slash-split head s in
    let (p, ok, store) = store_prefix (pop_back head) h in
    let popped : pop_back head ≡ q = ap pop_back split ∙ pop_back-concat q slash in
    record {
      id_ok = i;
      prefix = p;
      prefix_ok = ok;
      target_is =
          e
          ∙ ap (λ x. x ++ id) (split ∙ ap (λ x. x ++ slash ∷ []) (sym popped ∙ store))
          ∙ append_assoc (p ++ link_store_dir) (slash ∷ []) id
          ∙ append_assoc p link_store_dir (slash ∷ id);
    }

target_parts :
    (size : ℕ) (head id : Bytes)
    → target_id_of size head id ≢ []
    → (target_id_of size head id ≡ id)
      × (is_link_id id ≡ true)
      × (ends_in_slash head ≡ true)
      × (is_store_head (pop_back head) ≡ true)
unfolding target_id_of
target_parts size head id h = ground arith

-- Nothing else is recognised: a target that yields an id is the store's name and the id behind one
-- slash, alone or behind a prefix that ends in a slash.
pub link_target_id-IsTarget :
    (target : Bytes) → link_target_id target ≢ [] → IsTarget target (link_target_id target)
unfolding link_target_id
link_target_id-IsTarget target h =
    let n = length target - link_id_len in
    let (e, i, s, q) = target_parts (length target) (take n target) (drop n target) h in
    rw e (assemble target (take n target) (drop n target) (sym (take-append-drop n target)) i s q)
