-- ===== src/LinkStore/Names/RoundTrip.antt =====
-- A record is read back.
use vhdp.Base.{
  ℕ, zero, suc, ◌+◌, ◌<◌, ◌≤◌, ◌/◌, ◌%◌, false, List, [], ◌∷◌, ◌++◌, Option, some, Bytes, length,
  ltb, ◌==◌, has_byte, is_empty, ◌≡◌, refl, ap, ◌∙◌, sym, arith, append_assoc, append-nil, if-elim,
  lt→ltb, length-append, All,
}
use vhdp.Base.Decimal.{to_string, digits_onto}
use vhdp.LinkStore.Names.{
  Entry, record_max, newline, add_names, record_text, pieces, not_empty, read_count, parse_record,
}

-- A name that a record can hold.
pub record IsName (name : Bytes) : Type 0 where
  pub not_empty : is_empty name ≡ false
  pub one_line : has_byte newline name ≡ false

-- The names with a newline in front of each.
unfoldable pub lines : List Bytes → Bytes
lines [] = []
lines (name ∷ names) = newline ∷ (name ++ lines names)

add_names-lines :
    (body : Bytes) (names : List Bytes)
    → All IsName names
    → length body + length (lines names) ≤ record_max
    → add_names body names ≡ body ++ lines names
unfolding add_names lines
add_names-lines body [] h l = sym (append-nil body)
add_names-lines body (name ∷ names) h l =
    let size = length-append name (lines names) in
    let grown = length-append body (newline ∷ name) in
    let fits : ltb record_max (length body + 1 + length name) ≡ false = ground (arith, size) in
    rw (h.0.one_line, fits)
      (add_names-lines (body ++ newline ∷ name) names h.1 (omega (arith, size, grown))
        ∙ append_assoc body (newline ∷ name) (lines names))

pieces-append :
    (a b : Bytes) → has_byte newline a ≡ false → pieces (a ++ b) ≡ (a ++ (pieces b).0, (pieces b).1)
unfolding pieces has_byte
pieces-append [] b h = refl
pieces-append (c ∷ a) b h =
    let other : (c == newline) ≡ false = ground arith in
    rw (other, pieces-append a b (ground arith)) refl

pieces-lines : (names : List Bytes) → All IsName names → pieces (lines names) ≡ ([], names)
unfolding pieces lines
pieces-lines [] h = refl
pieces-lines (name ∷ names) h =
    rw (pieces-append name (lines names) h.0.one_line, pieces-lines names h.1)
      (ap (λ k. ([], k ∷ names)) (append-nil name))

digits_one_line :
    (rounds n : ℕ) (rest : Bytes)
    → has_byte newline rest ≡ false
    → has_byte newline (digits_onto rounds n rest) ≡ false
unfolding digits_onto has_byte
digits_one_line zero n rest h = h
digits_one_line (suc rounds) n rest h =
    let digit : has_byte newline ((b'0' + n % 10) ∷ rest) ≡ false = ground arith in
    if-elim (λ k. has_byte newline k ≡ false) (ltb n 10) (λ _. digit)
      (λ _. digits_one_line rounds (n / 10) ((b'0' + n % 10) ∷ rest) digit)

not_empty-names : (names : List Bytes) → All IsName names → not_empty names ≡ names
unfolding not_empty
not_empty-names [] h = refl
not_empty-names (name ∷ names) h = rw (h.0.not_empty, not_empty-names names h.1) refl

-- The text of a record that fits is the count and the names, in lines.
pub record_text-lines :
    (e : Entry)
    → All IsName e.names
    → length (to_string e.count) + length (lines e.names) ≤ record_max
    → record_text e ≡ to_string e.count ++ lines e.names
unfolding record_text
record_text-lines e h l = add_names-lines (to_string e.count) e.names h l

-- A record that has been written reads back as the same count and names. This holds of a count from 1
-- to 2^31 - 2 that strtoul reads, and of names that are not empty and have no newline, if all of them
-- fit into the text of a link.
pub parse-record_text :
    (strtoul : Bytes → Option ℕ) (e : Entry)
    → strtoul (to_string e.count) ≡ some e.count
    → 0 < e.count
    → e.count < 0x7FFFFFFF
    → All IsName e.names
    → length (to_string e.count) + length (lines e.names) ≤ record_max
    → parse_record strtoul (record_text e) ≡ e
unfolding parse_record read_count has_byte
parse-record_text strtoul e n low high h l =
    let text : pieces (to_string e.count ++ lines e.names) ≡ (to_string e.count, e.names) =
      pieces-append (to_string e.count) (lines e.names)
        (unfold to_string in digits_one_line (suc e.count) e.count [] refl)
      ∙ rw (pieces-lines e.names h) (ap (λ k. (k, e.names)) (append-nil (to_string e.count))) in
    rw
      (
        record_text-lines e h l,
        text,
        n,
        lt→ltb 0 e.count low,
        lt→ltb e.count 0x7FFFFFFF high,
        not_empty-names e.names h,
      )
      refl
