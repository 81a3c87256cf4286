-- ===== src/LinkMarker.antt =====
-- vfs/link_marker.hpp: the names that mark emulated hard links. A view that is empty in the source
-- is the empty string here.
pub mod RoundTrip
use vhdp.Base.{
  ℕ, ◌+◌, ◌-◌, Bool, true, false, ◌&&◌, ◌||◌, not, List, [], ◌∷◌, ◌++◌, Option, some, none, Bytes,
  codes, eq_bytes, if◌then◌else◌, length, leb, ltb, ◌==◌, take, drop, last?, pop_back,
}
use vhdp.Path.{slash, ends_in_slash, slash_at}

abbrev pub link_store_dir : Bytes
link_store_dir = codes ".vhdp-hardlinks"

abbrev pub link_id_len : ℕ
link_id_len = 32

abbrev pub is_lower_hex : ℕ → Bool
is_lower_hex c = (leb b'0' c && leb c b'9') || (leb b'a' c && leb c b'f')

unfoldable pub all_lower_hex : Bytes → Bool
all_lower_hex [] = true
all_lower_hex (c ∷ cs) = is_lower_hex c && all_lower_hex cs

unfoldable pub is_link_id : Bytes → Bool
unfolding all_lower_hex
is_link_id s = length s == link_id_len && all_lower_hex s

-- The tests of `link_target_id` on what stands in front of the id's slash: its size, its last bytes,
-- and whether the byte before those is a slash.
unfoldable pub store_head_tests : ℕ → Bytes → Bool → Bool
store_head_tests size tail slash_before =
    not (ltb size (length link_store_dir))
    && eq_bytes tail link_store_dir
    && not (ltb (length link_store_dir) size && not slash_before)

unfoldable pub is_store_head : Bytes → Bool
unfolding store_head_tests
is_store_head head =
    let n = length link_store_dir in
    store_head_tests (length head) (drop (length head - n) head)
      (slash_at head (length head - n - 1))

-- `link_target_id` on the size of the target, its head and its last `link_id_len` bytes.
unfoldable pub target_id_of : ℕ → Bytes → Bytes → Bytes
unfolding is_link_id is_store_head ends_in_slash
target_id_of size head id =
    if ltb size (length link_store_dir + 1 + link_id_len)
    then []
    else if not (is_link_id id) || not (ends_in_slash head)
    then []
    else if is_store_head (pop_back head)
    then id
    else []

unfoldable pub link_target_id : Bytes → Bytes
unfolding target_id_of
link_target_id target =
    target_id_of (length target) (take (length target - link_id_len) target)
      (drop (length target - link_id_len) target)

unfoldable pub link_store_path : Bytes → Bytes
unfolding ends_in_slash
link_store_path mount_root =
    if ends_in_slash mount_root
    then mount_root ++ link_store_dir
    else mount_root ++ slash ∷ link_store_dir
