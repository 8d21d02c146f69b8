-- ===== src/Dns/Name.antt =====
-- `parse_name` and `serialize_name` of src/dns.rs.
pub mod Ends
pub mod RoundTrip
use dns_ligase.Dns.Reader.{Cursor, Reader}
use dns_ligase.Io.{
  Result, ok, err, fault, end_of_data, truncated_pointer, pointer_out_of_bounds, too_many_jumps,
  truncated_label, invalid_label_utf8, out_of_range, out_of_fuel,
}
use dns_ligase.Prelude.{
  ℕ, zero, suc, ◌+◌, ◌-◌, ◌*◌, Bool, true, false, not, ◌&&◌, List, [], ◌∷◌, ◌++◌, bit_and, bit_or,
  ltb, leb, ◌==◌, if◌then◌else◌, Bytes, length, get_or, take, drop, u8,
}
use dns_ligase.Text.Split.{split, join, is_empty}
use dns_ligase.Text.Utf8.{is_utf8}

-- The local variables of the loop, `pos` being the reader's position.
pub record Walk : Type 0 where
  pub pos : ℕ
  pub labels : List Bytes
  pub jumps : ℕ
  pub jumped : Bool
  pub jump_pos : ℕ

abbrev pub max_jumps : ℕ
max_jumps = 64

-- One turn of the loop goes round again, or leaves with the name and the reader's new position.
pub data Turn : Type 0 where
  again : Walk → Turn
  leave : Result (Bytes × ℕ) → Turn

-- `reader.get_ref()[i]`, which panics out of range.
abbrev with_byte : Bytes → ℕ → (ℕ → Turn) → Turn
with_byte bytes i k =
    if ltb i (length bytes) then k (get_or bytes i 0) else leave (fault out_of_range)

-- `&reader.get_ref()[lo..hi]`, which panics out of range.
abbrev with_slice : Bytes → ℕ → ℕ → (Bytes → Turn) → Turn
with_slice bytes lo hi k =
    if leb lo hi && leb hi (length bytes)
    then k (take (hi - lo) (drop lo bytes))
    else leave (fault out_of_range)

-- The zero byte: `break`, and the statements after the loop.
name_end : Walk → Turn
name_end w = leave (ok (join b'.' w.labels, if w.jumped then w.jump_pos else w.pos + 1))

-- A compression pointer.
name_pointer : Bytes → Walk → ℕ → Turn
name_pointer bytes w len =
    if leb (length bytes) (w.pos + 1)
    then leave (err truncated_pointer)
    else with_byte bytes (w.pos + 1) λ low.
      let offset = bit_or (bit_and len 0x3f * 256) low in
      if leb (length bytes) offset
      then leave (err pointer_out_of_bounds)
      else if ltb max_jumps (w.jumps + 1)
      then leave (err too_many_jumps)
      else again (record {
        pos = offset;
        labels = w.labels;
        jumps = w.jumps + 1;
        jumped = true;
        jump_pos = if w.jumped then w.jump_pos else w.pos + 2;
      })

name_label : Bytes → Walk → ℕ → Turn
name_label bytes w len =
    let start = w.pos + 1 in
    let end = start + len in
    if ltb (length bytes) end
    then leave (err truncated_label)
    else with_slice bytes start end λ label.
      if is_utf8 label
      then again (record w { pos = end; labels = w.labels ++ label ∷ [] })
      else leave (err invalid_label_utf8)

pub is_pointer : ℕ → Bool
is_pointer len = bit_and len 0xc0 == 0xc0

unfoldable pub name_turn : Bytes → Walk → Turn
unfolding name_end name_pointer name_label is_pointer
name_turn bytes w =
    if leb (length bytes) w.pos
    then leave (err end_of_data)
    else with_byte bytes w.pos λ len.
      if len == 0
      then name_end w
      else if is_pointer len
      then name_pointer bytes w len
      else name_label bytes w len

-- `loop { .. }`, on fuel.
unfoldable pub name_loop : ℕ → Bytes → Walk → Result (Bytes × ℕ)
name_loop zero bytes w = fault out_of_fuel
name_loop (suc fuel) bytes w = elim (name_turn bytes w) [
  | again w' ↦ name_loop fuel bytes w'
  | leave r ↦ r
]

-- Enough for every packet: at most 64 jumps, and between two jumps the position grows.
abbrev pub name_fuel : Bytes → ℕ
name_fuel bytes = (max_jumps + 2) * (length bytes + 1)

abbrev pub name_start : ℕ → Walk
name_start pos = record { pos = pos; labels = []; jumps = 0; jumped = false; jump_pos = 0 }

abbrev pub at_pos : Cursor → Result (Bytes × ℕ) → Result (Bytes × Cursor)
at_pos c (ok (name, pos)) = ok (name, record c { pos = pos })
at_pos c (err e) = err e
at_pos c (fault x) = fault x

unfoldable pub parse_name : Reader Bytes
unfolding name_loop name_turn
parse_name c = at_pos c (name_loop (name_fuel c.bytes) c.bytes (name_start c.pos))

-- One non-empty label: its length as a `u8`, and its bytes.
abbrev pub serialize_label : Bytes → Bytes
serialize_label label = u8 (length label) ∷ label

unfoldable pub serialize_labels : List Bytes → Bytes
serialize_labels [] = 0 ∷ []
serialize_labels (label ∷ labels) =
    let rest = serialize_labels labels in
    if is_empty label then rest else serialize_label label ++ rest

unfoldable pub serialize_name : Bytes → Bytes
unfolding serialize_labels split
serialize_name name = serialize_labels (split b'.' name)
