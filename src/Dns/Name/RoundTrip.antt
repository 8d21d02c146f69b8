-- ===== src/Dns/Name/RoundTrip.antt =====
-- `parse_name` of src/dns.rs on what `serialize_name` wrote, wherever in a packet it stands.
use dns_ligase.Dns.Name.{
  Walk, again, leave, is_pointer, name_turn, name_loop, name_fuel, name_start, parse_name, at_pos,
  serialize_label, serialize_labels, serialize_name,
}
use dns_ligase.Dns.Reader.{Cursor, Reads, drop_after}
use dns_ligase.Io.{ok}
use dns_ligase.Prelude.{
  if◌then◌else◌, ℕ, zero, suc, ◌+◌, ◌-◌, ◌%◌, ◌<◌, ◌≡◌, refl, sym, ap, ◌∙◌, Bool, true, false, not,
  List, [], ◌∷◌, ◌++◌, arith, Bytes, All, length, get_or, take, drop, keep_if, length-append,
  length-drop, get_or-drop, drop-drop, take-append_length, append_assoc, append-nil,
}
use dns_ligase.Text.Split.{split, join, is_empty, labels_of}
use dns_ligase.Text.Utf8.{is_utf8}

-- A label that the wire can carry: the two top bits of its length byte are not both set.
pub record IsLabel (label : Bytes) : Type 0 where
  pub nonempty : 0 < length label
  pub short : length label < 192
  pub text : is_utf8 label ≡ true

-- All labels of the name can be carried.
abbrev pub IsName : Bytes → Type 0
IsName name = All IsLabel (labels_of name)

-- The name has no empty label: no dot at its start or end, nor two in a row.
abbrev pub IsCanonical : Bytes → Type 0
IsCanonical name = join b'.' (labels_of name) ≡ name

-- No byte in the table is a pointer's first.
no_pointers : ℕ → Bool
unfolding is_pointer
no_pointers zero = true
no_pointers (suc len) = if is_pointer len then false else no_pointers len

no_pointers-is_pointer :
    (len bound : ℕ) → len < bound → no_pointers bound ≡ true → is_pointer len ≡ false
unfolding no_pointers
no_pointers-is_pointer len zero below table = absurd (omega arith)
no_pointers-is_pointer len (suc bound) below table =
    ground (arith, no_pointers-is_pointer len bound)

is_pointer_short : (x : ℕ) → x < 192 → is_pointer x ≡ false
unfolding no_pointers is_pointer
is_pointer_short x h = no_pointers-is_pointer x 192 h refl

-- The bytes ahead fix the packet's length and its byte here.
length-ahead :
    (bytes : Bytes) (pos b : ℕ) (ahead : Bytes)
    → drop pos bytes ≡ b ∷ ahead
    → length bytes ≡ pos + suc (length ahead)
length-ahead bytes pos b ahead h = omega (arith, ap length h, length-drop pos bytes)

byte-ahead :
    (bytes : Bytes) (pos b : ℕ) (ahead : Bytes)
    → drop pos bytes ≡ b ∷ ahead
    → get_or bytes pos 0 ≡ b
byte-ahead bytes pos b ahead h = get_or-drop pos bytes 0 ∙ ap (λ d. get_or d 0 0) h

slice-ahead :
    (bytes : Bytes) (pos b : ℕ) (label rest : Bytes)
    → drop pos bytes ≡ b ∷ (label ++ rest)
    → take (pos + 1 + length label - (pos + 1)) (drop (pos + 1) bytes) ≡ label
slice-ahead bytes pos b label rest h =
    rw (cancel, sym (drop-drop pos 1 bytes), h) (take-append_length label rest)
  where
    cancel : pos + 1 + length label - (pos + 1) ≡ length label
    cancel = omega arith

module _ (bytes : Bytes) (w : Walk) (label rest : Bytes) where
  abbrev next_walk : Walk
  next_walk = record w { pos = w.pos + suc (length label); labels = w.labels ++ label ∷ [] }

  name_turn_label :
      IsLabel label
      → drop w.pos bytes ≡ serialize_label label ++ rest
      → name_turn bytes w ≡ again next_walk
  unfolding name_turn
  name_turn_label l h =
      let small : length label % 256 ≡ length label = omega arith in
      ground (
        arith,
        length-ahead bytes w.pos (length label % 256) (label ++ rest) h,
        length-append label rest,
        byte-ahead bytes w.pos (length label % 256) (label ++ rest) h,
        small,
        is_pointer_short (length label) l.short,
        slice-ahead bytes w.pos (length label % 256) label rest h,
        l.text,
      )

name_turn_end :
    (bytes : Bytes) (w : Walk) (rest : Bytes)
    → drop w.pos bytes ≡ 0 ∷ rest
    → w.jumped ≡ false
    → name_turn bytes w ≡ leave (ok (join b'.' w.labels, w.pos + 1))
unfolding name_turn
name_turn_end bytes w rest h j =
    ground (arith, length-drop w.pos bytes, ap length h, get_or-drop w.pos bytes 0)

is_empty_nonempty : (l : Bytes) → 0 < length l → is_empty l ≡ false
is_empty_nonempty [] h = absurd (omega arith)
is_empty_nonempty (x ∷ l) h = refl

serialize_labels-cons :
    (l : Bytes) (ls : List Bytes)
    → IsLabel l
    → serialize_labels (l ∷ ls) ≡ serialize_label l ++ serialize_labels ls
unfolding serialize_labels
serialize_labels-cons l ls h = ground (arith, is_empty_nonempty l h.nonempty)

length-cons :
    (l : Bytes) (ls : List Bytes)
    → IsLabel l
    → length (serialize_labels (l ∷ ls)) ≡ suc (length l) + length (serialize_labels ls)
length-cons l ls h =
    rw (serialize_labels-cons l ls h) (omega (arith, length-append l (serialize_labels ls)))

labels-length : (ls : List Bytes) → All IsLabel ls → length ls < length (serialize_labels ls)
labels-length [] h = unfold serialize_labels in omega arith
labels-length (l ∷ ls) h = omega (arith, length-cons l ls h.0, labels-length ls h.1)

name_loop-labels :
    (ls : List Bytes) (fuel : ℕ) (bytes rest : Bytes) (w : Walk)
    → All IsLabel ls
    → drop w.pos bytes ≡ serialize_labels ls ++ rest
    → w.jumped ≡ false
    → length ls < fuel
    → name_loop fuel bytes w ≡ ok (join b'.' (w.labels ++ ls), w.pos + length (serialize_labels ls))
unfolding name_loop
name_loop-labels ls zero bytes rest w a h j f = absurd (omega arith)
name_loop-labels [] (suc fuel) bytes rest w a h j f =
    rw (name_turn_end bytes w rest (unfold serialize_labels in h) j, name_loop, append-nil w.labels)
      (unfold serialize_labels in refl)
name_loop-labels (l ∷ ls) (suc fuel) bytes rest w a h j f =
    let h' : drop w.pos bytes ≡ serialize_label l ++ (serialize_labels ls ++ rest) =
      h
      ∙ ap (λ s. s ++ rest) (serialize_labels-cons l ls a.0)
      ∙ append_assoc (serialize_label l) (serialize_labels ls) rest in
    let c : Cursor = record { bytes = bytes; pos = w.pos } in
    rw (name_turn_label bytes w l (serialize_labels ls ++ rest) a.0 h', name_loop)
      (name_loop-labels ls fuel bytes rest (next_walk bytes w l (serialize_labels ls ++ rest)) a.1
          (drop_after c (serialize_label l) (serialize_labels ls ++ rest) h') j (omega arith)
        ∙ rw (append_assoc w.labels (l ∷ []) ls, length-cons l ls a.0)
            (ap (λ n. ok (join b'.' (w.labels ++ l ∷ ls), n)) (omega arith)))

-- Any list of labels that the wire can carry.
labels-Reads :
    (ls : List Bytes) → All IsLabel ls → Reads parse_name (serialize_labels ls) (join b'.' ls)
unfolding parse_name
labels-Reads ls a = record {
  run = λ c rest h.
      let fuel_left : length ls < name_fuel c.bytes = omega (
        arith,
        labels-length ls a,
        ap length h,
        length-drop c.pos c.bytes,
        length-append (serialize_labels ls) rest,
      ) in
      ap (at_pos c) (
        name_loop-labels ls (name_fuel c.bytes) c.bytes rest (name_start c.pos) a h refl fuel_left);
}

-- Empty labels are not written.
serialize_labels-keep :
    (ls : List Bytes) → serialize_labels ls ≡ serialize_labels (keep_if (λ p. not (is_empty p)) ls)
unfolding serialize_labels
serialize_labels-keep [] = refl
serialize_labels-keep ([] ∷ ls) = serialize_labels-keep ls
serialize_labels-keep ((x ∷ l) ∷ ls) =
    ap (λ s. serialize_label (x ∷ l) ++ s) (serialize_labels-keep ls)

pub serialize_name-labels : (name : Bytes) → serialize_name name ≡ serialize_labels (labels_of name)
unfolding serialize_name labels_of
serialize_name-labels name = serialize_labels-keep (split b'.' name)

-- Whatever the name whose labels fit, `parse_name` reads the labels of what `serialize_name` wrote, in order and
-- joined by dots: the name without its empty labels.
pub name-Reads :
    (name : Bytes)
    → IsName name
    → Reads parse_name (serialize_name name) (join b'.' (labels_of name))
name-Reads name h = rw serialize_name-labels (labels-Reads (labels_of name) h)

-- A canonical name is read back as it was.
pub canonical-Reads :
    (name : Bytes) → IsName name → IsCanonical name → Reads parse_name (serialize_name name) name
canonical-Reads name h c = rw c at (name-Reads name h)
