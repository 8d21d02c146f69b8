-- ===== src/Blocklist/Pieces.antt =====
-- The text functions by which src/blocklist.rs takes lines of lists apart.
use dns_ligase.Prelude.{
  ℕ, Bool, ◌&&◌, ◌||◌, List, [], ◌∷◌, Option, none, some, ◌==◌, if◌then◌else◌, Bytes, get_or,
}
use dns_ligase.Text.Search.{
  codes, starts_with, ends_with_byte, contains_text, trim_end_byte, eq_ignore_ascii_case,
}
use dns_ligase.Text.Split.{split, is_empty}
use dns_ligase.Text.Trim.{trim, split_whitespace}
use mathlib.Core.List.{reverse}

-- `split(c).next()`: what stands before the first `c`.
abbrev pub before : ℕ → Bytes → Bytes
before c s = get_or (split c s) 0 []

-- The last of the parts, which are at least one.
abbrev pub last_part : List Bytes → Bytes
last_part parts = get_or (reverse parts) 0 []

unfoldable pub is_cosmetic : Bytes → Bool
unfolding contains_text
is_cosmetic s =
    contains_text (codes "##") s
    || contains_text (codes "#$#") s
    || contains_text (codes "#@#") s
    || contains_text (codes "#?#") s

unfoldable pub is_local_name : Bytes → Bool
unfolding eq_ignore_ascii_case
is_local_name s =
    eq_ignore_ascii_case s (codes "localhost")
    || eq_ignore_ascii_case s (codes "localhost.localdomain")
    || eq_ignore_ascii_case s (codes "broadcasthost")
    || eq_ignore_ascii_case s (codes "local")

-- The domain of a line in hosts format, from its text before a comment.
unfoldable pub hosts_domain : Bytes → Option Bytes
unfolding split_whitespace trim_end_byte
hosts_domain s =
    let cleaned = trim_end_byte b'.' (last_part (split_whitespace s)) in
    if is_empty s
    then none
    else if is_empty cleaned
    then none
    else if is_local_name cleaned
    then none
    else some cleaned

unfoldable pub clean_domain_static : Bytes → Option Bytes
unfolding is_cosmetic hosts_domain trim split
clean_domain_static line = if is_cosmetic line then none else hosts_domain (trim (before b'#' line))

-- Empty lines and comments.
unfoldable pub is_skipped : Bytes → Bool
unfolding starts_with
is_skipped line = is_empty line || starts_with (codes "!") line || starts_with (codes "#") line

-- All but the last byte.
abbrev pub but_last : Bytes → Bytes
but_last [] = []
but_last (b ∷ []) = []
but_last (b ∷ c ∷ s) = b ∷ but_last (c ∷ s)

-- `&s[1..s.len() - 1]`; of a text of one byte this slice is out of range, hence `none`.
unfoldable pub inner : Bytes → Option Bytes
inner [] = none
inner (a ∷ []) = none
inner (a ∷ b ∷ s) = some (but_last (b ∷ s))

-- `strip_prefix('/').and_then(|s| s.strip_suffix('/')).unwrap_or(pattern)`
unfoldable pub unwrapped : Bytes → Bytes
unfolding ends_with_byte
unwrapped [] = []
unwrapped (b ∷ s) = if b == b'/' && ends_with_byte b'/' s then but_last s else b ∷ s

-- What stands before the first copy of a text.
unfoldable pub before_text : Bytes → Bytes → Bytes
unfolding starts_with
before_text p [] = []
before_text p (b ∷ s) = let rest = before_text p s in if starts_with p (b ∷ s) then [] else b ∷ rest

unfoldable pub strip_cr : Bytes → Bytes
unfolding ends_with_byte
strip_cr s = if ends_with_byte b'\r' s then but_last s else s

-- The last piece is no line if it is empty.
unfoldable pub lines_of : List Bytes → List Bytes
unfolding strip_cr
lines_of [] = []
lines_of (p ∷ []) = if is_empty p then [] else p ∷ []
lines_of (p ∷ q ∷ ps) = strip_cr p ∷ lines_of (q ∷ ps)

-- `str::lines`
unfoldable pub lines : Bytes → List Bytes
unfolding lines_of split
lines s = lines_of (split b'\n' s)
