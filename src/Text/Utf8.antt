-- ===== src/Text/Utf8.antt =====
-- `std::str::from_utf8` as a test: the byte ranges of the Unicode standard's table of
-- well-formed sequences, read by a machine that knows how many bytes are still to come and the
-- range of the next one.
use dns_ligase.Prelude.{
  ℕ, ◌-◌, ◌<◌, ◌≡◌, refl, Bool, true, false, ◌&&◌, [], ◌∷◌, arith, ◌==◌, leb, if◌then◌else◌, Bytes,
  All, Option, none, some,
}

pub record Utf8State : Type 0 where
  pub left : ℕ
  pub lo : ℕ
  pub hi : ℕ

abbrev pub utf8_start : Utf8State
utf8_start = record { left = 0; lo = 0; hi = 0 }

abbrev awaiting : ℕ → ℕ → ℕ → Option Utf8State
awaiting n lo hi = some (record { left = n; lo = lo; hi = hi })

within : ℕ → ℕ → ℕ → Bool
within lo hi b = leb lo b && leb b hi

utf8_lead : ℕ → Option Utf8State
unfolding within
utf8_lead b =
    if leb b 0x7f
    then some utf8_start
    else if within 0xc2 0xdf b
    then awaiting 1 0x80 0xbf
    else if b == 0xe0
    then awaiting 2 0xa0 0xbf
    else if b == 0xed
    then awaiting 2 0x80 0x9f
    else if within 0xe1 0xef b
    then awaiting 2 0x80 0xbf
    else if b == 0xf0
    then awaiting 3 0x90 0xbf
    else if within 0xf1 0xf3 b
    then awaiting 3 0x80 0xbf
    else if b == 0xf4
    then awaiting 3 0x80 0x8f
    else none

utf8_next : Utf8State → ℕ → Option Utf8State
unfolding utf8_lead
utf8_next s b =
    if s.left == 0
    then utf8_lead b
    else if within s.lo s.hi b
    then awaiting (s.left - 1) 0x80 0xbf
    else none

utf8_run : Utf8State → Bytes → Bool
unfolding utf8_next
utf8_run s [] = s.left == 0
utf8_run s (b ∷ bs) = elim (utf8_next s b) [ none ↦ false | some t ↦ utf8_run t bs ]

unfoldable pub is_utf8 : Bytes → Bool
unfolding utf8_run
is_utf8 bs = utf8_run utf8_start bs

utf8_run_ascii : (bs : Bytes) → All (λ b. b < 128) bs → utf8_run utf8_start bs ≡ true
unfolding utf8_run
utf8_run_ascii [] h = refl
utf8_run_ascii (b ∷ bs) h = ground (arith, utf8_run_ascii bs h.1)

-- A text of ASCII bytes is valid.
pub is_utf8_ascii : (bs : Bytes) → All (λ b. b < 128) bs → is_utf8 bs ≡ true
unfolding is_utf8
is_utf8_ascii bs h = utf8_run_ascii bs h
