-- ===== src/Dns/Name/Ends.antt =====
-- The loop of `parse_name` in src/dns.rs, on every packet and from every position.
use dns_ligase.Dns.Name.{
  Walk, max_jumps, Turn, again, leave, name_turn, name_loop, name_fuel, name_start, parse_name,
  at_pos,
}
use dns_ligase.Dns.Reader.{Cursor, Safe}
use dns_ligase.Io.{Result, ok, err, fault, Returns}
use dns_ligase.Prelude.{
  ℕ, zero, suc, ◌+◌, ◌-◌, ◌*◌, ◌<◌, ◌≡◌, refl, Bytes, length, arith, inl, inr, ◌⊎◌,
}

-- A turn that goes round again has jumped once more, or has gone forward inside the packet.
abbrev Moves : Bytes → Walk → Turn → Type 0
Moves bytes w (leave r) = Returns r
Moves bytes w (again w') =
    ((w'.jumps ≡ w.jumps + 1) × (w.jumps < max_jumps))
    ⊎ ((w'.jumps ≡ w.jumps) × (w.pos < w'.pos) × (w.pos < length bytes))

name_turn-Moves : (bytes : Bytes) (w : Walk) → Moves bytes w (name_turn bytes w)
unfolding name_turn
name_turn-Moves bytes w = ground arith

after_turn :
    (bytes : Bytes) (w : Walk) (next : Walk → Result (Bytes × ℕ)) (t : Turn)
    → Moves bytes w t
    → ((w' : Walk) → Moves bytes w (again w') → Returns (next w'))
    → Returns (elim t [ again w' ↦ next w' | leave r ↦ r ])
after_turn bytes w next (leave r) m h = m
after_turn bytes w next (again w') m h = h w' m

mul-pred : (k n : ℕ) → 0 < k → k * n ≡ (k - 1) * n + n
mul-pred zero n h = absurd (omega arith)
mul-pred (suc k) n h = ground arith

-- `left` is the number of jumps left, and one more.
name_loop-Returns :
    (fuel left : ℕ) (bytes : Bytes) (w : Walk)
    → w.jumps + left ≡ max_jumps + 1
    → left * (length bytes + 1) + (length bytes - w.pos) < fuel
    → Returns (name_loop fuel bytes w)
unfolding name_loop
name_loop-Returns zero left bytes w e h = absurd (omega arith)
name_loop-Returns (suc fuel) left bytes w e h =
    after_turn bytes w (name_loop fuel bytes) (name_turn bytes w) (name_turn-Moves bytes w) λ w' m.
      elim m [
        | inl j ↦
            name_loop-Returns fuel (left - 1) bytes w' (omega arith)
              (omega (arith, mul-pred left (length bytes + 1) (omega arith)))
        | inr g ↦ name_loop-Returns fuel left bytes w' (omega arith) (omega arith)
      ]

at_pos-Returns : (c : Cursor) (r : Result (Bytes × ℕ)) → Returns r → Returns (at_pos c r)
at_pos-Returns c (ok (name, pos)) h = tt
at_pos-Returns c (err e) h = tt
at_pos-Returns c (fault x) h = h

pub parse_name-Safe : Safe parse_name
unfolding parse_name
parse_name-Safe c =
    at_pos-Returns c _
      (name_loop-Returns (name_fuel c.bytes) 65 c.bytes (name_start c.pos) refl (omega arith))
