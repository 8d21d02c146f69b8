-- ===== src/Forwarder/Stream/Frames.antt =====
-- The loop of `handle_tcp_query` in src/upstream.rs over queries behind their lengths, as
-- `write_tcp_message` writes a message.
use dns_ligase.Blocklist.Rules.{External}
use dns_ligase.Forwarder.Scene.{Scene, Outcome, returns, sent}
use dns_ligase.Forwarder.Stream.{ClientStream, handle_tcp_query, turn, written, and_continue}
use dns_ligase.Io.{ok, err, failed_to_fill_buffer}
use dns_ligase.Prelude.{
  ℕ, zero, suc, List, [], ◌∷◌, ◌++◌, some, Bytes, length, take, drop, be16, u16, u16_at, All, ◌≡◌,
  ◌≤◌, ◌<◌, ◌+◌, ◌∙◌, refl, arith, ap, take-append_length, drop-append_length, length-append,
}

-- A message behind its length.
abbrev pub frame : Bytes → Bytes
unfolding be16
frame msg = be16 (u16 (length msg)) ++ msg

abbrev pub frames : List Bytes → Bytes
frames [] = []
frames (msg ∷ msgs) = frame msg ++ frames msgs

length-frame : (msg : Bytes) → length (frame msg) ≡ 2 + length msg
unfolding be16
length-frame msg = omega arith

u16_at-frame :
    (msg rest : Bytes) → length msg < 65536 → u16_at (take 2 (frame msg ++ rest)) 0 ≡ length msg
unfolding be16 u16_at
u16_at-frame msg rest short = omega arith

module _ (c : ClientStream) where
  module _ (x : External) (scene : ℕ → Scene x) where
    -- The queries one after the other, until a turn fails.
    unfoldable pub answer_all : (n : ℕ) → c.Output → List Bytes → Outcome
    answer_all n out [] = returns (ok tt)
    answer_all n out (packet ∷ packets) =
        and_continue (turn c x scene n out packet)
          (answer_all (suc n) (written c (sent (turn c x scene n out packet).did) out) packets)

    next_turn :
        (fuel n : ℕ) (inp inp' inp'' : c.Input) (out : c.Output) (len packet : Bytes)
        → c.read_exact 2 inp ≡ some (ok (len, inp'))
        → c.read_exact (u16_at len 0) inp' ≡ some (ok (packet, inp''))
        → handle_tcp_query c x scene (suc fuel) n inp out
          ≡ and_continue (turn c x scene n out packet) (
              handle_tcp_query c x scene fuel
                (suc n)
                inp''
                (written c (sent (turn c x scene n out packet).did) out))
    unfolding handle_tcp_query
    next_turn fuel n inp inp' inp'' out len packet e k = rw (e, k, handle_tcp_query) refl

    module _ (unread : c.Input → Bytes)
        (arrives : (n : ℕ) (inp : c.Input)
          → n ≤ length (unread inp)
          → (inp' : c.Input) × (c.read_exact n inp ≡ some (ok (take n (unread inp), inp')))
            × (unread inp' ≡ drop n (unread inp)))
        (closes : (n : ℕ) (inp : c.Input)
          → length (unread inp) < n
          → c.read_exact n inp ≡ some (err failed_to_fill_buffer)) where
      drop-frame :
          (inp : c.Input) (msg rest : Bytes)
          → unread inp ≡ frame msg ++ rest
          → drop 2 (unread inp) ≡ msg ++ rest
      unfolding be16
      drop-frame inp msg rest e = rw e refl

      -- For a client whose bytes arrive in time and that then closes its side: whatever number of
      -- queries it sends, behind their lengths, the loop answers them in their order, each as
      -- `handle_tcp_packet` does, up to the first that fails.
      pub handle_tcp_query-frames :
          (fuel n : ℕ) (packets : List Bytes) (inp : c.Input) (out : c.Output)
          → length packets < fuel
          → All (λ packet. length packet < 65536) packets
          → unread inp ≡ frames packets
          → handle_tcp_query c x scene fuel n inp out ≡ answer_all n out packets
      unfolding handle_tcp_query answer_all
      handle_tcp_query-frames zero n packets inp out enough fit sent_off = elim enough [ ]
      handle_tcp_query-frames (suc fuel) n [] inp out enough fit sent_off =
          rw (closes 2 inp (rw sent_off (omega arith)), handle_tcp_query) refl
      handle_tcp_query-frames (suc fuel) n (p ∷ ps) inp out enough fit sent_off =
          let (inp', len_read, behind) =
            arrives 2 inp (rw (sent_off, length-append, length-frame) (omega arith)) in
          let body : unread inp' ≡ p ++ frames ps =
            behind ∙ drop-frame inp p (frames ps) sent_off in
          let (inp'', read, left) =
            arrives (length p) inp' (rw (body, length-append) (omega arith)) in
          next_turn fuel n inp inp' inp'' out (take 2 (unread inp)) p len_read (
            ap (λ k. c.read_exact k inp')
              (ap (λ b. u16_at (take 2 b) 0) sent_off ∙ u16_at-frame p (frames ps) fit.0)
            ∙ (read ∙ rw (body, take-append_length) refl))
          ∙ ap (λ o. and_continue (turn c x scene n out p) o)
              (handle_tcp_query-frames fuel (suc n) ps inp'' _ (omega arith) fit.1
                (left ∙ rw (body, drop-append_length) refl))
