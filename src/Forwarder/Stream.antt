-- ===== src/Forwarder/Stream.antt =====
-- The loop of `handle_tcp_query` and `write_tcp_message` in src/upstream.rs. A turn of the loop is
-- `handle_tcp_packet`. The two directions of the client's stream are values of their own; an operation
-- returns its direction as it is afterwards.
pub mod Ends
pub mod Frames
use dns_ligase.Blocklist.Rules.{External}
use dns_ligase.Forwarder.Handler.{handle_tcp_packet}
use dns_ligase.Forwarder.Scene.{Scene, Outcome, returns, sent}
use dns_ligase.Io.{
  Error, ErrorKind, Result, ok, err, fault, and_then, kind, client_write_timeout,
  client_read_timeout, out_of_fuel, unexpected_eof,
}
use dns_ligase.Prelude.{
  ℕ, zero, suc, Bool, true, false, if◌then◌else◌, List, [], ◌∷◌, ◌++◌, Option, none, some, Bytes,
  length, be16, u16, u16_at, ◌==◌, ==_iff, Bool-cases, ltb, leb, ap, sym, ◌∙◌, map, ◌↔◌, ◌≡◌, ◌≢◌,
  refl, arith, inl, inr,
}
use dns_ligase.Upstream.{within}

-- The stream of a client; `none` is a timeout of `tokio::time::timeout`.
pub record ClientStream : Type 1 where
  pub Input : Type 0
  pub Output : Type 0
  pub read_exact : ℕ → Input → Option (Result (Bytes × Input))
  pub write_all : Bytes → Output → Option (Result Output)
  pub flush : Output → Option (Result Output)

abbrev is_eof : ErrorKind → Bool
is_eof unexpected_eof = true
is_eof _ = false

-- `next` runs if the turn before it has succeeded.
abbrev pub and_continue : Outcome → Outcome → Outcome
and_continue turn next = elim turn.result [
  | ok done ↦ record next { did = turn.did ++ next.did }
  | err e ↦ turn
  | fault f ↦ turn
]

module _ (c : ClientStream) where
  -- The length goes first, in two bytes: a message of 65536 bytes or more would lose its high bits.
  unfoldable pub write_tcp_message : Bytes → c.Output → Result c.Output
  unfolding be16
  write_tcp_message msg out =
      and_then (within client_write_timeout (c.write_all (be16 (u16 (length msg))) out)) (λ out.
        and_then (within client_write_timeout (c.write_all msg out))
          (λ out. within client_write_timeout (c.flush out)))

  -- The output after these messages; what follows a failure is not written.
  abbrev pub written : List Bytes → c.Output → c.Output
  unfolding write_tcp_message
  written [] out = out
  written (msg ∷ msgs) out = elim (write_tcp_message msg out) [
    | ok out' ↦ written msgs out'
    | err e ↦ out
    | fault f ↦ out
  ]

  module _ (x : External) (scene : ℕ → Scene x) where
    -- What surrounds the turn with this index: a write to the client is one to this output.
    abbrev pub turn_scene : ℕ → c.Output → Scene x
    unfolding write_tcp_message
    turn_scene n out = record (scene n) {
      client_write = λ b. and_then (write_tcp_message b out) (λ out'. ok tt);
    }

    abbrev pub turn : ℕ → c.Output → Bytes → Outcome
    unfolding handle_tcp_packet
    turn n out packet = handle_tcp_packet x (turn_scene n out) packet

    -- A timeout or the end of the input before a query ends the connection without an error; between
    -- a length and its query both are errors.
    unfoldable pub handle_tcp_query : (fuel n : ℕ) → c.Input → c.Output → Outcome
    unfolding handle_tcp_packet u16_at
    handle_tcp_query zero n inp out = returns (fault out_of_fuel)
    handle_tcp_query (suc fuel) n inp out = elim (c.read_exact 2 inp) [
      | none ↦ returns (ok tt)
      | some (err e) ↦ if is_eof (kind e) then returns (ok tt) else returns (err e)
      | some (fault f) ↦ returns (fault f)
      | some (ok (len, inp')) ↦
          elim (within client_read_timeout (c.read_exact (u16_at len 0) inp')) [
            | ok (packet, inp'') ↦
                and_continue (turn n out packet)
                  (handle_tcp_query fuel (suc n) inp'' (written (sent (turn n out packet).did) out))
            | err e ↦ returns (err e)
            | fault f ↦ returns (fault f)
          ]
    ]
