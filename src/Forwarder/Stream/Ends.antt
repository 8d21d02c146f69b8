-- ===== src/Forwarder/Stream/Ends.antt =====
-- That the loop of `handle_tcp_query` in src/upstream.rs ends.
use dns_ligase.Blocklist.Rules.{External}
use dns_ligase.Forwarder.Handler.{handle_tcp_packet}
use dns_ligase.Forwarder.Handler.Returned.{handle_tcp_packet-Returns}
use dns_ligase.Forwarder.Scene.{returns}
use dns_ligase.Forwarder.Scene.{Scene, Outcome, sent}
use dns_ligase.Forwarder.Stream.{
  ClientStream, handle_tcp_query, turn, turn_scene, written, and_continue, write_tcp_message,
  is_eof,
}
use dns_ligase.Io.{Result, ok, err, fault, Fault, kind, client_read_timeout, and_then, Returns}
use dns_ligase.Prelude.{
  ℕ, zero, suc, Option, none, some, Bytes, u16_at, ◌≡◌, ◌≢◌, ◌≤◌, ◌<◌, ◌+◌, refl, arith,
  if◌then◌else◌,
}
use dns_ligase.Upstream.{within}

and_continue-Returns :
    (o next : Outcome)
    → Returns o.result
    → Returns next.result
    → Returns (and_continue o next).result
and_continue-Returns o next h k = ground arith

module _ (c : ClientStream) (x : External) (scene : ℕ → Scene x) (left : c.Input → ℕ)
    (reads : (n : ℕ) (inp : c.Input) (b : Bytes) (inp' : c.Input)
      → c.read_exact n inp ≡ some (ok (b, inp'))
      → left inp' + n ≤ left inp)
    (reading_Returns : (n : ℕ) (inp : c.Input) (f : Fault) → c.read_exact n inp ≢ some (fault f))
    (writing_Returns : (b : Bytes) (out : c.Output) → Returns (write_tcp_message c b out))
    (answers : (i : ℕ) (b : Bytes) → Returns ((scene i).tcp_answer b)) where
  turn-Returns :
      (n : ℕ) (out : c.Output) (packet : Bytes) → Returns (turn c x scene n out packet).result
  unfolding turn_scene turn handle_tcp_packet
  turn-Returns n out packet =
      handle_tcp_packet-Returns x (turn_scene c x scene n out) (answers n)
        (λ b. wrote (write_tcp_message c b out) (writing_Returns b out)) packet
    where
      wrote : (r : Result c.Output) → Returns r → Returns (and_then r (λ out'. ok (tt {0})))
      wrote (ok out') h = tt
      wrote (err e) h = tt
      wrote (fault f) h = h

  -- If a client will only send so many bytes, the loop ends: with as many turns as there are bytes
  -- and one more it returns `Ok` or an error, if the reads, the writes and the queries to the
  -- upstream resolver do.
  pub handle_tcp_query-Returns :
      (fuel n : ℕ) (inp : c.Input) (out : c.Output)
      → left inp < fuel
      → Returns (handle_tcp_query c x scene fuel n inp out).result
  unfolding handle_tcp_query
  handle_tcp_query-Returns zero n inp out enough = elim enough [ ]
  handle_tcp_query-Returns (suc fuel) n inp out enough =
      first (λ inp'' out' h. handle_tcp_query-Returns fuel (suc n) inp'' out' h)
        (c.read_exact 2 inp) (λ f e. reading_Returns 2 inp f e) (λ b inp' e. reads 2 inp b inp' e)
    where
      body :
          (rec : (inp'' : c.Input) (out' : c.Output)
            → left inp'' < fuel
            → Returns (handle_tcp_query c x scene fuel (suc n) inp'' out').result)
          (inp' : c.Input)
          → left inp' + 2 ≤ left inp
          → (r : Option (Result (Bytes × c.Input))) → ((f : Fault) → r ≢ some (fault f))
          → ((b : Bytes) (inp'' : c.Input) → r ≡ some (ok (b, inp'')) → left inp'' ≤ left inp')
          → Returns
              (elim (within client_read_timeout r) as (λ _. Outcome) [
                | ok (packet, inp'') ↦ and_continue (turn c x scene n out packet) (
                    handle_tcp_query c x scene fuel
                      (suc n)
                      inp''
                      (written c (sent (turn c x scene n out packet).did) out))
                | err e ↦ returns (err e)
                | fault f ↦ returns (fault f)
              ]).result
      body rec inp' less none safe shorter = tt
      body rec inp' less (some (err e)) safe shorter = tt
      body rec inp' less (some (fault f)) safe shorter = safe f refl
      body rec inp' less (some (ok (packet, inp''))) safe shorter =
          and_continue-Returns (turn c x scene n out packet) _ (turn-Returns n out packet)
            (rec inp'' _ (let k = shorter packet inp'' refl in omega arith))

      first :
          (rec : (inp'' : c.Input) (out' : c.Output)
            → left inp'' < fuel
            → Returns (handle_tcp_query c x scene fuel (suc n) inp'' out').result)
          (r : Option (Result (Bytes × c.Input)))
          → ((f : Fault) → r ≢ some (fault f))
          → ((b : Bytes) (inp' : c.Input) → r ≡ some (ok (b, inp')) → left inp' + 2 ≤ left inp)
          → Returns
              (elim r as (λ _. Outcome) [
                | none ↦ returns (ok tt)
                | some (err e) ↦ if is_eof (kind e) then returns (ok tt) else returns (err e)
                | some (fault f) ↦ returns (fault f)
                | some (ok (len, inp')) ↦
                    elim (within client_read_timeout (c.read_exact (u16_at len 0) inp')) [
                      | ok (packet, inp'') ↦ and_continue (turn c x scene n out packet) (
                          handle_tcp_query c x scene fuel
                            (suc n)
                            inp''
                            (written c (sent (turn c x scene n out packet).did) out))
                      | err e ↦ returns (err e)
                      | fault f ↦ returns (fault f)
                    ]
              ]).result
      first rec none safe shorter = tt
      first rec (some (err e)) safe shorter = ground arith
      first rec (some (fault f)) safe shorter = safe f refl
      first rec (some (ok (len, inp'))) safe shorter =
          body rec inp' (shorter len inp' refl) (c.read_exact (u16_at len 0) inp')
            (λ f e. reading_Returns (u16_at len 0) inp' f e)
            (λ b inp'' e. (let k = reads (u16_at len 0) inp' b inp'' e in omega arith))
