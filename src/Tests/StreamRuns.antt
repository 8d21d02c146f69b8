-- ===== src/Tests/StreamRuns.antt =====
-- TCP connections of clients.
use dns_ligase.Dns.Message.RoundTrip.{parse-serialize}
use dns_ligase.Forwarder.Handler.Tcp.{MaySendTcp, handle_tcp_packet-MaySend}
use dns_ligase.Forwarder.Handler.{handle_tcp_packet}
use dns_ligase.Forwarder.Stream.{ClientStream, handle_tcp_query, write_tcp_message}
use dns_ligase.Forwarder.Stream.Ends.{handle_tcp_query-Returns}
use dns_ligase.Forwarder.Stream.Frames.{answer_all, frames, handle_tcp_query-frames}
use dns_ligase.Dns.Records.{serialize_header, serialize_question}
use dns_ligase.Dns.Name.{serialize_name}
use dns_ligase.Prelude.{
  refl, arith, if◌then◌else◌, leb, length, ℕ, [], ◌∷◌, ◌++◌, some, ◌≡◌, ◌≢◌, Bytes, All, take, ◌≤◌,
  ◌<◌, ◌+◌, drop, length-drop,
}
use dns_ligase.Tests.Samples.{literal_patterns, ads_query, ads_query-IsMessage, ads_scene}
use dns_ligase.Io.{ok, err, fault, Fault, Returns, failed_to_fill_buffer}
use dns_ligase.Dns.Message.{serialize}
use dns_ligase.Forwarder.Scene.{sent}

handle_tcp_packet-MaySend_example :
    All
      (MaySendTcp literal_patterns ads_scene ads_query)
      (sent (handle_tcp_packet literal_patterns ads_scene (serialize ads_query)).did)
    × (length (sent (handle_tcp_packet literal_patterns ads_scene (serialize ads_query)).did) ≤ 1)
    × ((handle_tcp_packet literal_patterns ads_scene (serialize ads_query)).result ≡ ok tt
        → length (sent (handle_tcp_packet literal_patterns ads_scene (serialize ads_query)).did)
          ≡ 1)
handle_tcp_packet-MaySend_example =
    handle_tcp_packet-MaySend literal_patterns ads_scene (serialize ads_query) ads_query
      (parse-serialize ads_query ads_query-IsMessage) (λ e. cc)

-- A client that sends its bytes at once, closes its side, and takes all that it gets.
abbrev prompt : ClientStream
prompt = record {
  Input = Bytes;
  Output = Bytes;
  read_exact = λ n inp.
      if leb n (length inp)
      then some (ok (take n inp, drop n inp))
      else some (err failed_to_fill_buffer);
  write_all = λ b out. some (ok (out ++ b));
  flush = λ out. some (ok out);
}

prompt_arrives :
    (n : ℕ) (inp : Bytes)
    → n ≤ length inp
    → (inp' : Bytes) × (prompt.read_exact n inp ≡ some (ok (take n inp, inp')))
      × (inp' ≡ drop n inp)
prompt_arrives n inp h = (drop n inp, ground arith, refl)

prompt_closes :
    (n : ℕ) (inp : Bytes)
    → length inp < n
    → prompt.read_exact n inp ≡ some (err failed_to_fill_buffer)
prompt_closes n inp h = ground arith

prompt_reads :
    (n : ℕ) (inp b inp' : Bytes)
    → prompt.read_exact n inp ≡ some (ok (b, inp'))
    → length inp' + n ≤ length inp
prompt_reads n inp b inp' e = ground (arith, length-drop n inp)

prompt_reading : (n : ℕ) (inp : Bytes) (f : Fault) → prompt.read_exact n inp ≢ some (fault f)
prompt_reading n inp f e = ground arith

prompt_writing : (b out : Bytes) → Returns (write_tcp_message prompt b out)
unfolding write_tcp_message
prompt_writing b out = tt

handle_tcp_query-frames_example :
    handle_tcp_query prompt literal_patterns
      (λ i. ads_scene)
      3
      0
      (frames (serialize ads_query ∷ serialize ads_query ∷ []))
      []
    ≡ answer_all prompt literal_patterns
        (λ i. ads_scene)
        0
        []
        (serialize ads_query ∷ serialize ads_query ∷ [])
unfolding serialize serialize_header serialize_question serialize_name
handle_tcp_query-frames_example =
    handle_tcp_query-frames prompt literal_patterns (λ i. ads_scene) (λ inp. inp) prompt_arrives
      prompt_closes 3 0 (serialize ads_query ∷ serialize ads_query ∷ [])
      (frames (serialize ads_query ∷ serialize ads_query ∷ [])) [] (omega arith)
      (omega arith, (omega arith, tt)) refl

handle_tcp_query-Returns_example :
    Returns
      (handle_tcp_query prompt literal_patterns (λ i. ads_scene) 4 0 (0 ∷ 9 ∷ 0 ∷ []) []).result
handle_tcp_query-Returns_example =
    handle_tcp_query-Returns prompt literal_patterns (λ i. ads_scene) (λ inp. length inp)
      prompt_reads prompt_reading prompt_writing (λ i b. tt) 4 0 (0 ∷ 9 ∷ 0 ∷ []) [] (omega arith)
