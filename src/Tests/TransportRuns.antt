-- ===== src/Tests/TransportRuns.antt =====
-- Runs of the transport.
use passport_passwords.Base.{
  ℕ, zero, suc, ◌+◌, Text, text, List, [], ◌∷◌, ◌++◌, ◌≡◌, refl, true, none, some, Option, text_eq,
  map, if◌then◌else◌,
}
use passport_passwords.Protocol.Message.{ping, Response, success, failure}
use passport_passwords.Protocol.Frame.{frame}
use passport_passwords.Approval.{approve}
use passport_passwords.Engine.Dispatch.{dispatch, handle}
use passport_passwords.Transport.{Wire, dispatch_payload, serve_payloads, serve_blocking}
use passport_passwords.Transport.Reader.{
  Read, got, host_disconnected, read_failed, take_line, read_byte, read_bytes, reader_loop,
}
use passport_passwords.Transport.Writer.{Endpoint, Write, written, write_chunks, chunks, packets}
use passport_passwords.Transport.Stream.{sessions, requested}
use passport_passwords.Transport.Frames.{Answers, responses, serve_blocking-frames}
use passport_passwords.Transport.Websocket.{text_message, serve_client}
use passport_passwords.Transport.Agreement.{listening, anonymous, Sent, serve_client-responses}
use passport_passwords.Tests.Fixtures.{toy_engine, toy_world}

abbrev pub toy_json_of : Response → Option Text
toy_json_of (success id body) = some (text "ok " ++ id)
toy_json_of (failure id error) = some (text "err " ++ id)

-- The text `ping` is a request and nothing else is.
abbrev pub toy_wire : Wire
toy_wire = record {
  parse_request =
      λ s. if text_eq s (text "ping") then some (record { id = text "7"; method = ping }) else none;
  parse_id = λ s. none;
  to_vec = toy_json_of;
}

abbrev toy_outcome : ℕ → Write
toy_outcome (suc zero) = Write.host_disconnected
toy_outcome n = written 64

-- An endpoint that fails at its second packet.
abbrev pub toy_endpoint : Endpoint
toy_endpoint = record {
  Port = ℕ;
  write_buf = λ packet n. (toy_outcome n, n + 1);
  wait_for_connection = λ n. n + 100;
}

-- A blank line, a request in two packets, one that is cut off, and one that is no request.
abbrev toy_reads : List Read
toy_reads =
    got (b'\n' ∷ b'\r' ∷ text "pi")
    ∷ read_failed
    ∷ got (text "ng" ++ b'\n' ∷ text "pin")
    ∷ host_disconnected
    ∷ got (text "g" ++ b'\n' ∷ [])
    ∷ []

served_run :
    packets
      (serve_blocking
        (toy_engine approve true)
        toy_wire
        toy_endpoint
        (λ n. n)
        toy_reads
        toy_world
        0).0
    ≡ text "ok 7" ++ b'\n' ∷ (text "err 0" ++ b'\n' ∷ [])
unfolding serve_payloads dispatch_payload handle dispatch text_eq take_line read_byte read_bytes
    reader_loop chunks write_chunks frame
served_run = refl

serve_blocking-frames_example :
    Answers
      (toy_engine approve true)
      toy_wire
      toy_endpoint
      (serve_blocking
        (toy_engine approve true)
        toy_wire
        toy_endpoint
        (λ n. n)
        toy_reads
        toy_world
        0)
      (responses
        (toy_engine approve true)
        toy_wire
        (λ n. n)
        (requested (sessions toy_reads))
        toy_world)
serve_blocking-frames_example =
    serve_blocking-frames (toy_engine approve true) toy_wire toy_endpoint (λ n. n) toy_reads
      toy_world 0

-- The JSON text of a response of the example.
abbrev json_of : Response → Text
json_of (success id body) = text "ok " ++ id
json_of (failure id error) = text "err " ++ id

abbrev two_texts : List Text
two_texts = text "ping" ∷ (text "pong" ∷ [])

serve_client-responses_example :
    serve_client
      (toy_engine approve true)
      (anonymous toy_wire.parse_request json_of)
      listening
      (λ n. n)
      (map text_message two_texts)
      toy_world
      []
    ≡ Sent (toy_engine approve true) toy_wire.parse_request json_of [] (
        responses
          (toy_engine approve true)
          (anonymous toy_wire.parse_request json_of)
          (λ n. n)
          two_texts
          toy_world)
serve_client-responses_example =
    serve_client-responses (toy_engine approve true) toy_wire.parse_request json_of (λ n. n)
      two_texts toy_world []
