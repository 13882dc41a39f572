-- ===== src/Transport/Websocket.antt =====
-- `serve` of src/transport/websocket.rs, the transport of the simulator: what it does with one
-- client once the handshake is done. The clients share the engine.
use passport_passwords.Base.{
  ℕ, ◌+◌, Text, text, List, [], ◌∷◌, Bool, true, false, Option, none, some, if◌then◌else◌,
}
use passport_passwords.Protocol.Message.{Request, Response}
use passport_passwords.Store.{CredentialStore}
use passport_passwords.Engine.{Engine, World}
use passport_passwords.Engine.Dispatch.{handle}
use passport_passwords.Transport.{Wire, parse_failure}

-- What the stream of the socket gives.
pub data Message : Type 0 where
  text_message : Text → Message
  close other_message read_error : Message

-- The sink of the socket: whether it took a text.
pub record Socket : Type 1 where
  pub Sink : Type 0
  pub send : Text → Sink → Bool × Sink

module _ {C : CredentialStore} (E : Engine C) (wire : Wire) (socket : Socket) where
  -- `let _ = sink.send(..)`: the loop goes on. A failed `to_string(..).unwrap()` ends the task.
  abbrev pub send_error : Option Text → socket.Sink → Bool × socket.Sink
  send_error none sink = (false, sink)
  send_error (some payload) sink = (true, (socket.send payload sink).1)

  -- The response of the engine; without one the engine has not returned.
  abbrev pub send_response : Option Response → socket.Sink → Bool × socket.Sink
  send_response none sink = (false, sink)
  send_response (some response) sink = elim (wire.to_vec response) [
    | none ↦ (false, sink)
    | some payload ↦ socket.send payload sink
  ]

  -- One text: whether the loop goes on, the world and the sink.
  abbrev pub serve_text :
      Option Request
      → ℕ
      → World C.Store E.Outer
      → socket.Sink
      → Bool × World C.Store E.Outer × socket.Sink
  serve_text none now_ms w sink =
      let (going, sink') = send_error (wire.to_vec (parse_failure (text "0"))) sink in
      (going, w, sink')
  serve_text (some req) now_ms w sink =
      let (response, w') = handle E req now_ms w in
      let (going, sink') = send_response response sink in (going, w', sink')

  -- `while let Some(msg) = src.next().await`; text number `n` is handled at `clock n`.
  unfoldable pub serve_client :
      (ℕ → ℕ)
      → List Message
      → World C.Store E.Outer
      → socket.Sink
      → World C.Store E.Outer × socket.Sink
  serve_client clock [] w sink = (w, sink)
  serve_client clock (close ∷ more) w sink = (w, sink)
  serve_client clock (read_error ∷ more) w sink = (w, sink)
  serve_client clock (other_message ∷ more) w sink = serve_client clock more w sink
  serve_client clock (text_message t ∷ more) w sink =
      let (going, w', sink') = serve_text (wire.parse_request t) (clock 0) w sink in
      let rest = serve_client (λ n. clock (n + 1)) more w' sink' in
      if going then rest else (w', sink')
