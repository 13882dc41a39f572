-- ===== src/Transport.antt =====
-- src/transport/webusb.rs: the dispatcher, which answers the lines of the host one by one with
-- the engine. The children hold the reader, the writer and what the two promise together.
pub mod Reader
pub mod Writer
pub mod Stream
pub mod Frames
pub mod Websocket
pub mod Agreement
use passport_passwords.Base.{ℕ, ◌+◌, Text, text, List, [], ◌∷◌, ◌++◌, Option, none, some}
use passport_passwords.Protocol.Message.{Request, Response, failure, code_number, invalid_request}
use passport_passwords.Protocol.Frame.{frame}
use passport_passwords.Store.{CredentialStore}
use passport_passwords.Engine.{Engine, World}
use passport_passwords.Engine.Dispatch.{handle}
use passport_passwords.Transport.Reader.{Read, reader_loop}
use passport_passwords.Transport.Writer.{Endpoint, Transfer, chunks, write_chunks}

-- What the transport asks of `serde_json`.
pub record Wire : Type 0 where
  -- `from_slice::<Request>`, whose error is not read
  pub parse_request : Text → Option Request
  -- `from_slice::<Value>` and its field `id`, where it is a string
  pub parse_id : Text → Option Text
  -- `to_vec`, whose error is only logged
  pub to_vec : Response → Option Text

abbrev pub unwrap_or : Option Text → Text → Text
unwrap_or none d = d
unwrap_or (some s) d = s

abbrev pub parse_failure : Text → Response
parse_failure id =
    failure id (record { code = code_number invalid_request; message = "invalid request" })

module _ {C : CredentialStore} (E : Engine C) (wire : Wire) where
  abbrev pub dispatch_parsed :
      Option Request → Text → ℕ → World C.Store E.Outer → Option Response × World C.Store E.Outer
  dispatch_parsed (some req) payload now_ms w = handle E req now_ms w
  dispatch_parsed none payload now_ms w =
      (some (parse_failure (unwrap_or (wire.parse_id payload) (text "0"))), w)

  -- `dispatch` of webusb.rs: `none` is an engine that does not return.
  unfoldable pub dispatch_payload :
      Text → ℕ → World C.Store E.Outer → Option Response × World C.Store E.Outer
  dispatch_payload payload now_ms w = dispatch_parsed (wire.parse_request payload) payload now_ms w

module _ {C : CredentialStore} (E : Engine C) (wire : Wire) (usb : Endpoint) where
  -- `continue` for a response that is not serialised; otherwise the loop over the chunks
  abbrev pub transmit : Option Text → usb.Port → List Transfer × usb.Port
  transmit none port = ([], port)
  transmit (some bytes) port = write_chunks usb (chunks [] (frame bytes)) port

  abbrev pub Served : Type 0
  Served = List Transfer × World C.Store E.Outer × usb.Port

  abbrev pub behind : List Transfer → Served → Served
  behind transfers (more, w, port) = (transfers ++ more, w, port)

  abbrev pub serialised : Option Response → Option Text
  serialised none = none
  serialised (some response) = wire.to_vec response

  -- An engine that does not return holds the loop.
  abbrev pub or_hold : Option Response → Served → Served → Served
  or_hold none held rest = held
  or_hold (some response) held rest = rest

  -- `while let Ok(payload) = payload_rx.recv()`; payload number `n` is handled at `clock n`.
  unfoldable pub serve_payloads : (ℕ → ℕ) → List Text → World C.Store E.Outer → usb.Port → Served
  serve_payloads clock [] w port = ([], w, port)
  serve_payloads clock (payload ∷ more) w port =
      let (answer, w') = dispatch_payload E wire payload (clock 0) w in
      let (transfers, port') = transmit (serialised answer) port in
      let rest = serve_payloads (λ n. clock (n + 1)) more w' port' in
      or_hold answer ([], w', port') (behind transfers rest)

  -- `serve_blocking` once the interface is registered, on all that the host sends.
  abbrev pub serve_blocking : (ℕ → ℕ) → List Read → World C.Store E.Outer → usb.Port → Served
  serve_blocking clock reads w port = serve_payloads clock (reader_loop [] reads).0 w port
