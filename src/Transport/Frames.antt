-- ===== src/Transport/Frames.antt =====
-- The dispatcher, the reader and the writer of src/transport/webusb.rs together: the transport
-- between the host and the engine.
use passport_passwords.Base.{
  ℕ, ◌+◌, Text, List, [], ◌∷◌, ◌++◌, Option, none, some, ◌≡◌, refl, ap, ◌∙◌, arith,
}
use passport_passwords.Protocol.Message.{Response}
use passport_passwords.Protocol.Frame.{frame}
use passport_passwords.Protocol.Frame.Lines.{All, All-append, frames}
use passport_passwords.Store.{CredentialStore}
use passport_passwords.Engine.{Engine, World}
use passport_passwords.Transport.{
  Wire, dispatch_payload, transmit, serialised, or_hold, behind, serve_payloads, serve_blocking,
}
use passport_passwords.Transport.Reader.{Read}
use passport_passwords.Transport.Writer.{
  Endpoint, Transfer, chunks, packets, packets-append, packets-write_chunks, concat-chunks,
  chunks-IsPacket, IsSmall, write_chunks-IsSmall,
}
use passport_passwords.Transport.Stream.{sessions, requested, reader_loop-requested}

module _ {C : CredentialStore} (E : Engine C) (wire : Wire) where
  abbrev end_or :
      Option Response
      → World C.Store E.Outer
      → List Response × World C.Store E.Outer
      → List Response × World C.Store E.Outer
  end_or none w rest = ([], w)
  end_or (some response) w (more, w') = (response ∷ more, w')

  -- The answers to the payloads, one by one and in their order, and the world behind them. They
  -- end where the engine does not return.
  unfoldable pub responses :
      (ℕ → ℕ) → List Text → World C.Store E.Outer → List Response × World C.Store E.Outer
  responses clock [] w = ([], w)
  responses clock (payload ∷ more) w =
      let (answer, w') = dispatch_payload E wire payload (clock 0) w in
      end_or answer w' (responses (λ n. clock (n + 1)) more w')

  abbrev with_line : Option Text → List Text → List Text
  with_line none more = more
  with_line (some line) more = line ∷ more

  -- The JSON texts of some responses.
  abbrev pub serialisations : List Response → List Text
  serialisations [] = []
  serialisations (r ∷ rs) = with_line (wire.to_vec r) (serialisations rs)

  module _ (usb : Endpoint) where
    packets-transmit :
        (line : Option Text) (more : List Text) (port : usb.Port)
        → packets (transmit E wire usb line port).0 ++ frames more ≡ frames (with_line line more)
    packets-transmit none more port = refl
    packets-transmit (some bytes) more port =
        ap (λ (t : Text). t ++ frames more)
          (packets-write_chunks usb (chunks [] (frame bytes)) port ∙ concat-chunks [] (frame bytes))

    transmit-IsSmall :
        (line : Option Text) (port : usb.Port) → All IsSmall (transmit E wire usb line port).0
    transmit-IsSmall none port = tt
    transmit-IsSmall (some bytes) port =
        write_chunks-IsSmall usb (chunks [] (frame bytes)) port
          (chunks-IsPacket [] (frame bytes) (omega arith))

    -- What the dispatcher has to show, of its payloads.
    abbrev pub Answers :
        List Transfer × World C.Store E.Outer × usb.Port
        → List Response × World C.Store E.Outer
        → Type 0
    Answers (transfers, w', port') (answers, w'') =
        (packets transfers ≡ frames (serialisations answers)) × All IsSmall transfers × (w' ≡ w'')

    or_hold-Answers :
        (answer : Option Response) (w : World C.Store E.Outer) (port : usb.Port)
        (rest : List Transfer × World C.Store E.Outer × usb.Port)
        (more : List Response × World C.Store E.Outer)
        → Answers rest more
        → (let (transfers, port') = transmit E wire usb (serialised E wire usb answer) port in
            Answers
              (or_hold E wire usb answer ([], w, port') (behind E wire usb transfers rest))
              (end_or answer w more))
    or_hold-Answers none w port rest more h = (refl, tt, refl)
    or_hold-Answers (some r) w port rest more h =
        let line = wire.to_vec r in
        let sent = (transmit E wire usb line port).0 in
        (
          packets-append sent rest.0
              ∙ ap (λ (t : Text). packets sent ++ t) h.0
              ∙ packets-transmit line (serialisations more.0) port,
          All-append IsSmall sent rest.0 (transmit-IsSmall line port) h.1,
          h.2,
        )

    serve_payloads-Answers :
        (clock : ℕ → ℕ) (ps : List Text) (w : World C.Store E.Outer) (port : usb.Port)
        → Answers (serve_payloads E wire usb clock ps w port) (responses clock ps w)
    unfolding serve_payloads responses
    serve_payloads-Answers clock [] w port = (refl, tt, refl)
    serve_payloads-Answers clock (p ∷ ps) w port =
        or_hold-Answers _ _ port _ _ (serve_payloads-Answers (λ n. clock (n + 1)) ps _ _)

    -- Whatever the host sends, in whatever packets, wherever it leaves and comes back and whichever
    -- reads fail, its lines are answered in their order: the packets handed to the endpoint are,
    -- together, the JSON texts of the answers, each ended by a newline; none of the packets is
    -- empty or longer than the endpoint takes, whatever has become of the packets before it; and
    -- the world is the one that the answers leave. The lines are those that a session completes,
    -- without their carriage returns and, of a line longer than the limit, without the blocks of
    -- one more byte than the limit that fit into it; a line of which nothing is left has no answer.
    pub serve_blocking-frames :
        (clock : ℕ → ℕ) (reads : List Read) (w : World C.Store E.Outer) (port : usb.Port)
        → Answers
            (serve_blocking E wire usb clock reads w port)
            (responses clock (requested (sessions reads)) w)
    serve_blocking-frames clock reads w port =
        rw (reader_loop-requested reads)
          (serve_payloads-Answers clock (requested (sessions reads)) w port)
