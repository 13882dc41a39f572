-- ===== src/Transport/Agreement.antt =====
-- The two transports give the same answers.
use passport_passwords.Base.{
  ℕ, ◌+◌, Text, text, List, [], ◌∷◌, ◌++◌, true, Option, none, some, ◌≡◌, sym, ◌∙◌, ap, map,
  append-nil, append_assoc, Option-cases, inl, inr,
}
use passport_passwords.Protocol.Message.{Request, Response}
use passport_passwords.Store.{CredentialStore}
use passport_passwords.Engine.{Engine, World}
use passport_passwords.Engine.Dispatch.{handle}
use passport_passwords.Transport.{Wire, parse_failure, dispatch_payload}
use passport_passwords.Transport.Frames.{responses}
use passport_passwords.Transport.Websocket.{text_message, Socket, serve_client}

-- A client that takes every text.
abbrev pub listening : Socket
listening = record { Sink = List Text; send = λ t sink. (true, sink ++ t ∷ []) }

module _ (parse : Text → Option Request) (json : Response → Text) where
  -- Every response has a JSON text, and the `id` of a text that is no request is not looked for.
  abbrev pub anonymous : Wire
  anonymous = record { parse_request = parse; parse_id = λ t. none; to_vec = λ r. some (json r) }

module _ {C : CredentialStore} (E : Engine C) (parse : Text → Option Request)
    (json : Response → Text) where
  abbrev pub Sent :
      List Text → List Response × World C.Store E.Outer → World C.Store E.Outer × List Text
  Sent sink (rs, w) = (w, sink ++ map json rs)

  Sent-cons :
      (r : Response) (sink : List Text) (rest : List Response × World C.Store E.Outer)
      → Sent (sink ++ json r ∷ []) rest ≡ Sent sink (r ∷ rest.0, rest.1)
  Sent-cons r sink (rs, w) =
      ap (λ (s : List Text). (w, s)) (append_assoc sink (json r ∷ []) (map json rs))

  -- Where every response has a JSON text and no id is found in a text that is no request: a client
  -- of the simulator that takes every answer gets the JSON texts of the answers that the device
  -- gives to the same texts at the same times, in the same order, and the world ends as it does on
  -- the device.
  pub serve_client-responses :
      (clock : ℕ → ℕ) (ts : List Text) (w : World C.Store E.Outer) (sink : List Text)
      → serve_client E (anonymous parse json) listening clock (map text_message ts) w sink
        ≡ Sent sink (responses E (anonymous parse json) clock ts w)
  unfolding serve_client responses dispatch_payload
  serve_client-responses clock [] w sink = ap (λ (s : List Text). (w, s)) (sym (append-nil sink))
  serve_client-responses clock (t ∷ ts) w sink = elim (Option-cases (parse t)) [
    | inl e ↦ rw e (
        serve_client-responses (λ n. clock (n + 1)) ts w _
        ∙ Sent-cons (parse_failure (text "0")) sink
            (responses E (anonymous parse json) (λ n. clock (n + 1)) ts w))
    | inr (req, e) ↦
        let (answer, w') = handle E req (clock 0) w in
        rw e (elim (Option-cases answer) [
          | inl hangs ↦ rw hangs (ap (λ (s : List Text). (w', s)) (sym (append-nil sink)))
          | inr (r, h) ↦ rw h (
              serve_client-responses (λ n. clock (n + 1)) ts w' _
              ∙ Sent-cons r sink (responses E (anonymous parse json) (λ n. clock (n + 1)) ts w'))
        ])
  ]
