-- ===== src/Transport/Writer.antt =====
-- The writer of `serve_blocking` of src/transport/webusb.rs: a response is written in packets.
use passport_passwords.Base.{
  ℕ, Text, List, [], ◌∷◌, ◌++◌, ◌≡◌, refl, sym, ap, ◌∙◌, ◌≤◌, ◌<◌, leb, length, length-append,
  if◌then◌else◌, Bool-cases, inl, inr, arith, append_assoc,
}
use passport_passwords.Protocol.Frame.Lines.{All}

-- `max_packet_len` of the endpoints, and the size of the chunks
abbrev pub max_packet_len : ℕ
max_packet_len = 64

-- What `write_buf` answers.
pub data Write : Type 0 where
  written : ℕ → Write
  host_disconnected write_failed : Write

-- The endpoint to the host, with what it works on.
pub record Endpoint : Type 1 where
  pub Port : Type 0
  pub write_buf : Text → Port → Write × Port
  -- `wait_for_connection`, whose error is only logged, and the half second after it
  pub wait_for_connection : Port → Port

-- A packet and what came of it.
pub record Transfer : Type 0 where
  pub packet : Text
  pub outcome : Write

abbrev last_chunk : Text → List Text
last_chunk [] = []
last_chunk (c ∷ chunk) = (c ∷ chunk) ∷ []

-- `<[u8]>::chunks(max_packet_len)`, with the chunk in progress.
unfoldable pub chunks : Text → Text → List Text
chunks chunk [] = last_chunk chunk
chunks chunk (b ∷ bytes) =
    let full = leb max_packet_len (length chunk) in
    let rest = chunks (if full then b ∷ [] else chunk ++ b ∷ []) bytes in
    if full then chunk ∷ rest else rest

module _ (usb : Endpoint) where
  -- The arms of the match on what `write_buf` answers.
  abbrev pub after_write : Write → usb.Port → usb.Port
  after_write (written n) port = port
  after_write host_disconnected port = usb.wait_for_connection port
  after_write write_failed port = port

  -- `for chunk in response_bytes.chunks(64)`
  unfoldable pub write_chunks : List Text → usb.Port → List Transfer × usb.Port
  write_chunks [] port = ([], port)
  write_chunks (chunk ∷ more) port =
      let (outcome, port') = usb.write_buf chunk port in
      let (transfers, port'') = write_chunks more (after_write outcome port') in
      (record { packet = chunk; outcome = outcome } ∷ transfers, port'')

abbrev pub packets : List Transfer → Text
packets [] = []
packets (t ∷ ts) = t.packet ++ packets ts

abbrev pub IsPacket : Text → Type 0
IsPacket s = (0 < length s) × (length s ≤ max_packet_len)

abbrev pub concat : List Text → Text
concat [] = []
concat (s ∷ ss) = s ++ concat ss

pub packets-append : (ts us : List Transfer) → packets (ts ++ us) ≡ packets ts ++ packets us
packets-append [] us = refl
packets-append (t ∷ ts) us =
    rw (packets-append ts us) (sym (append_assoc t.packet (packets ts) (packets us)))

pub concat-chunks : (chunk bytes : Text) → concat (chunks chunk bytes) ≡ chunk ++ bytes
unfolding chunks
concat-chunks [] [] = refl
concat-chunks (c ∷ chunk) [] = refl
concat-chunks chunk (b ∷ bytes) = elim (Bool-cases (leb max_packet_len (length chunk))) [
  | inl full ↦ rw full (ap (λ (t : Text). chunk ++ t) (concat-chunks (b ∷ []) bytes))
  | inr room ↦ rw room (concat-chunks (chunk ++ b ∷ []) bytes ∙ append_assoc chunk (b ∷ []) bytes)
]

pub chunks-IsPacket :
    (chunk bytes : Text) → length chunk ≤ max_packet_len → All IsPacket (chunks chunk bytes)
unfolding chunks
chunks-IsPacket [] [] h = tt
chunks-IsPacket (c ∷ chunk) [] h = ((omega arith, h), tt)
chunks-IsPacket chunk (b ∷ bytes) h = elim (Bool-cases (leb max_packet_len (length chunk))) [
  | inl full ↦ rw full (ground arith, chunks-IsPacket (b ∷ []) bytes (omega arith))
  | inr room ↦
      rw room
        (chunks-IsPacket (chunk ++ b ∷ []) bytes (ground (arith, length-append chunk (b ∷ []))))
]

-- Every chunk is handed to the endpoint, whatever came of those before it.
pub packets-write_chunks :
    (usb : Endpoint) (cs : List Text) (port : usb.Port)
    → packets (write_chunks usb cs port).0 ≡ concat cs
unfolding write_chunks
packets-write_chunks usb [] port = refl
packets-write_chunks usb (c ∷ cs) port = ap (λ (t : Text). c ++ t) (packets-write_chunks usb cs _)

abbrev pub IsSmall : Transfer → Type 0
IsSmall t = IsPacket t.packet

pub write_chunks-IsSmall :
    (usb : Endpoint) (cs : List Text) (port : usb.Port)
    → All IsPacket cs
    → All IsSmall (write_chunks usb cs port).0
unfolding write_chunks
write_chunks-IsSmall usb [] port h = tt
write_chunks-IsSmall usb (c ∷ cs) port h = (h.0, write_chunks-IsSmall usb cs _ h.1)
