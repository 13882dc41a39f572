-- ===== src/Transport/Reader.antt =====
-- `reader_loop` of src/transport/webusb.rs: the thread that cuts the bytes of the host into
-- lines. The channel to the dispatcher is unbounded and the dispatcher ends after the reader, so
-- the loop is a function of what the endpoint gives.
use passport_passwords.Base.{
  ℕ, ◌*◌, Text, List, [], ◌∷◌, ◌++◌, Option, none, some, ◌==◌, leb, length, if◌then◌else◌,
}

-- `MAX_LINE_BYTES` of webusb.rs
abbrev pub max_usb_line_bytes : ℕ
max_usb_line_bytes = 16 * 1024

-- What `read_buf` gives: the first `got` bytes of the buffer, or one of the two kinds of error.
pub data Read : Type 0 where
  got : Text → Read
  host_disconnected read_failed : Read

-- At a newline: the line is sent unless it is empty.
unfoldable pub take_line : Text → Option Text × Text
take_line [] = (none, [])
take_line (c ∷ line) = (some (c ∷ line), [])

-- One turn of the loop over the chunk: what is sent, and the line afterwards.
unfoldable pub read_byte : Text → ℕ → Option Text × Text
unfolding take_line
read_byte line b =
    if b == b'\n'
    then take_line line
    else if b == b'\r'
    then (none, line)
    else if leb max_usb_line_bytes (length line)
    then (none, [])
    else (none, line ++ b ∷ [])

abbrev pub send_payload : Option Text → List Text → List Text
send_payload none payloads = payloads
send_payload (some payload) payloads = payload ∷ payloads

-- `for &b in chunk`
unfoldable pub read_bytes : Text → Text → List Text × Text
unfolding read_byte
read_bytes line [] = ([], line)
read_bytes line (b ∷ bytes) =
    let (sent, line') = read_byte line b in
    let (payloads, last) = read_bytes line' bytes in (send_payload sent payloads, last)

-- The payloads sent to the dispatcher, and the line in progress.
unfoldable pub reader_loop : Text → List Read → List Text × Text
unfolding read_bytes
reader_loop line [] = ([], line)
reader_loop line (host_disconnected ∷ reads) = reader_loop [] reads
reader_loop line (read_failed ∷ reads) = reader_loop line reads
reader_loop line (got chunk ∷ reads) =
    let (payloads, line') = read_bytes line chunk in
    let (more, last) = reader_loop line' reads in (payloads ++ more, last)
