-- ===== src/Protocol/Frame.antt =====
-- logic/vaults-bridge-protocol/src/frame.rs: one JSON object to a line.
pub mod Lines
use passport_passwords.Base.{
  ℕ, ◌*◌, Text, List, [], ◌∷◌, ◌++◌, Result, ok, err, ◌==◌, leb, length, if◌then◌else◌,
}

abbrev pub max_line_bytes : ℕ
max_line_bytes = 16 * 1024

pub data FrameError : Type 0 where
  line_too_long : FrameError

-- Wrap a payload as a newline-terminated frame.
unfoldable pub frame : Text → Text
frame payload = payload ++ b'\n' ∷ []

pub record LineSplitter : Type 0 where
  pub buf : Text

abbrev pub new : LineSplitter
new = record { buf = [] }

-- The loop of `push` over its variables: the buffer and the lines completed so far. A line that
-- is too long clears the buffer and leaves the loop at once.
unfoldable pub push_loop : Text → List Text → Text → Result FrameError (List Text) × LineSplitter
push_loop buf out [] = (ok out, record { buf = buf })
push_loop buf out (b ∷ bytes) =
    let at_newline = push_loop [] (out ++ buf ∷ []) bytes in
    let at_byte = push_loop (buf ++ b ∷ []) out bytes in
    if b == b'\n'
    then at_newline
    else if leb max_line_bytes (length buf)
    then (err line_too_long, record { buf = [] })
    else at_byte

-- `LineSplitter::push`: the result, and the splitter afterwards.
unfoldable pub push : LineSplitter → Text → Result FrameError (List Text) × LineSplitter
unfolding push_loop
push s bytes = push_loop s.buf [] bytes
