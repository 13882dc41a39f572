-- ===== src/Protocol/Frame/Lines.antt =====
-- What `LineSplitter::push` yields: the lines of the stream, however it is cut into chunks.
use passport_passwords.Base.{
  ℕ, ◌+◌, ◌≤◌, Text, List, [], ◌∷◌, ◌++◌, ◌≡◌, ◌≢◌, ◌↔◌, refl, sym, ap, ◌∙◌, inl, inr, Result, ok,
  err, ◌==◌, ==_iff, leb, length, length-append, Bool-cases, arith, append-nil, append_assoc,
}
use passport_passwords.Protocol.Frame.{
  max_line_bytes, FrameError, frame, LineSplitter, push_loop, push,
}

abbrev pub NoNewline : Text → Type 0
NoNewline [] = Unit
NoNewline (b ∷ s) = (b ≢ b'\n') × NoNewline s

abbrev pub All {ℓ κ} : {A : Type ℓ} → (A → Type κ) → List A → Type κ
All P [] = Unit
All P (x ∷ xs) = P x × All P xs

-- A line that fits the splitter.
abbrev pub Fits : Text → Type 0
Fits s = NoNewline s × (length s ≤ max_line_bytes)

-- The stream of some lines.
abbrev pub frames : List Text → Text
frames [] = []
frames (l ∷ ls) = frame l ++ frames ls

-- Put lines in front of what a later chunk gives.
abbrev pub after :
    List Text
    → Result FrameError (List Text) × LineSplitter
    → Result FrameError (List Text) × LineSplitter
after ls (ok more, s) = (ok (ls ++ more), s)
after ls (err e, s) = (err e, s)

NoNewline-append : (s t : Text) → NoNewline s → NoNewline t → NoNewline (s ++ t)
NoNewline-append [] t hs ht = ht
NoNewline-append (b ∷ s) t hs ht = (hs.0, NoNewline-append s t hs.1 ht)

pub All-append {ℓ κ} :
    {A : Type ℓ} (P : A → Type κ) (xs ys : List A) → All P xs → All P ys → All P (xs ++ ys)
All-append P [] ys hx hy = hy
All-append P (x ∷ xs) ys hx hy = (hx.0, All-append P xs ys hx.1 hy)

frames-append : (ls ms : List Text) → frames (ls ++ ms) ≡ frames ls ++ frames ms
frames-append [] ms = refl
frames-append (l ∷ ls) ms =
    rw (frames-append ls ms) (sym (append_assoc (frame l) (frames ls) (frames ms)))

after-append :
    (ls ms : List Text) (r : Result FrameError (List Text) × LineSplitter)
    → after (ls ++ ms) r ≡ after ls (after ms r)
after-append ls ms (ok more, s) = rw append_assoc
after-append ls ms (err e, s) = refl

-- The completed lines are only ever appended to.
push_loop-out :
    (bytes buf : Text) (out : List Text)
    → push_loop buf out bytes ≡ after out (push_loop buf [] bytes)
unfolding push_loop
push_loop-out [] buf out = rw append-nil
push_loop-out (b ∷ bytes) buf out = elim (Bool-cases (b == b'\n')) [
  | inl nl ↦ rw nl (
      push_loop-out bytes [] (out ++ buf ∷ [])
      ∙ after-append out (buf ∷ []) (push_loop [] [] bytes)
      ∙ ap (after out) (sym (push_loop-out bytes [] (buf ∷ []))))
  | inr other ↦ rw other (elim (Bool-cases (leb max_line_bytes (length buf))) [
    | inl full ↦ rw full
    | inr room ↦ rw room (push_loop-out bytes (buf ++ b ∷ []) out)
  ])
]

push_loop-append :
    (xs ys buf : Text) (out : List Text) {ls : List Text} {s : LineSplitter}
    → push_loop buf out xs ≡ (ok ls, s)
    → push_loop buf out (xs ++ ys) ≡ push_loop s.buf ls ys
unfolding push_loop
push_loop-append [] ys buf out h = ground arith
push_loop-append (b ∷ xs) ys buf out {ls} {s} h = ground (
  arith,
  push_loop-append xs ys [] (out ++ buf ∷ []) {ls = ls} {s = s},
  push_loop-append xs ys (buf ++ b ∷ []) out {ls = ls} {s = s},
)

-- When a first chunk is taken without an error, cutting the stream behind it changes nothing: one
-- call with both chunks gives the lines of the first call and then those, or the error, of a
-- second call, and the splitter ends in the same state.
pub push-append :
    (s : LineSplitter) (xs ys : Text) {ls : List Text} {t : LineSplitter}
    → push s xs ≡ (ok ls, t)
    → push s (xs ++ ys) ≡ after ls (push t ys)
unfolding push
push-append s xs ys {ls} {t} h = push_loop-append xs ys s.buf [] h ∙ push_loop-out ys t.buf ls

-- The bytes before a newline are collected.
push_loop-NoNewline :
    (l rest buf : Text) (out : List Text)
    → NoNewline l
    → length buf + length l ≤ max_line_bytes
    → push_loop buf out (l ++ rest) ≡ push_loop (buf ++ l) out rest
unfolding push_loop
push_loop-NoNewline [] rest buf out n h = rw append-nil
push_loop-NoNewline (b ∷ l) rest buf out n h = ground (
  arith,
  push_loop-NoNewline l rest (buf ++ b ∷ []) out,
  append_assoc buf (b ∷ []) l,
  length-append buf (b ∷ []),
)

buffered : (s : LineSplitter) → Fits s.buf → push_loop [] [] s.buf ≡ (ok [], s)
unfolding push_loop
buffered s h =
    ap (push_loop [] []) (sym (append-nil s.buf))
    ∙ push_loop-NoNewline s.buf [] [] [] h.0 (omega (arith, h.1))

push_loop-frames :
    (ls : List Text) (tail : Text) (out : List Text)
    → All Fits ls
    → Fits tail
    → push_loop [] out (frames ls ++ tail) ≡ (ok (out ++ ls), record { buf = tail })
unfolding push_loop frame
push_loop-frames [] tail out hs ht = rw (append-nil out) (
    ap (push_loop [] out) (sym (append-nil tail))
    ∙ push_loop-NoNewline tail [] [] out ht.0 (omega (arith, ht.1)))
push_loop-frames (l ∷ ls) tail out hs ht = simp append_assoc (
    push_loop-NoNewline l _ [] out hs.0.0 (omega (arith, hs.0.1))
    ∙ push_loop-frames ls tail (out ++ l ∷ []) hs.1 ht
    ∙ ap (λ (o : List Text). (ok o, record { buf = tail })) (append_assoc out (l ∷ []) ls))

-- What the loop has to show: the stream read so far is the lines and the buffer.
record Split (ls : List Text) (tail : Text) (stream : Text) : Type 0 where
  whole : frames ls ++ tail ≡ stream
  lines : All Fits ls
  last : Fits tail

Split-refl :
    (out : List Text) (buf : Text)
    → All Fits out
    → Fits buf
    → {ls : List Text} {s : LineSplitter}
    → ◌≡◌ {A = Result FrameError (List Text) × LineSplitter}
        (ok out, record { buf = buf })
        (ok ls, s)
    → Split ls s.buf (frames out ++ buf)
Split-refl out buf ho hb {ls} {s} h =
    let e : out ≡ ls = ground arith in
    let e' : buf ≡ s.buf = ground arith in
    rw (← e, ← e') (record { whole = refl; lines = ho; last = hb })

Split-stream : {ls : List Text} {tail s t : Text} → s ≡ t → Split ls tail s → Split ls tail t
Split-stream e h = rw e at h

stream_newline :
    (out : List Text) (buf bytes : Text) {b : ℕ}
    → b ≡ b'\n'
    → frames (out ++ buf ∷ []) ++ bytes ≡ frames out ++ (buf ++ b ∷ bytes)
unfolding frame
stream_newline out buf bytes e = rw e (simp (frames-append, append_assoc, append-nil))

push_loop-Split :
    (bytes buf : Text) (out : List Text) {ls : List Text} {s : LineSplitter}
    → All Fits out
    → Fits buf
    → push_loop buf out bytes ≡ (ok ls, s)
    → Split ls s.buf (frames out ++ (buf ++ bytes))
unfolding push_loop
push_loop-Split [] buf out {ls} {s} ho hb h =
    rw (append-nil buf) (Split-refl out buf ho hb {ls = ls} {s = s} h)
push_loop-Split (b ∷ bytes) buf out {ls} {s} ho hb h = elim (Bool-cases (b == b'\n')) [
  | inl nl ↦ Split-stream (stream_newline out buf bytes ((==_iff b b'\n').0 nl)) (
      push_loop-Split bytes [] (out ++ buf ∷ []) (All-append Fits out (buf ∷ []) ho (hb, tt))
        (tt, omega arith) (ground arith))
  | inr other ↦
      Split-stream (ap (λ (t : Text). frames out ++ t) (append_assoc buf (b ∷ []) bytes)) (
        push_loop-Split bytes (buf ++ b ∷ []) out ho
          (
            NoNewline-append buf (b ∷ []) hb.0 (ground arith, tt),
            ground (arith, length-append buf (b ∷ []), hb.1),
          )
          (ground arith))
]

-- A splitter whose buffer fits yields exactly the lines of the stream: `push` succeeds with some
-- lines and a new buffer if and only if the bytes held and the bytes read, together, are those
-- lines, each ended by a newline, and then the buffer, all of them free of newlines and no longer
-- than the limit.
pub push_iff :
    (s : LineSplitter) (bytes : Text) (ls : List Text) (t : LineSplitter)
    → Fits s.buf
    → (push s bytes ≡ (ok ls, t))
      ↔ ((frames ls ++ t.buf ≡ s.buf ++ bytes) × All Fits ls × Fits t.buf)
unfolding push
push_iff s bytes ls t hs = (
  λ h.
      (let split = push_loop-Split bytes s.buf [] tt hs h in
        (split.whole, split.lines, split.last)),
  λ h.
      sym (push_loop-append s.buf bytes [] [] (buffered s hs))
      ∙ rw (← h.0) (push_loop-frames ls t.buf [] h.1 h.2),
)
