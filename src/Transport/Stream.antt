-- ===== src/Transport/Stream.antt =====
-- What `reader_loop` sends: the lines of the host's bytes, however they are cut into packets.
use passport_passwords.Base.{
  ℕ, Text, List, [], ◌∷◌, ◌++◌, Option, none, some, ◌≡◌, ◌+◌, ◌-◌, ◌%◌, ◌≤◌, ◌<◌, zero, suc, false,
  refl, sym, ap, ◌∙◌, ◌==◌, leb, length, length-append, drop, if◌then◌else◌, Bool-cases, inl, inr,
  arith, append-nil, append_assoc,
}
use passport_passwords.Transport.Reader.{
  max_usb_line_bytes, Read, got, host_disconnected, read_failed, take_line, read_byte, send_payload,
  read_bytes, reader_loop,
}

-- The lines that a text completes, behind the line in progress.
unfoldable pub lines_from : Text → Text → List Text
lines_from line [] = []
lines_from line (b ∷ s) =
    let ends = b == b'\n' in
    let rest = lines_from (if ends then [] else line ++ b ∷ []) s in
    if ends then line ∷ rest else rest

-- A line without its carriage returns.
unfoldable pub strip_cr : Text → Text
strip_cr [] = []
strip_cr (b ∷ s) = let rest = strip_cr s in if b == b'\r' then rest else b ∷ rest

-- What is left of a line when its bytes are thrown away in blocks of one more than the limit.
unfoldable pub remainder : Text → Text
remainder s = drop (length s - length s % (max_usb_line_bytes + 1)) s

-- The lines that are not blank.
abbrev pub filled : Text → List Text → List Text
filled [] more = more
filled (c ∷ s) more = (c ∷ s) ∷ more

-- What is dispatched of some lines.
abbrev pub payloads : List Text → List Text
payloads [] = []
payloads (l ∷ ls) = filled (remainder (strip_cr l)) (payloads ls)

abbrev onto : Text → List Text → List Text
onto chunk [] = chunk ∷ []
onto chunk (s ∷ ss) = (chunk ++ s) ∷ ss

-- The bytes of the host, cut where it leaves.
abbrev pub sessions : List Read → List Text
sessions [] = [] ∷ []
sessions (got chunk ∷ reads) = onto chunk (sessions reads)
sessions (read_failed ∷ reads) = sessions reads
sessions (host_disconnected ∷ reads) = [] ∷ sessions reads

-- The payloads of some sessions: a line does not go on in the next one.
abbrev pub requested : List Text → List Text
requested [] = []
requested (s ∷ ss) = payloads (lines_from [] s) ++ requested ss

drop_all {ℓ} : {A : Type ℓ} (n : ℕ) (xs : List A) → length xs ≤ n → drop n xs ≡ []
drop_all zero [] h = refl
drop_all zero (x ∷ xs) h = absurd (omega arith)
drop_all (suc n) [] h = refl
drop_all (suc n) (x ∷ xs) h = drop_all n xs (omega arith)

drop-append_le {ℓ} :
    {A : Type ℓ} (n : ℕ) (xs ys : List A) → n ≤ length xs → drop n (xs ++ ys) ≡ drop n xs ++ ys
drop-append_le zero xs ys h = refl
drop-append_le (suc n) [] ys h = absurd (omega arith)
drop-append_le (suc n) (x ∷ xs) ys h = drop-append_le n xs ys (omega arith)

length-drop {ℓ} : {A : Type ℓ} (n : ℕ) (xs : List A) → length (drop n xs) ≡ length xs - n
length-drop zero xs = omega arith
length-drop (suc n) [] = omega arith
length-drop (suc n) (x ∷ xs) = omega (arith, length-drop n xs)

length-remainder : (s : Text) → length (remainder s) ≡ length s % (max_usb_line_bytes + 1)
unfolding remainder
length-remainder s = omega (arith, length-drop (length s - length s % 16385) s)

-- One more byte starts the line again where it is full.
remainder_full :
    (s : Text) (b : ℕ) → max_usb_line_bytes ≤ length (remainder s) → remainder (s ++ b ∷ []) ≡ []
unfolding remainder
remainder_full s b h =
    drop_all _ (s ++ b ∷ []) (omega (arith, h, length-remainder s, length-append s (b ∷ [])))

remainder_room :
    (s : Text) (b : ℕ)
    → leb max_usb_line_bytes (length (remainder s)) ≡ false
    → remainder (s ++ b ∷ []) ≡ remainder s ++ b ∷ []
unfolding remainder
remainder_room s b h =
    let room : length s % 16385 < max_usb_line_bytes = ground (arith, length-remainder s) in
    ap (λ (n : ℕ). drop n (s ++ b ∷ [])) (omega (arith, room, length-append s (b ∷ [])))
    ∙ drop-append_le (length s - length s % 16385) s (b ∷ []) (omega arith)

strip_cr-append : (s t : Text) → strip_cr (s ++ t) ≡ strip_cr s ++ strip_cr t
unfolding strip_cr
strip_cr-append [] t = refl
strip_cr-append (b ∷ s) t = ground (arith, strip_cr-append s t)

-- The line in progress, of the bytes `raw` since the last newline.
abbrev in_progress : Text → Text
in_progress raw = remainder (strip_cr raw)

in_progress-byte :
    (raw : Text) (b : ℕ)
    → b == b'\n' ≡ false
    → read_byte (in_progress raw) b ≡ (none, in_progress (raw ++ b ∷ []))
unfolding read_byte strip_cr
in_progress-byte raw b h =
    rw (strip_cr-append raw (b ∷ []), h)
      (elim (Bool-cases (b == b'\r')) [
        | inl cr ↦ rw (cr, append-nil) refl
        | inr kept ↦
            rw kept (elim (Bool-cases (leb max_usb_line_bytes (length (in_progress raw)))) [
              | inl full ↦ rw full (
                  ap (λ (t : Text). (none, t))
                    (sym (remainder_full (strip_cr raw) b (ground arith))))
              | inr room ↦
                  rw room
                    (ap (λ (t : Text). (none, t)) (sym (remainder_room (strip_cr raw) b room)))
            ])
      ])

take_line-filled :
    (line s : Text) {more : List Text}
    → (read_bytes [] s).0 ≡ more
    → send_payload (take_line line).0 (read_bytes (take_line line).1 s).0 ≡ filled line more
unfolding take_line
take_line-filled [] s h = h
take_line-filled (c ∷ line) s h = ap (λ (ps : List Text). (c ∷ line) ∷ ps) h

read_bytes-lines : (s raw : Text) → (read_bytes (in_progress raw) s).0 ≡ payloads (lines_from raw s)
unfolding read_bytes read_byte lines_from remainder strip_cr
read_bytes-lines [] raw = refl
read_bytes-lines (b ∷ s) raw = elim (Bool-cases (b == b'\n')) [
  | inl nl ↦ rw nl (take_line-filled (in_progress raw) s (read_bytes-lines s []))
  | inr other ↦ rw (in_progress-byte raw b other, other) (read_bytes-lines s (raw ++ b ∷ []))
]

send_payload-append :
    (sent : Option Text) (ps qs : List Text)
    → send_payload sent (ps ++ qs) ≡ send_payload sent ps ++ qs
send_payload-append none ps qs = refl
send_payload-append (some p) ps qs = refl

read_bytes-append :
    (xs ys line : Text)
    → (read_bytes line (xs ++ ys)).0
      ≡ (read_bytes line xs).0 ++ (read_bytes (read_bytes line xs).1 ys).0
unfolding read_bytes
read_bytes-append [] ys line = refl
read_bytes-append (b ∷ xs) ys line =
    let (sent, line') = read_byte line b in
    rw (read_bytes-append xs ys line', send_payload-append sent) refl

-- What is read of the sessions, of which the first goes on with a line.
abbrev read_sessions : Text → List Text → List Text
read_sessions line [] = []
read_sessions line (s ∷ ss) = (read_bytes line s).0 ++ read_sessions [] ss

read_sessions-onto :
    (chunk line : Text) (ss : List Text)
    → read_sessions line (onto chunk ss)
      ≡ (read_bytes line chunk).0 ++ read_sessions (read_bytes line chunk).1 ss
read_sessions-onto chunk line [] = refl
read_sessions-onto chunk line (s ∷ ss) =
    ap (λ (ps : List Text). ps ++ read_sessions [] ss) (read_bytes-append chunk s line)
    ∙ append_assoc (read_bytes line chunk).0 _ (read_sessions [] ss)

-- Packets and failed reads do not matter.
reader_loop-sessions :
    (reads : List Read) (line : Text)
    → (reader_loop line reads).0 ≡ read_sessions line (sessions reads)
unfolding reader_loop read_bytes
reader_loop-sessions [] line = refl
reader_loop-sessions (got chunk ∷ reads) line =
    rw (reader_loop-sessions reads (read_bytes line chunk).1)
      (sym (read_sessions-onto chunk line (sessions reads)))
reader_loop-sessions (read_failed ∷ reads) line = reader_loop-sessions reads line
reader_loop-sessions (host_disconnected ∷ reads) line = reader_loop-sessions reads []

read_sessions-requested : (ss : List Text) → read_sessions [] ss ≡ requested ss
unfolding remainder strip_cr
read_sessions-requested [] = refl
read_sessions-requested (s ∷ ss) =
    rw (read_sessions-requested ss)
      (ap (λ (ps : List Text). ps ++ requested ss) (read_bytes-lines s []))

-- The reader sends the lines of each session, whatever their lengths.
pub reader_loop-requested :
    (reads : List Read) → (reader_loop [] reads).0 ≡ requested (sessions reads)
reader_loop-requested reads =
    reader_loop-sessions reads [] ∙ read_sessions-requested (sessions reads)
