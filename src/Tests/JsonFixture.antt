-- ===== src/Tests/JsonFixture.antt =====
-- A plain encoding of the stored types, in place of `serde_json`.
use passport_passwords.Base.{
  ℤ, pos, negsuc, ℕ, zero, suc, ◌≡◌, refl, ap, Text, List, [], ◌∷◌, ◌++◌, Bool, true, false, Option,
  none, some, length, take, drop, take-append_left, drop-append_left, arith,
}
use passport_passwords.Record.{CredentialRecord}
use passport_passwords.Keystore.Sealed.{BackupFile, Json, IsJson}

abbrev pub put_text : Text → Text → Text
put_text t rest = length t ∷ (t ++ rest)

unfoldable pub get_text : Text → Text × Text
get_text [] = ([], [])
get_text (n ∷ s) = (take n s, drop n s)

get_text-put_text : (t rest : Text) → get_text (put_text t rest) ≡ (t, rest)
unfolding get_text
get_text-put_text t rest =
    rw (take-append_left (length t) t rest refl, drop-append_left (length t) t rest refl) refl

abbrev get_number : Text → ℕ × Text
get_number [] = (0, [])
get_number (n ∷ s) = (n, s)

abbrev pub put_bool : Bool → Text → Text
put_bool false rest = 0 ∷ rest
put_bool true rest = 1 ∷ rest

abbrev get_bool : Text → Bool × Text
get_bool (zero ∷ s) = (false, s)
get_bool (suc _ ∷ s) = (true, s)
get_bool [] = (false, [])

get_bool-put_bool : (b : Bool) (rest : Text) → get_bool (put_bool b rest) ≡ (b, rest)
get_bool-put_bool false rest = refl
get_bool-put_bool true rest = refl

abbrev pub put_int : ℤ → Text → Text
put_int (pos n) rest = 0 ∷ n ∷ rest
put_int (negsuc n) rest = 1 ∷ n ∷ rest

abbrev get_int : Text → ℤ × Text
get_int (zero ∷ n ∷ s) = (pos n, s)
get_int (suc _ ∷ n ∷ s) = (negsuc n, s)
get_int _ = (pos 0, [])

get_int-put_int : (z : ℤ) (rest : Text) → get_int (put_int z rest) ≡ (z, rest)
get_int-put_int (pos n) rest = refl
get_int-put_int (negsuc n) rest = refl

abbrev pub put_notes : Option Text → Text → Text
put_notes none rest = 0 ∷ rest
put_notes (some t) rest = 1 ∷ put_text t rest

abbrev get_some : Text × Text → Option Text × Text
get_some (t, s) = (some t, s)

unfoldable pub get_notes : Text → Option Text × Text
unfolding get_text
get_notes (zero ∷ s) = (none, s)
get_notes (suc _ ∷ s) = get_some (get_text s)
get_notes [] = (none, [])

get_notes-put_notes : (o : Option Text) (rest : Text) → get_notes (put_notes o rest) ≡ (o, rest)
unfolding get_notes
get_notes-put_notes none rest = refl
get_notes-put_notes (some t) rest = ap get_some (get_text-put_text t rest)

abbrev pub put_record : CredentialRecord → Text → Text
put_record r rest =
    r.id
    ∷ put_text r.origin (
        put_text r.username (
          put_text r.password (
            put_text r.label (
              put_int r.color
                (put_bool r.archived (put_notes r.notes (r.created_at ∷ r.last_used_at ∷ rest)))))))

unfoldable pub get_record : Text → CredentialRecord × Text
get_record s0 =
    let (id, s1) = get_number s0 in
    let (origin, s2) = get_text s1 in
    let (username, s3) = get_text s2 in
    let (password, s4) = get_text s3 in
    let (label, s5) = get_text s4 in
    let (color, s6) = get_int s5 in
    let (archived, s7) = get_bool s6 in
    let (notes, s8) = get_notes s7 in
    let (created_at, s9) = get_number s8 in
    let (last_used_at, rest) = get_number s9 in
    (
      record {
        id = id;
        origin = origin;
        username = username;
        password = password;
        label = label;
        color = color;
        archived = archived;
        notes = notes;
        created_at = created_at;
        last_used_at = last_used_at;
      },
      rest,
    )

get_record-put_record :
    (r : CredentialRecord) (rest : Text) → get_record (put_record r rest) ≡ (r, rest)
unfolding get_record
get_record-put_record r rest =
    simp (get_text-put_text, get_bool-put_bool, get_int-put_int, get_notes-put_notes)

unfoldable pub put_records : List CredentialRecord → Text
put_records [] = []
put_records (r ∷ rs) = put_record r (put_records rs)

unfoldable pub get_records : ℕ → Text → List CredentialRecord
get_records zero s = []
get_records (suc n) s = let (r, rest) = get_record s in r ∷ get_records n rest

get_records-put_records :
    (rs : List CredentialRecord) → get_records (length rs) (put_records rs) ≡ rs
unfolding get_records put_records
get_records-put_records [] = refl
get_records-put_records (r ∷ rs) =
    rw (get_record-put_record r (put_records rs)) (ap (◌∷◌ r) (get_records-put_records rs))

abbrev read_all : Text → List CredentialRecord
read_all [] = []
read_all (n ∷ s) = get_records n s

abbrev pub put_backup : BackupFile → Text
put_backup f =
    f.version
    ∷ f.iterations
    ∷ put_text f.magic
        (put_text f.kdf (put_text f.salt_hex (put_text f.nonce_hex (put_text f.ciphertext_hex []))))

pub get_backup : Text → BackupFile
get_backup s0 =
    let (version, s1) = get_number s0 in
    let (iterations, s2) = get_number s1 in
    let (magic, s3) = get_text s2 in
    let (kdf, s4) = get_text s3 in
    let (salt_hex, s5) = get_text s4 in
    let (nonce_hex, s6) = get_text s5 in
    let (ciphertext_hex, _) = get_text s6 in
    record {
      magic = magic;
      version = version;
      kdf = kdf;
      iterations = iterations;
      salt_hex = salt_hex;
      nonce_hex = nonce_hex;
      ciphertext_hex = ciphertext_hex;
    }

get_backup-put_backup : (f : BackupFile) → get_backup (put_backup f) ≡ f
unfolding get_backup
get_backup-put_backup f = simp get_text-put_text

abbrev pub toy_json : Json
toy_json = record {
  write_records = λ records. some (length records ∷ put_records records);
  read_records = λ raw. some (read_all raw);
  write_backup = λ file. some (put_backup file);
  read_backup = λ raw. some (get_backup raw);
}

pub toy_json-IsJson : IsJson toy_json
toy_json-IsJson = record {
  read-write_records = λ records raw e. ground (arith, get_records-put_records records);
  read-write_backup = λ file raw e. ground (arith, get_backup-put_backup file);
}
