-- ===== src/App/Disk/Hosted.antt =====
-- The store of the hosted simulator: `write` of src/src/persist.rs, over the calls of `std::fs`.
use passport_passwords.Base.{
  ℕ, zero, suc, Text, List, [], ◌∷◌, Bool, true, false, Option, none, some, take, if◌then◌else◌,
}

-- A file: what is read from it, and whether all of it has reached the disk.
pub record File : Type 0 where
  pub bytes : Text
  pub synced : Bool

-- The directory, `passwords.new` and `passwords.bin`. A rename is seen at once, but may reach the
-- disk later: until then the disk has the old entry for `passwords.bin`.
pub record Files : Type 0 where
  pub dir : Bool
  pub new_file : Option File
  pub main_file : Option File
  pub main_on_disk : Option File

pub data FsCall : Type 0 where
  create_dir_all create_new sync_new rename_new : FsCall
  write_new : Text → FsCall

abbrev synced_file : Option File → Option File
synced_file none = none
synced_file (some f) = some (record f { synced = true })

unfoldable pub fs_done : FsCall → Files → Files
fs_done create_dir_all f = record f { dir = true }
fs_done create_new f = record f { new_file = some (record { bytes = []; synced = false }) }
fs_done (write_new bytes) f = record f {
  new_file = some (record { bytes = bytes; synced = false });
}
fs_done sync_new f = record f { new_file = synced_file f.new_file }
fs_done rename_new f = record f { new_file = none; main_file = f.new_file }

-- A call that fails, or that the power is lost in: a write may have written its first bytes, and
-- every other call has done nothing. The rename is atomic.
unfoldable pub fs_cut : ℕ → FsCall → Files → Files
fs_cut n (write_new bytes) f = record f {
  new_file = some (record { bytes = take n bytes; synced = false });
}
fs_cut n _ f = f

-- What is read from a file when the power comes back: of one that was not synced, as many of its
-- first bytes as had reached the disk.
abbrev survives : ℕ → Option File → Option Text
survives n none = none
survives n (some f) = some (if f.synced then f.bytes else take n f.bytes)

-- What `passwords.bin` holds when the power comes back: the rename may have reached the disk or
-- not.
abbrev pub after_power_loss : Bool → ℕ → Files → Option Text
after_power_loss renamed n f = survives n (if renamed then f.main_file else f.main_on_disk)

-- What is read from `passwords.bin`.
abbrev pub main_bytes : Files → Option Text
main_bytes f = elim f.main_file [ none ↦ none | some file ↦ some file.bytes ]

-- `KeystoreStore::write`, as its calls in order
abbrev pub write_calls : Text → List FsCall
write_calls bytes = create_dir_all ∷ create_new ∷ write_new bytes ∷ sync_new ∷ rename_new ∷ []

-- The calls up to the first that is cut, by `?`: the number of calls before it, if one is, and how
-- many bytes a cut write has written.
unfoldable pub run_calls : Option (ℕ × ℕ) → List FsCall → Files → Bool × Files
unfolding fs_done fs_cut
run_calls cut [] f = (true, f)
run_calls none (call ∷ calls) f = run_calls none calls (fs_done call f)
run_calls (some (zero, n)) (call ∷ calls) f = (false, fs_cut n call f)
run_calls (some (suc k, n)) (call ∷ calls) f = run_calls (some (k, n)) calls (fs_done call f)

unfoldable pub hosted_write : Option (ℕ × ℕ) → Text → Files → Bool × Files
unfolding run_calls
hosted_write cut bytes f = run_calls cut (write_calls bytes) f
