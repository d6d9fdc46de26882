-- ===== src/Backup.antt =====
-- backend/pkg/backup/backup.go: the format of a backup. A byte is a number below 256. `gzip` and
-- `gunzip` stand for the compression and the reading of all that was compressed, and `max_slice` for
-- the length above which the run time refuses to make a slice, by a panic.
pub mod RoundTrip
pub mod Total
pub mod Runs
pub mod Restorable
use cargobay.Prelude.{
  ℕ, zero, suc, Bool, true, false, ◌&&◌, ◌||◌, not, ◌+◌, ◌*◌, ◌/◌, ◌%◌, List, [], ◌∷◌, ◌++◌, Error,
  message, Result, ok, err, length, take, drop, ltb, eqb, wrapping, if◌then◌else◌,
}

abbrev pub Bytes : Type 0
Bytes = List ℕ

-- "CBBK1"
abbrev pub dump_magic : Bytes
dump_magic = 67 ∷ 66 ∷ 66 ∷ 75 ∷ 49 ∷ []

-- binary.BigEndian.PutUint64, for any number of bytes
unfoldable pub big_endian : ℕ → ℕ → Bytes
big_endian zero n = []
big_endian (suc k) n = big_endian k (n / 256) ++ n % 256 ∷ []

-- binary.BigEndian.Uint64, behind what was read before
unfoldable pub number_from : ℕ → Bytes → ℕ
number_from acc [] = acc
number_from acc (b ∷ bs) = number_from (acc * 256 + b) bs

-- the loop of encodeArchive
unfoldable pub frames : List Bytes → Bytes
unfolding big_endian
frames [] = []
frames (stmt ∷ rest) = big_endian 8 (length stmt) ++ (stmt ++ frames rest)

unfoldable pub same_bytes : Bytes → Bytes → Bool
same_bytes [] [] = true
same_bytes [] (b ∷ bs) = false
same_bytes (a ∷ xs) [] = false
same_bytes (a ∷ xs) (b ∷ bs) = let rest = same_bytes xs bs in eqb a b && rest

-- How decodeArchive ends. `exhausted` is the end of the fuel.
pub data Decoded : Type 0 where
  decoded : List Bytes → Decoded
  failed : Error → Decoded
  panicked : Decoded
  exhausted : Decoded

-- `append`, where the rest is decoded
unfoldable pub prepend : Bytes → Decoded → Decoded
prepend stmt (decoded rest) = decoded (stmt ∷ rest)
prepend stmt (failed e) = failed e
prepend stmt panicked = panicked
prepend stmt exhausted = exhausted

module _ (max_slice : ℕ) (gzip : Bytes → Result Bytes) (gunzip : Bytes → Result Bytes) where
  -- The loop of decodeArchive; a round takes at least eight bytes.
  unfoldable pub decode_frames : ℕ → Bytes → Decoded
  unfolding number_from prepend
  decode_frames zero raw = exhausted
  decode_frames (suc fuel) raw =
      let n = number_from 0 (take 8 raw) in
      let body = drop 8 raw in
      let later = decode_frames fuel (drop n body) in
      if eqb (length raw) 0
      then decoded []
      else if ltb (length raw) 8
      then failed (message "corrupt backup archive")
      else if ltb max_slice n
      then panicked
      else if ltb (length body) n
      then failed (message "corrupt backup archive")
      else prepend (take n body) later

  unfoldable pub encode_archive : List Bytes → Result Bytes
  unfolding frames
  encode_archive statements =
      wrapping "failed to compress backup" (gzip (dump_magic ++ frames statements))

  unfoldable pub decode_raw : Bytes → Decoded
  unfolding same_bytes decode_frames
  decode_raw raw =
      if ltb (length raw) (length dump_magic)
        || not (same_bytes (take (length dump_magic) raw) dump_magic)
      then failed (message "not a cargobay backup archive")
      else (let rest = drop (length dump_magic) raw in decode_frames (suc (length rest)) rest)

  unfoldable pub decode_archive : Bytes → Decoded
  unfolding decode_raw
  decode_archive archive = elim (gunzip archive) [
    | err e ↦ failed (Error.wrap "failed to decompress backup" e)
    | ok raw ↦ decode_raw raw
  ]
