-- ===== src/Backup/RoundTrip.antt =====
-- That a backup is decoded to the statements that it was made of.
use cargobay.Prelude.{
  ℕ, zero, suc, ◌≡◌, ◌<◌, ◌≤◌, ◌+◌, ◌*◌, ◌/◌, ◌%◌, refl, sym, ap, ◌∙◌, List, [], ◌∷◌, ◌++◌, arith,
  Result, ok, err, length, take, drop, ltb, eqb, length-append, Result-cases, inl, inr, true, false,
}
use cargobay.Backup.{
  Bytes, dump_magic, big_endian, number_from, frames, same_bytes, decoded, prepend, decode_frames,
  encode_archive, decode_raw, decode_archive,
}

-- 256 ^ k
abbrev bound : ℕ → ℕ
bound zero = 1
bound (suc k) = 256 * bound k

length-big_endian : (k n : ℕ) → length (big_endian k n) ≡ k
unfolding big_endian
length-big_endian zero n = refl
length-big_endian (suc k) n =
    omega
      (arith, length-append (big_endian k (n / 256)) (n % 256 ∷ []), length-big_endian k (n / 256))

number_from-append :
    (acc : ℕ) (bs : Bytes) (b : ℕ) → number_from acc (bs ++ b ∷ []) ≡ number_from acc bs * 256 + b
unfolding number_from
number_from-append acc [] b = refl
number_from-append acc (x ∷ bs) b = number_from-append (acc * 256 + x) bs b

number_from-big_endian : (k n : ℕ) → n < bound k → number_from 0 (big_endian k n) ≡ n
unfolding big_endian number_from
number_from-big_endian zero n lt = omega (arith, lt)
number_from-big_endian (suc k) n lt =
    let smaller = number_from-big_endian k (n / 256) (omega (arith, lt)) in
    omega (arith, number_from-append 0 (big_endian k (n / 256)) (n % 256), smaller)

take-length : (k : ℕ) (xs ys : Bytes) → length xs ≡ k → take k (xs ++ ys) ≡ xs
take-length zero [] ys e = refl
take-length zero (x ∷ xs) ys e = absurd (omega (arith, e))
take-length (suc k) [] ys e = absurd (omega (arith, e))
take-length (suc k) (x ∷ xs) ys e = ap (λ zs. x ∷ zs) (take-length k xs ys (omega (arith, e)))

drop-length : (k : ℕ) (xs ys : Bytes) → length xs ≡ k → drop k (xs ++ ys) ≡ ys
drop-length zero [] ys e = refl
drop-length zero (x ∷ xs) ys e = absurd (omega (arith, e))
drop-length (suc k) [] ys e = absurd (omega (arith, e))
drop-length (suc k) (x ∷ xs) ys e = drop-length k xs ys (omega (arith, e))

same_bytes_refl : (bs : Bytes) → same_bytes bs bs ≡ true
unfolding same_bytes
same_bytes_refl [] = refl
same_bytes_refl (b ∷ bs) = ground (arith, same_bytes_refl bs)

abbrev bytes_of : Bytes → Result Bytes → Bytes
bytes_of d (ok bs) = bs
bytes_of d (err e) = d

-- every statement fits into a slice, and its length into eight bytes
abbrev pub AllFit : ℕ → List Bytes → Type 0
AllFit max_slice [] = Unit
AllFit max_slice (stmt ∷ rest) =
    (length stmt ≤ max_slice) × (length stmt < 18446744073709551616) × AllFit max_slice rest

module _ (max_slice : ℕ) (gzip : Bytes → Result Bytes) (gunzip : Bytes → Result Bytes) where
  -- a round of the loop on a whole frame
  one_frame :
      (fuel n : ℕ) (raw body : Bytes)
      → number_from 0 (take 8 raw) ≡ n
      → drop 8 raw ≡ body
      → 8 ≤ length raw
      → n ≤ max_slice
      → n ≤ length body
      → decode_frames max_slice gzip gunzip (suc fuel) raw
        ≡ prepend (take n body) (decode_frames max_slice gzip gunzip fuel (drop n body))
  unfolding decode_frames
  one_frame fuel n raw body e d enough fits whole =
      let a : eqb (length raw) 0 ≡ false = ground arith in
      let b : ltb (length raw) 8 ≡ false = ground arith in
      let c : ltb max_slice n ≡ false = ground arith in
      let f : ltb (length body) n ≡ false = ground arith in
      rw (decode_frames, a, b, e, d, c, f) refl

  decode-frames :
      (fuel : ℕ) (stmts : List Bytes)
      → length (frames stmts) < fuel
      → AllFit max_slice stmts
      → decode_frames max_slice gzip gunzip fuel (frames stmts) ≡ decoded stmts
  unfolding frames prepend decode_frames
  decode-frames zero stmts lt fit = absurd (omega (arith, lt))
  decode-frames (suc fuel) [] lt fit = refl
  decode-frames (suc fuel) (stmt ∷ rest) lt (small, short, fit) =
      let head = big_endian 8 (length stmt) in
      let tail = stmt ++ frames rest in
      let eight = length-big_endian 8 (length stmt) in
      let n : number_from 0 (take 8 (head ++ tail)) ≡ length stmt =
        ap (number_from 0) (take-length 8 head tail eight)
        ∙ number_from-big_endian 8 (length stmt) (omega (arith, short)) in
      let whole = length-append head tail in
      let part = length-append stmt (frames rest) in
      one_frame fuel (length stmt) (head ++ tail) tail n (drop-length 8 head tail eight)
        (omega (arith, whole, eight)) small (omega (arith, part))
      ∙ ap (λ s. prepend s (decode_frames max_slice gzip gunzip fuel (drop (length stmt) tail)))
          (take-length (length stmt) stmt (frames rest) refl)
      ∙ ap (λ r. prepend stmt (decode_frames max_slice gzip gunzip fuel r))
          (drop-length (length stmt) stmt (frames rest) refl)
      ∙ ap (prepend stmt) (decode-frames fuel rest (omega (arith, lt, whole, part, eight)) fit)

  decoded_raw :
      (stmts : List Bytes)
      → AllFit max_slice stmts
      → decode_raw max_slice gzip gunzip (dump_magic ++ frames stmts) ≡ decoded stmts
  unfolding decode_raw same_bytes
  decoded_raw stmts fit =
      let enough : ltb (length (dump_magic ++ frames stmts)) 5 ≡ false = ground arith in
      rw (decode_raw, enough) (decode-frames (suc (length (frames stmts))) stmts (omega arith) fit)

  -- An archive that encodes statements is decoded to these statements, in their order, if the
  -- compression is undone: also where statements are empty or hold any bytes. Each statement is to
  -- fit into memory, and its length into eight bytes.
  pub decode-encode_archive :
      (stmts : List Bytes) (archive : Bytes)
      → ((raw compressed : Bytes) → gzip raw ≡ ok compressed → gunzip compressed ≡ ok raw)
      → AllFit max_slice stmts
      → encode_archive max_slice gzip gunzip stmts ≡ ok archive
      → decode_archive max_slice gzip gunzip archive ≡ decoded stmts
  unfolding encode_archive decode_archive decode_raw
  decode-encode_archive stmts archive undone fit h =
      let raw = dump_magic ++ frames stmts in
      elim (Result-cases (gzip raw)) [
        | inr (x, e) ↦ cc (rw (e, encode_archive) at h)
        | inl (compressed, e) ↦
            let same : compressed ≡ archive = ap (bytes_of []) (rw (e, encode_archive) at h) in
            let back : gunzip archive ≡ ok raw = ap gunzip (sym same) ∙ undone raw compressed e in
            rw (back, decode_archive) (decoded_raw stmts fit)
      ]
