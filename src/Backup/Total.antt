-- ===== src/Backup/Total.antt =====
-- That decoding comes to an end on every archive.
use cargobay.Prelude.{
  ℕ, zero, suc, ◌≡◌, ◌≢◌, ◌<◌, ◌≤◌, ◌+◌, refl, ap, sym, ◌∙◌, [], ◌∷◌, arith, Result, length, take,
  drop, ltb, eqb, Bool-cases, Result-cases, inl, inr, not, ◌||◌,
}
use cargobay.Backup.{
  Bytes, dump_magic, number_from, same_bytes, Decoded, decoded, failed, panicked, exhausted,
  prepend, decode_frames, decode_raw, decode_archive,
}

is_exhausted : Decoded → ℕ
is_exhausted exhausted = 1
is_exhausted (decoded s) = 0
is_exhausted (failed e) = 0
is_exhausted panicked = 0

length-drop : (n : ℕ) (bs : Bytes) → length (drop n bs) ≤ length bs
length-drop zero bs = omega arith
length-drop (suc n) [] = omega arith
length-drop (suc n) (b ∷ bs) = omega (arith, length-drop n bs)

length-drop_some : (n : ℕ) (bs : Bytes) → n ≤ length bs → length (drop n bs) + n ≤ length bs
length-drop_some zero bs le = omega arith
length-drop_some (suc n) [] le = omega (arith, le)
length-drop_some (suc n) (b ∷ bs) le = omega (arith, length-drop_some n bs (omega (arith, le)))

prepend-ends : (stmt : Bytes) (d : Decoded) → is_exhausted d ≡ 0 → is_exhausted (prepend stmt d) ≡ 0
unfolding prepend is_exhausted
prepend-ends stmt (decoded s) h = refl
prepend-ends stmt (failed e) h = refl
prepend-ends stmt panicked h = refl
prepend-ends stmt exhausted h = h

module _ (max_slice : ℕ) (gzip : Bytes → Result Bytes) (gunzip : Bytes → Result Bytes) where
  frames-end :
      (fuel : ℕ) (raw : Bytes)
      → length raw < fuel
      → is_exhausted (decode_frames max_slice gzip gunzip fuel raw) ≡ 0
  unfolding decode_frames is_exhausted
  frames-end zero raw lt = absurd (omega (arith, lt))
  frames-end (suc fuel) raw lt =
      let n = number_from 0 (take 8 raw) in
      let body = drop 8 raw in
      elim (Bool-cases (eqb (length raw) 0)) [
        | inl a ↦ rw (a, decode_frames) refl
        | inr a ↦ elim (Bool-cases (ltb (length raw) 8)) [
          | inl b ↦ rw (a, b, decode_frames) refl
          | inr b ↦ elim (Bool-cases (ltb max_slice n)) [
            | inl c ↦ rw (a, b, c, decode_frames) refl
            | inr c ↦ elim (Bool-cases (ltb (length body) n)) [
              | inl d ↦ rw (a, b, c, d, decode_frames) refl
              | inr d ↦
                  let enough : 8 ≤ length raw = ground arith in
                  let shorter = length-drop_some 8 raw enough in
                  let rest = length-drop n body in
                  rw (a, b, c, d, decode_frames)
                    (prepend-ends _ _
                      (frames-end fuel (drop n body) (omega (arith, lt, shorter, rest))))
            ]
          ]
        ]
      ]

  -- The fuel that decoding is given is enough for every archive: it decodes, fails or panics.
  pub decode_archive_lem :
      (archive : Bytes) → decode_archive max_slice gzip gunzip archive ≢ exhausted
  unfolding decode_archive decode_raw is_exhausted
  decode_archive_lem archive h = elim (Result-cases (gunzip archive)) [
    | inr (x, e) ↦ cc (rw (e, decode_archive) at h)
    | inl (raw, e) ↦
        let d = drop (length dump_magic) raw in
        let ends = frames-end (suc (length d)) d (omega arith) in
        let h' : decode_raw max_slice gzip gunzip raw ≡ exhausted = rw (e, decode_archive) at h in
        let bad =
          ltb (length raw) (length dump_magic)
          || not (same_bytes (take (length dump_magic) raw) dump_magic) in
        elim (Bool-cases bad) [
          | inl b ↦ cc (rw (b, decode_raw) at h')
          | inr b ↦
              let h2 : decode_frames max_slice gzip gunzip (suc (length d)) d ≡ exhausted =
                rw (b, decode_raw) at h' in
              absurd (omega (arith, sym ends ∙ ap is_exhausted h2))
        ]
  ]
