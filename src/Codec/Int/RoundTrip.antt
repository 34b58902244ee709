-- ===== src/Codec/Int/RoundTrip.antt =====
-- What the decoder reads of what the encoder wrote.
use qv_lite.Prelude.{
  ℕ, suc, ◌+◌, ◌-◌, ◌^◌, ◌≤◌, ◌<◌, ◌≡◌, refl, sym, ap, ap₂, ◌∙◌, arith, true, false,
}
use qv_lite.Prelude.{◌&&◌, ltb, Bool-cases, inl, inr, replicate, subst}
use qv_lite.Prelude.{Option, none, some, List, [], ◌∷◌, ◌++◌, map, All, length, length-replicate}
use qv_lite.Prelude.{drop-append, append-nil, drop}
use qv_lite.Wire.{IsWord, add64, mul64}
use qv_lite.Wire.BigEndian.{Front, put_be-Front, put_be}
use qv_lite.Wire.Uvarint.{put_uvarint, get_uvarint, get_uvarint-put_uvarint}
use qv_lite.Codec.Defs.{Simple8b, IsLossless, Unpacks, ok}
use qv_lite.Codec.ZigZag.{zigzag_decode}
use qv_lite.Codec.Int.{
  Encoder, new_encoder, write_all, bytes, encode_rle, encode_uncompressed, encode_packed,
}
use qv_lite.Codec.Int.{any_above, put_words, Decoder, set_bytes, rewind, drain}
use qv_lite.Codec.Int.{cons_value}
use qv_lite.Codec.Int.Deltas.{deltas, undelta, undelta-deltas, deltas-IsWord, length-deltas}
use qv_lite.Codec.Int.Deltas.{progression, undelta-replicate}
use qv_lite.Codec.Int.Writes.{IsFaithful, IsRun, write_all-new_encoder}
use qv_lite.Codec.Int.Streams.{drain_first}
use qv_lite.Codec.Int.Drains.{drain_raws, drain_batches, drain_runs}

length-undelta : (p : ℕ) (ws : List ℕ) → length (undelta p ws) ≡ length ws
length-undelta p [] = refl
length-undelta p (w ∷ ws) = ap suc (length-undelta (add64 (zigzag_decode w) p) ws)

mul64-zero : (x : ℕ) → mul64 0 x ≡ 0
unfolding mul64
mul64-zero x = omega arith

module _ (s : Simple8b) where
  -- Whatever the decoder did before, it reads the values `ns` from the bytes, and no more.
  abbrev pub Reads : List ℕ → List ℕ → Type 0
  Reads stored ns = (d : Decoder) → drain s (suc (length ns)) (set_bytes stored d) ≡ some (ns, none)

  uncompressed-Reads : (ws : List ℕ) → All IsWord ws → Reads (encode_uncompressed ws) (undelta 0 ws)
  unfolding encode_uncompressed set_bytes
  uncompressed-Reads [] h d =
      drain_raws s [] 1 (rewind 0 [] d) (omega arith) (omega arith) refl refl refl h
  uncompressed-Reads (w ∷ ws) h d =
      drain_raws s (w ∷ ws) _ (rewind 0 (put_words (w ∷ ws)) d)
        (omega (arith, length-undelta 0 (w ∷ ws))) (omega arith) refl refl refl h

  packed-Reads :
      (v : ℕ) (ws xs : List ℕ)
      → IsWord v
      → Unpacks s ws xs
      → Reads (1 ∷ (put_be 8 v ++ put_words ws)) (undelta 0 (v ∷ xs))
  unfolding set_bytes
  packed-Reads v ws xs hv hu d =
      let first_value = add64 (zigzag_decode v) 0 in
      drain_first s (suc (length (undelta first_value xs)))
        (rewind 1 (put_be 8 v ++ put_words ws) d) v (put_words ws) (omega arith) refl refl refl
        (put_be-Front v (put_words ws) hv)
      ∙ ap (cons_value first_value) (
          drain_batches s ws [] _ _ xs _ (omega (arith, length-undelta first_value xs))
            (omega arith) refl refl refl refl refl hu)

  -- The first value of a run, and the state after it.
  drain_first_of_run :
      (f d c fuel : ℕ) (dec : Decoder)
      → IsWord f
      → IsWord d
      → c < 2 ^ 63 - 1
      → drain s (suc fuel) (rewind 2 (put_be 8 f ++ (put_uvarint d ++ put_uvarint c)) dec)
        ≡ cons_value (add64 (zigzag_decode f) (mul64 0 (zigzag_decode d))) (
            drain s fuel
              (record (rewind 2 [] dec) { rle_first = f; rle_delta = d; n = c + 1; i = 0 }))
  unfolding drain
  drain_first_of_run f d c fuel dec hf hd hc =
      ground (arith, front.enough, front.word, delta, count, behind)
    where
      tail : List ℕ
      tail = put_uvarint d ++ put_uvarint c

      front : Front (put_be 8 f ++ tail) f tail
      front = put_be-Front f tail hf

      delta : get_uvarint (drop 8 (put_be 8 f ++ tail)) ≡ some (d, length (put_uvarint d))
      delta = rw front.after (get_uvarint-put_uvarint d (put_uvarint c) hd)

      behind : drop (length (put_uvarint d)) (drop 8 (put_be 8 f ++ tail)) ≡ put_uvarint c
      behind = rw front.after (drop-append _ (put_uvarint d) (put_uvarint c) refl)

      count : get_uvarint (put_uvarint c) ≡ some (c, length (put_uvarint c))
      count =
          subst (λ l. get_uvarint l ≡ some (c, length (put_uvarint c))) (append-nil (put_uvarint c))
            (get_uvarint-put_uvarint c [] (omega arith))

  drain_of_run :
      (f d c k fuel : ℕ) (dec : Decoder)
      → IsWord f
      → IsWord d
      → c ≡ suc k
      → k < 2 ^ 63 - 2
      → suc k < fuel
      → drain s (suc fuel) (rewind 2 (put_be 8 f ++ (put_uvarint d ++ put_uvarint c)) dec)
        ≡ some (undelta 0 (f ∷ replicate (suc k) d), none)
  drain_of_run f d c k fuel dec hf hd hc hk hfuel =
      let base = zigzag_decode f in
      let step = zigzag_decode d in
      let same : progression base step 1 (suc k) ≡ undelta (add64 base 0) (replicate (suc k) d) =
        sym (undelta-replicate base d 0 (suc k))
        ∙ ap (λ z. undelta (add64 base z) (replicate (suc k) d)) (mul64-zero step) in
      drain_first_of_run f d c fuel dec hf hd (omega arith)
      ∙ ap (cons_value (add64 base (mul64 0 step))) (
          drain_runs s (suc k) fuel
            (record (rewind 2 [] dec) { rle_first = f; rle_delta = d; n = c + 1; i = 0 }) hfuel
            (omega arith) refl refl refl)
      ∙ ap₂ (λ z l. some (add64 base z ∷ l, none)) (mul64-zero step) same

  run-Reads :
      (f d k : ℕ)
      → IsWord f
      → IsWord d
      → k < 2 ^ 63 - 2
      → Reads (encode_rle (f ∷ replicate (suc k) d)) (undelta 0 (f ∷ replicate (suc k) d))
  unfolding encode_rle set_bytes
  run-Reads f d k hf hd hk dec =
      drain_of_run f d (suc (suc (length (replicate k d))) - 1) k
        (suc (
          suc (
            length
              (undelta (add64 (zigzag_decode d) (add64 (zigzag_decode f) 0)) (replicate k d)))))
        dec hf hd (omega (arith, length-replicate k d)) hk
        (omega (
          arith,
          length-replicate k d,
          length-undelta (add64 (zigzag_decode d) (add64 (zigzag_decode f) 0)) (replicate k d),
        ))

  -- A list of words that `encodePacked` may be given.
  any_above-false : (m : ℕ) (ws : List ℕ) → any_above m ws ≡ false → All (λ w. w ≤ m) ws
  unfolding any_above
  any_above-false m [] h = tt
  any_above-false m (w ∷ ws) h = (ground arith, any_above-false m ws (ground arith))

  encode_packed-Reads :
      (ws : List ℕ)
      → IsLossless s
      → All IsWord ws
      → All (λ w. w ≤ s.max_value) ws
      → (stored : List ℕ) × (encode_packed s ws ≡ ok stored) × Reads stored (undelta 0 ws)
  unfolding encode_packed set_bytes
  encode_packed-Reads [] loss hw hm = (
    [],
    refl,
    λ d. drain_raws s [] 1 (rewind 0 [] d) (omega arith) (omega arith) refl refl refl tt,
  )
  encode_packed-Reads (v ∷ xs) loss hw hm =
      let (ws, e, hu) = loss xs hm.1 in
      (1 ∷ (put_be 8 v ++ put_words ws), rw (e, encode_packed), packed-Reads v ws xs hw.0 hu)

  replicate_head : (k d : ℕ) → All IsWord (replicate (suc k) d) → IsWord d
  replicate_head k d h = h.0

  -- A run is long enough for its two uvarints.
  encode_rle-Reads :
      (ws : List ℕ)
      → All IsWord ws
      → 2 < length ws
      → length ws < 2 ^ 63
      → IsRun ws
      → Reads (encode_rle ws) (undelta 0 ws)
  encode_rle-Reads ws hw lo hi (inl short) = absurd (omega arith)
  encode_rle-Reads ws hw lo hi (inr (f, d, k, h)) =
      let (hf, hd) = subst (All IsWord) h hw in
      let size : length ws ≡ suc (suc (length (replicate k d))) = ap length h in
      subst (λ l. Reads (encode_rle l) (undelta 0 l)) (sym h)
        (run-Reads f d k hf (replicate_head k d hd) (omega (arith, length-replicate k d)))

  bytes_run :
      (e : Encoder)
      → e.failed ≡ false
      → (e.rle && ltb 2 (length e.values)) ≡ true
      → bytes s e ≡ ok (encode_rle e.values)
  unfolding bytes encode_rle
  bytes_run e hf h = ground arith

  bytes_raw :
      (e : Encoder)
      → e.failed ≡ false
      → (e.rle && ltb 2 (length e.values)) ≡ false
      → any_above s.max_value e.values ≡ true
      → bytes s e ≡ ok (encode_uncompressed e.values)
  unfolding bytes encode_uncompressed
  bytes_raw e hf h ha = ground arith

  bytes_packed :
      (e : Encoder)
      → e.failed ≡ false
      → (e.rle && ltb 2 (length e.values)) ≡ false
      → any_above s.max_value e.values ≡ false
      → bytes s e ≡ encode_packed s e.values
  unfolding bytes encode_packed
  bytes_packed e hf h ha = ground arith

  -- Each of the three encodings is read back.
  bytes-Reads :
      (e : Encoder)
      → IsLossless s
      → IsFaithful e.values e
      → All IsWord e.values
      → length e.values < 2 ^ 63
      → (stored : List ℕ) × (bytes s e ≡ ok stored) × Reads stored (undelta 0 e.values)
  bytes-Reads e loss inv hw hl = elim (Bool-cases (e.rle && ltb 2 (length e.values))) [
    | inl h ↦ (
      encode_rle e.values,
      bytes_run e inv.fine h,
      encode_rle-Reads e.values hw (ground arith) hl (inv.run (ground arith)),
    )
    | inr h ↦ elim (Bool-cases (any_above s.max_value e.values)) [
      | inl above ↦ (
        encode_uncompressed e.values,
        bytes_raw e inv.fine h above,
        uncompressed-Reads e.values hw,
      )
      | inr below ↦
          let (stored, eq, reads) =
            encode_packed-Reads e.values loss hw (any_above-false s.max_value e.values below) in
          (stored, bytes_packed e inv.fine h below ∙ eq, reads)
    ]
  ]

-- A new encoder that is given the integers `ns` produces bytes, and any decoder that is set to
-- them, fresh or used before, reads exactly `ns` and then stops without an error. This holds
-- for all of the encodings, if simple8b is lossless and there are fewer than 2 ^ 63 integers.
pub int_round_trip :
    (s : Simple8b) {V : Type 0} (as_int64 : V → Option ℕ) (values : List V) (ns : List ℕ)
    → IsLossless s
    → map as_int64 values ≡ map some ns
    → All IsWord ns
    → length ns < 2 ^ 63
    → (d : Decoder)
    → (stored : List ℕ) × (bytes s (write_all as_int64 values new_encoder) ≡ ok stored)
      × (drain s (suc (length ns)) (set_bytes stored d) ≡ some (ns, none))
int_round_trip s as_int64 values ns loss h hw hl d =
    let e = write_all as_int64 values new_encoder in
    let inv : IsFaithful (deltas 0 ns) e = write_all-new_encoder as_int64 values ns h in
    let (stored, eq, reads) =
      bytes-Reads s e loss (subst (λ l. IsFaithful l e) (sym inv.kept) inv)
        (rw inv.kept (deltas-IsWord 0 ns)) (rw inv.kept (omega (arith, length-deltas 0 ns))) in
    let sum : undelta 0 e.values ≡ ns =
      ap (undelta 0) inv.kept ∙ undelta-deltas 0 ns (omega arith) hw in
    (stored, eq, subst (Reads s stored) sum reads d)
