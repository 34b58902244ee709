-- ===== src/Codec/Time/RoundTrip.antt =====
-- The round trip of the timestamp codec.
use qv_lite.Prelude.{ℕ, suc, ◌-◌, ◌^◌, ◌<◌, ◌≡◌, sym, ap, ◌∙◌}
use qv_lite.Prelude.{arith, ◌&&◌, ltb, Bool-cases, inl, inr, if◌then◌else◌}
use qv_lite.Prelude.{subst, none, some, List, [], ◌∷◌, ◌++◌, All, length, get_or}
use qv_lite.Prelude.{append-nil, append_assoc}
use qv_lite.Wire.{IsWord, ltb64}
use qv_lite.Codec.Defs.{Simple8b, PacksBack, ok}
use qv_lite.Codec.Time.{Encoder, new_encoder, write_all, bytes, reduce_from}
use qv_lite.Codec.Time.{encode_raw, encode_rle, Decoder, init, drain, sums}
use qv_lite.Codec.Time.Reduce.{IsReduced, reduce_from-IsReduced}
use qv_lite.Codec.Time.Streams.{sums-diffs}
use qv_lite.Codec.Time.Forms.{
  encode_rle-Reads, encode_packed-Reads, bytes_run, bytes_raw, bytes_packed, found, Reads,
  raw-Reads, diffs-IsWord, length-diffs, raw-sums,
}

module _ (s : Simple8b) where
  -- Each of the three encodings is read back.
  bytes-Reads :
      (e : Encoder) (t : ℕ) (rest : List ℕ)
      → PacksBack s
      → All IsWord (t ∷ rest)
      → length (t ∷ rest) < 2 ^ 63
      → (stored : List ℕ) × ((bytes s (record e { ts = t ∷ rest })).1 ≡ ok stored)
        × Reads s stored (t ∷ sums t (found s e t rest).deltas)
  bytes-Reads e t rest packs (ht, hw) short =
      let r = reduce_from t rest in
      let inv : IsReduced r.deltas r =
        subst (λ l. IsReduced l r) (sym (reduce_from-IsReduced t rest).kept)
          (reduce_from-IsReduced t rest) in
      let words : All IsWord r.deltas =
        rw (reduce_from-IsReduced t rest).kept (diffs-IsWord s t rest) in
      let small : length r.deltas < 2 ^ 63 - 1 =
        rw (reduce_from-IsReduced t rest).kept (omega (arith, length-diffs s t rest)) in
      elim (Bool-cases (r.rle && ltb 1 (suc (length r.deltas)))) [
        | inl h ↦ (
          encode_rle t (get_or r.deltas 0 0) r.divisor (suc (length r.deltas)),
          bytes_run s e t rest h,
          encode_rle-Reads s t r.deltas r inv ht words small (ground arith) (ground arith),
        )
        | inr h ↦ elim (Bool-cases (ltb s.max_value r.max)) [
          | inl above ↦ (
            encode_raw (t ∷ r.deltas),
            bytes_raw s e t rest h above,
            subst (Reads s (encode_raw (t ∷ r.deltas))) (raw-sums s t r.deltas ht)
                (raw-Reads s (t ∷ r.deltas) (ht, words)),
          )
          | inr below ↦
              let (stored, eq, reads) =
                encode_packed-Reads s t r.deltas r inv ht words small packs (ground arith) in
              (stored, bytes_packed s e t rest h below ∙ eq, reads)
        ]
      ]

write_all-ts : (ts : List ℕ) (e : Encoder) → (write_all ts e).ts ≡ e.ts ++ ts
unfolding write_all
write_all-ts [] e = sym (append-nil e.ts)
write_all-ts (t ∷ ts) e =
    write_all-ts ts
      (record e { ts = e.ts ++ (t ∷ []); min_time = if ltb64 t e.min_time then t else e.min_time })
    ∙ append_assoc e.ts (t ∷ []) ts

-- A new encoder that is given the timestamps `t ∷ rest`, in any order, produces bytes, and any
-- decoder that is initialised with them, fresh or used before, reads exactly these timestamps and
-- then stops without an error. This holds for runs, packed and raw data, if simple8b gives back
-- what it packed and there are fewer than 2 ^ 63 timestamps.
pub time_round_trip :
    (s : Simple8b) (t : ℕ) (rest : List ℕ)
    → PacksBack s
    → All IsWord (t ∷ rest)
    → length (t ∷ rest) < 2 ^ 63
    → (d : Decoder)
    → (stored : List ℕ) × ((bytes s (write_all (t ∷ rest) new_encoder)).1 ≡ ok stored)
      × (drain (suc (length (t ∷ rest))) (init s stored d) ≡ some (t ∷ rest, none))
time_round_trip s t rest packs hw short d =
    let e = write_all (t ∷ rest) new_encoder in
    let (stored, eq, reads) = bytes-Reads s e t rest packs hw short in
    let held : e.ts ≡ t ∷ rest = write_all-ts (t ∷ rest) new_encoder in
    let summed : sums t (reduce_from t rest).deltas ≡ rest =
      ap (sums t) (reduce_from-IsReduced t rest).kept ∙ sums-diffs t rest hw.0 hw.1 in
    (
      stored,
      subst (λ l. (bytes s (record e { ts = l })).1 ≡ ok stored) (sym held) eq,
      subst (λ l. Reads s stored (t ∷ l)) summed reads d,
    )
