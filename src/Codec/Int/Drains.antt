-- ===== src/Codec/Int/Drains.antt =====
-- The decoder's loop over whole streams.
use qv_lite.Prelude.{ℕ, zero, suc, ◌+◌, ◌≤◌, ◌<◌, ◌≡◌, refl, ap, ◌∙◌, arith, false}
use qv_lite.Prelude.{none, some, List, [], ◌∷◌, ◌++◌, All, length, length-append, drop}
use qv_lite.Wire.{IsWord, add64, mul64}
use qv_lite.Wire.BigEndian.{Front, put_be-Front}
use qv_lite.Codec.Defs.{Simple8b, Unpacks}
use qv_lite.Codec.ZigZag.{zigzag_decode}
use qv_lite.Codec.Int.{Decoder, overlay, drain, cons_value, put_words}
use qv_lite.Codec.Int.Deltas.{undelta, progression}
use qv_lite.Codec.Int.Streams.{drop_cons, value_at}
use qv_lite.Codec.Int.Streams.{drain_inside, drain_end, drain_raw, drain_word, drain_run}

module _ (s : Simple8b) where
  pub drain_raws :
      (ws : List ℕ) (fuel : ℕ) (d : Decoder)
      → length ws < fuel
      → d.n ≤ d.i + 1
      → d.error ≡ none
      → d.encoding ≡ 0
      → d.bytes ≡ put_words ws
      → All IsWord ws
      → drain s fuel d ≡ some (undelta d.prev ws, none)
  drain_raws ws zero d hf hn he hc hb hw = absurd (omega arith)
  drain_raws [] (suc fuel) d hf hn he hc hb hw = drain_end s fuel d hn he hb (omega arith)
  drain_raws (w ∷ ws) (suc fuel) d hf hn he hc hb hw =
      let front : Front d.bytes w (put_words ws) = rw hb (put_be-Front w (put_words ws) hw.0) in
      drain_raw s fuel d w (put_words ws) hn he hc front
      ∙ ap (cons_value (value_at s d w)) (
          drain_raws ws fuel
            (record d {
              values = overlay (w ∷ []) d.values;
              i = 0;
              n = 1;
              bytes = put_words ws;
              prev = value_at s d w;
            })
            (omega arith) (omega arith) he hc refl hw.1)

  -- `rem` is what the batch in hand still holds, and `ws` the words that are not yet read.
  pub drain_batches :
      (ws rem : List ℕ) (fuel : ℕ) (d : Decoder) (xs junk : List ℕ)
      → length rem + length xs < fuel
      → d.n ≡ d.i + 1 + length rem
      → d.error ≡ none
      → d.encoding ≡ 1
      → d.first ≡ false
      → d.bytes ≡ put_words ws
      → drop (d.i + 1) d.values ≡ rem ++ junk
      → Unpacks s ws xs
      → drain s fuel d ≡ some (undelta d.prev (rem ++ xs), none)
  drain_batches ws rem zero d xs junk hf hn he hc h1 hb hv hu = absurd (omega arith)
  drain_batches [] [] (suc fuel) d xs junk hf hn he hc h1 hb hv hu =
      rw hu (drain_end s fuel d (omega arith) he hb (omega arith))
  drain_batches (w ∷ ws) [] (suc fuel) d xs junk hf hn he hc h1 hb hv
        (hw, (v, vs, rest, e, split, hu)) =
      let front : Front d.bytes w (put_words ws) = rw hb (put_be-Front w (put_words ws) hw) in
      let size : length xs ≡ suc (length vs + length rest) =
        ap length split ∙ ap suc (length-append vs rest) in
      rw split (
        drain_word s fuel d w v vs (put_words ws) (omega arith) he hc h1 front e
        ∙ ap (cons_value (value_at s d v)) (
            drain_batches ws vs fuel
              (record d {
                values = overlay (v ∷ vs) d.values;
                i = 0;
                n = suc (length vs);
                bytes = put_words ws;
                prev = value_at s d v;
              })
              rest (drop (suc (length vs)) d.values) (omega arith) (omega arith) he hc h1 refl refl
              hu))
  drain_batches ws (r ∷ rem) (suc fuel) d xs junk hf hn he hc h1 hb hv hu =
      let (at, after) = drop_cons (d.i + 1) d.values r (rem ++ junk) hv in
      drain_inside s fuel d (omega arith) he (ground arith)
      ∙ rw at (
          ap (cons_value (value_at s d r)) (
            drain_batches ws rem fuel (record d { i = d.i + 1; prev = value_at s d r }) xs junk
              (omega arith) (omega arith) he hc h1 hb after hu))

  pub drain_runs :
      (k fuel : ℕ) (d : Decoder)
      → k < fuel
      → d.n ≡ d.i + 1 + k
      → d.error ≡ none
      → d.encoding ≡ 2
      → d.bytes ≡ []
      → drain s fuel d
        ≡ some
            (progression (zigzag_decode d.rle_first) (zigzag_decode d.rle_delta) (d.i + 1) k, none)
  drain_runs k zero d hf hn he hc hb = absurd (omega arith)
  drain_runs zero (suc fuel) d hf hn he hc hb = drain_end s fuel d (omega arith) he hb (omega arith)
  drain_runs (suc k) (suc fuel) d hf hn he hc hb =
      drain_run s fuel d (omega arith) he hc
      ∙ ap
          (cons_value
            (add64 (zigzag_decode d.rle_first) (mul64 (d.i + 1) (zigzag_decode d.rle_delta))))
          (drain_runs k fuel (record d { i = d.i + 1 }) (omega arith) (omega arith) he hc hb)
