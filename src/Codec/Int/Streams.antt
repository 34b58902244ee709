-- ===== src/Codec/Int/Streams.antt =====
-- One step of the decoder's loop in each of the states that it passes through.
use qv_lite.Prelude.{ℕ, zero, suc, ◌+◌, ◌≤◌, ◌≡◌, ap, arith, true, false}
use qv_lite.Prelude.{none, some, List, [], ◌∷◌, length, get_or}
use qv_lite.Prelude.{drop, ◌==◌}
use native.Mathlib.Numerals.{add-one}
use qv_lite.Wire.{add64, mul64}
use qv_lite.Wire.BigEndian.{Front}
use qv_lite.Codec.Defs.{Simple8b}
use qv_lite.Codec.ZigZag.{zigzag_decode}
use qv_lite.Codec.Int.{Decoder, overlay, drain, cons_value}

pub drop_cons :
    (k : ℕ) (xs : List ℕ) (r : ℕ) (rs : List ℕ)
    → drop k xs ≡ r ∷ rs
    → (get_or xs k 0 ≡ r) × (drop (k + 1) xs ≡ rs)
drop_cons zero [] r rs h = cc
drop_cons zero (x ∷ xs) r rs h = (cc, cc)
drop_cons (suc k) [] r rs h = cc
drop_cons (suc k) (x ∷ xs) r rs h =
    let (a, b) = drop_cons k xs r rs h in (a, rw add-one (rw add-one at b))

module _ (s : Simple8b) where
  abbrev pub value_at : Decoder → ℕ → ℕ
  value_at d w = add64 (zigzag_decode w) d.prev

  -- A value of the batch in hand.
  pub drain_inside :
      (fuel : ℕ) (d : Decoder)
      → d.i + 2 ≤ d.n
      → d.error ≡ none
      → (d.encoding == 2) ≡ false
      → drain s (suc fuel) d
        ≡ cons_value (value_at d (get_or d.values (d.i + 1) 0)) (
            drain s fuel
              (record d { i = d.i + 1; prev = value_at d (get_or d.values (d.i + 1) 0) }))
  unfolding drain
  drain_inside fuel d hn he hc = ground arith

  -- The batch is used up, and no byte is left.
  pub drain_end :
      (fuel : ℕ) (d : Decoder)
      → d.n ≤ d.i + 1
      → d.error ≡ none
      → d.bytes ≡ []
      → d.encoding ≤ 2
      → drain s (suc fuel) d ≡ some ([], none)
  unfolding drain
  drain_end fuel d hn he hb hc = ground arith

  -- The batch is used up, and the next word is an uncompressed value.
  pub drain_raw :
      (fuel : ℕ) (d : Decoder) (w : ℕ) (rest : List ℕ)
      → d.n ≤ d.i + 1
      → d.error ≡ none
      → d.encoding ≡ 0
      → Front d.bytes w rest
      → drain s (suc fuel) d
        ≡ cons_value (value_at d w) (
            drain s fuel (record d {
              values = overlay (w ∷ []) d.values;
              i = 0;
              n = 1;
              bytes = rest;
              prev = value_at d w;
            }))
  unfolding drain
  drain_raw fuel d w rest hn he hc hb = ground arith

  -- The first word of packed data is not packed.
  pub drain_first :
      (fuel : ℕ) (d : Decoder) (w : ℕ) (rest : List ℕ)
      → d.n ≤ d.i + 1
      → d.error ≡ none
      → d.encoding ≡ 1
      → d.first ≡ true
      → Front d.bytes w rest
      → drain s (suc fuel) d
        ≡ cons_value (value_at d w) (
            drain s fuel (record d {
              values = overlay (w ∷ []) d.values;
              i = 0;
              n = 1;
              bytes = rest;
              prev = value_at d w;
              first = false;
            }))
  unfolding drain
  drain_first fuel d w rest hn he hc hf hb = ground arith

  -- Each word after it brings a batch of values.
  pub drain_word :
      (fuel : ℕ) (d : Decoder) (w v : ℕ) (vs rest : List ℕ)
      → d.n ≤ d.i + 1
      → d.error ≡ none
      → d.encoding ≡ 1
      → d.first ≡ false
      → Front d.bytes w rest
      → s.decode w ≡ some (v ∷ vs)
      → drain s (suc fuel) d
        ≡ cons_value (value_at d v) (
            drain s fuel (record d {
              values = overlay (v ∷ vs) d.values;
              i = 0;
              n = suc (length vs);
              bytes = rest;
              prev = value_at d v;
            }))
  unfolding drain
  drain_word fuel d w v vs rest hn he hc hf hb hv = ground (arith, ap s.decode hb.word)

  -- A value of a run.
  pub drain_run :
      (fuel : ℕ) (d : Decoder)
      → d.i + 2 ≤ d.n
      → d.error ≡ none
      → d.encoding ≡ 2
      → drain s (suc fuel) d
        ≡ cons_value
            (add64 (zigzag_decode d.rle_first) (mul64 (d.i + 1) (zigzag_decode d.rle_delta)))
            (drain s fuel (record d { i = d.i + 1 }))
  unfolding drain
  drain_run fuel d hn he hc = ground arith
