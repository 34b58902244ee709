-- ===== src/Codec/Flag/RoundTrip.antt =====
-- The round trip of the Boolean codec, and what a decoder that was used before does.
use qv_lite.Prelude.{
  ℕ, zero, suc, ◌+◌, ◌-◌, ◌*◌, ◌%◌, ◌^◌, ◌≤◌, ◌<◌, ◌≡◌, refl, sym, ap, ◌∙◌, arith,
}
use qv_lite.Prelude.{
  Bool, true, false, List, [], ◌∷◌, ◌++◌, append-nil, append_assoc, length, length-append,
  length-replicate,
}
use qv_lite.Prelude.{
  Option, some, none, map, replicate, if-false, ◌==◌, get_or, get_or-replicate, drop, drop-get_or,
  get_or-replicate, drop_past, get_or-append_front, ltb, leb, if◌then◌else◌, Bool-cases, inl, inr,
  subst,
}
use qv_lite.Wire.BigEndian.{put_be, Front, put_be-Front}
use qv_lite.Codec.Flag.{
  Encoder, Decoder, new_encoder, new_decoder, write_all, bytes, set_bytes, next, read, bit_at,
  drain,
}
use qv_lite.Codec.Flag.{compressed_bit_packed, compressed_rle_true, compressed_rle_false}
use qv_lite.Codec.Flag.Bits.{
  low_bits, byte_bits, length-byte_bits, byte_bits-append, bit_at-byte_bits, low_bits_shifted,
}
use qv_lite.Codec.Flag.Writes.{IsFaithful, empty, run, packed, write_all-new_encoder}

-- The decoder reads the values `bs`, whatever its position is.
record Reads (bs : List Bool) (d : Decoder) : Type 0 where
  fine : d.error ≡ none
  count : d.number ≡ length bs
  value : (k : ℕ) → k < length bs → read (record d { i = suc k }) ≡ some (get_or bs k false)

-- The position at which a loop over `n` values ends that starts at `i`.
abbrev end_of : ℕ → ℕ → ℕ
end_of n i = if ltb i n then n + 1 else i + 1

next_value :
    (bs : List Bool) (d : Decoder)
    → Reads bs d
    → d.i < length bs
    → next d ≡ (record d { i = suc d.i }, true)
unfolding next
next_value bs d h hi =
    let more : leb (d.i + 1) d.number ≡ true = ground (arith, h.count) in
    let step : d.i + 1 ≡ suc d.i = omega arith in rw (h.fine, more, step) refl

next_end :
    (bs : List Bool) (d : Decoder)
    → Reads bs d
    → length bs ≤ d.i
    → next d ≡ (record d { i = d.i + 1 }, false)
unfolding next
next_end bs d h hi =
    let more : leb (d.i + 1) d.number ≡ false = ground (arith, h.count) in rw (h.fine, more) refl

drain-Reads :
    (fuel : ℕ) (bs : List Bool) (d : Decoder)
    → Reads bs d
    → length bs < fuel + d.i
    → 0 < fuel
    → drain fuel d ≡ some (drop d.i bs, record d { i = end_of (length bs) d.i })
unfolding drain
drain-Reads zero bs d h hf h0 = absurd (omega arith)
drain-Reads (suc fuel) bs d h hf h0 = elim (Bool-cases (ltb d.i (length bs))) [
  | inl more ↦
      let inside : d.i < length bs = ground arith in
      let rest : drain fuel (record d { i = suc d.i })
          ≡ some (drop (suc d.i) bs, record d { i = end_of (length bs) (suc d.i) }) =
        drain-Reads fuel bs (record d { i = suc d.i })
          (record { fine = h.fine; count = h.count; value = h.value }) (omega arith)
          (omega arith) in
      let ends : end_of (length bs) (suc d.i) ≡ end_of (length bs) d.i = ground arith in
      rw (next_value bs d h inside, h.value d.i inside, rest, drop-get_or bs d.i false inside, ends)
        refl
  | inr done ↦
      let outside : length bs ≤ d.i = ground arith in
      rw (next_end bs d h outside, drop_past bs d.i outside, done) refl
]

set_bytes_run :
    (a : Bool) (n : ℕ) (d : Decoder)
    → n < 2 ^ 63
    → set_bytes ((if a then compressed_rle_true else compressed_rle_false) ∷ (put_be 8 n ++ [])) d
      ≡ some (record d { rle = true; last_bool = a; number = n })
unfolding set_bytes
set_bytes_run a n d h =
    let front : Front (put_be 8 n ++ []) n [] = put_be-Front n [] (omega arith) in
    let long : ltb (length (put_be 8 n ++ [])) 8 ≡ false = ground (arith, front.enough) in
    let count : ltb n (2 ^ 63) ≡ true = ground arith in
    elim a
      as (λ a.
        set_bytes ((if a then compressed_rle_true else compressed_rle_false) ∷ (put_be 8 n ++ [])) d
        ≡ some (record d { rle = true; last_bool = a; number = n })) [
          | true ↦ rw (front.word, long, count) refl
          | false ↦ rw (front.word, long, count) refl
        ]

set_bytes_packed :
    (n : ℕ) (payload : List ℕ) (d : Decoder)
    → n < 2 ^ 63
    → set_bytes (compressed_bit_packed ∷ (put_be 8 n ++ payload)) d
      ≡ some (record d { rle = false; b = payload; number = n })
unfolding set_bytes
set_bytes_packed n payload d h =
    let front : Front (put_be 8 n ++ payload) n payload = put_be-Front n payload (omega arith) in
    let long : ltb (length (put_be 8 n ++ payload)) 8 ≡ false = ground (arith, front.enough) in
    let count : ltb n (2 ^ 63) ≡ true = ground arith in
    rw (front.word, front.after, long, count) refl

run-Reads :
    (a : Bool) (n : ℕ) (d : Decoder)
    → d.error ≡ none
    → Reads (replicate n a) (record d { rle = true; last_bool = a; number = n })
unfolding read
run-Reads a n d he = record {
  fine = he;
  count = sym (length-replicate n a);
  value = λ k hk.
      ap some
        (sym (get_or-replicate n k a false (subst (λ (m : ℕ). k < m) (length-replicate n a) hk)));
}

packed-Reads :
    (bs junk : List Bool) (payload : List ℕ) (d : Decoder)
    → d.error ≡ none
    → byte_bits payload ≡ bs ++ junk
    → Reads bs (record d { rle = false; b = payload; number = length bs })
unfolding read
packed-Reads bs junk payload d he hb = record {
  fine = he;
  count = refl;
  value = λ k hk.
      let room : k < 8 * length payload =
        omega (arith, length-byte_bits payload, ap length hb, length-append bs junk) in
      let at : suc k - 1 ≡ k = omega arith in
      let started : (suc k == 0) ≡ false = ground arith in
      if-false _ _ started
      ∙ ap (bit_at payload) at
      ∙ (bit_at-byte_bits payload k room
          ∙ ap (λ l. some (get_or l k false)) hb
          ∙ ap some (get_or-append_front bs junk k false hk));
}

left-below : (i b : ℕ) → i < 8 → b < 2 ^ i → b * 2 ^ (8 - i) < 256
left-below zero b hi hb = omega arith
left-below (suc zero) b hi hb = omega arith
left-below (suc (suc zero)) b hi hb = omega arith
left-below (suc (suc (suc zero))) b hi hb = omega arith
left-below (suc (suc (suc (suc zero)))) b hi hb = omega arith
left-below (suc (suc (suc (suc (suc zero))))) b hi hb = omega arith
left-below (suc (suc (suc (suc (suc (suc zero)))))) b hi hb = omega arith
left-below (suc (suc (suc (suc (suc (suc (suc zero))))))) b hi hb = omega arith
left-below (suc (suc (suc (suc (suc (suc (suc (suc i)))))))) b hi hb = absurd (omega arith)

-- The bytes of the encoder, cut into the bits that it took and the filling of the last byte.
last_byte :
    (bs : List ℕ) (i b : ℕ)
    → i < 8
    → b < 2 ^ i
    → (junk : List Bool) × (byte_bits (bs ++ (if ltb 0 i then b * 2 ^ (8 - i) % 256 ∷ [] else []))
        ≡ (byte_bits bs ++ low_bits i b) ++ junk)
last_byte bs zero b hi hb = (
  [],
  ap byte_bits (append-nil bs)
      ∙ sym (append-nil (byte_bits bs))
      ∙ sym (append-nil (byte_bits bs ++ [])),
)
last_byte bs (suc i) b hi hb =
    let sh : b * 2 ^ (8 - suc i) % 256 ≡ b * 2 ^ (8 - suc i) =
      omega (arith, left-below (suc i) b hi hb) in
    let some_bits : ltb 0 (suc i) ≡ true = ground arith in
    (
      replicate (8 - suc i) false,
      rw (sh, some_bits)
          (byte_bits-append bs (b * 2 ^ (8 - suc i) ∷ [])
            ∙ ap (λ l. byte_bits bs ++ l)
                (append-nil (low_bits 8 (b * 2 ^ (8 - suc i)))
                  ∙ low_bits_shifted 8 (suc i) (8 - suc i) b (omega arith))
            ∙ sym (append_assoc (byte_bits bs) (low_bits (suc i) b) (replicate (8 - suc i) false))),
    )

-- What `SetBytes` makes of the bytes of an encoder that has taken `bs`, in a decoder without error.
set_bytes-bytes :
    (bs : List Bool) (e : Encoder) (d : Decoder)
    → IsFaithful bs e
    → length bs < 2 ^ 63
    → d.error ≡ none
    → (d' : Decoder) × (set_bytes (bytes e) d ≡ some d') × (d'.i ≡ d.i) × Reads bs d'
unfolding bytes
set_bytes-bytes bs e d (empty hbs hs hb hi hn) hl he = elim (Bool-cases e.rle) [
  | inl r ↦ (
    record d { rle = true; last_bool = e.last_bool; number = 0 },
    rw (r, hn) (set_bytes_run e.last_bool 0 d (omega arith)),
    refl,
    rw hbs (run-Reads e.last_bool 0 d he),
  )
  | inr p ↦ (
    record d { rle = false; b = []; number = 0 },
    rw (p, hn, hs, hi) (set_bytes_packed 0 [] d (omega arith)),
    refl,
    rw hbs (packed-Reads [] [] [] d he refl),
  )
]
set_bytes-bytes bs e d (run hr hs hb hi hn hbs) hl he = (
  record d { rle = true; last_bool = e.last_bool; number = e.number },
  rw (hr) (
      set_bytes_run e.last_bool e.number d
        (omega (arith, ap length hbs, length-replicate e.number e.last_bool))),
  refl,
  rw hbs (run-Reads e.last_bool e.number d he),
)
set_bytes-bytes bs e d (packed hr hn hl' hi hb hbs) hl he =
    let last = last_byte e.bytes e.i e.b hi hb in
    let payload = e.bytes ++ (if ltb 0 e.i then e.b * 2 ^ (8 - e.i) % 256 ∷ [] else []) in
    (
      record d { rle = false; b = payload; number = length bs },
      rw (hr, hl') (set_bytes_packed (length bs) payload d hl),
      refl,
      packed-Reads bs last.0 payload d he (last.1 ∙ ap (λ l. l ++ last.0) (sym hbs)),
    )

-- Booleans written to a fresh encoder are read back by any decoder without error, from the position
-- on that the decoder has when `SetBytes` is called (it does not reset it): a decoder at position 0
-- reads all of them, one that has read `k` values before reads what is left after the first `k`.
-- The count is below 2 ^ 63, and the loop has more fuel than there are values.
pub flag_round_trip :
    {V : Type 0} (as_bool : V → Option Bool) (values : List V) (bs : List Bool)
    → map as_bool values ≡ map some bs
    → length bs < 2 ^ 63
    → (d : Decoder) → d.error ≡ none
    → (d' : Decoder) × (set_bytes (bytes (write_all as_bool values new_encoder)) d ≡ some d')
      × (drain (suc (length bs)) d' ≡ some (drop d.i bs, record d' { i = end_of (length bs) d.i }))
flag_round_trip as_bool values bs h hl d he =
    let e = write_all as_bool values new_encoder in
    let (d', ready, at, reads) =
      set_bytes-bytes bs e d (write_all-new_encoder as_bool values bs h) hl he in
    (
      d',
      ready,
      subst
          (λ p.
            drain (suc (length bs)) d' ≡ some (drop p bs, record d' { i = end_of (length bs) p }))
          at (drain-Reads (suc (length bs)) bs d' reads (omega arith) (omega arith)),
    )

-- A decoder that has read a block of Booleans to the end and is then given another block, as the pool
-- of decoders of tsdb/point.go does, yields no value of it when it has at most one value more than the
-- first block. Both counts are below 2 ^ 63.
pub flag_reuse :
    {V : Type 0} (as_bool : V → Option Bool) (values later : List V) (bs cs : List Bool)
    → map as_bool values ≡ map some bs
    → map as_bool later ≡ map some cs
    → length bs < 2 ^ 63
    → length cs < 2 ^ 63
    → length cs ≤ length bs + 1
    → 0 < length bs
    → (d : Decoder) × (used : Decoder) × (d' : Decoder) × (end : Decoder) × (set_bytes
          (bytes (write_all as_bool values new_encoder))
          new_decoder
        ≡ some d)
      × (drain (suc (length bs)) d ≡ some (bs, used))
      × (set_bytes (bytes (write_all as_bool later new_encoder)) used ≡ some d')
      × (drain (suc (length cs)) d' ≡ some ([], end))
flag_reuse as_bool values later bs cs hb hc lb lc short some_bs =
    let e = write_all as_bool values new_encoder in
    let (d, ready, at, reads) =
      set_bytes-bytes bs e new_decoder (write_all-new_encoder as_bool values bs hb) lb refl in
    let used = record d { i = length bs + 1 } in
    let (d', ready', at', reads') =
      set_bytes-bytes cs (write_all as_bool later new_encoder) used
        (write_all-new_encoder as_bool later cs hc) lc reads.fine in
    let started : ltb 0 (length bs) ≡ true = ground arith in
    let first =
      subst
        (λ p. drain (suc (length bs)) d ≡ some (drop p bs, record d { i = end_of (length bs) p }))
        at (drain-Reads (suc (length bs)) bs d reads (omega arith) (omega arith)) in
    let second = drain-Reads (suc (length cs)) cs d' reads' (omega arith) (omega arith) in
    let nothing : drop d'.i cs ≡ [] = drop_past cs d'.i (omega (arith, at')) in
    (
      d,
      used,
      d',
      record d' { i = end_of (length cs) d'.i },
      ready,
      rw started at first,
      ready',
      rw nothing at second,
    )
