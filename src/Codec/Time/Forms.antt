-- ===== src/Codec/Time/Forms.antt =====
-- What the decoder reads of each of the three forms that the encoder writes.
use qv_lite.Prelude.{
  ℕ, zero, suc, ◌+◌, ◌-◌, ◌*◌, ◌/◌, ◌%◌, ◌^◌, ◌≤◌, ◌<◌, ◌≡◌, refl, sym, ap, ap₂, ◌∙◌,
}
use qv_lite.Prelude.{
  arith, true, false, ◌&&◌, ltb, ◌==◌, Bool-cases, inl, inr, if◌then◌else◌, replicate,
}
use qv_lite.Prelude.{
  subst, none, some, List, [], ◌∷◌, ◌++◌, map, All, length, length-append, get_or,
}
use qv_lite.Prelude.{length-replicate, append-nil, drop-append, drop}
use qv_lite.Wire.{IsWord, add64, sub64, mul64, sub64-IsWord, add64-sub64}
use qv_lite.Wire.BigEndian.{put_be, length-put_be, Front, put_be-Front}
use qv_lite.Wire.Uvarint.{put_uvarint, get_uvarint, get_uvarint-put_uvarint}
use qv_lite.Codec.Defs.{Simple8b, PacksBack, ok}
use qv_lite.Codec.Time.{Encoder, bytes, reduce, reduce_from, log10}
use qv_lite.Codec.Time.{
  encode_raw, encode_rle, encode_packed, put_words, Decoder, init, drain, sums,
}
use qv_lite.Codec.Time.{get_words, scaled_sums, Reduced}
use qv_lite.Codec.Time.Reduce.{diffs, IsReduced, log10-IsScale, Divides}
use qv_lite.Codec.Time.Streams.{drain_list, drain_run, scaled_sums-map, quotient_exact}
use native.Mathlib.Nat.{one-le-pow, le_trans, div-le_self}

pub length-sums : (p : ℕ) (ds : List ℕ) → length (sums p ds) ≡ length ds
unfolding sums
length-sums p [] = refl
length-sums p (d ∷ ds) = ap suc (length-sums (add64 p d) ds)

pub length-put_words : (ws : List ℕ) → length (put_words ws) ≡ 8 * length ws
length-put_words [] = refl
length-put_words (w ∷ ws) =
    omega (arith, length-append (put_be 8 w) (put_words ws), length-put_be 8 w, length-put_words ws)

pub get_words-put_words : (ws : List ℕ) → All IsWord ws → get_words (length ws) (put_words ws) ≡ ws
unfolding get_words
get_words-put_words [] h = refl
get_words-put_words (w ∷ ws) h =
    let front = put_be-Front w (put_words ws) h.0 in
    ap₂ ◌∷◌ front.word (ap (get_words (length ws)) front.after ∙ get_words-put_words ws h.1)

pub quotient_le : (d n : ℕ) → suc (d / n) ≤ suc d
quotient_le d n = omega (arith, div-le_self d n)

pub exact_product : (d n : ℕ) → IsWord d → d / n * n ≡ d → mul64 (d / n) n ≡ d
unfolding mul64
exact_product d n h e = omega (arith, ap (λ (x : ℕ). x % 2 ^ 64) e)

pub add64-sub64' : (t d : ℕ) → IsWord t → IsWord d → add64 (sub64 t d) d ≡ t
add64-sub64' t d ht hd = add64-sub64 t d ht hd

pub All-le : (m n : ℕ) (ds : List ℕ) → m ≤ n → All (λ v. v ≤ m) ds → All (λ v. v ≤ n) ds
All-le m n [] h a = tt
All-le m n (d ∷ ds) h a = (le_trans a.0 h, All-le m n ds h a.1)

pub All-quotient :
    (k m : ℕ) (ds : List ℕ) → All (λ v. v ≤ m) ds → All (λ v. v ≤ m) (map (λ v. v / k) ds)
All-quotient k m [] a = tt
All-quotient k m (d ∷ ds) a = (le_trans (div-le_self d k) a.0, All-quotient k m ds a.1)

pub scaled_sums_one :
    (k last : ℕ) (ds : List ℕ) → ltb 1 k ≡ false → scaled_sums k last ds ≡ sums last ds
unfolding scaled_sums sums
scaled_sums_one k last [] h = refl
scaled_sums_one k last (d ∷ ds) h =
    rw h (ap (◌∷◌ (add64 last d)) (scaled_sums_one k (add64 last d) ds h))

module _ (s : Simple8b) where
  -- Whatever the decoder did before, it reads the timestamps `ts` from the bytes, and no more.
  abbrev pub Reads : List ℕ → List ℕ → Type 0
  Reads stored ts = (d : Decoder) → drain (suc (length ts)) (init s stored d) ≡ some (ts, none)

  pub raw-Reads : (ws : List ℕ) → All IsWord ws → Reads (encode_raw ws) (sums 0 ws)
  unfolding encode_raw init
  raw-Reads ws h d =
      let count : length (put_words ws) / 8 ≡ length ws = omega (arith, length-put_words ws) in
      drain_list (sums 0 ws) _ 0 _ (omega arith) refl refl refl (
        ap (λ k. sums 0 (get_words k (put_words ws))) count
        ∙ ap (sums 0) (get_words-put_words ws h))

  pub init_packed :
      (log first : ℕ) (packed : List ℕ) (d : Decoder)
      → log < 16
      → IsWord first
      → init s ((16 + log) ∷ (put_be 8 first ++ packed)) d ≡ record d {
        v = 0;
        at = 1;
        encoding = 1;
        error = none;
        ts = first ∷ scaled_sums (10 ^ log) first (s.unpack packed);
      }
  unfolding init
  init_packed log first packed d hl hf =
      let front = put_be-Front first packed hf in
      let kind : (16 + log) / 16 ≡ 1 = omega arith in
      let exponent : 10 ^ ((16 + log) % 16) ≡ 10 ^ log = ap (λ t. 10 ^ t) (omega arith) in
      ground (arith, front.enough, front.word, front.after)

  pub packed-Reads :
      (log first : ℕ) (packed ds : List ℕ)
      → log < 16
      → IsWord first
      → scaled_sums (10 ^ log) first (s.unpack packed) ≡ sums first ds
      → Reads ((16 + log) ∷ (put_be 8 first ++ packed)) (first ∷ sums first ds)
  packed-Reads log first packed ds hl hf e d =
      rw (init_packed log first packed d hl hf)
        (drain_list (first ∷ sums first ds) _ 0 _ (omega arith) refl refl refl (ap (◌∷◌ first) e))

  pub init_run :
      (log first delta q n : ℕ) (d : Decoder)
      → log < 16
      → IsWord first
      → IsWord q
      → n < 2 ^ 63
      → mul64 q (10 ^ log) ≡ delta
      → init s ((32 + log) ∷ (put_be 8 first ++ (put_uvarint q ++ put_uvarint n))) d ≡ record d {
        v = sub64 first delta;
        at = 0;
        n = n;
        ts = [];
        rle_delta = delta;
        encoding = 2;
        error = none;
      }
  unfolding init
  init_run log first delta q n d hl hf hq hn e =
      ground (arith, front.enough, front.word, read_delta, behind, read_count, kind, exponent)
    where
      tail : List ℕ
      tail = put_uvarint q ++ put_uvarint n

      front : Front (put_be 8 first ++ tail) first tail
      front = put_be-Front first tail hf

      read_delta : get_uvarint (drop 8 (put_be 8 first ++ tail)) ≡ some (q, length (put_uvarint q))
      read_delta = rw front.after (get_uvarint-put_uvarint q (put_uvarint n) hq)

      behind : drop (length (put_uvarint q)) (drop 8 (put_be 8 first ++ tail)) ≡ put_uvarint n
      behind = rw front.after (drop-append _ (put_uvarint q) (put_uvarint n) refl)

      read_count : get_uvarint (put_uvarint n) ≡ some (n, length (put_uvarint n))
      read_count =
          subst (λ l. get_uvarint l ≡ some (n, length (put_uvarint n))) (append-nil (put_uvarint n))
            (get_uvarint-put_uvarint n [] (omega arith))

      kind : (32 + log) / 16 ≡ 2
      kind = omega arith

      exponent : mul64 q (10 ^ ((32 + log) % 16)) ≡ delta
      exponent = ap (λ t. mul64 q (10 ^ t)) (omega arith) ∙ e

  pub run-Reads :
      (log first delta q n : ℕ)
      → log < 16
      → IsWord first
      → IsWord q
      → n < 2 ^ 63
      → mul64 q (10 ^ log) ≡ delta
      → Reads
          ((32 + log) ∷ (put_be 8 first ++ (put_uvarint q ++ put_uvarint n)))
          (sums (sub64 first delta) (replicate n delta))
  run-Reads log first delta q n hl hf hq hn e d =
      rw (init_run log first delta q n d hl hf hq hn e) (
        drain_run n _ _
          (omega
            (arith, length-sums (sub64 first delta) (replicate n delta), length-replicate n delta))
          refl refl (omega arith))

  -- `t` is the first timestamp, and `r` what `reduce` found in the others.
  module _ (t : ℕ) (ds : List ℕ) (r : Reduced) (inv : IsReduced ds r) (ht : IsWord t)
      (hd : All IsWord ds) (short : length ds < 2 ^ 63 - 1) where
    scale_pos : 0 < r.divisor
    scale_pos = let (k, _, e) = inv.scale in rw e (one-le-pow k 10 (omega arith))

    run_delta :
        (d n : ℕ) → ds ≡ replicate (suc n) d → IsWord d × Divides r.divisor d × (get_or ds 0 0 ≡ d)
    run_delta d n e = (
      (subst (All IsWord) e hd).0,
      (subst (All (Divides r.divisor)) e inv.divides).0,
      ap (λ l. get_or l 0 0) e,
    )

    pub encode_rle-Reads :
        0 < length ds
        → r.rle ≡ true
        → Reads (encode_rle t (get_or ds 0 0) r.divisor (suc (length ds))) (t ∷ sums t ds)
    unfolding encode_rle sums
    encode_rle-Reads lo h = go (inv.run h)
      where
        go :
            (d : ℕ) × (n : ℕ) × (ds ≡ replicate n d)
            → Reads (encode_rle t (get_or ds 0 0) r.divisor (suc (length ds))) (t ∷ sums t ds)
        go (d, zero, e) = absurd (omega (arith, ap length e))
        go (d, suc n, e) =
            let (hw, dv, head) = run_delta d n e in
            let (power, small) = log10-IsScale r.divisor inv.scale in
            let exact : d / r.divisor * r.divisor ≡ d = quotient_exact r.divisor d scale_pos dv in
            let rep : replicate (length ds) d ≡ ds =
              subst (λ l. replicate (length l) d ≡ l) (sym e)
                (ap (λ k. replicate k d) (length-replicate (suc n) d)) in
            rw head (
              subst (Reads (encode_rle t d r.divisor (suc (length ds))))
                (ap₂ (λ x l. x ∷ sums x l) (add64-sub64' t d ht hw) rep)
                (run-Reads (log10 13 r.divisor) t d (d / r.divisor) (suc (length ds)) small ht
                  (le_trans (quotient_le d r.divisor) hw) (omega arith)
                  (rw power (exact_product d r.divisor hw exact))))

    abbrev scaled : List ℕ
    scaled = if ltb 1 r.divisor then map (λ v. v / r.divisor) ds else ds

    scaled-le : r.max ≤ s.max_value → All (λ v. v ≤ s.max_value) scaled
    scaled-le h = elim (Bool-cases (ltb 1 r.divisor)) [
      | inl big ↦
          rw big (All-quotient r.divisor s.max_value ds (All-le r.max s.max_value ds h inv.bounded))
      | inr one ↦ rw one (All-le r.max s.max_value ds h inv.bounded)
    ]

    scaled-sums : scaled_sums r.divisor t scaled ≡ sums t ds
    scaled-sums = elim (Bool-cases (ltb 1 r.divisor)) [
      | inl big ↦ rw big (scaled_sums-map r.divisor t ds scale_pos hd inv.divides)
      | inr one ↦ rw one (scaled_sums_one r.divisor t ds one)
    ]

    pub encode_packed-Reads :
        PacksBack s
        → r.max ≤ s.max_value
        → (stored : List ℕ) × (encode_packed s r.divisor (t ∷ ds) ≡ ok stored)
          × Reads stored (t ∷ sums t ds)
    unfolding encode_packed
    encode_packed-Reads packs h =
        let (power, small) = log10-IsScale r.divisor inv.scale in
        let (packed, e, back) = packs scaled (scaled-le h) in
        (
          (16 + log10 13 r.divisor) ∷ (put_be 8 t ++ packed),
          rw (e, encode_packed),
          packed-Reads (log10 13 r.divisor) t packed ds small ht (rw (power, back) scaled-sums),
        )

  module _ (e : Encoder) (t : ℕ) (rest : List ℕ) where
    abbrev pub found : Reduced
    found = reduce_from t rest

    abbrev loaded : Encoder
    loaded = record e { ts = t ∷ rest }

    nonempty : (suc (length rest) == 0) ≡ false
    nonempty = ground arith

    pub bytes_run :
        (found.rle && ltb 1 (suc (length found.deltas))) ≡ true
        → (bytes s loaded).1
          ≡ ok (encode_rle t (get_or found.deltas 0 0) found.divisor (suc (length found.deltas)))
    unfolding bytes reduce
    bytes_run h = rw (nonempty, h)

    pub bytes_raw :
        (found.rle && ltb 1 (suc (length found.deltas))) ≡ false
        → ltb s.max_value found.max ≡ true
        → (bytes s loaded).1 ≡ ok (encode_raw (t ∷ found.deltas))
    unfolding bytes reduce
    bytes_raw h above = rw (nonempty, h, above)

    pub bytes_packed :
        (found.rle && ltb 1 (suc (length found.deltas))) ≡ false
        → ltb s.max_value found.max ≡ false
        → (bytes s loaded).1 ≡ encode_packed s found.divisor (t ∷ found.deltas)
    unfolding bytes reduce
    bytes_packed h below = rw (nonempty, h, below)

  pub diffs-IsWord : (prev : ℕ) (ts : List ℕ) → All IsWord (diffs prev ts)
  diffs-IsWord prev [] = tt
  diffs-IsWord prev (t ∷ ts) = (sub64-IsWord t prev, diffs-IsWord t ts)

  pub length-diffs : (prev : ℕ) (ts : List ℕ) → length (diffs prev ts) ≡ length ts
  length-diffs prev [] = refl
  length-diffs prev (t ∷ ts) = ap suc (length-diffs t ts)

  pub raw-sums : (t : ℕ) (ds : List ℕ) → IsWord t → sums 0 (t ∷ ds) ≡ t ∷ sums t ds
  unfolding sums add64
  raw-sums t ds h = let e : (0 + t) % 2 ^ 64 ≡ t = omega arith in ap (λ x. x ∷ sums x ds) e
