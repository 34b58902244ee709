-- ===== src/Wal/Layout.antt =====
-- The bytes of records in a log file of tsdb/file_wal.go.
use qv_lite.Prelude.{
  ℕ, ◌+◌, ◌%◌, ◌^◌, ◌≤◌, ◌<◌, ◌≡◌, refl, sym, ap, ◌∙◌, arith, true, some, List, [], ◌∷◌, ◌++◌,
  append_assoc, length, length-append, take, drop, take-append, drop-append,
}
use qv_lite.Wire.BigEndian.{put_be, get_be, get_be-put_be, length-put_be}
use qv_lite.Wal.Frames.{Values, Entry, append_serialized, entry_of}

module _ {V : Type 0} (values : Values V) where
  open values use {append_binary, is_binary_format, unmarshal_binary}

  -- The binary form of a value is not empty, and is recognised and decoded.
  pub record IsLossless : Type 0 where
    pub binary : (x : V) → is_binary_format (append_binary x) ≡ true
    pub decoded : (x : V) → unmarshal_binary (append_binary x) ≡ some x
    pub some_bytes : (x : V) → 1 ≤ length (append_binary x)

  -- A tag's code has 32 bits, a timestamp 64, and a record's length fits 32.
  pub record IsSized (e : Entry V) : Type 0 where
    pub code : e.key < 2 ^ 32
    pub time : e.timestamp < 2 ^ 64
    pub fits : 12 + length (append_binary e.value) < 2 ^ 32

  abbrev pub records : List (Entry V) → List ℕ
  records [] = []
  records (e ∷ es) = append_serialized values e ++ records es

  abbrev pub body : Entry V → List ℕ
  body e = put_be 4 e.key ++ (put_be 8 e.timestamp ++ append_binary e.value)

  pub length-body : (e : Entry V) → length (body e) ≡ 12 + length (append_binary e.value)
  length-body e = omega (
    arith,
    length-append (put_be 4 e.key) (put_be 8 e.timestamp ++ append_binary e.value),
    length-append (put_be 8 e.timestamp) (append_binary e.value),
    length-put_be 4 e.key,
    length-put_be 8 e.timestamp,
  )

  pub record_form :
      (e : Entry V) → IsSized e → append_serialized values e ≡ put_be 4 (length (body e)) ++ body e
  unfolding append_serialized
  record_form e s =
      let size : (12 + length (append_binary e.value)) % 2 ^ 32 ≡ length (body e) =
        omega (arith, length-body e, s.fits) in
      rw size refl

  pub length-append_serialized :
      (e : Entry V)
      → IsSized e
      → length (append_serialized values e) ≡ 16 + length (append_binary e.value)
  length-append_serialized e s =
      ap length (record_form e s)
      ∙ omega (
        arith,
        length-append (put_be 4 (length (body e))) (body e),
        length-put_be 4 (length (body e)),
        length-body e,
      )

  -- The front of some bytes is the record of `e`.
  pub record Front (b : List ℕ) (e : Entry V) (rest : List ℕ) : Type 0 where
    pub size : get_be (take 4 b) ≡ length (body e)
    pub here : take (length (body e)) (drop 4 b) ≡ body e
    pub after : drop (length (body e)) (drop 4 b) ≡ rest
    pub left : length (drop 4 b) ≡ length (body e) + length rest
    pub total : length b ≡ 4 + length (body e) + length rest

  pub record-Front :
      (e : Entry V) (rest : List ℕ) → IsSized e → Front (append_serialized values e ++ rest) e rest
  record-Front e rest s =
      let head = put_be 4 (length (body e)) in
      let split : append_serialized values e ++ rest ≡ head ++ (body e ++ rest) =
        ap (λ l. l ++ rest) (record_form e s) ∙ append_assoc head (body e) rest in
      let four = length-put_be 4 (length (body e)) in
      let tail : drop 4 (append_serialized values e ++ rest) ≡ body e ++ rest =
        ap (drop 4) split ∙ drop-append 4 head (body e ++ rest) four in
      record {
        size =
            ap (λ l. get_be (take 4 l)) split
            ∙ ap get_be (take-append 4 head (body e ++ rest) four)
            ∙ get_be-put_be 4 (length (body e)) (omega (arith, length-body e, s.fits));
        here = ap (take (length (body e))) tail ∙ take-append (length (body e)) (body e) rest refl;
        after = ap (drop (length (body e))) tail ∙ drop-append (length (body e)) (body e) rest refl;
        left = ap length tail ∙ length-append (body e) rest;
        total =
            ap length split
            ∙ omega (arith, length-append head (body e ++ rest), length-append (body e) rest, four);
      }

  pub payload_of_body : (e : Entry V) → drop 12 (body e) ≡ append_binary e.value
  payload_of_body e =
      let head = put_be 4 e.key ++ put_be 8 e.timestamp in
      ap (drop 12)
        (sym (append_assoc (put_be 4 e.key) (put_be 8 e.timestamp) (append_binary e.value)))
      ∙ drop-append 12 head (append_binary e.value) (
          omega (
            arith,
            length-append (put_be 4 e.key) (put_be 8 e.timestamp),
            length-put_be 4 e.key,
            length-put_be 8 e.timestamp,
          ))

  pub entry_of-body : (e : Entry V) → IsSized e → entry_of values (body e) e.value ≡ e
  entry_of-body e s =
      let tail = put_be 8 e.timestamp ++ append_binary e.value in
      let key : get_be (take 4 (body e)) ≡ e.key =
        ap get_be (take-append 4 (put_be 4 e.key) tail (length-put_be 4 e.key))
        ∙ get_be-put_be 4 e.key (omega (arith, s.code)) in
      let time : get_be (take 8 (drop 4 (body e))) ≡ e.timestamp =
        ap (λ l. get_be (take 8 l)) (drop-append 4 (put_be 4 e.key) tail (length-put_be 4 e.key))
        ∙ ap get_be (
            take-append 8 (put_be 8 e.timestamp) (append_binary e.value)
              (length-put_be 8 e.timestamp))
        ∙ get_be-put_be 8 e.timestamp (omega (arith, s.time)) in
      rw (key, time) refl
