-- ===== src/Codec/Text/RoundTrip.antt =====
-- The round trip of the string codec.
use qv_lite.Prelude.{
  ℕ, zero, suc, ◌+◌, ◌-◌, ◌^◌, ◌≤◌, ◌<◌, ◌≡◌, refl, ap, ◌∙◌, arith, Bool, true, false, if-false,
  not, ◌&&◌,
}
use qv_lite.Prelude.{
  none, some, List, [], ◌∷◌, ◌++◌, append_assoc, map, length, length-append, take, drop,
  take-append, drop-append, drop-get_or, drop_past, get_or, ltb, leb, ◌==◌, Bool-cases, inl, inr,
  All,
}
use qv_lite.Wire.Uvarint.{put_uvarint, get_uvarint, get_uvarint-put_uvarint, length-put_uvarint}
use qv_lite.Codec.Text
use qv_lite.Codec.Text.Writes.{IsFaithful, write_all-new_encoder}

-- A string behind its length, at the front of some bytes.
record Front (n : ℕ) (b s rest : List ℕ) : Type 0 where
  size : get_uvarint b ≡ some (length s, n)
  some_bytes : 1 ≤ n
  here : take (length s) (drop n b) ≡ s
  after : drop (length s) (drop n b) ≡ rest
  total : length b ≡ n + length s + length rest

prefixed-Front :
    (s rest : List ℕ)
    → length s < 2 ^ 64
    → Front (length (put_uvarint (length s))) (Text.prefixed s ++ rest) s rest
prefixed-Front s rest h =
    let head = put_uvarint (length s) in
    let split : (head ++ s) ++ rest ≡ head ++ (s ++ rest) = append_assoc head s rest in
    let left : drop (length head) ((head ++ s) ++ rest) ≡ s ++ rest =
      ap (drop (length head)) split ∙ drop-append (length head) head (s ++ rest) refl in
    record {
      size = ap get_uvarint split ∙ get_uvarint-put_uvarint (length s) (s ++ rest) h;
      some_bytes = (length-put_uvarint (length s)).0;
      here = ap (take (length s)) left ∙ take-append (length s) s rest refl;
      after = ap (drop (length s)) left ∙ drop-append (length s) s rest refl;
      total = omega (arith, length-append (head ++ s) rest, length-append head s);
    }

parse_step :
    (fuel pos n : ℕ) (b s rest : List ℕ)
    → Front n b s rest
    → pos + length b < 2 ^ 63
    → Text.parse_len_prefixed (suc fuel) pos b
      ≡ Text.cons_call s (Text.parse_len_prefixed fuel (pos + n + length s) rest)
unfolding Text.parse_len_prefixed
parse_step fuel pos n b s rest f h =
    let no_wrap : leb (2 ^ 63) (pos + n + length s) ≡ false = ground (arith, f.total) in
    let enough : ltb (length b) (n + length s) ≡ false = ground (arith, f.total) in
    let more : (length b == 0) ≡ false = ground (arith, f.total, f.some_bytes) in
    rw (more, f.size, Text.parse_len_prefixed, f.here, f.after, no_wrap, enough) refl

entry_step :
    (count pos n : ℕ) (b s rest : List ℕ)
    → Front n b s rest
    → pos + length b < 2 ^ 63
    → Text.read_entries (suc count) pos b
      ≡ Text.cons_entry s (Text.read_entries count (pos + n + length s) rest)
unfolding Text.read_entries
entry_step count pos n b s rest f h =
    let no_wrap : leb (2 ^ 63) (pos + n + length s) ≡ false = ground (arith, f.total) in
    let enough : ltb (length b) (n + length s) ≡ false = ground (arith, f.total) in
    rw (f.size, Text.read_entries, f.here, f.after, no_wrap, enough) refl

parse-entries :
    (ss : List (List ℕ)) (fuel pos : ℕ)
    → length (Text.entries ss) ≤ fuel
    → pos + length (Text.entries ss) < 2 ^ 63
    → Text.parse_len_prefixed fuel pos (Text.entries ss) ≡ Text.returns ss
unfolding Text.parse_len_prefixed
parse-entries [] zero pos hf hp = refl
parse-entries [] (suc fuel) pos hf hp = refl
parse-entries (s ∷ ss) fuel pos hf hp =
    let size = length-append (Text.prefixed s) (Text.entries ss) in
    let size' = length-append (put_uvarint (length s)) s in
    let some_bytes = (length-put_uvarint (length s)).0 in
    let n = length (put_uvarint (length s)) in
    elim fuel
        as (λ fuel.
          length (Text.entries (s ∷ ss)) ≤ fuel
          → Text.parse_len_prefixed fuel pos (Text.entries (s ∷ ss)) ≡ Text.returns (s ∷ ss)) [
            | zero ↦ λ hf. absurd (omega arith)
            | suc fuel ↦ λ hf.
                parse_step fuel pos n (Text.entries (s ∷ ss)) s (Text.entries ss)
                  (prefixed-Front s (Text.entries ss) (omega arith)) hp
                ∙ ap (Text.cons_call s)
                    (parse-entries ss fuel (pos + n + length s) (omega arith) (omega arith))
          ]
      hf

read_entries-entries :
    (ss : List (List ℕ)) (tail : List ℕ) (pos : ℕ)
    → pos + length (Text.entries ss ++ tail) < 2 ^ 63
    → Text.read_entries (length ss) pos (Text.entries ss ++ tail)
      ≡ Text.returns (ss, pos + length (Text.entries ss), tail)
unfolding Text.read_entries
read_entries-entries [] tail pos h = ap (λ (p : ℕ). Text.returns ([], p, tail)) (omega arith)
read_entries-entries (s ∷ ss) tail pos h =
    let size = length-append (Text.prefixed s) (Text.entries ss) in
    let size' = length-append (put_uvarint (length s)) s in
    let size'' = length-append (Text.prefixed s ++ Text.entries ss) tail in
    let rest_size = length-append (Text.entries ss) tail in
    let n = length (put_uvarint (length s)) in
    let split = append_assoc (Text.prefixed s) (Text.entries ss) tail in
    ap (Text.read_entries (suc (length ss)) pos) split
    ∙ entry_step (length ss) pos n (Text.prefixed s ++ (Text.entries ss ++ tail)) s
        (Text.entries ss ++ tail) (prefixed-Front s (Text.entries ss ++ tail) (omega arith))
        (omega (arith, ap length split))
    ∙ ap (Text.cons_entry s) (read_entries-entries ss tail (pos + n + length s) (omega arith))
    ∙ ap (λ (p : ℕ). Text.returns (s ∷ ss, p, tail)) (omega arith)

index_step :
    (fuel v n : ℕ) (dict : List (List ℕ)) (b rest : List ℕ)
    → get_uvarint b ≡ some (v, n)
    → 1 ≤ length b
    → drop n b ≡ rest
    → v < length dict
    → Text.read_indices (suc fuel) dict b
      ≡ Text.cons_call (get_or dict v []) (Text.read_indices fuel dict rest)
unfolding Text.read_indices
index_step fuel v n dict b rest hu hb hr hv =
    let more : (length b == 0) ≡ false = ground arith in
    let known : leb (length dict) v ≡ false = ground arith in
    rw (more, hu, Text.read_indices, hr, known) refl

read_indices-indices :
    (ns : List ℕ) (fuel : ℕ) (dict : List (List ℕ))
    → All (λ n. n < length dict) ns
    → length dict < 2 ^ 64
    → length (Text.indices ns) ≤ fuel
    → Text.read_indices fuel dict (Text.indices ns) ≡ Text.returns (map (λ n. get_or dict n []) ns)
unfolding Text.read_indices
read_indices-indices [] zero dict hn hd hf = refl
read_indices-indices [] (suc fuel) dict hn hd hf = refl
read_indices-indices (n ∷ ns) fuel dict (hn, hs) hd hf =
    let size = length-append (put_uvarint n) (Text.indices ns) in
    let some_bytes = (length-put_uvarint n).0 in
    elim fuel
        as (λ fuel.
          length (Text.indices (n ∷ ns)) ≤ fuel
          → Text.read_indices fuel dict (Text.indices (n ∷ ns))
            ≡ Text.returns (map (λ n. get_or dict n []) (n ∷ ns))) [
              | zero ↦ λ hf. absurd (omega arith)
              | suc fuel ↦ λ hf.
                  index_step fuel n (length (put_uvarint n)) dict (Text.indices (n ∷ ns))
                    (Text.indices ns) (get_uvarint-put_uvarint n (Text.indices ns) (omega arith))
                    (omega arith)
                    (drop-append (length (put_uvarint n)) (put_uvarint n) (Text.indices ns) refl) hn
                  ∙ ap (Text.cons_call (get_or dict n []))
                      (read_indices-indices ns fuel dict hs hd (omega arith))
            ]
      hf

-- The dictionary form of a faithful encoder is decoded to the strings.
decode_dict-encode :
    (fits : ℕ → Bool) (order : List (List ℕ)) (idx : List ℕ) (ss : List (List ℕ))
    → map (λ n. get_or order n []) idx ≡ ss
    → All (λ n. n < length order) idx
    → length order ≤ Text.max_dict_entries
    → fits (length order) ≡ true
    → length (put_uvarint (length order) ++ (Text.entries order ++ Text.indices idx)) < 2 ^ 63
    → Text.decode_dict fits (put_uvarint (length order) ++ (Text.entries order ++ Text.indices idx))
      ≡ Text.returns ss
unfolding Text.decode_dict
decode_dict-encode fits order idx ss picks below bound room short =
    let tail = Text.entries order ++ Text.indices idx in
    let n = length (put_uvarint (length order)) in
    let count = get_uvarint-put_uvarint (length order) tail (omega arith) in
    let after = drop-append n (put_uvarint (length order)) tail refl in
    let listed =
      read_entries-entries order (Text.indices idx) n
        (omega (arith, length-append (put_uvarint (length order)) tail)) in
    rw (count, Text.decode_dict, room, after, listed)
      (read_indices-indices idx (length (Text.indices idx)) order below (omega arith) (omega arith)
        ∙ ap Text.returns picks)

abbrev decoded : List (List ℕ) → Text.Decoder
decoded ss = record { list = ss; i = 0; error = none }

drain_from :
    (fuel : ℕ) (ss : List (List ℕ)) (i : ℕ)
    → length ss < fuel + i
    → i ≤ length ss
    → Text.drain fuel (record (decoded ss) { i = i }) ≡ some (map some (drop i ss))
unfolding Text.drain
drain_from zero ss i hf hi = absurd (omega arith)
drain_from (suc fuel) ss i hf hi = elim (Bool-cases (ltb i (length ss))) [
  | inl more ↦
      let inside : i < length ss = ground arith in
      let more_values : leb (i + 1) (length ss) ≡ true = ground arith in
      let step : i + 1 ≡ suc i = omega arith in
      let first : (suc i == 0) ≡ false = ground arith in
      let in_range : ltb (length ss) (suc i) ≡ false = ground arith in
      let at : suc i - 1 ≡ i = omega arith in
      let later = drain_from fuel ss (suc i) (omega arith) inside in
      rw (more_values, step, first, in_range, at, later, drop-get_or ss i [] inside) refl
  | inr done ↦
      let over : leb (i + 1) (length ss) ≡ false = ground arith in
      rw (over, drop_past ss i (ground arith)) refl
]

set_bytes-smaller_form :
    (snappy : Text.Snappy) (fits : ℕ → Bool) (ss : List (List ℕ)) (e : Text.Encoder)
    → ((x : List ℕ) → length x ≤ snappy.max_length → snappy.decode (snappy.encode x) ≡ some x)
    → ((n : ℕ) → n ≤ Text.max_dict_entries → fits n ≡ true)
    → IsFaithful ss e
    → length (Text.entries ss) ≤ snappy.max_length
    → length (Text.entries ss) < 2 ^ 63
    → length (Text.smaller_form snappy e) < 2 ^ 63
    → Text.set_bytes snappy fits (Text.smaller_form snappy e) ≡ Text.returns (decoded ss)
unfolding Text.set_bytes Text.smaller_form Text.encode_dict
set_bytes-smaller_form snappy fits ss e lossless room h taken short stored =
    elim (Bool-cases
      (not e.dict_full && ltb (Text.dict_encoded_len e) (length (snappy.encode e.bytes) + 1))) [
        | inl dict ↦
            let t = h.tracked (ground arith) in
            let stored' = rw dict at stored in
            rw dict (
              ap Text.settle (
                decode_dict-encode fits e.order e.idx ss t.picks t.below t.bound
                  (room (length e.order) t.bound) (omega arith)))
        | inr packed ↦
            rw (packed, lossless e.bytes (omega (arith, taken, ap length h.kept)), h.kept)
              (ap Text.settle
                (parse-entries ss (length (Text.entries ss)) 0 (omega arith) (omega arith)))
      ]

-- Strings written to a fresh StringEncoder are read back by a StringDecoder, whichever of the two
-- forms the encoder chooses. Snappy gives back what it has compressed, a slice for as many strings as
-- a dictionary holds can be made, the raw stream is not longer than Snappy takes and shorter than
-- 2 ^ 63, and so are the stored bytes. The loop has more fuel than there are strings.
pub string_round_trip :
    (snappy : Text.Snappy) (fits : ℕ → Bool) (ss : List (List ℕ))
    → ((x : List ℕ) → length x ≤ snappy.max_length → snappy.decode (snappy.encode x) ≡ some x)
    → ((n : ℕ) → n ≤ Text.max_dict_entries → fits n ≡ true)
    → length (Text.entries ss) ≤ snappy.max_length
    → length (Text.entries ss) < 2 ^ 63
    → ((b : List ℕ)
        → Text.bytes snappy (Text.write_all ss Text.new_encoder) ≡ some b
        → length b < 2 ^ 63)
    → (b : List ℕ) × (Text.bytes snappy (Text.write_all ss Text.new_encoder) ≡ some b)
      × ((d : Text.Decoder) × (Text.set_bytes snappy fits b ≡ Text.returns d)
          × (Text.drain (suc (length ss)) d ≡ some (map some ss)))
unfolding Text.bytes
string_round_trip snappy fits ss lossless room taken short stored =
    let e = Text.write_all ss Text.new_encoder in
    let h = write_all-new_encoder ss in
    let fitting : ltb snappy.max_length (length e.bytes) ≡ false =
      ground (arith, taken, ap length h.kept) in
    let made : Text.bytes snappy e ≡ some (Text.smaller_form snappy e) = if-false _ _ fitting in
    (
      Text.smaller_form snappy e,
      made,
      (
        decoded ss,
        set_bytes-smaller_form snappy fits ss e lossless room h taken short
            (stored (Text.smaller_form snappy e) made),
        drain_from (suc (length ss)) ss 0 (omega arith) (omega arith),
      ),
    )
