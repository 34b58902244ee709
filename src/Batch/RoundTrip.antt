-- ===== src/Batch/RoundTrip.antt =====
-- What the client encodes, the server's handler reads.
use qv_lite.Prelude.{
  ℕ, zero, suc, ◌%◌, ◌^◌, ◌≤◌, ◌<◌, ◌≡◌, refl, sym, ap, ◌∙◌, arith, Option, some, Bool-cases, inl,
  inr, same, same-true, subst,
}
use qv_lite.Prelude.{
  true, false, if-false, ◌||◌, List, [], ◌∷◌, ◌++◌, append-nil, length, take, drop, length-append,
  take-append, drop-append, ltb, ◌==◌,
}
use qv_lite.Wire.BigEndian.{put_be, get_be, get_be-put_be, length-put_be}
use qv_lite.Ingest.{new_stream_ingestor, add_all}
use qv_lite.Batch.Client
use qv_lite.Batch.Server
use qv_lite.Batch.Blocks.{new_block_reader}
use qv_lite.Batch.Points.{MatchAll, streamed, of_table, points_round}

read_batch_header-header :
    (typ n : ℕ) (table bytes : List ℕ)
    → length table < 2 ^ 16
    → n ≤ 2000000
    → Server.read_batch_header
        (84 ∷ 83 ∷ 1 ∷ typ ∷ (put_be 2 (length table) ++ (table ++ (put_be 4 n ++ bytes))))
      ≡ Server.header table typ n bytes
unfolding Server.read_batch_header
read_batch_header-header typ n table bytes ht hn =
    let tail = put_be 4 n ++ bytes in
    let two = length-put_be 2 (length table) in
    let four = length-put_be 4 n in
    let len : get_be (take 2 (put_be 2 (length table) ++ (table ++ tail))) ≡ length table =
      ap get_be (take-append 2 (put_be 2 (length table)) (table ++ tail) two)
      ∙ get_be-put_be 2 (length table) (omega arith) in
    let body_is : drop 2 (put_be 2 (length table) ++ (table ++ tail)) ≡ table ++ tail =
      drop-append 2 (put_be 2 (length table)) (table ++ tail) two in
    let name : take (length table) (table ++ tail) ≡ table =
      take-append (length table) table tail refl in
    let after : drop (length table) (table ++ tail) ≡ tail =
      drop-append (length table) table tail refl in
    let count : get_be (take 4 tail) ≡ n =
      ap get_be (take-append 4 (put_be 4 n) bytes four) ∙ get_be-put_be 4 n (omega arith) in
    let rest : drop 4 tail ≡ bytes = drop-append 4 (put_be 4 n) bytes four in
    let long : ltb (suc (suc (suc (suc (length (put_be 2 (length table) ++ (table ++ tail))))))) 6
        ≡ false =
      ground (arith, length-append (put_be 2 (length table)) (table ++ tail), two) in
    let whole : ltb (length (table ++ tail)) (length table) ≡ false =
      ground (arith, length-append table tail) in
    let counted : ltb (length tail) 4 ≡ false =
      ground (arith, length-append (put_be 4 n) bytes, four) in
    let few : ltb 2000000 n ≡ false = ground arith in
    rw (long, len, body_is, whole, name, after, counted, count, few, rest) refl

typed :
    (vt : List ℕ) (typ : ℕ)
    → Client.binary_value_type vt ≡ some typ
    → (length vt == 0 || same vt Client.empty_name) ≡ false
unfolding Client.binary_value_type
typed [] typ h = cc
typed (c ∷ cs) typ h = elim (Bool-cases (same (c ∷ cs) Client.empty_name)) [
  | inr other ↦ ground arith
  | inl empty ↦
      let wrong : Client.binary_value_type Client.empty_name ≡ some typ =
        subst (λ vt. Client.binary_value_type vt ≡ some typ)
          (same-true (c ∷ cs) Client.empty_name empty) h in
      cc
]

take_long : (n : ℕ) (xs : List ℕ) → length xs ≤ n → take n xs ≡ xs
take_long zero [] h = refl
take_long zero (x ∷ xs) h = absurd (omega arith)
take_long (suc n) [] h = refl
take_long (suc n) (x ∷ xs) h = ap (◌∷◌ x) (take_long n xs (omega arith))

-- A batch that the client encodes, and that is no longer than the server allows, is streamed into the
-- server's tables, in whatever pieces the connection delivers it: the handler's stream and its answer
-- are those of adding each point with its tag, its timestamp and its value to the table, and of
-- finishing the stream if no call of `ingest` fails before. The points are of one known type and at
-- most two million; the table, the tags and the strings are shorter than 65536 bytes, the JSON texts
-- shorter than 2 ^ 32, and each text parses to a value of its type.
pub batch_round_trip :
    {J : Type 0} (scalars : Client.Scalars) (native_to_variant : List ℕ → Option J)
    (ingest : List ℕ → List (Server.TagPoint J) → Option ℕ) (visit : List (List ℕ) → List (List ℕ))
    (max_body_bytes : ℕ) (table : List ℕ) (p : Client.TagPoint) (ps : List Client.TagPoint)
    (qs : List (Server.TagPoint J)) (typ : ℕ)
    → length table < 2 ^ 16
    → length (p ∷ ps) ≤ Client.max_batch_points
    → Client.binary_value_type p.value.kind ≡ some typ
    → Client.all_of_type scalars p.value.kind (p ∷ ps) ≡ true
    → MatchAll scalars native_to_variant typ (p ∷ ps) qs
    → ((b : List ℕ)
        → Client.encode_batch_binary scalars table (p ∷ ps) ≡ Client.body b
        → length b ≤ max_body_bytes)
    → (schedule : List ℕ)
    → (b : List ℕ) × (Client.encode_batch_binary scalars table (p ∷ ps) ≡ Client.body b)
      × (Server.handle_batch_binary native_to_variant ingest visit max_body_bytes schedule b
          ≡ streamed scalars native_to_variant ingest visit (
              add_all
                (Server.TagPoint J)
                ingest
                visit
                (of_table scalars native_to_variant table qs)
                (new_stream_ingestor (Server.TagPoint J))))
unfolding Client.encode_batch_binary Server.handle_batch_binary Server.stream_body
batch_round_trip {J = J} scalars native_to_variant ingest visit max_body_bytes table p ps qs typ ht
      hn hk hall hm allowed schedule =
    let (bytes, made, back) =
      points_round scalars native_to_variant ingest visit table typ (p ∷ ps) qs hm in
    let few : ltb Client.max_batch_points (length (p ∷ ps)) ≡ false = ground arith in
    let table_fits : length table % 2 ^ 16 ≡ length table = omega arith in
    let count_fits : length (p ∷ ps) % 2 ^ 32 ≡ length (p ∷ ps) = omega arith in
    let b : List ℕ =
      84
      ∷ 83
      ∷ 1
      ∷ typ
      ∷ (put_be 2 (length table) ++ (table ++ (put_be 4 (length (p ∷ ps)) ++ bytes))) in
    let encoded : Client.encode_batch_binary scalars table (p ∷ ps) ≡ Client.body b =
      rw
        (
          few,
          typed p.value.kind typ hk,
          hk,
          Client.encode_batch_binary,
          hall,
          made,
          Client.encode_points,
          table_fits,
          count_fits,
        )
        refl in
    let whole : take max_body_bytes b ≡ b = take_long max_body_bytes b (allowed b encoded) in
    let read_header = read_batch_header-header typ (length (p ∷ ps)) table bytes ht hn in
    let some_points : (length (p ∷ ps) == 0) ≡ false = ground arith in
    let read_points =
      back [] (new_block_reader bytes schedule) 0 (new_stream_ingestor (Server.TagPoint J))
        (sym (append-nil bytes)) in
    (
      b,
      encoded,
      ap
            (λ x.
              Server.stream_body native_to_variant ingest visit schedule
                (Server.read_batch_header x))
            whole
          ∙ ap (Server.stream_body native_to_variant ingest visit schedule) read_header
          ∙ if-false _ _ some_points
          ∙ read_points,
    )
