-- ===== src/Batch/Points.antt =====
-- What the client appends for a value, a point and a list of points, the server parses.
use qv_lite.Prelude.{ℕ, suc, ◌+◌, ◌%◌, ◌^◌, ◌<◌, ◌≡◌, refl, ap, ◌∙◌, arith, Option, some}
use qv_lite.Prelude.{
  Bool, true, false, if◌then◌else◌, if-true, if-false, Bool-cases, inl, inr, map, sym, List, [],
  ◌∷◌, ◌++◌, append_assoc, length, take, drop, length-append, take-append, drop-append,
}
use qv_lite.Wire.{IsWord}
use qv_lite.Wire.BigEndian.{put_be, get_be-put_be, length-put_be}
use qv_lite.Ingest.{StreamIngestor, add, finish, add_all}
use qv_lite.Batch.Client
use qv_lite.Batch.Server
use qv_lite.Batch.Blocks.{BlockReader, take_bytes, remaining, take_bytes_lem}

-- `take_bytes` of the exact front of the stream.
take_front :
    (xs ys : List ℕ) (r : BlockReader)
    → remaining r ≡ xs ++ ys
    → (r' : BlockReader) × (take_bytes (length xs) r ≡ some (xs, r')) × (remaining r' ≡ ys)
take_front xs ys r h =
    let (r', e, rest) =
      (take_bytes_lem (length xs) r).0 (omega (arith, ap length h, length-append xs ys)) in
    (
      r',
      e ∙ ap (λ l. some (l, r')) (ap (take (length xs)) h ∙ take-append (length xs) xs ys refl),
      rest ∙ ap (drop (length xs)) h ∙ drop-append (length xs) xs ys refl,
    )

-- A number of `k` bytes.
take_number :
    (k v : ℕ) (ys : List ℕ) (r : BlockReader)
    → v < 256 ^ k
    → remaining r ≡ put_be k v ++ ys
    → (r' : BlockReader) × (take_bytes k r ≡ some (put_be k v, r')) × (remaining r' ≡ ys)
take_number k v ys r hv h =
    let (r', e, rest) = take_front (put_be k v) ys r h in (r', rw (length-put_be k v) at e, rest)

take_block_front :
    (k : ℕ) (xs ys : List ℕ) (r : BlockReader)
    → length xs < 256 ^ k
    → remaining r ≡ put_be k (length xs) ++ (xs ++ ys)
    → (r' : BlockReader) × (Server.take_block k r ≡ some (xs, r')) × (remaining r' ≡ ys)
unfolding Server.take_block
take_block_front k xs ys r hx h =
    let (r1, e1, rest1) = take_number k (length xs) (xs ++ ys) r hx h in
    let (r2, e2, rest2) = take_front xs ys r1 rest1 in
    (r2, rw (e1, get_be-put_be k (length xs) hx) e2, rest2)

module _ {J : Type 0} (scalars : Client.Scalars) (native_to_variant : List ℕ → Option J) where
  -- The text `raw` of type `typ` stands for the value `w`, and `w` fits the format.
  pub data Means (typ : ℕ) (raw : List ℕ) (w : Server.Value J) : Type 0 where
    as_float :
        (b : ℕ)
        → typ ≡ 1
        → Client.parse_float_bits scalars raw ≡ some b
        → IsWord b
        → w ≡ Server.float_value b
        → Means typ raw w
    as_int :
        (b : ℕ)
        → typ ≡ 2
        → Client.parse_int_raw scalars raw ≡ some b
        → IsWord b
        → w ≡ Server.int_value b
        → Means typ raw w
    as_uint :
        (b : ℕ)
        → typ ≡ 3
        → Client.parse_uint_raw scalars raw ≡ some b
        → IsWord b
        → w ≡ Server.uint_value b
        → Means typ raw w
    as_bool :
        (b : Bool)
        → typ ≡ 4
        → Client.parse_bool_raw scalars raw ≡ some b
        → w ≡ Server.bool_value b
        → Means typ raw w
    as_string :
        (s : List ℕ)
        → typ ≡ 5
        → Client.parse_string scalars raw ≡ some s
        → length s < 2 ^ 16
        → w ≡ Server.string_value s
        → Means typ raw w
    as_json :
        (j : J)
        → typ ≡ 6
        → native_to_variant raw ≡ some j
        → length raw < 2 ^ 32
        → w ≡ Server.json_value j
        → Means typ raw w

  -- Reading back the bytes of one value, point or list of points, whatever follows them.
  abbrev ReadsBack : {A : Type 0} → (BlockReader → Option (A × BlockReader)) → A → List ℕ → Type 0
  ReadsBack parse a bytes =
      (ys : List ℕ) (r : BlockReader)
      → remaining r ≡ bytes ++ ys
      → (r' : BlockReader) × (parse r ≡ some (a, r')) × (remaining r' ≡ ys)

  value_round :
      (typ : ℕ) (v : Client.Value) (w : Server.Value J)
      → Means typ v.raw w
      → (bytes : List ℕ) × (Client.append_value_payload scalars typ v ≡ some bytes)
        × ReadsBack (Server.parse_value native_to_variant typ) w bytes
  unfolding Client.append_value_payload Server.parse_value
  value_round typ v w (as_float b ht hp hb hw) = (
    put_be 8 b,
    rw (ht, hp) refl,
    λ ys r h.
        let (r', e, rest) = take_number 8 b ys r (omega arith) h in
        (r', rw (ht, e, get_be-put_be 8 b (omega arith), hw) refl, rest),
  )
  value_round typ v w (as_int b ht hp hb hw) = (
    put_be 8 b,
    rw (ht, hp) refl,
    λ ys r h.
        let (r', e, rest) = take_number 8 b ys r (omega arith) h in
        (r', rw (ht, e, get_be-put_be 8 b (omega arith), hw) refl, rest),
  )
  value_round typ v w (as_uint b ht hp hb hw) = (
    put_be 8 b,
    rw (ht, hp) refl,
    λ ys r h.
        let (r', e, rest) = take_number 8 b ys r (omega arith) h in
        (r', rw (ht, e, get_be-put_be 8 b (omega arith), hw) refl, rest),
  )
  value_round typ v w (as_bool true ht hp hw) = (
    1 ∷ [],
    rw (ht, hp) refl,
    λ ys r h. let (r', e, rest) = take_front (1 ∷ []) ys r h in (r', rw (ht, e, hw) refl, rest),
  )
  value_round typ v w (as_bool false ht hp hw) = (
    0 ∷ [],
    rw (ht, hp) refl,
    λ ys r h. let (r', e, rest) = take_front (0 ∷ []) ys r h in (r', rw (ht, e, hw) refl, rest),
  )
  value_round typ v w (as_string s ht hp hs hw) =
      let fits : length s % 2 ^ 16 ≡ length s = omega arith in
      (
        put_be 2 (length s) ++ s,
        rw (ht, hp, fits) refl,
        λ ys r h.
            let (r', e, rest) =
              take_block_front 2 s ys r (omega arith)
                (h ∙ append_assoc (put_be 2 (length s)) s ys) in
            (r', rw (ht, e, hw) refl, rest),
      )
  value_round typ v w (as_json j ht hp hs hw) =
      let fits : length v.raw % 2 ^ 32 ≡ length v.raw = omega arith in
      (
        put_be 4 (length v.raw) ++ v.raw,
        rw (ht, fits) refl,
        λ ys r h.
            let (r', e, rest) =
              take_block_front 4 v.raw ys r (omega arith)
                (h ∙ append_assoc (put_be 4 (length v.raw)) v.raw ys) in
            (r', rw (ht, e, hp, Server.with_json, hw) refl, rest),
      )

  -- A point of the client and the point that the server makes of it.
  pub record Matches (typ : ℕ) (p : Client.TagPoint) (q : Server.TagPoint J) : Type 0 where
    pub short : length p.tag < 2 ^ 16
    pub word : IsWord p.timestamp
    pub tags : q.tag ≡ p.tag
    pub times : q.timestamp ≡ p.timestamp
    pub means : Means typ p.value.raw q.value

  point_parsed :
      (typ : ℕ) (p : Client.TagPoint) (q : Server.TagPoint J)
      → Matches typ p q
      → (r r1 r2 r3 : BlockReader) → Server.take_block 2 r ≡ some (p.tag, r1)
      → take_bytes 8 r1 ≡ some (put_be 8 p.timestamp, r2)
      → Server.parse_value native_to_variant typ r2 ≡ some (q.value, r3)
      → Server.parse_binary_point native_to_variant typ r ≡ some (q, r3)
  unfolding Server.parse_binary_point
  point_parsed typ p q m r r1 r2 r3 e1 e2 e3 =
      let stamp = get_be-put_be 8 p.timestamp (omega (arith, m.word)) in
      rw (e1, e2, e3, stamp, ← m.tags, ← m.times) refl

  point_round :
      (typ : ℕ) (p : Client.TagPoint) (q : Server.TagPoint J)
      → Matches typ p q
      → (bytes : List ℕ) × (Client.append_point scalars typ p ≡ some bytes)
        × ReadsBack (Server.parse_binary_point native_to_variant typ) q bytes
  unfolding Client.append_point Server.parse_binary_point
  point_round typ p q m =
      let (payload, made, back) = value_round typ p.value q.value m.means in
      let fits : length p.tag % 2 ^ 16 ≡ length p.tag = omega (arith, m.short) in
      let tail = put_be 8 p.timestamp ++ payload in
      (
        put_be 2 (length p.tag) ++ (p.tag ++ tail),
        rw (made, fits) refl,
        λ ys r h.
            let (r1, e1, rest1) = take_block_front 2 p.tag (tail ++ ys) r (omega (arith, m.short)) (
              h
              ∙ append_assoc (put_be 2 (length p.tag)) (p.tag ++ tail) ys
              ∙ ap (λ l. put_be 2 (length p.tag) ++ l) (append_assoc p.tag tail ys)) in
            let (r2, e2, rest2) =
              take_number 8 p.timestamp (payload ++ ys) r1 (omega (arith, m.word))
                (rest1 ∙ append_assoc (put_be 8 p.timestamp) payload ys) in
            let (r3, e3, rest3) = back ys r2 rest2 in
            (r3, point_parsed typ p q m r r1 r2 r3 e1 e2 e3, rest3),
      )

  -- The points of the client and of the server, one by one.
  abbrev pub MatchAll : ℕ → List Client.TagPoint → List (Server.TagPoint J) → Type 0
  MatchAll typ [] [] = Unit
  MatchAll typ [] (q ∷ qs) = ⊥
  MatchAll typ (p ∷ ps) [] = ⊥
  MatchAll typ (p ∷ ps) (q ∷ qs) = Matches typ p q × MatchAll typ ps qs

  -- What becomes of a table's points: each is added, and the stream is finished if no call of `ingest`
  -- fails before.
  abbrev pub streamed :
      (List ℕ → List (Server.TagPoint J) → Option ℕ)
      → (List (List ℕ) → List (List ℕ))
      → StreamIngestor (Server.TagPoint J) × Bool
      → StreamIngestor (Server.TagPoint J) × Server.Reply
  streamed ingest visit r =
      if r.1
      then Server.reply_of (finish (Server.TagPoint J) ingest visit r.0)
      else (r.0, Server.ingest_failed)

  abbrev pub of_table : List ℕ → List (Server.TagPoint J) → List (List ℕ × Server.TagPoint J)
  of_table table qs = map (λ q. (table, q)) qs

  add_points_step :
      (ingest : List ℕ → List (Server.TagPoint J) → Option ℕ)
      (visit : List (List ℕ) → List (List ℕ)) (table : List ℕ) (typ n i : ℕ) (q : Server.TagPoint J)
      (r r' : BlockReader) (g : StreamIngestor (Server.TagPoint J))
      → Server.parse_binary_point native_to_variant typ r ≡ some (q, r')
      → Server.add_points native_to_variant ingest visit table typ (suc n) i r g ≡ (
          if (add (Server.TagPoint J) ingest visit table q g).1
          then Server.add_points native_to_variant ingest visit table typ n
              (i + 1)
              r'
              (add (Server.TagPoint J) ingest visit table q g).0
          else ((add (Server.TagPoint J) ingest visit table q g).0, Server.ingest_failed))
  unfolding Server.add_points
  add_points_step ingest visit table typ n i q r r' g e = rw (e, Server.add_points) refl

  pub points_round :
      (ingest : List ℕ → List (Server.TagPoint J) → Option ℕ)
      (visit : List (List ℕ) → List (List ℕ)) (table : List ℕ) (typ : ℕ) (ps : List Client.TagPoint)
      (qs : List (Server.TagPoint J))
      → MatchAll typ ps qs
      → (bytes : List ℕ) × (Client.append_points scalars typ ps ≡ some bytes)
        × ((ys : List ℕ) (r : BlockReader) (i : ℕ) (g : StreamIngestor (Server.TagPoint J))
            → remaining r ≡ bytes ++ ys
            → Server.add_points native_to_variant ingest visit table typ (length ps) i r g
              ≡ streamed ingest visit
                  (add_all (Server.TagPoint J) ingest visit (of_table table qs) g))
  unfolding Client.append_points Server.add_points add_all
  points_round ingest visit table typ [] [] m = ([], refl, λ ys r i g h. refl)
  points_round ingest visit table typ [] (q ∷ qs) m = absurd m
  points_round ingest visit table typ (p ∷ ps) [] m = absurd m
  points_round ingest visit table typ (p ∷ ps) (q ∷ qs) (m, ms) =
      let (first, made, back) = point_round typ p q m in
      let (rest, made', back') = points_round ingest visit table typ ps qs ms in
      (
        first ++ rest,
        rw (made, made') refl,
        λ ys r i g h.
            let (r', e, left) = back (rest ++ ys) r (h ∙ append_assoc first rest ys) in
            let later =
              back' ys r' (i + 1) (add (Server.TagPoint J) ingest visit table q g).0 left in
            add_points_step ingest visit table typ (length ps) i q r r' g e
            ∙ (elim (Bool-cases (add (Server.TagPoint J) ingest visit table q g).1) [
              | inl fine ↦
                  if-true _ _ fine ∙ later ∙ sym (ap (streamed ingest visit) (if-true _ _ fine))
              | inr failed ↦
                  if-false _ _ failed
                  ∙ sym (ap (streamed ingest visit) (if-false _ _ failed) ∙ if-false _ _ failed)
            ]),
      )
