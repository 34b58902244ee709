-- ===== src/Batch/Blocks.antt =====
-- The blockReader of server/batch_binary.go.
use qv_lite.Prelude.{
  ℕ, zero, suc, ◌+◌, ◌-◌, ◌≤◌, ◌<◌, ◌≡◌, refl, sym, ap, ◌∙◌, arith, Option, none, some, Bool-cases,
  inl, inr,
}
use qv_lite.Prelude.{
  false, List, [], ◌∷◌, ◌++◌, append_assoc, length, take, drop, length-append, ltb, leb,
  if◌then◌else◌,
}

-- `pending` is `buf[pos:end]`, and `size` the length of `buf`. The `bufio.Reader` still holds
-- `source`; `schedule` tells how many bytes its next calls of `Read` are ready to give.
pub record BlockReader : Type 0 where
  pub pending : List ℕ
  pub size : ℕ
  pub source : List ℕ
  pub schedule : List ℕ

abbrev pub binary_block_size : ℕ
binary_block_size = 65536

abbrev pub new_block_reader : List ℕ → List ℕ → BlockReader
new_block_reader source schedule = record {
  pending = [];
  size = binary_block_size;
  source = source;
  schedule = schedule;
}

abbrev min2 : ℕ → ℕ → ℕ
min2 a b = if leb a b then a else b

-- A call of `Read` into a buffer of `space` bytes: at least one byte, and no more than there are.
unfoldable pub ready : List ℕ → ℕ → ℕ
ready [] space = space
ready (k ∷ ks) space = if ltb k 1 then min2 1 space else min2 k space

abbrev pub later : List ℕ → List ℕ
later [] = []
later (k ∷ ks) = ks

abbrev pub read_more : BlockReader → BlockReader
read_more r =
    let m = ready r.schedule (r.size - length r.pending) in
    record r {
      pending = r.pending ++ take m r.source;
      source = drop m r.source;
      schedule = later r.schedule;
    }

-- The loop of `refill`; `none` is the error "truncated binary point". A round adds a byte or ends the
-- loop, so that the fuel `need` is enough.
unfoldable pub fill_to : ℕ → ℕ → BlockReader → Option BlockReader
unfolding ready
fill_to zero need r = none
fill_to (suc fuel) need r =
    let more = fill_to fuel need (read_more r) in
    if leb need (length r.pending) then some r else if leb (length r.source) 0 then none else more

unfoldable pub refill : ℕ → BlockReader → Option BlockReader
unfolding fill_to
refill need r = fill_to (suc need) need (if ltb r.size need then record r { size = need } else r)

abbrev pub split_off : ℕ → BlockReader → Option (List ℕ × BlockReader)
split_off n r = some (take n r.pending, record r { pending = drop n r.pending })

abbrev pub split_filled : ℕ → Option BlockReader → Option (List ℕ × BlockReader)
split_filled n none = none
split_filled n (some r) = split_off n r

unfoldable pub take_bytes : ℕ → BlockReader → Option (List ℕ × BlockReader)
unfolding refill
take_bytes n r = if ltb (length r.pending) n then split_filled n (refill n r) else split_off n r

-- All the bytes that are still to come.
abbrev pub remaining : BlockReader → List ℕ
remaining r = r.pending ++ r.source

ready-bounds :
    (ks : List ℕ) (space : ℕ) → 1 ≤ space → (1 ≤ ready ks space) × (ready ks space ≤ space)
unfolding ready
ready-bounds [] space h = ground arith
ready-bounds (k ∷ ks) space h = ground arith

take-drop : (m : ℕ) (xs : List ℕ) → take m xs ++ drop m xs ≡ xs
take-drop zero xs = refl
take-drop (suc m) [] = refl
take-drop (suc m) (x ∷ xs) = ap (◌∷◌ x) (take-drop m xs)

read_more-remaining : (r : BlockReader) → remaining (read_more r) ≡ remaining r
read_more-remaining r =
    let m = ready r.schedule (r.size - length r.pending) in
    append_assoc r.pending (take m r.source) (drop m r.source)
    ∙ ap (λ l. r.pending ++ l) (take-drop m r.source)

length-take_some : (m : ℕ) (xs : List ℕ) → 1 ≤ m → 1 ≤ length xs → 1 ≤ length (take m xs)
length-take_some zero xs h k = absurd (omega arith)
length-take_some (suc m) [] h k = absurd (omega arith)
length-take_some (suc m) (x ∷ xs) h k = omega arith

read_more-grows :
    (r : BlockReader)
    → length r.pending < r.size
    → 1 ≤ length r.source
    → suc (length r.pending) ≤ length (read_more r).pending
read_more-grows r h k =
    let m = ready r.schedule (r.size - length r.pending) in
    let ready' = ready-bounds r.schedule (r.size - length r.pending) (omega arith) in
    omega (arith, length-append r.pending (take m r.source), length-take_some m r.source ready'.0 k)

fill_to-enough :
    (fuel need : ℕ) (r : BlockReader)
    → 0 < fuel
    → need < fuel + length r.pending
    → need ≤ r.size
    → need ≤ length (remaining r)
    → (r' : BlockReader) × (fill_to fuel need r ≡ some r')
      × (need ≤ length r'.pending)
      × (remaining r' ≡ remaining r)
unfolding fill_to
fill_to-enough zero need r h0 hf hs hr = absurd (omega arith)
fill_to-enough (suc fuel) need r h0 hf hs hr = elim (Bool-cases (leb need (length r.pending))) [
  | inl full ↦ (r, rw full refl, ground arith, refl)
  | inr short ↦
      let lacks : length r.pending < need = ground arith in
      let total = length-append r.pending r.source in
      let open_source : leb (length r.source) 0 ≡ false = ground (arith, total) in
      let grows = read_more-grows r (omega arith) (omega (arith, total)) in
      let same_bytes = read_more-remaining r in
      let (r', e, enough, kept) =
        fill_to-enough fuel need (read_more r) (omega arith) (omega arith) hs
          (omega (arith, ap length same_bytes)) in
      (r', rw (short, open_source) e, enough, kept ∙ same_bytes)
]

fill_to-truncated :
    (fuel need : ℕ) (r : BlockReader) → length (remaining r) < need → fill_to fuel need r ≡ none
unfolding fill_to
fill_to-truncated zero need r h = refl
fill_to-truncated (suc fuel) need r h =
    let total = length-append r.pending r.source in
    let short : leb need (length r.pending) ≡ false = ground (arith, total) in
    let same_bytes = read_more-remaining r in
    let rest = fill_to-truncated fuel need (read_more r) (omega (arith, ap length same_bytes)) in
    elim (Bool-cases (leb (length r.source) 0)) [
      | inl closed ↦ rw (short, closed) refl
      | inr open_source ↦ rw (short, open_source) rest
    ]

-- The first bytes of a prefix, and what follows them.
take-prefix : (n : ℕ) (xs ys : List ℕ) → n ≤ length xs → take n (xs ++ ys) ≡ take n xs
take-prefix zero xs ys h = refl
take-prefix (suc n) [] ys h = absurd (omega arith)
take-prefix (suc n) (x ∷ xs) ys h = ap (◌∷◌ x) (take-prefix n xs ys (omega arith))

drop-prefix : (n : ℕ) (xs ys : List ℕ) → n ≤ length xs → drop n (xs ++ ys) ≡ drop n xs ++ ys
drop-prefix zero xs ys h = refl
drop-prefix (suc n) [] ys h = absurd (omega arith)
drop-prefix (suc n) (x ∷ xs) ys h = drop-prefix n xs ys (omega arith)

-- The buffer of a call of `refill` is as long as what is needed.
abbrev room_for : ℕ → BlockReader → BlockReader
room_for n r = if ltb r.size n then record r { size = n } else r

room_for-fits :
    (n : ℕ) (r : BlockReader)
    → (n ≤ (room_for n r).size)
      × ((room_for n r).pending ≡ r.pending)
      × (remaining (room_for n r) ≡ remaining r)
room_for-fits n r = elim (Bool-cases (ltb r.size n)) [
  | inl small ↦ rw small (omega arith, refl, refl)
  | inr large ↦ rw large (ground arith, refl, refl)
]

-- Whatever pieces the connection delivers, `take` gives the next `n` bytes of the stream when it
-- has as many, and leaves the bytes after them; otherwise it fails.
pub take_bytes_lem :
    (n : ℕ) (r : BlockReader)
    → (n ≤ length (remaining r)
        → (r' : BlockReader) × (take_bytes n r ≡ some (take n (remaining r), r'))
          × (remaining r' ≡ drop n (remaining r)))
      × (length (remaining r) < n → take_bytes n r ≡ none)
unfolding take_bytes refill
take_bytes_lem n r = elim (Bool-cases (ltb (length r.pending) n)) [
  | inr held ↦
      let enough : n ≤ length r.pending = ground arith in
      (
        λ h. (
          record r { pending = drop n r.pending },
          rw held (
              ap (λ xs. some (xs, record r { pending = drop n r.pending }))
                (sym (take-prefix n r.pending r.source enough))),
          sym (drop-prefix n r.pending r.source enough),
        ),
        λ h. absurd (omega (arith, length-append r.pending r.source)),
      )
  | inl short ↦
      let lacks : length r.pending < n = ground arith in
      let (fits, same_pending, same_bytes) = room_for-fits n r in
      (
        λ h.
            let (r', e, enough, kept) =
              fill_to-enough (suc n) n (room_for n r) (omega arith) (omega arith) fits
                (omega (arith, ap length same_bytes)) in
            let all_bytes = kept ∙ same_bytes in
            (
              record r' { pending = drop n r'.pending },
              rw (short, e)
                  (ap (λ xs. some (xs, record r' { pending = drop n r'.pending }))
                    (sym (take-prefix n r'.pending r'.source enough) ∙ ap (take n) all_bytes)),
              sym (drop-prefix n r'.pending r'.source enough) ∙ ap (drop n) all_bytes,
            ),
        λ h.
            rw
              (
                short,
                fill_to-truncated (suc n) n (room_for n r) (omega (arith, ap length same_bytes)),
              )
              refl,
      )
]
