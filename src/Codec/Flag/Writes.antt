-- ===== src/Codec/Flag/Writes.antt =====
-- What the Boolean encoder holds after a sequence of writes.
use qv_lite.Prelude.{
  ℕ, zero, suc, ◌+◌, ◌-◌, ◌*◌, ◌/◌, ◌%◌, ◌^◌, ◌≤◌, ◌<◌, ◌≡◌, refl, sym, ap, ◌∙◌, arith,
}
use qv_lite.Prelude.{
  Bool, true, false, not, ◌&&◌, List, [], ◌∷◌, ◌++◌, append-nil, append_assoc, length,
  length-append,
}
use qv_lite.Prelude.{
  Option, some, map, replicate, replicate-append_one, length-replicate, ltb, leb, ◌==◌,
  if◌then◌else◌, Bool-cases, inl, inr, subst, subst₂, bit_or,
}
use Prim.Native.Nat.{bit_or-bitwise}
use native.Mathlib.Nat.{pow-suc, one-le-pow}
use mathlib.Core.Bool.{xor}
use qv_lite.Codec.Flag.{
  Encoder, new_encoder, cancel_rle, shift_in, start_run, break_run, pack, count_one, push, write,
  write_all,
}
use qv_lite.Codec.Flag.Bits.{
  low_bits, byte_bits, byte_bits-append, low_bits_ones, low_bits_zeros, low_bits_push,
  byte_bits-replicate,
}

-- The bits that are written out: the full bytes and the byte that is being filled.
abbrev pub written : Encoder → List Bool
written e = byte_bits e.bytes ++ low_bits e.i e.b

-- Holds of every encoder that only `write` has changed since it was reset.
pub data IsFaithful (bs : List Bool) (e : Encoder) : Type 0 where
  empty : bs ≡ [] → e.bytes ≡ [] → e.b ≡ 0 → e.i ≡ 0 → e.number ≡ 0 → IsFaithful bs e
  run :
      e.rle ≡ true
      → e.bytes ≡ []
      → e.b ≡ 0
      → e.i ≡ 0
      → 0 < e.number
      → bs ≡ replicate e.number e.last_bool
      → IsFaithful bs e
  packed :
      e.rle ≡ false
      → 0 < e.number
      → e.number ≡ length bs
      → e.i < 8
      → e.b < 2 ^ e.i
      → bs ≡ written e
      → IsFaithful bs e

two_powers : (i : ℕ) → i < 8 → 2 ^ i ≤ 128
two_powers zero h = omega arith
two_powers (suc zero) h = omega arith
two_powers (suc (suc zero)) h = omega arith
two_powers (suc (suc (suc zero))) h = omega arith
two_powers (suc (suc (suc (suc zero)))) h = omega arith
two_powers (suc (suc (suc (suc (suc zero))))) h = omega arith
two_powers (suc (suc (suc (suc (suc (suc zero)))))) h = omega arith
two_powers (suc (suc (suc (suc (suc (suc (suc zero))))))) h = omega arith
two_powers (suc (suc (suc (suc (suc (suc (suc (suc k)))))))) h = absurd (omega arith)

-- The byte that is being filled, with one more bit.
abbrev grown : Bool → ℕ → ℕ
grown bit b = b * 2 + (if bit then 1 else 0)

grown-below : (bit : Bool) (i b : ℕ) → b < 2 ^ i → grown bit b < 2 ^ suc i
grown-below true i b h = omega (arith, pow-suc 2 i)
grown-below false i b h = omega (arith, pow-suc 2 i)

shift_in_full :
    (bit : Bool) (e : Encoder)
    → e.i ≡ 7
    → e.b < 2 ^ e.i
    → shift_in bit e ≡ record e { bytes = e.bytes ++ (grown bit e.b ∷ []); b = 0; i = 0 }
unfolding shift_in
shift_in_full bit e hi hb =
    let small : e.b < 2 ^ 7 = subst (λ (i : ℕ). e.b < 2 ^ i) hi hb in
    let kept : e.b * 2 % 256 ≡ e.b * 2 = omega arith in rw (hi, kept) refl

shift_in_room :
    (bit : Bool) (e : Encoder)
    → e.i < 7
    → e.b < 2 ^ e.i
    → shift_in bit e ≡ record e { b = grown bit e.b; i = suc e.i }
unfolding shift_in
shift_in_room bit e hi hb =
    let kept : e.b * 2 % 256 ≡ e.b * 2 = omega (arith, two_powers e.i) in
    let room : leb 8 (e.i + 1) ≡ false = ground arith in
    let next : e.i + 1 ≡ suc e.i = omega arith in rw (room, kept, next) refl

-- The byte being filled has fewer than eight bits, and the count of them tells its bound.
abbrev Fits : Encoder → Type 0
Fits e = (e.i < 8) × (e.b < 2 ^ e.i)

shift_in-written :
    (bit : Bool) (e : Encoder)
    → Fits e
    → (written (shift_in bit e) ≡ written e ++ (bit ∷ [])) × Fits (shift_in bit e)
shift_in-written bit e (hi, hb) = elim (Bool-cases (ltb e.i 7)) [
  | inl room ↦ rw (shift_in_room bit e (ground arith) hb) (
    ap (λ l. byte_bits e.bytes ++ l) (low_bits_push e.i e.b bit)
        ∙ sym (append_assoc (byte_bits e.bytes) (low_bits e.i e.b) (bit ∷ [])),
    (ground arith, grown-below bit e.i e.b hb),
  )
  | inr full ↦
      let seven : e.i ≡ 7 = ground arith in
      rw (shift_in_full bit e seven hb) (
        append-nil (byte_bits (e.bytes ++ (grown bit e.b ∷ [])))
            ∙ byte_bits-append e.bytes (grown bit e.b ∷ [])
            ∙ ap (λ l. byte_bits e.bytes ++ l)
                (append-nil (low_bits 8 (grown bit e.b))
                  ∙ low_bits_push 7 e.b bit
                  ∙ ap (λ i. low_bits i e.b ++ (bit ∷ [])) (sym seven))
            ∙ sym (append_assoc (byte_bits e.bytes) (low_bits e.i e.b) (bit ∷ [])),
        (omega arith, omega arith),
      )
]

zero-bit_or : (b : ℕ) → bit_or 0 b ≡ b
zero-bit_or b = bit_or-bitwise 0 b

-- The bits of the last byte when the run is given up.
abbrev rest_of_run : Bool → ℕ → ℕ
rest_of_run true r = 2 ^ r - 1
rest_of_run false r = 0

rest_of_run_lem :
    (a : Bool) (r : ℕ) → (if not (r == 0) && a then bit_or 0 (2 ^ r - 1) else 0) ≡ rest_of_run a r
rest_of_run_lem true zero = refl
rest_of_run_lem true (suc r) = ground (arith, zero-bit_or (2 ^ suc r - 1))
rest_of_run_lem false r = ground arith

low_bits-rest_of_run : (a : Bool) (r : ℕ) → low_bits r (rest_of_run a r) ≡ replicate r a
low_bits-rest_of_run true r = low_bits_ones r
low_bits-rest_of_run false r = low_bits_zeros r

rest_of_run-below : (a : Bool) (r : ℕ) → rest_of_run a r < 2 ^ r
rest_of_run-below true r = omega (arith, one-le-pow r 2)
rest_of_run-below false r = omega (arith, one-le-pow r 2)

cancel_rle-written :
    (e : Encoder)
    → e.bytes ≡ []
    → e.b ≡ 0
    → (written (cancel_rle e) ≡ replicate e.number e.last_bool) × Fits (cancel_rle e)
unfolding cancel_rle
cancel_rle-written e hs hb =
    rw
      (
        hs,
        hb,
        rest_of_run_lem e.last_bool (e.number % 8),
        low_bits-rest_of_run e.last_bool (e.number % 8),
      )
      (
        byte_bits-replicate (e.number / 8) (e.number % 8) e.last_bool
            ∙ ap (λ n. replicate n e.last_bool) (omega arith),
        (omega arith, rest_of_run-below e.last_bool (e.number % 8)),
      )

-- `shift_in` leaves the other fields alone.
shift_in_kept :
    (bit : Bool) (e : Encoder)
    → ((shift_in bit e).rle ≡ e.rle)
      × ((shift_in bit e).number ≡ e.number)
      × ((shift_in bit e).failed ≡ e.failed)
unfolding shift_in
shift_in_kept bit e = elim (Bool-cases (leb 8 (e.i + 1))) [
  | inl full ↦ rw full (refl, refl, refl)
  | inr room ↦ rw room (refl, refl, refl)
]

xor_self : (a : Bool) → xor a a ≡ false
unfolding xor
xor_self true = refl
xor_self false = refl

xor-false : (a b : Bool) → xor a b ≡ false → b ≡ a
unfolding xor
xor-false true true h = refl
xor-false true false h = sym h
xor-false false true h = h
xor-false false false h = refl

push_first :
    (bit : Bool) (e : Encoder)
    → e.number ≡ 0
    → push bit e ≡ count_one (record e { last_bool = bit; rle = true })
unfolding push start_run break_run pack
push_first bit e h =
    let first : (e.number == 0) ≡ true = ground arith in rw (first, xor_self bit) refl

later : (bit : Bool) (e : Encoder) → 0 < e.number → start_run bit e ≡ e
unfolding start_run
later bit e h = let pos : (e.number == 0) ≡ false = ground arith in rw pos refl

push_same :
    (bit : Bool) (e : Encoder)
    → 0 < e.number
    → e.rle ≡ true
    → xor e.last_bool bit ≡ false
    → push bit e ≡ count_one e
unfolding push break_run pack
push_same bit e hn hr hx = rw (later bit e hn, hx, hr) refl

push_other :
    (bit : Bool) (e : Encoder)
    → 0 < e.number
    → e.rle ≡ true
    → xor e.last_bool bit ≡ true
    → push bit e ≡ count_one (shift_in bit (cancel_rle e))
unfolding push break_run pack cancel_rle
push_other bit e hn hr hx = rw (later bit e hn, hx, hr) refl

push_packed :
    (bit : Bool) (e : Encoder)
    → 0 < e.number
    → e.rle ≡ false
    → push bit e ≡ count_one (shift_in bit e)
unfolding push break_run pack
push_packed bit e hn hr = elim (Bool-cases (xor e.last_bool bit)) [
  | inl other ↦ rw (later bit e hn, other, hr) refl
  | inr same ↦ rw (later bit e hn, same, hr) refl
]

-- A packed encoder takes one more bit.
shift_in-IsFaithful :
    (bit : Bool) (bs : List Bool) (e : Encoder)
    → e.rle ≡ false
    → e.number ≡ length bs
    → Fits e
    → bs ≡ written e
    → IsFaithful (bs ++ (bit ∷ [])) (count_one (shift_in bit e))
shift_in-IsFaithful bit bs e hr hl fits hbs =
    let kept = shift_in_kept bit e in
    let step = shift_in-written bit e fits in
    packed (kept.0 ∙ hr) (omega arith) (omega (arith, kept.1, length-append bs (bit ∷ []))) step.1.0
      step.1.1 (ap (λ l. l ++ (bit ∷ [])) hbs ∙ sym step.0)

cancelled : (e : Encoder) → ((cancel_rle e).rle ≡ false) × ((cancel_rle e).number ≡ e.number)
unfolding cancel_rle
cancelled e = (refl, refl)

push-IsFaithful :
    (bit : Bool) (bs : List Bool) (e : Encoder)
    → IsFaithful bs e
    → IsFaithful (bs ++ (bit ∷ [])) (push bit e)
push-IsFaithful bit bs e (empty hbs hs hb hi hn) =
    let one : e.number + 1 ≡ 1 = omega arith in
    rw (push_first bit e hn, hbs, one) (run refl hs hb hi (omega arith) refl)
push-IsFaithful bit bs e (run hr hs hb hi hn hbs) = elim (Bool-cases (xor e.last_bool bit)) [
  | inl other ↦
      let split = cancel_rle-written e hs hb in
      let fields = cancelled e in
      rw (push_other bit e hn hr other) (
        shift_in-IsFaithful bit bs (cancel_rle e) fields.0
          (fields.1 ∙ sym (length-replicate e.number e.last_bool) ∙ ap length (sym hbs)) split.1
          (hbs ∙ sym split.0))
  | inr same ↦
      let next : e.number + 1 ≡ suc e.number = omega arith in
      rw (push_same bit e hn hr same) (
        run hr hs hb hi (omega arith) (
          rw (hbs, xor-false e.last_bool bit same, next)
            (replicate-append_one e.number e.last_bool)))
]
push-IsFaithful bit bs e (packed hr hn hl hi hb hbs) =
    rw (push_packed bit e hn hr) (shift_in-IsFaithful bit bs e hr hl (hi, hb) hbs)

module _ {V : Type 0} (as_bool : V → Option Bool) where
  write-some :
      (value : V) (v : Bool) (e : Encoder)
      → as_bool value ≡ some v
      → (write as_bool value e).0 ≡ push v e
  unfolding write
  write-some value v e h = rw (h, write)

  write_all-IsFaithful :
      (values : List V) (ns bs : List Bool) (e : Encoder)
      → map as_bool values ≡ map some ns
      → IsFaithful bs e
      → IsFaithful (bs ++ ns) (write_all as_bool values e)
  unfolding write_all
  write_all-IsFaithful [] [] bs e h inv = rw append-nil inv
  write_all-IsFaithful [] (n ∷ ns) bs e h inv = cc
  write_all-IsFaithful (x ∷ xs) [] bs e h inv = cc
  write_all-IsFaithful (x ∷ xs) (n ∷ ns) bs e h inv =
      let this : as_bool x ≡ some n = cc in
      let rest : map as_bool xs ≡ map some ns = cc in
      subst₂ IsFaithful (append_assoc bs (n ∷ []) ns)
        (ap (write_all as_bool xs) (sym (write-some x n e this)))
        (write_all-IsFaithful xs ns (bs ++ (n ∷ [])) (push n e) rest (push-IsFaithful n bs e inv))

  pub write_all-new_encoder :
      (values : List V) (ns : List Bool)
      → map as_bool values ≡ map some ns
      → IsFaithful ns (write_all as_bool values new_encoder)
  write_all-new_encoder values ns h =
      write_all-IsFaithful values ns [] new_encoder h (empty refl refl refl refl refl)
