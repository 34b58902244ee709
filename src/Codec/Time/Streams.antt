-- ===== src/Codec/Time/Streams.antt =====
-- The decoder's loop over a list of timestamps and over a run.
use qv_lite.Prelude.{
  ℕ, zero, suc, ◌+◌, ◌-◌, ◌/◌, ◌*◌, ◌≤◌, ◌<◌, ◌≡◌, refl, sym, subst, ap, ap₂, ◌∙◌, arith, false,
}
use qv_lite.Prelude.{none, some, List, [], ◌∷◌, All, length, drop, get_or, replicate, map, ◌==◌}
use qv_lite.Wire.{IsWord, add64, sub64, mul64}
use qv_lite.Codec.Time.{Decoder, drain, cons_value, sums, scaled_sums, gap}
use qv_lite.Codec.Time.Reduce.{diffs, Divides}
use native.Mathlib.Numerals.{add-one}
use native.Mathlib.Nat.{mul-div_cancel}

at_end : (j : ℕ) (ts : List ℕ) → drop j ts ≡ [] → length ts < j + 1
at_end zero [] h = omega arith
at_end zero (t ∷ ts) h = cc
at_end (suc j) [] h = omega arith
at_end (suc j) (t ∷ ts) h = omega (arith, at_end j ts h)

at_value :
    (j : ℕ) (ts : List ℕ) (r : ℕ) (rem : List ℕ)
    → drop j ts ≡ r ∷ rem
    → (j < length ts) × (get_or ts j 0 ≡ r) × (drop (j + 1) ts ≡ rem)
at_value zero [] r rem h = cc
at_value zero (t ∷ ts) r rem h = (omega arith, cc, cc)
at_value (suc j) [] r rem h = cc
at_value (suc j) (t ∷ ts) r rem h =
    let (lt, a, b) = at_value j ts r rem h in (omega arith, a, rw add-one (rw add-one at b))

module _ (d : Decoder) (fine : d.error ≡ none) where
  drain_list_end :
      (fuel : ℕ)
      → (d.encoding == 2) ≡ false
      → length d.ts < d.at
      → drain (suc fuel) d ≡ some ([], none)
  unfolding drain
  drain_list_end fuel h e = ground arith

  drain_list_step :
      (fuel j : ℕ)
      → (d.encoding == 2) ≡ false
      → d.at ≡ j + 1
      → j < length d.ts
      → drain (suc fuel) d
        ≡ cons_value (get_or d.ts j 0) (drain fuel (record d { v = get_or d.ts j 0; at = j + 2 }))
  unfolding drain
  drain_list_step fuel j h e lt =
      let before : d.at - 1 ≡ j = omega arith in
      let after : d.at + 1 ≡ j + 2 = omega arith in ground arith

  drain_run_end : (fuel : ℕ) → d.encoding ≡ 2 → d.n ≤ d.at → drain (suc fuel) d ≡ some ([], none)
  unfolding drain
  drain_run_end fuel h e = ground arith

  drain_run_step :
      (fuel : ℕ)
      → d.encoding ≡ 2
      → d.at < d.n
      → drain (suc fuel) d
        ≡ cons_value
            (add64 d.v d.rle_delta)
            (drain fuel (record d { v = add64 d.v d.rle_delta; at = d.at + 1 }))
  unfolding drain
  drain_run_step fuel h e = ground arith

pub drain_list :
    (rem : List ℕ) (fuel j : ℕ) (d : Decoder)
    → length rem < fuel
    → d.error ≡ none
    → (d.encoding == 2) ≡ false
    → d.at ≡ j + 1
    → drop j d.ts ≡ rem
    → drain fuel d ≡ some (rem, none)
drain_list rem zero j d hf he hc ha h = absurd (omega arith)
drain_list [] (suc fuel) j d hf he hc ha h =
    drain_list_end d he fuel hc (omega (arith, at_end j d.ts h))
drain_list (r ∷ rem) (suc fuel) j d hf he hc ha h =
    let (lt, here, after) = at_value j d.ts r rem h in
    drain_list_step d he fuel j hc ha lt
    ∙ rw here (
        ap (cons_value r) (
          drain_list rem fuel (j + 1) (record d { v = r; at = j + 2 }) (omega arith) he hc
            (omega arith) after))

pub drain_run :
    (k fuel : ℕ) (d : Decoder)
    → k < fuel
    → d.error ≡ none
    → d.encoding ≡ 2
    → d.n ≡ d.at + k
    → drain fuel d ≡ some (sums d.v (replicate k d.rle_delta), none)
unfolding sums
drain_run k zero d hf he hc hn = absurd (omega arith)
drain_run zero (suc fuel) d hf he hc hn = drain_run_end d he fuel hc (omega arith)
drain_run (suc k) (suc fuel) d hf he hc hn =
    drain_run_step d he fuel hc (omega arith)
    ∙ ap (cons_value (add64 d.v d.rle_delta)) (
        drain_run k fuel (record d { v = add64 d.v d.rle_delta; at = d.at + 1 }) (omega arith) he hc
          (omega arith))

pub sums-diffs :
    (prev : ℕ) (ts : List ℕ) → IsWord prev → All IsWord ts → sums prev (diffs prev ts) ≡ ts
unfolding sums
sums-diffs prev [] hp h = refl
sums-diffs prev (t ∷ ts) hp (ht, h) =
    let e : add64 prev (sub64 t prev) ≡ t = unfold add64 sub64 in omega arith in
    rw e (ap₂ ◌∷◌ refl (sums-diffs t ts ht h))

pub quotient_exact : (d v : ℕ) → 0 < d → Divides d v → v / d * d ≡ v
quotient_exact d v h (q, e) =
    subst (λ x. x / d * d ≡ x) (sym e) (ap (λ t. t * d) (mul-div_cancel q h))

gap_exact : (div v : ℕ) → 0 < div → IsWord v → Divides div v → gap div (v / div) ≡ v
unfolding mul64
gap_exact div v hd hv h = ground (arith, quotient_exact div v hd h)

pub scaled_sums-map :
    (div last : ℕ) (ds : List ℕ)
    → 0 < div
    → All IsWord ds
    → All (Divides div) ds
    → scaled_sums div last (map (λ v. v / div) ds) ≡ sums last ds
unfolding scaled_sums sums
scaled_sums-map div last [] pos hw hd = refl
scaled_sums-map div last (v ∷ ds) pos hw hd =
    rw (gap_exact div v pos hw.0 hd.0)
      (ap₂ ◌∷◌ refl (scaled_sums-map div (add64 last v) ds pos hw.1 hd.1))
