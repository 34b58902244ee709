-- ===== src/Codec/Time/Reduce.antt =====
-- What `reduce` finds: the differences, a bound of them, a common power of ten, and runs.
use qv_lite.Prelude.{ℕ, zero, suc, ◌*◌, ◌/◌, ◌%◌, ◌^◌, ◌≤◌, ◌<◌, ◌≡◌, refl, sym, ap, ◌∙◌, arith}
use qv_lite.Prelude.{Bool, true, ◌&&◌, ◌||◌, List, [], ◌∷◌, All, length, get_or, replicate}
use qv_lite.Prelude.{ltb, ◌==◌, if◌then◌else◌, Bool-cases, inl, inr, ◌⊎◌, subst}
use qv_lite.Wire.{sub64}
use qv_lite.Codec.Time.{shrink, Reduced, reduce_step, reduce_from, log10}
use native.Mathlib.Nat.{pow-suc, div-add-mod, one-le-pow, mul_assoc, le_trans}
use native.Mathlib.Decide.{dec_lt}

abbrev pub diffs : ℕ → List ℕ → List ℕ
diffs prev [] = []
diffs prev (t ∷ ts) = sub64 t prev ∷ diffs t ts

-- `d` divides `v`, with the quotient.
abbrev pub Divides : ℕ → ℕ → Type 0
Divides d v = (q : ℕ) × (v ≡ q * d)

-- A power of ten up to 10 ^ 12.
abbrev pub IsScale : ℕ → Type 0
IsScale d = (k : ℕ) × (k ≤ 12) × (d ≡ 10 ^ k)

abbrev pub IsConstant : List ℕ → Type 0
IsConstant vs = (d : ℕ) × (n : ℕ) × (vs ≡ replicate n d)

-- `shrink` stops at a smaller power of ten that divides `v`.
record Shrunk (k v result : ℕ) : Type 0 where
  j : ℕ
  le : j ≤ k
  pow : result ≡ 10 ^ j
  divides : Divides result v
  factor : (q : ℕ) × (10 ^ k ≡ q * result)

shrink_stop : (fuel d v : ℕ) → v % d ≡ 0 → shrink (suc fuel) d v ≡ d
unfolding shrink
shrink_stop fuel d v h = ground arith

shrink_go : (fuel d v : ℕ) → 1 < d → 0 < v % d → shrink (suc fuel) d v ≡ shrink fuel (d / 10) v
unfolding shrink
shrink_go fuel d v h m = ground arith

Divides-of_mod : (d v : ℕ) → v % d ≡ 0 → Divides d v
Divides-of_mod d v h = (v / d, omega (arith, div-add-mod v d))

tenth : (k : ℕ) → 10 ^ suc k / 10 ≡ 10 ^ k
tenth k = omega (arith, pow-suc 10 k)

Shrunk-suc : (k v result : ℕ) → Shrunk k v result → Shrunk (suc k) v result
Shrunk-suc k v result h = record {
  j = h.j;
  le = omega (arith, h.le);
  pow = h.pow;
  divides = h.divides;
  factor = (10 * h.factor.0, omega (arith, pow-suc 10 k, h.factor.1));
}

shrink-Shrunk : (fuel k v : ℕ) → k < fuel → Shrunk k v (shrink fuel (10 ^ k) v)
shrink-Shrunk zero k v h = absurd (omega arith)
shrink-Shrunk (suc fuel) zero v h =
    rw (shrink_stop fuel 1 v (omega arith)) (record {
      j = 0;
      le = omega arith;
      pow = refl;
      divides = (v, omega arith);
      factor = (1, refl);
    })
shrink-Shrunk (suc fuel) (suc k) v h = elim (dec_lt 0 (v % 10 ^ suc k)) [
  | yes left ↦
      rw
        (shrink_go fuel (10 ^ suc k) v (omega (arith, pow-suc 10 k, one-le-pow k 10)) left, tenth k)
        (Shrunk-suc k v _ (shrink-Shrunk fuel k v (omega arith)))
  | no exact ↦ rw (shrink_stop fuel (10 ^ suc k) v (omega arith)) (record {
    j = suc k;
    le = omega arith;
    pow = refl;
    divides = Divides-of_mod (10 ^ suc k) v (omega arith);
    factor = (1, omega arith);
  })
]

-- What holds of the loop's variables between its rounds.
pub record IsReduced (deltas : List ℕ) (r : Reduced) : Type 0 where
  pub kept : r.deltas ≡ deltas
  pub bounded : All (λ v. v ≤ r.max) deltas
  pub scale : IsScale r.divisor
  pub divides : All (Divides r.divisor) deltas
  pub run : r.rle ≡ true → IsConstant deltas

Divides-factor : (d d' q v : ℕ) → d ≡ q * d' → Divides d v → Divides d' v
Divides-factor d d' q v e (p, h) = (p * q, h ∙ ap (λ t. p * t) e ∙ sym (mul_assoc p q d'))

All-map {ℓ κ μ} :
    {A : Type ℓ} {P : A → Type κ} {Q : A → Type μ} (xs : List A)
    → ((x : A) → P x → Q x)
    → All P xs
    → All Q xs
All-map [] f h = tt
All-map (x ∷ xs) f h = (f x h.0, All-map xs f h.1)

IsConstant-cons :
    (v : ℕ) (ds : List ℕ)
    → (length ds ≡ 0) ⊎ (IsConstant ds × (get_or ds 0 0 ≡ v))
    → IsConstant (v ∷ ds)
IsConstant-cons v [] h = (v, 1, refl)
IsConstant-cons v (x ∷ ds) (inl h) = absurd (omega arith)
IsConstant-cons v (x ∷ ds) (inr ((d, zero, h), e)) = cc
IsConstant-cons v (x ∷ ds) (inr ((d, suc n, h), e)) = (v, suc (suc n), cc)

max_step : (m v x : ℕ) → x ≤ m → x ≤ (if ltb m v then v else m)
max_step m v x h = ground arith

max_step_self : (m v : ℕ) → v ≤ (if ltb m v then v else m)
max_step_self m v = ground arith

rle_step :
    (rle : Bool) (v : ℕ) (ds : List ℕ)
    → (rle ≡ true → IsConstant ds)
    → (length ds == 0 || rle && get_or ds 0 0 == v) ≡ true
    → (length ds ≡ 0) ⊎ (IsConstant ds × (get_or ds 0 0 ≡ v))
rle_step rle v ds h t = elim (Bool-cases (length ds == 0)) [
  | inl e ↦ inl (ground arith)
  | inr e ↦ inr (h (ground arith), ground arith)
]

reduce_step-IsReduced :
    (v : ℕ) (ds : List ℕ) (r : Reduced) → IsReduced ds r → IsReduced (v ∷ ds) (reduce_step v r)
unfolding reduce_step
reduce_step-IsReduced v ds r h =
    let (k, hk, e) = h.scale in
    let sh : Shrunk k v (shrink 13 r.divisor v) =
      subst (λ d. Shrunk k v (shrink 13 d v)) (sym e) (shrink-Shrunk 13 k v (omega arith)) in
    record {
      kept = ap (◌∷◌ v) h.kept;
      bounded = (max_step_self r.max v, All-map ds (λ x p. max_step r.max v x p) h.bounded);
      scale = (sh.j, le_trans sh.le hk, sh.pow);
      divides = (
        sh.divides,
        All-map ds (λ x p. Divides-factor r.divisor _ sh.factor.0 x (e ∙ sh.factor.1) p) h.divides,
      );
      run = λ t. IsConstant-cons v ds (
          rle_step r.rle v ds h.run
            (subst (λ l. (length l == 0 || r.rle && get_or l 0 0 == v) ≡ true) h.kept t));
    }

pub reduce_from-IsReduced :
    (prev : ℕ) (ts : List ℕ) → IsReduced (diffs prev ts) (reduce_from prev ts)
unfolding reduce_from
reduce_from-IsReduced prev [] = record {
  kept = refl;
  bounded = tt;
  scale = (12, omega arith, refl);
  divides = tt;
  run = λ _. (0, 0, refl);
}
reduce_from-IsReduced prev (t ∷ ts) =
    reduce_step-IsReduced (sub64 t prev) (diffs t ts) (reduce_from t ts)
      (reduce_from-IsReduced t ts)

log10-pow : (fuel k : ℕ) → k < fuel → log10 fuel (10 ^ k) ≡ k
unfolding log10
log10-pow zero k h = absurd (omega arith)
log10-pow (suc fuel) zero h = refl
log10-pow (suc fuel) (suc k) h =
    ground (arith, tenth k, pow-suc 10 k, one-le-pow k 10, log10-pow fuel k (omega arith))

-- The exponent in the header is that of the divisor.
pub log10-IsScale : (d : ℕ) → IsScale d → (10 ^ log10 13 d ≡ d) × (log10 13 d < 16)
log10-IsScale d (k, h, e) =
    let same : log10 13 d ≡ k = ap (log10 13) e ∙ log10-pow 13 k (omega arith) in
    (ap (λ t. 10 ^ t) same ∙ sym e, omega arith)
