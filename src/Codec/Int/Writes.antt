-- ===== src/Codec/Int/Writes.antt =====
-- What the encoder holds after a sequence of writes.
use qv_lite.Prelude.{
  ℕ, zero, suc, ◌-◌, ◌≤◌, ◌≡◌, refl, sym, ap, ◌∙◌, arith, Bool, true, false, ◌&&◌,
}
use qv_lite.Prelude.{Option, some, List, [], ◌∷◌, ◌++◌, map, append_assoc, ◌⊎◌, inl, inr}
use qv_lite.Prelude.{
  replicate, replicate-append_one, length, get_or, length-replicate, append-nil, subst, subst₂, ltb,
  ◌==◌, if◌then◌else◌, Bool-cases,
}
use qv_lite.Wire.{sub64}
use qv_lite.Codec.ZigZag.{zigzag_encode}
use qv_lite.Codec.Int.{Encoder, new_encoder, push, write, write_all}
use qv_lite.Codec.Int.Deltas.{deltas}

-- `rle` stands only while all values behind the first one are the same.
abbrev pub IsRun : List ℕ → Type 0
IsRun vs = (length vs ≤ 1) ⊎ ((f : ℕ) × (d : ℕ) × (n : ℕ) × (vs ≡ f ∷ replicate (suc n) d))

last-replicate : (f d n : ℕ) → get_or (f ∷ replicate (suc n) d) (suc n) 0 ≡ d
last-replicate f d zero = refl
last-replicate f d (suc n) = last-replicate d d n

last_of_run :
    (f d n : ℕ) → get_or (f ∷ replicate (suc n) d) (length (f ∷ replicate (suc n) d) - 1) 0 ≡ d
last_of_run f d n =
    let len : length (f ∷ replicate (suc n) d) - 1 ≡ suc n = omega (arith, length-replicate n d) in
    ap (λ k. get_or (f ∷ replicate (suc n) d) k 0) len ∙ last-replicate f d n

IsRun_longer :
    (f d n x : ℕ) (vs : List ℕ)
    → vs ≡ f ∷ replicate (suc n) d
    → get_or vs (length vs - 1) 0 ≡ x
    → vs ++ (x ∷ []) ≡ f ∷ replicate (suc (suc n)) d
IsRun_longer f d n x vs h e =
    let same : d ≡ x = sym (last_of_run f d n) ∙ subst (λ l. get_or l (length l - 1) 0 ≡ x) h e in
    rw (h, ← same) (ap (◌∷◌ f) (replicate-append_one (suc n) d))

IsRun-push :
    (vs : List ℕ) (x : ℕ)
    → IsRun vs
    → (length vs ≤ 1) ⊎ (get_or vs (length vs - 1) 0 ≡ x)
    → IsRun (vs ++ (x ∷ []))
IsRun-push [] x h e = inl (omega arith)
IsRun-push (f ∷ []) x h e = inr (f, x, 0, refl)
IsRun-push (f ∷ g ∷ vs) x (inl h) e = absurd (omega arith)
IsRun-push (f ∷ g ∷ vs) x (inr h) (inl e) = absurd (omega arith)
IsRun-push (f ∷ g ∷ vs) x (inr (f', d, n, h)) (inr e) =
    inr (f', d, suc n, IsRun_longer f' d n x (f ∷ g ∷ vs) h e)

-- Holds of every encoder that only `write` has changed since it was reset.
pub record IsFaithful (vs : List ℕ) (e : Encoder) : Type 0 where
  pub kept : e.values ≡ vs
  pub fine : e.failed ≡ false
  pub run : e.rle ≡ true → IsRun vs

rle_push :
    (vs : List ℕ) (rle : Bool) (x : ℕ)
    → (rle ≡ true → IsRun vs)
    → (if ltb 1 (length vs) then rle && get_or vs (length vs - 1) 0 == x else rle) ≡ true
    → IsRun (vs ++ (x ∷ []))
rle_push vs rle x h e = elim (Bool-cases (ltb 1 (length vs))) [
  | inl long ↦ IsRun-push vs x (h (ground arith)) (inr (ground arith))
  | inr short ↦ IsRun-push vs x (h (ground arith)) (inl (ground arith))
]

push-IsFaithful :
    (v : ℕ) (vs : List ℕ) (e : Encoder)
    → IsFaithful vs e
    → IsFaithful (vs ++ (zigzag_encode (sub64 v e.prev) ∷ [])) (push v e)
unfolding push
push-IsFaithful v vs e h = record {
  kept = ap (λ l. l ++ (zigzag_encode (sub64 v e.prev) ∷ [])) h.kept;
  fine = h.fine;
  run = λ r. rle_push vs e.rle (zigzag_encode (sub64 v e.prev)) h.run (rw h.kept at r);
}

module _ {V : Type 0} (as_int64 : V → Option ℕ) where
  write-some :
      (value : V) (v : ℕ) (e : Encoder)
      → as_int64 value ≡ some v
      → (write as_int64 value e).0 ≡ push v e
  unfolding write
  write-some value v e h = rw (h, write)

  write_all-IsFaithful :
      (values : List V) (ns vs : List ℕ) (e : Encoder)
      → map as_int64 values ≡ map some ns
      → IsFaithful vs e
      → IsFaithful (vs ++ deltas e.prev ns) (write_all as_int64 values e)
  unfolding write_all
  write_all-IsFaithful [] [] vs e h inv = rw append-nil inv
  write_all-IsFaithful [] (n ∷ ns) vs e h inv = cc
  write_all-IsFaithful (x ∷ xs) [] vs e h inv = cc
  write_all-IsFaithful (x ∷ xs) (n ∷ ns) vs e h inv =
      let this : as_int64 x ≡ some n = cc in
      let later : map as_int64 xs ≡ map some ns = cc in
      let enc = zigzag_encode (sub64 n e.prev) in
      subst₂ IsFaithful (append_assoc vs (enc ∷ []) (deltas n ns))
        (ap (write_all as_int64 xs) (sym (write-some x n e this)))
        (write_all-IsFaithful xs ns (vs ++ (enc ∷ [])) (push n e) later
          (push-IsFaithful n vs e inv))

  -- A fresh encoder that has taken the integers `ns` holds their deltas.
  pub write_all-new_encoder :
      (values : List V) (ns : List ℕ)
      → map as_int64 values ≡ map some ns
      → IsFaithful (deltas 0 ns) (write_all as_int64 values new_encoder)
  write_all-new_encoder values ns h =
      write_all-IsFaithful values ns [] new_encoder h
        (record { kept = refl; fine = refl; run = λ _. inl (omega arith) })
