-- ===== src/Tests/Packing.antt =====
-- A packing of integers that meets the interface of simple8b: one number to a word.
use qv_lite.Prelude.{ℕ, ◌-◌, ◌^◌, ◌≤◌, refl, arith, List, [], ◌∷◌, some, All}
use qv_lite.Codec.Defs.{Simple8b, Unpacks, IsLossless, PacksBack}

abbrev pub plain : Simple8b
plain = record {
  max_value = 2 ^ 60 - 1;
  encode_all = λ xs. some xs;
  decode = λ w. some (w ∷ []);
  pack = λ xs. some xs;
  unpack = λ packed. packed;
}

plain-Unpacks : (xs : List ℕ) → All (λ x. x ≤ 2 ^ 60 - 1) xs → Unpacks plain xs xs
plain-Unpacks [] h = refl
plain-Unpacks (x ∷ xs) h = (omega arith, (x, [], xs, refl, refl, plain-Unpacks xs h.1))

pub plain-IsLossless : IsLossless plain
plain-IsLossless xs h = (xs, refl, plain-Unpacks xs h)

pub plain-PacksBack : PacksBack plain
plain-PacksBack xs h = (xs, refl, refl)
