-- ===== src/Codec/Text/Size.antt =====
-- The size of the string encodings.
use qv_lite.Prelude.{ℕ, zero, suc, ◌/◌, ◌≤◌, ◌≡◌, refl, arith, false, if-false, ltb, some}
use qv_lite.Prelude.{List, [], ◌∷◌, ◌++◌, length, length-append}
use qv_lite.Wire.Uvarint.{put_uvarint, put_groups}
use qv_lite.Codec.Text.{
  Encoder, Snappy, uvarint_len, uvarint_len_from, entries_len, indices_len, dict_encoded_len,
  entries, indices, prefixed, encode_dict, smaller_form, bytes,
}

uvarint_len_from-groups : (k v : ℕ) → uvarint_len_from k v ≡ length (put_groups k v)
unfolding uvarint_len_from put_groups
uvarint_len_from-groups zero v = refl
uvarint_len_from-groups (suc k) v = ground (arith, uvarint_len_from-groups k (v / 128))

pub uvarint_len_lem : (v : ℕ) → uvarint_len v ≡ length (put_uvarint v)
unfolding uvarint_len put_uvarint
uvarint_len_lem v = uvarint_len_from-groups 9 v

length-entries : (ss : List (List ℕ)) → length (entries ss) ≡ entries_len ss
length-entries [] = refl
length-entries (s ∷ ss) = omega (
  arith,
  length-append (prefixed s) (entries ss),
  length-append (put_uvarint (length s)) s,
  uvarint_len_lem (length s),
  length-entries ss,
)

length-indices : (ns : List ℕ) → length (indices ns) ≡ indices_len ns
length-indices [] = refl
length-indices (n ∷ ns) =
    omega (arith, length-append (put_uvarint n) (indices ns), uvarint_len_lem n, length-indices ns)

pub length-encode_dict : (e : Encoder) → length (encode_dict e) ≡ dict_encoded_len e
unfolding encode_dict dict_encoded_len
length-encode_dict e = omega (
  arith,
  length-append (put_uvarint (length e.order)) (entries e.order ++ indices e.idx),
  length-append (entries e.order) (indices e.idx),
  uvarint_len_lem (length e.order),
  length-entries e.order,
  length-indices e.idx,
)

-- The length that `dictEncodedLen` foretells is the exact length of the dictionary form, and `Bytes`
-- gives no longer output than either form (than the dictionary form, as long as it is tracked). The
-- raw stream is not longer than Snappy takes.
pub bytes_smallest :
    (snappy : Snappy) (e : Encoder)
    → length e.bytes ≤ snappy.max_length
    → (length (encode_dict e) ≡ dict_encoded_len e)
      × ((b : List ℕ) × (bytes snappy e ≡ some b)
          × (length b ≤ suc (length (snappy.encode e.bytes)))
          × (e.dict_full ≡ false → length b ≤ length (encode_dict e)))
unfolding bytes smaller_form
bytes_smallest snappy e taken =
    let exact = length-encode_dict e in
    let fitting : ltb snappy.max_length (length e.bytes) ≡ false = ground arith in
    (
      exact,
      (
        smaller_form snappy e,
        if-false _ _ fitting,
        ground (arith, exact),
        λ h. ground (arith, exact),
      ),
    )
