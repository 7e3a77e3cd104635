-- ===== src/Storage/XorFilter/RoundTrip.antt =====
-- The bytes of a filter.
use noe_db.Base.{
  [], ◌∷◌, refl, arith, All, ◌++◌, length, ◌<◌, List, take, ◌≡◌, ◌^◌, drop, ℕ, ◌*◌, length-append,
  ◌+◌, ap, sym, append_assoc, ◌∙◌, drop-append_at, take-append_at,
}
use noe_db.Base.Bytes.{Bytes}
use noe_db.Base.Words.{to_le_bytes, from_le_bytes, from_le_bytes-to_le_bytes, length-to_le_bytes}
use noe_db.Storage.Error.{ok}
use noe_db.Storage.XorFilter.{XorFilter, encode, decode, slot_bytes, slots_of}

-- The fields fit their words, and there are `size` slots.
pub record IsStorable (f : XorFilter) : Type 0 where
  pub size_fits : f.size < 256 ^ 4
  pub seed_fits : f.seed < 256 ^ 8
  pub has_slots : length f.slots ≡ f.size
  pub slots_fit : All (λ s. s < 256 ^ 2) f.slots

length-slot_bytes : (slots : List ℕ) → length (slot_bytes slots) ≡ length slots * 2
unfolding to_le_bytes
length-slot_bytes [] = refl
length-slot_bytes (s ∷ slots) = omega (arith, length-slot_bytes slots)

slots_of-slot_bytes :
    (slots : List ℕ) → All (λ s. s < 256 ^ 2) slots → slots_of (slot_bytes slots) ≡ slots
unfolding to_le_bytes from_le_bytes
slots_of-slot_bytes [] h = refl
slots_of-slot_bytes (s ∷ slots) h =
    ground (arith, slots_of-slot_bytes slots h.1, from_le_bytes-to_le_bytes 2 s h.0)

decode-fields :
    (bytes : Bytes) (f : XorFilter)
    → from_le_bytes (take 4 bytes) ≡ f.size
    → from_le_bytes (take 8 (drop 4 bytes)) ≡ f.seed
    → slots_of (drop 12 bytes) ≡ f.slots
    → length (drop 12 bytes) ≡ f.size * 2
    → length bytes ≡ 12 + f.size * 2
    → decode bytes ≡ ok f
unfolding decode
decode-fields bytes f a b c d e = ground (arith, a, b, c, d, e)

-- A filter whose fields fit their words reads back from its bytes.
pub decode-encode_filter : (f : XorFilter) → IsStorable f → decode (encode f) ≡ ok f
unfolding encode
decode-encode_filter f h =
    let size : Bytes = to_le_bytes 4 f.size in
    let seed : Bytes = to_le_bytes 8 f.seed in
    let slots : Bytes = slot_bytes f.slots in
    let words : length (size ++ seed) ≡ 12 =
      omega (
        arith,
        length-append size seed,
        length-to_le_bytes 4 f.size,
        length-to_le_bytes 8 f.seed,
      ) in
    let behind : drop 12 (size ++ (seed ++ slots)) ≡ slots =
      ap (λ (bs : Bytes). drop 12 bs) (sym (append_assoc size seed slots))
      ∙ drop-append_at (size ++ seed) slots 12 words in
    let whole : length (size ++ (seed ++ slots)) ≡ 12 + f.size * 2 = omega (
      arith,
      ap (λ (bs : Bytes). length bs) (sym (append_assoc size seed slots)),
      length-append (size ++ seed) slots,
      length-slot_bytes f.slots,
      words,
      h.has_slots,
    ) in
    let size_read : from_le_bytes (take 4 (size ++ (seed ++ slots))) ≡ f.size =
      ap from_le_bytes (take-append_at size (seed ++ slots) 4 (length-to_le_bytes 4 f.size))
      ∙ from_le_bytes-to_le_bytes 4 f.size h.size_fits in
    let seed_read : from_le_bytes (take 8 (drop 4 (size ++ (seed ++ slots)))) ≡ f.seed =
      ap (λ (bs : Bytes). from_le_bytes (take 8 bs))
        (drop-append_at size (seed ++ slots) 4 (length-to_le_bytes 4 f.size))
      ∙ ap from_le_bytes (take-append_at seed slots 8 (length-to_le_bytes 8 f.seed))
      ∙ from_le_bytes-to_le_bytes 8 f.seed h.seed_fits in
    let slots_read : slots_of (drop 12 (size ++ (seed ++ slots))) ≡ f.slots =
      ap slots_of behind ∙ slots_of-slot_bytes f.slots h.slots_fit in
    let rest_len : length (drop 12 (size ++ (seed ++ slots))) ≡ f.size * 2 =
      omega
        (arith, ap (λ (bs : Bytes). length bs) behind, length-slot_bytes f.slots, h.has_slots) in
    decode-fields (size ++ (seed ++ slots)) f size_read seed_read slots_read rest_len whole
