-- ===== src/Mvcc/Key/Order.antt =====
-- The order of internal keys.
use Prim.Native.Nat.{Ordering}
use noe_db.Base.{
  [], ◌∷◌, List, ap, ◌-◌, ◌≤◌, ◌<◌, ◌≡◌, refl, ◌++◌, take, length, arith, List, ◌∷◌, length-append,
  ap, ◌∙◌,
}
use noe_db.Base.Bytes.{
  Bytes, cmp_bytes, to_be_bytes, cmp_bytes-append, cmp-to_be_bytes, length-to_be_bytes,
}
use noe_db.Mvcc.Key.{encode_internal_key, decode_user_key}
use noe_db.Mvcc.Version.{CommitTs}
use noe_db.Base.Words.{u64_max}

-- Of two versions of one user key, with timestamps that are 64-bit words, the newer sorts first.
pub newer_sorts_first :
    (user_key : Bytes) (older newer : CommitTs)
    → older < newer
    → newer ≤ u64_max
    → cmp_bytes (encode_internal_key user_key newer) (encode_internal_key user_key older)
      ≡ Ordering.lt
unfolding encode_internal_key
newer_sorts_first user_key older newer h w =
    cmp_bytes-append user_key _ _
    ∙ cmp-to_be_bytes 8 (u64_max - newer) (u64_max - older) (omega arith) (omega arith)

take-length_append {ℓ} : {A : Type ℓ} (xs ys : List A) → take (length xs) (xs ++ ys) ≡ xs
take-length_append [] ys = refl
take-length_append (x ∷ xs) ys = ap (λ zs. x ∷ zs) (take-length_append xs ys)

-- The user key is read back from an internal key.
pub decode-encode_internal_key :
    (user_key : Bytes) (ts : CommitTs)
    → decode_user_key (encode_internal_key user_key ts) ≡ user_key
unfolding decode_user_key encode_internal_key
decode-encode_internal_key user_key ts =
    let inv = to_be_bytes 8 (u64_max - ts) in
    let len : length (user_key ++ inv) - 8 ≡ length user_key =
      omega (arith, length-append user_key inv, length-to_be_bytes 8 (u64_max - ts)) in
    rw len (take-length_append user_key inv)
