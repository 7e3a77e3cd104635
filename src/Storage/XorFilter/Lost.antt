-- ===== src/Storage/XorFilter/Lost.antt =====
-- Keys that a later key overwrites.
use noe_db.Base.{
  some, [], ◌∷◌, refl, zero, suc, arith, ℕ, List, get_or, ◌≡◌, ◌++◌, set, false, length-set, ◌⊎◌,
  ◌==◌, inr, inl, subst, sym,
}
use noe_db.Base.Bytes.{Bytes}
use noe_db.Storage.XorFilter.{
  XorFilter, insert, insert_all, may_contain, size_for, locations, fingerprint, filter_seed, build,
  new_filter,
}
use noe_db.Storage.XorFilter.Growth.{
  IsSized, insert-IsSized, locations-lt, get_or-set_self, build-insert_all, new_filter-IsSized,
  size_for-pos,
}

-- The key `b` takes both slots of the key `a`, with another fingerprint.
pub record Overwrites (b a : Bytes) (size seed : ℕ) : Type 0 where
  pub slots_swapped : locations b size seed ≡ ((locations a size seed).1, (locations a size seed).0)
  pub other_fingerprint : (fingerprint b == fingerprint a) ≡ false

get_or-set_ne :
    (xs : List ℕ) (i j v : ℕ)
    → get_or (set xs i v) j 0 ≡ v ⊎ get_or (set xs i v) j 0 ≡ get_or xs j 0
get_or-set_ne [] i j v = inr refl
get_or-set_ne (x ∷ xs) zero zero v = inl refl
get_or-set_ne (x ∷ xs) zero (suc j) v = inr refl
get_or-set_ne (x ∷ xs) (suc i) zero v = inr refl
get_or-set_ne (x ∷ xs) (suc i) (suc j) v = get_or-set_ne xs i j v

insert-Overwrites :
    (f : XorFilter) (a b : Bytes)
    → IsSized f
    → Overwrites b a f.size f.seed
    → may_contain (insert f b) a ≡ false
unfolding may_contain insert
insert-Overwrites f a b h o =
    let at = locations a f.size f.seed in
    let fp = fingerprint b in
    let bound = locations-lt a f.size f.seed h.has_one in
    let first = get_or-set_self f.slots at.1 fp 0 (omega (arith, bound.1, h.has_slots)) in
    let second =
      get_or-set_self (set f.slots at.1 fp) at.0 fp 0
        (omega (arith, bound.0, h.has_slots, length-set f.slots at.1 fp)) in
    let kept = get_or-set_ne (set f.slots at.1 fp) at.0 at.1 fp in
    rw o.slots_swapped (ground (arith, first, second, kept, o.other_fingerprint))

insert_all-IsSized : (keys : List Bytes) (f : XorFilter) → IsSized f → IsSized (insert_all keys f)
insert_all-IsSized [] f h = h
insert_all-IsSized (key ∷ keys) f h =
    insert_all-IsSized keys (insert f key) (insert-IsSized f key h)

insert_all-size :
    (keys : List Bytes) (f : XorFilter)
    → ((insert_all keys f).size ≡ f.size) × ((insert_all keys f).seed ≡ f.seed)
unfolding insert
insert_all-size [] f = (refl, refl)
insert_all-size (key ∷ keys) f = insert_all-size keys (insert f key)

insert_all-append :
    (keys : List Bytes) (b : Bytes) (f : XorFilter)
    → insert_all (keys ++ (b ∷ [])) f ≡ insert (insert_all keys f) b
insert_all-append [] b f = refl
insert_all-append (key ∷ keys) b f = insert_all-append keys b (insert f key)

-- The filter of some keys denies a key, be it among them or not, when the last of them takes both of
-- its slots, the other way around and with another fingerprint.
pub build-Overwrites :
    (keys : List Bytes) (a b : Bytes) (expected_keys : ℕ) (f : XorFilter)
    → Overwrites b a (size_for (keys ++ (b ∷ [])) expected_keys) filter_seed
    → build (keys ++ (b ∷ [])) expected_keys ≡ some f
    → may_contain f a ≡ false
build-Overwrites keys a b expected_keys f o built =
    let all = keys ++ (b ∷ []) in
    let size = size_for all expected_keys in
    let start = new_filter size in
    let before = insert_all keys start in
    let sizes = insert_all-size keys start in
    let whole : insert before b ≡ f =
      cc (build-insert_all all expected_keys, built, insert_all-append keys b start) in
    subst (λ x. may_contain x a ≡ false) whole
      (insert-Overwrites before a b
        (insert_all-IsSized keys start (new_filter-IsSized size (size_for-pos all expected_keys)))
        (subst (λ s. Overwrites b a s before.seed) (sym sizes.0)
          (subst (λ s. Overwrites b a size s) (sym sizes.1) o)))
