-- ===== src/Base/Text.antt =====
-- Operations of strings, which are the lists of their bytes.
use Prim.Native.Nat.{ℕ, ◌+◌, ◌-◌}
use mathlib.Core.Bool.{Bool, true, false, ◌&&◌}
use mathlib.Core.List.{List, [], ◌∷◌, map, reverse}
use Prim.Native.Char.{code}
use Prim.Native.String.{String}
use noe_db.Base.Tests.{leb, if◌then◌else◌, ◌==◌}
use noe_db.Base.Bytes.{Bytes}
use noe_db.Base.{◌||◌}

-- The bytes of an ASCII text.
abbrev pub codes : String → Bytes
codes String.[] = []
codes (String.◌∷◌ c s) = code c ∷ codes s

unfoldable pub eq_bytes : Bytes → Bytes → Bool
eq_bytes [] [] = true
eq_bytes [] (y ∷ ys) = false
eq_bytes (x ∷ xs) [] = false
eq_bytes (x ∷ xs) (y ∷ ys) = (x == y) && eq_bytes xs ys

-- `s.starts_with(prefix)`
unfoldable pub starts_with : Bytes → Bytes → Bool
starts_with xs [] = true
starts_with [] (p ∷ ps) = false
starts_with (x ∷ xs) (p ∷ ps) = (x == p) && starts_with xs ps

abbrev pub upper_byte : ℕ → ℕ
upper_byte c = if leb b'a' c && leb c b'z' then c - 32 else c

abbrev pub lower_byte : ℕ → ℕ
lower_byte c = if leb b'A' c && leb c b'Z' then c + 32 else c

unfoldable pub to_ascii_uppercase : Bytes → Bytes
to_ascii_uppercase xs = map upper_byte xs

unfoldable pub to_ascii_lowercase : Bytes → Bytes
to_ascii_lowercase xs = map lower_byte xs

-- `trim_start_matches` of one character
unfoldable pub trim_start_matches : ℕ → Bytes → Bytes
trim_start_matches c [] = []
trim_start_matches c (x ∷ xs) = if x == c then trim_start_matches c xs else x ∷ xs

unfoldable pub trim_end_matches : ℕ → Bytes → Bytes
unfolding trim_start_matches
trim_end_matches c xs = reverse (trim_start_matches c (reverse xs))

abbrev pub cons_first : ℕ → List Bytes → List Bytes
cons_first x [] = (x ∷ []) ∷ []
cons_first x (w ∷ ws) = (x ∷ w) ∷ ws

-- `split` at one character: a string with no such character is its only part.
unfoldable pub split : ℕ → Bytes → List Bytes
split c [] = [] ∷ []
split c (x ∷ xs) = if x == c then [] ∷ split c xs else cons_first x (split c xs)

abbrev pub is_empty : Bytes → Bool
is_empty [] = true
is_empty (x ∷ xs) = false

unfoldable pub all_bytes : (ℕ → Bool) → Bytes → Bool
all_bytes p [] = true
all_bytes p (x ∷ xs) = p x && all_bytes p xs

-- Whether a string is one of several, as in a `match` of texts.
unfoldable pub one_of : List Bytes → Bytes → Bool
unfolding eq_bytes
one_of [] s = false
one_of (w ∷ ws) s = eq_bytes s w || one_of ws s
