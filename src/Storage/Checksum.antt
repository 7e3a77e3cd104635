-- ===== src/Storage/Checksum.antt =====
-- crates/noedb-storage/src/checksum.rs: CRC-32 (IEEE). The other checksum, CRC-32C, is that of a
-- crate and enters as a parameter.
use Prim.Native.Nat.{bit_and, bit_xor}
use noe_db.Base.{ℕ, zero, suc, [], ◌∷◌, refl, ◌<◌, ◌^◌, ◌++◌, ◌-◌, ◌≡◌, arith, ◌%◌, ◌/◌}
use noe_db.Base.Bytes.{Bytes}

abbrev pub poly : ℕ
poly = 0xEDB88320

abbrev pub initial_state : ℕ
initial_state = 0xFFFFFFFF

-- One round: `mask = (state & 1).wrapping_neg(); state = (state >> 1) ^ (POLY & mask)`.
unfoldable pub crc_round : ℕ → ℕ
crc_round state =
    let mask = (2 ^ 32 - bit_and state 1) % 2 ^ 32 in bit_xor (state / 2) (bit_and poly mask)

unfoldable pub crc_rounds : ℕ → ℕ → ℕ
unfolding crc_round
crc_rounds zero state = state
crc_rounds (suc n) state = crc_rounds n (crc_round state)

unfoldable pub update : ℕ → Bytes → ℕ
unfolding crc_rounds
update state [] = state
update state (byte ∷ bytes) = update (crc_rounds 8 (bit_xor state byte)) bytes

-- `!self.state`
abbrev pub finish : ℕ → ℕ
finish state = 2 ^ 32 - 1 - state

unfoldable pub crc32 : Bytes → ℕ
unfolding update
crc32 bytes = finish (update initial_state bytes)

-- Feeding two pieces one after the other is feeding both at once.
pub update-append : (state : ℕ) (a b : Bytes) → update state (a ++ b) ≡ update (update state a) b
unfolding update
update-append state [] b = refl
update-append state (x ∷ a) b = update-append (crc_rounds 8 (bit_xor state x)) a b

pub crc32-lt : (bytes : Bytes) → crc32 bytes < 256 ^ 4
unfolding crc32
crc32-lt bytes = omega arith
