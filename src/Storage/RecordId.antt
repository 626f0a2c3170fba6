-- ===== src/Storage/RecordId.antt =====
-- RecordId of include/storage/Record.h: its comparisons, its validity and the number that its hash
-- is taken of.
use database_systems.Common.{
  ℕ, ◌+◌, ◌*◌, ◌%◌, ◌^◌, ◌<◌, Bool, true, false, not, ◌&&◌, ◌||◌, ◌==◌, ltb, leb, ◌≡◌, ◌⊎◌, ◌↔◌,
  arith,
}

-- `pid` is a `uint32_t` and `sid` a `uint16_t`; nothing reads `reserved`.
pub record RecordId : Type 0 where
  pub pid : ℕ
  pub sid : ℕ

abbrev pub invalid_pid : ℕ
invalid_pid = 0

abbrev pub invalid_sid : ℕ
invalid_sid = 0

unfoldable pub set_invalid : RecordId → RecordId
set_invalid r = record { pid = invalid_pid; sid = invalid_sid }

unfoldable pub is_valid : RecordId → Bool
is_valid r = not (r.pid == invalid_pid) && not (r.sid == invalid_sid)

unfoldable pub equal : RecordId → RecordId → Bool
equal a b = (a.pid == b.pid) && (a.sid == b.sid)

unfoldable pub not_equal : RecordId → RecordId → Bool
not_equal a b = not (a.pid == b.pid) || not (a.sid == b.sid)

unfoldable pub less : RecordId → RecordId → Bool
less a b = ltb a.pid b.pid || ((a.pid == b.pid) && ltb a.sid b.sid)

unfoldable pub less_equal : RecordId → RecordId → Bool
less_equal a b = ltb a.pid b.pid || ((a.pid == b.pid) && leb a.sid b.sid)

unfoldable pub greater : RecordId → RecordId → Bool
greater a b = ltb b.pid a.pid || ((a.pid == b.pid) && ltb b.sid a.sid)

unfoldable pub greater_equal : RecordId → RecordId → Bool
greater_equal a b = ltb b.pid a.pid || ((a.pid == b.pid) && leb b.sid a.sid)

-- The 64-bit number that `std::hash<uint64_t>` is called with.
unfoldable pub hash_key : RecordId → ℕ
hash_key r = (r.pid * 2 ^ 32 + r.sid) % 2 ^ 64

abbrev Fits : RecordId → Type 0
Fits r = (r.pid < 2 ^ 32) × (r.sid < 2 ^ 16)

pub equal_lem : (a b : RecordId) → (equal a b ≡ true) ↔ (a ≡ b)
unfolding equal
equal_lem a b = (λ h. ground arith, λ h. ground arith)

-- Exactly one of <, == and > holds of two record IDs; != is the opposite of ==, <= is < or ==, and
-- >= is > or ==.
pub order_trichotomy :
    (a b : RecordId)
    → (((less a b ≡ true) × (equal a b ≡ false) × (greater a b ≡ false))
        ⊎ (((less a b ≡ false) × (equal a b ≡ true) × (greater a b ≡ false))
            ⊎ ((less a b ≡ false) × (equal a b ≡ false) × (greater a b ≡ true))))
      × (not_equal a b ≡ not (equal a b))
      × (less_equal a b ≡ (less a b || equal a b))
      × (greater_equal a b ≡ (greater a b || equal a b))
unfolding less equal greater not_equal less_equal greater_equal
order_trichotomy a b = ground arith

-- < of record IDs is transitive.
pub less_trans : (a b c : RecordId) → less a b ≡ true → less b c ≡ true → less a c ≡ true
unfolding less
less_trans a b c h k = ground arith

-- Two record IDs whose fields are in the range of their types have the same number to be hashed
-- exactly if they are ==.
pub hash_key_injective :
    (a b : RecordId) → Fits a → Fits b → (hash_key a ≡ hash_key b) ↔ (equal a b ≡ true)
unfolding hash_key equal
hash_key_injective a b h k = ground arith
