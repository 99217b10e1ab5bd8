-- ===== src/Domain/Arithmetic.antt =====
-- `Money.Add` of internal/domain/primitives.go against exact integer arithmetic.
use tradeedge.Prelude.{
  ◌≡◌, ◌+ℤ◌, IsInt64, in_int64, if◌then◌else◌, ok, err, arith, is_empty, text_eq_refl, false,
  wrap64_of_in_int64, add_overflows_lem,
}
use tradeedge.Domain.{Money, add, money_overflow}

-- Adding 64-bit amounts of one currency, not empty, gives the exact sum if an int64 holds it, and an
-- overflow error otherwise.
pub add_exact :
    (m n : Money)
    → IsInt64 m.minor
    → IsInt64 n.minor
    → is_empty m.currency ≡ false
    → m.currency ≡ n.currency
    → add m n ≡ (
        if in_int64 (m.minor +ℤ n.minor)
        then ok (record m { minor = m.minor +ℤ n.minor })
        else err money_overflow)
unfolding add
add_exact m n hm hn ne same = ground (
  arith,
  text_eq_refl m.currency,
  add_overflows_lem m.minor n.minor hm hn,
  wrap64_of_in_int64 (m.minor +ℤ n.minor),
)
