-- ===== src/Domain.antt =====
-- internal/domain/primitives.go: currencies, money, quantities and prices; and the sides of a trade
-- of internal/domain/contracts.go.
pub mod Arithmetic
pub mod Instrument
pub mod Traded
mod Tests
use tradeedge.Prelude.{
  leb, ◌==◌, if◌then◌else◌, ℤ, pos, ◌+ℤ◌, ltb_ℤ, leb_ℤ, wrap64, add_overflows, Result, err, ok,
  reject_if, ◌>>=◌, ◌>>◌, Text, is_empty, byte_len, text_eq, trim_space, to_upper, ℕ, Bool, true,
  false, not, ◌&&◌, ◌||◌, [], ◌∷◌,
}

pub data Error : Type 0 where
  invalid_currency currency_mismatch money_overflow invalid_quantity invalid_price invalid_id :
      Error

-- `type Currency string`
abbrev pub Currency : Type 0
Currency = Text

abbrev is_letter : ℕ → Bool
is_letter c = (leb 65 c && leb c 90) || (leb 97 c && leb c 122)

abbrev all_letters : Text → Bool
all_letters [] = true
all_letters (c ∷ s) = is_letter c && all_letters s

-- The loop over the runes refuses what is not ASCII, so it may go over the bytes.
unfoldable pub new_currency : Text → Result Error Currency
new_currency value =
    let v = to_upper (trim_space value) in
    do
      reject_if (not (byte_len v == 3)) invalid_currency
      reject_if (not (all_letters v)) invalid_currency
      ok v

pub record Money : Type 0 where
  pub minor : ℤ
  pub currency : Currency

-- `Money{}`
abbrev pub no_money : Money
no_money = record { minor = pos 0; currency = [] }

unfoldable pub new_money : ℤ → Text → Result Error Money
new_money minor currency = do
  parsed ← new_currency currency
  ok (record { minor = minor; currency = parsed })

-- `Money.IsZeroValue`
abbrev pub is_zero_money : Money → Bool
is_zero_money m = is_empty m.currency

-- `Money.Add`
unfoldable pub add : Money → Money → Result Error Money
add m other = do
  reject_if
      (is_empty m.currency || is_empty other.currency || not (text_eq m.currency other.currency))
      currency_mismatch
  reject_if (add_overflows m.minor other.minor) money_overflow
  ok (record m { minor = wrap64 (m.minor +ℤ other.minor) })

-- `Quantity.IsValid`
abbrev pub is_valid_quantity : ℤ → Bool
is_valid_quantity q = ltb_ℤ (pos 0) q

unfoldable pub new_quantity : ℤ → Result Error ℤ
new_quantity value = do reject_if (leb_ℤ value (pos 0)) invalid_quantity; ok value

pub record Price : Type 0 where
  pub minor : ℤ
  pub currency : Currency

unfoldable pub new_price : ℤ → Text → Result Error Price
new_price minor currency = do
  reject_if (ltb_ℤ minor (pos 0)) invalid_price
  parsed ← new_currency currency
  ok (record { minor = minor; currency = parsed })

-- `Price.IsZeroValue`
abbrev pub is_zero_price : Price → Bool
is_zero_price p = is_empty p.currency

-- `other` is any string but "BUY" and "SELL".
pub data Side : Type 0 where
  buy sell other : Side

-- `==` on sides.
abbrev pub same_side : Side → Side → Bool
same_side buy buy = true
same_side sell sell = true
same_side other other = true
same_side _ _ = false

-- `validateID`, behind `NewOrderID`, `NewStrategyID`, `NewAccountID` and `NewClientRequestID`.
unfoldable pub validate_id : Text → Result Error Text
validate_id given =
    let value = trim_space given in if is_empty value then err invalid_id else ok value

abbrev pub new_order_id : Text → Result Error Text
new_order_id value = validate_id value

abbrev pub new_strategy_id : Text → Result Error Text
new_strategy_id value = validate_id value

abbrev pub new_account_id : Text → Result Error Text
new_account_id value = validate_id value

abbrev pub new_client_request_id : Text → Result Error Text
new_client_request_id value = validate_id value
