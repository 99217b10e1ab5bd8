-- ===== src/Research.antt =====
-- internal/research: costs, simulated fills and the backtest engine.
pub mod Arithmetic
pub mod Rounding
pub mod Cost
pub mod Observation
pub mod Features
pub mod Backtest
mod Tests
use tradeedge.Prelude.{Result, err, ok}
use tradeedge.Domain.{Error}

-- The sentinel errors of research/model, research/cost, research/features and research/backtest, and
-- those of internal/domain that they pass on.
pub data ResearchError : Type 0 where
  arithmetic_overflow invalid_cost invalid_dataset invalid_instrument invalid_observation :
      ResearchError
  invalid_frame : ResearchError
  invalid_configuration invalid_decision invalid_fill no_liquidity position_underflow context_done :
      ResearchError
  domain_error : Error → ResearchError

-- An error of internal/domain that a caller returns as it is.
abbrev pub from_domain {ℓ} : {A : Type ℓ} → Result Error A → Result ResearchError A
from_domain (err e) = err (domain_error e)
from_domain (ok a) = ok a
