-- ===== src/Options.antt =====
-- crates/canokey-protocol/src/operation.rs: the channel limits and budgets of an operation.
use libcanokey.Prelude.{ℕ, ◌*◌, ◌==◌, Bool, false, ◌||◌, ltb}
use libcanokey.Error
use libcanokey.Error.{Result, ok, ◌>>◌, reject, invalid_argument}

pub record ExchangeOptions : Type 0 where
  pub max_command_bytes : ℕ
  pub max_response_bytes : ℕ
  pub allow_extended : Bool

pub record OperationLimits : Type 0 where
  pub max_total_response_bytes : ℕ
  pub max_exchanges : ℕ
  pub max_input_bytes : ℕ

pub record OperationOptions : Type 0 where
  pub exchange : ExchangeOptions
  pub limits : OperationLimits

-- `impl Default`.
abbrev pub default_exchange : ExchangeOptions
default_exchange = record {
  max_command_bytes = 261;
  max_response_bytes = 258;
  allow_extended = false;
}

abbrev pub default_limits : OperationLimits
default_limits = record {
  max_total_response_bytes = 1024 * 1024;
  max_exchanges = 4096;
  max_input_bytes = 1024 * 1024;
}

abbrev pub default_options : OperationOptions
default_options = record { exchange = default_exchange; limits = default_limits }

-- `OperationOptions::validate`.
unfoldable pub validate : OperationOptions → Result OperationOptions
validate o = do
  reject
      (ltb o.exchange.max_command_bytes 5
        || ltb o.exchange.max_response_bytes 3
        || o.limits.max_exchanges == 0
        || o.limits.max_total_response_bytes == 0
        || o.limits.max_input_bytes == 0)
      (Error.new invalid_argument)
  ok o
