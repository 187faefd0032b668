-- ===== src/Core/Error.antt =====
-- core/error.hpp and core/result.hpp: the errors of the program, and a value or an error.
use trading_bot_v.Prelude.{Bool, true, false, String}

-- `Error`; the type of results has the rest of the name
pub data ErrorCode : Type 0 where
  ok config_file_not_found config_invalid_value : ErrorCode
  parse_unexpected_shape parse_malformed_json : ErrorCode

-- `toString`
abbrev pub to_string : ErrorCode → String
to_string ErrorCode.ok = "Ok"
to_string ErrorCode.config_file_not_found = "ConfigFileNotFound"
to_string ErrorCode.config_invalid_value = "ConfigInvalidValue"
to_string ErrorCode.parse_unexpected_shape = "ParseUnexpectedShape"
to_string ErrorCode.parse_malformed_json = "ParseMalformedJson"

-- `Result<T>`
pub data Result (A : Type 0) : Type 0 where
  value : A → Result A
  error : ErrorCode → Result A

abbrev pub is_ok : {A : Type 0} → Result A → Bool
is_ok (value a) = true
is_ok (error e) = false

-- `Result<T>::error`
abbrev pub error_code : {A : Type 0} → Result A → ErrorCode
error_code (value a) = ErrorCode.ok
error_code (error e) = e
