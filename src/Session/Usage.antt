-- ===== src/Session/Usage.antt =====
-- session/usage.go: token counts. Each count is a Go `int`, kept as its 64-bit pattern.
-- The group laws of `add` and `sub` are in the module below.
pub mod Laws
use peek_mcp.Prelude.{ℕ, String, Option, none, some, if◌then◌else◌}
use peek_mcp.Prelude.Words.{add64, sub64, is_negative}

pub record Usage : Type 0 where
  pub cache_creation_1h_input_tokens : ℕ
  pub cache_creation_5m_input_tokens : ℕ
  pub cache_creation_input_tokens : ℕ
  pub cache_read_input_tokens : ℕ
  pub cached_input_tokens : ℕ
  pub input_tokens : ℕ
  pub output_tokens : ℕ
  pub reasoning_output_tokens : ℕ
  pub total_tokens : ℕ

-- The zero value `Usage{}`.
abbrev pub zero_usage : Usage
zero_usage = record {
  cache_creation_1h_input_tokens = 0;
  cache_creation_5m_input_tokens = 0;
  cache_creation_input_tokens = 0;
  cache_read_input_tokens = 0;
  cached_input_tokens = 0;
  input_tokens = 0;
  output_tokens = 0;
  reasoning_output_tokens = 0;
  total_tokens = 0;
}

-- The field-wise combination that `Add` and `Sub` make of a non-nil argument.
abbrev pub combine : (ℕ → ℕ → ℕ) → Usage → Usage → Usage
combine f u v = record {
  cache_creation_1h_input_tokens =
      f u.cache_creation_1h_input_tokens v.cache_creation_1h_input_tokens;
  cache_creation_5m_input_tokens =
      f u.cache_creation_5m_input_tokens v.cache_creation_5m_input_tokens;
  cache_creation_input_tokens = f u.cache_creation_input_tokens v.cache_creation_input_tokens;
  cache_read_input_tokens = f u.cache_read_input_tokens v.cache_read_input_tokens;
  cached_input_tokens = f u.cached_input_tokens v.cached_input_tokens;
  input_tokens = f u.input_tokens v.input_tokens;
  output_tokens = f u.output_tokens v.output_tokens;
  reasoning_output_tokens = f u.reasoning_output_tokens v.reasoning_output_tokens;
  total_tokens = f u.total_tokens v.total_tokens;
}

-- `u.Sub(other)`; the result is the new value of `u`, and `none` is a nil argument.
unfoldable pub sub : Usage → Option Usage → Usage
sub u none = u
sub u (some other) = combine sub64 u other

-- `u.Add(other)`
unfoldable pub add : Usage → Option Usage → Usage
add u none = u
add u (some other) = combine add64 u other

-- `u.Validate()`: the message of the error, if there is one.
unfoldable pub validate : Option Usage → Option String
unfolding is_negative
validate none = some "usage is nil"
validate (some u) =
    if is_negative u.input_tokens
    then some "input_tokens must be non-negative"
    else if is_negative u.output_tokens
    then some "output_tokens must be non-negative"
    else if is_negative u.cached_input_tokens
    then some "cached_input_tokens must be non-negative"
    else if is_negative u.reasoning_output_tokens
    then some "reasoning_output_tokens must be non-negative"
    else if is_negative u.total_tokens
    then some "total_tokens must be non-negative"
    else if is_negative u.cache_creation_5m_input_tokens
    then some "cache_creation_5m_input_tokens must be non-negative"
    else if is_negative u.cache_creation_1h_input_tokens
    then some "cache_creation_1h_input_tokens must be non-negative"
    else none
