-- ===== src/Pricing.antt =====
-- pricing/pricing.go: the rates of the models. A rate is in thousandths of a dollar per million
-- tokens, which every rate of the table is a whole number of. The length of a key is counted in
-- characters, which for the keys, all ASCII, are its bytes. `Cost` multiplies floats, and is not
-- modelled.
use Prim.Native.Char.{code}
use peek_mcp.Prelude.{
  ℕ, String, Bool, true, false, not, ◌&&◌, ◌||◌, List, [], ◌∷◌, Option, none, some, ◌==◌, ltb,
  if◌then◌else◌,
}
use peek_mcp.Prelude.Assoc.{Assoc}
use peek_mcp.Prelude.Text.{has_prefix, drop_prefix, rune_count}
pub mod Longest

pub record Rates : Type 0 where
  pub input_per_m_tok : ℕ
  pub output_per_m_tok : ℕ
  pub cache_write5m_per_m_tok : ℕ
  pub cache_write1h_per_m_tok : ℕ
  pub cache_read_per_m_tok : ℕ

abbrev pub rates : ℕ → ℕ → ℕ → ℕ → ℕ → Rates
rates input output write5m write1h read = record {
  input_per_m_tok = input;
  output_per_m_tok = output;
  cache_write5m_per_m_tok = write5m;
  cache_write1h_per_m_tok = write1h;
  cache_read_per_m_tok = read;
}

-- `rateTable`
abbrev pub rate_table : Assoc Rates
rate_table =
    ("claude-fable-5-1", rates 10000 50000 12500 20000 250)
    ∷ ("claude-fable-5", rates 10000 50000 12500 20000 1000)
    ∷ ("claude-opus-5", rates 5000 25000 6250 10000 500)
    ∷ ("claude-opus-4-8", rates 5000 25000 6250 10000 500)
    ∷ ("claude-opus-4-7", rates 5000 25000 6250 10000 500)
    ∷ ("claude-opus-4-6", rates 5000 25000 6250 10000 500)
    ∷ ("claude-opus-4-5", rates 5000 25000 6250 10000 500)
    ∷ ("claude-opus-4-1", rates 15000 75000 18750 30000 1500)
    ∷ ("claude-opus-4", rates 15000 75000 18750 30000 1500)
    ∷ ("claude-sonnet-5", rates 2000 10000 2500 4000 200)
    ∷ ("claude-sonnet-4-6", rates 3000 15000 3750 6000 300)
    ∷ ("claude-sonnet-4-5", rates 3000 15000 3750 6000 300)
    ∷ ("claude-sonnet-4", rates 3000 15000 3750 6000 300)
    ∷ ("claude-haiku-4-5", rates 1000 5000 1250 2000 100)
    ∷ ("claude-haiku-3-5", rates 800 4000 1000 1600 80)
    ∷ ("gpt-5.6-sol", rates 4000 20000 0 0 400)
    ∷ ("gpt-5.6-terra", rates 2000 12000 0 0 200)
    ∷ ("gpt-5.6-luna", rates 200 1200 0 0 20)
    ∷ ("gpt-5.5", rates 5000 30000 0 0 500)
    ∷ ("gpt-5.4", rates 2500 15000 0 0 250)
    ∷ ("gpt-5.4-mini", rates 750 4500 0 0 75)
    ∷ ("gpt-5.4-nano", rates 200 1250 0 0 20)
    ∷ ("gpt-5.3-codex", rates 1750 14000 0 0 175)
    ∷ ("gpt-5.2", rates 1750 14000 0 0 175)
    ∷ ("gpt-5.1", rates 1250 10000 0 0 125)
    ∷ ("gpt-5", rates 1250 10000 0 0 125)
    ∷ ("gpt-5-mini", rates 250 2000 0 0 25)
    ∷ ("gpt-5-nano", rates 50 400 0 0 5)
    ∷ []

-- `boundaryAfter`, for what stands behind the prefix.
unfoldable pub boundary_after : String → Bool
boundary_after String.[] = true
boundary_after (String.◌∷◌ c s) = code c == 45 || code c == 91

-- Whether a row may be that of the model.
unfoldable pub matches : String → String → Bool
unfolding boundary_after has_prefix drop_prefix
matches model prefix = has_prefix model prefix && boundary_after (drop_prefix model prefix)

-- `bestLength < len(prefix)`; `none` is the length -1.
abbrev pub is_longer : String → Option (String × Rates) → Bool
is_longer prefix none = true
is_longer prefix (some (best, found)) = ltb (rune_count best) (rune_count prefix)

-- The loop of `Lookup`, over the rows in the order of an iteration, with the best row so far.
unfoldable pub scan_rows : String → Option (String × Rates) → Assoc Rates → Option (String × Rates)
unfolding matches
scan_rows model best [] = best
scan_rows model best ((prefix, found) ∷ table) =
    scan_rows model
      (if matches model prefix && is_longer prefix best then some (prefix, found) else best) table

-- `Lookup(model)` in a table, with the key of the row.
abbrev pub lookup_in : Assoc Rates → String → Option (String × Rates)
lookup_in table model = scan_rows model none table
