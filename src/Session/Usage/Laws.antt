-- ===== src/Session/Usage/Laws.antt =====
-- session/usage.go: usage records of 64-bit words under `Add` and `Sub`.
use peek_mcp.Prelude.{◌≡◌, refl, sym, ◌∙◌, ap, some, arith}
use peek_mcp.Prelude.Words.{
  IsWord, add64, sub64, add64-IsWord, sub64-IsWord, add64_comm, add64_assoc, add64-zero,
  sub64-add64, add64-sub64,
}
use peek_mcp.Session.Usage.{Usage, zero_usage, combine, add, sub}

-- Every field is a 64-bit pattern.
pub record IsWords (u : Usage) : Type 0 where
  pub w1 : IsWord u.cache_creation_1h_input_tokens
  pub w2 : IsWord u.cache_creation_5m_input_tokens
  pub w3 : IsWord u.cache_creation_input_tokens
  pub w4 : IsWord u.cache_read_input_tokens
  pub w5 : IsWord u.cached_input_tokens
  pub w6 : IsWord u.input_tokens
  pub w7 : IsWord u.output_tokens
  pub w8 : IsWord u.reasoning_output_tokens
  pub w9 : IsWord u.total_tokens

-- The sum and the difference of two usage records.
unfoldable pub plus : Usage → Usage → Usage
plus u v = combine add64 u v

unfoldable pub minus : Usage → Usage → Usage
minus u v = combine sub64 u v

-- `Add` and `Sub` of an argument that is not nil.
pub add-plus : (u v : Usage) → add u (some v) ≡ plus u v
unfolding add plus
add-plus u v = refl

pub sub-minus : (u v : Usage) → sub u (some v) ≡ minus u v
unfolding sub minus
sub-minus u v = refl

pub plus_comm : (u v : Usage) → plus u v ≡ plus v u
unfolding plus
plus_comm u v = λ i. record {
  cache_creation_1h_input_tokens =
      add64_comm u.cache_creation_1h_input_tokens v.cache_creation_1h_input_tokens i;
  cache_creation_5m_input_tokens =
      add64_comm u.cache_creation_5m_input_tokens v.cache_creation_5m_input_tokens i;
  cache_creation_input_tokens =
      add64_comm u.cache_creation_input_tokens v.cache_creation_input_tokens i;
  cache_read_input_tokens = add64_comm u.cache_read_input_tokens v.cache_read_input_tokens i;
  cached_input_tokens = add64_comm u.cached_input_tokens v.cached_input_tokens i;
  input_tokens = add64_comm u.input_tokens v.input_tokens i;
  output_tokens = add64_comm u.output_tokens v.output_tokens i;
  reasoning_output_tokens = add64_comm u.reasoning_output_tokens v.reasoning_output_tokens i;
  total_tokens = add64_comm u.total_tokens v.total_tokens i;
}

pub plus_assoc : (u v w : Usage) → plus (plus u v) w ≡ plus u (plus v w)
unfolding plus
plus_assoc u v w = simp add64_assoc

pub minus-plus : (u v : Usage) → IsWords u → minus (plus u v) v ≡ u
unfolding plus minus
minus-plus u v h = simp (sub64-add64, h.w1, h.w2, h.w3, h.w4, h.w5, h.w6, h.w7, h.w8, h.w9)

pub plus-minus : (u v : Usage) → IsWords u → plus (minus u v) v ≡ u
unfolding plus minus
plus-minus u v h = simp (add64-sub64, h.w1, h.w2, h.w3, h.w4, h.w5, h.w6, h.w7, h.w8, h.w9)

pub plus-IsWords : (u v : Usage) → IsWords (plus u v)
unfolding plus
plus-IsWords u v = search add64-IsWord

pub minus-IsWords : (u v : Usage) → IsWords (minus u v)
unfolding minus
minus-IsWords u v = search sub64-IsWord

pub plus-zero : (v : Usage) → IsWords v → plus v zero_usage ≡ v
unfolding plus
plus-zero v h = simp (add64-zero, h.w1, h.w2, h.w3, h.w4, h.w5, h.w6, h.w7, h.w8, h.w9)

pub zero-plus : (v : Usage) → IsWords v → plus zero_usage v ≡ v
zero-plus v h = plus_comm zero_usage v ∙ plus-zero v h

pub zero-IsWords : IsWords zero_usage
zero-IsWords = omega arith

-- The last two of three summands change places.
pub plus_right_comm : (u v w : Usage) → plus (plus u v) w ≡ plus (plus u w) v
plus_right_comm u v w = plus_assoc u v w ∙ ap (plus u) (plus_comm v w) ∙ sym (plus_assoc u w v)
