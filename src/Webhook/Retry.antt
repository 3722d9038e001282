-- ===== src/Webhook/Retry.antt =====
-- retry.helper.ts: which errors of a delivery are retried, and the loop.
use Prim.Native.Char.{code}
use trustflow_backend.Prelude.{
  ℕ, zero, suc, ◌+◌, ◌-◌, ◌*◌, String, Option, none, some, List, [], ◌∷◌, Bool, true, false,
  if◌then◌else◌, ◌||◌, ◌&&◌, not, leb, ltb, ◌==◌, any, includes,
}
use trustflow_backend.Prelude.Exec.{Error, plain, message, Exec, throw, try_catch, when_else}

-- The codes of the characters of a text.
abbrev pub codes : String → List ℕ
codes String.[] = []
codes (String.◌∷◌ c s) = code c ∷ codes s

abbrev pub is_digit : ℕ → Bool
is_digit c = leb b'0' c && leb c b'9'

-- \w and \s of a regular expression, on ASCII.
abbrev pub is_word : ℕ → Bool
is_word c = is_digit c || leb b'a' c && leb c b'z' || leb b'A' c && leb c b'Z' || c == b'_'

abbrev pub is_space : ℕ → Bool
is_space c = c == 32 || leb 9 c && leb c 13

-- \b before what is left, after a word character
abbrev pub at_boundary : List ℕ → Bool
at_boundary [] = true
at_boundary (c ∷ cs) = not (is_word c)

unfoldable pub skip_spaces : List ℕ → List ℕ
skip_spaces [] = []
skip_spaces (c ∷ cs) = let rest = skip_spaces cs in if is_space c then rest else c ∷ cs

-- (\d{3})\b at the start, as a number
unfoldable pub three_digits : List ℕ → Option ℕ
three_digits (a ∷ b ∷ c ∷ rest) =
    if is_digit a && is_digit b && is_digit c && at_boundary rest
    then some ((a - b'0') * 100 + (b - b'0') * 10 + (c - b'0'))
    else none
three_digits _ = none

abbrev pub is_letter : ℕ → ℕ → Bool
is_letter upper c = c == upper || c == upper + 32

-- HTTP\s*(\d{3})\b at the start, in either case
unfoldable pub http_here : List ℕ → Option ℕ
unfolding three_digits skip_spaces
http_here (h ∷ t ∷ u ∷ p ∷ rest) =
    if is_letter b'H' h && is_letter b'T' t && is_letter b'T' u && is_letter b'P' p
    then three_digits (skip_spaces rest)
    else none
http_here _ = none

abbrev pub or_else : Option ℕ → Option ℕ → Option ℕ
or_else (some n) other = some n
or_else none other = other

-- The first match of \bHTTP\s*(\d{3})\b, after a word character or not.
unfoldable pub http_status : Bool → List ℕ → Option ℕ
unfolding http_here
http_status after_word [] = none
http_status after_word (c ∷ cs) =
    or_else (if after_word then none else http_here (c ∷ cs)) (http_status (is_word c) cs)

unfoldable pub status_of : String → Option ℕ
unfolding three_digits http_status skip_spaces
status_of text = or_else (three_digits (skip_spaces (codes text))) (http_status false (codes text))

abbrev pub is_retryable_status : Option ℕ → Bool
is_retryable_status none = false
is_retryable_status (some n) = leb 500 n && leb n 599 || n == 429

-- A text holds one of the words that name a failure of the network, whatever their case.
abbrev pub is_transient : (String → String) → String → Bool
is_transient to_lower_case text =
    any (λ word. includes (to_lower_case text) word)
      ("econnrefused" ∷ "econnreset" ∷ "etimedout" ∷ "eai_again" ∷ "enotfound" ∷ "epipe"
        ∷ "socket hang up" ∷ "discord webhook timed out" ∷ [])

unfoldable pub is_retryable : (String → String) → Error → Bool
unfolding status_of any
is_retryable to_lower_case e =
    is_transient to_lower_case (message e) || is_retryable_status (status_of (message e))

module _ {ℓ} {S A : Type ℓ} where
  -- The attempts from one on, with the number of those that are left.
  unfoldable pub attempts :
      Exec S A → (ℕ → S → S) → (Error → Bool) → ℕ → ℕ → ℕ → ℕ → Error → Exec S A
  attempts fn pause should_retry base_delay_ms max_attempts attempt zero last_error =
      throw last_error
  attempts fn pause should_retry base_delay_ms max_attempts attempt (suc left) last_error =
      try_catch fn (λ e.
        when_else (should_retry e)
          (λ s.
            attempts fn pause should_retry base_delay_ms max_attempts (suc attempt) left e
              (if ltb attempt max_attempts then pause (base_delay_ms * attempt) s else s))
          (throw e))

  unfoldable pub with_retry : Exec S A → (ℕ → S → S) → ℕ → ℕ → (Error → Bool) → Exec S A
  unfolding attempts
  with_retry fn pause max_attempts base_delay_ms should_retry =
      attempts fn pause should_retry base_delay_ms max_attempts 1 max_attempts
        (plain "All retries exhausted")
