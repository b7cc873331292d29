-- ===== src/Errs/Codes.antt =====
-- Error codes, the HTTP status that a response carries, and the printing of a code.
use mathlib.Core.List.{append_assoc, append-nil}
use ykt_aisaas.Base.{
  ℕ, zero, suc, ◌+◌, ◌/◌, ◌%◌, ◌≤◌, ◌≡◌, refl, ◌∙◌, ltb, ◌==◌, not, Bool, true, false, inl, inr,
  Bool-cases, pos, some, [], ◌∷◌, ◌++◌, arith, Text, decimal, decimal_fuel, decimal_fuel_small,
  decimal_fuel_large,
}
use ykt_aisaas.Errs.{
  ErrorCode, ok, rate_limited, provider_timeout, unknown, code_of, http_status, is_fatal,
  digits_before, itoa,
}

-- The codes that the constants name, but for success.
abbrev pub is_named : ErrorCode → Bool
is_named ok = false
is_named (unknown n) = false
is_named _ = true

-- Codes whose status is not what their number begins with.
abbrev pub is_renumbered : ErrorCode → Bool
is_renumbered rate_limited = true
is_renumbered provider_timeout = true
is_renumbered _ = false

-- Every named code but two has the status that its first three digits say; the two are RateLimited
-- (40203, status 429) and ProviderTimeout (50202, status 504).
pub http_status-prefix :
    (c : ErrorCode) → is_named c ≡ true → (http_status c == code_of c / 100) ≡ not (is_renumbered c)
unfolding http_status code_of
http_status-prefix c named = ground arith

-- An error of a named code ends a stream exactly when its status is below 500, that is when the
-- request is at fault.
pub is_fatal-status :
    (c : ErrorCode) → is_named c ≡ true → is_fatal (some c) ≡ ltb (http_status c) 500
unfolding http_status is_fatal
is_fatal-status c named = ground arith

digits_before-zero : (fuel : ℕ) (buffer : Text) → digits_before fuel 0 buffer ≡ buffer
unfolding digits_before
digits_before-zero zero buffer = refl
digits_before-zero (suc fuel) buffer = refl

digits_before_lem :
    (fuel i : ℕ) (buffer : Text)
    → i ≤ fuel
    → 1 ≤ i
    → digits_before fuel i buffer ≡ decimal_fuel (suc fuel) i ++ buffer
unfolding digits_before
digits_before_lem zero i buffer enough some_left = absurd (omega arith)
digits_before_lem (suc fuel) i buffer enough some_left =
    let nonzero : (i == 0) ≡ false = ground arith in
    rw nonzero (elim (Bool-cases (ltb i 10)) [
      | inl small ↦
          let last : i / 10 ≡ 0 = ground arith in
          let digit : i % 10 ≡ i = ground arith in
          rw (last, digit, decimal_fuel_small (suc fuel) i small)
            (digits_before-zero fuel ((48 + i) ∷ buffer))
      | inr large ↦
          let fits : i / 10 ≤ fuel = ground arith in
          let more : 1 ≤ i / 10 = ground arith in
          rw (decimal_fuel_large (suc fuel) i large, append_assoc)
            (digits_before_lem fuel (i / 10) ((48 + i % 10) ∷ buffer) fits more)
    ])

-- The loop that prints a code gives its decimal form.
pub itoa-decimal : (n : ℕ) → itoa (pos n) ≡ decimal n
unfolding itoa decimal
itoa-decimal zero = unfold decimal_fuel in refl
itoa-decimal (suc n) =
    digits_before_lem (suc n) (suc n) [] (omega arith) (omega arith) ∙ append-nil _
