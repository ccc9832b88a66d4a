-- ===== src/Text/Numbers/RoundTrip.antt =====
-- strconv.Itoa read back by strconv.Atoi.
use k8s_ai_remediator.Prelude.{
  ℕ, zero, suc, ◌+◌, ◌/◌, ◌%◌, ◌≤◌, ◌≡◌, ◌≢◌, refl, [], ◌∷◌, some, arith, Bytes, All, ℤ, pos,
  negsuc,
}
use k8s_ai_remediator.Result.{ok}
use k8s_ai_remediator.Text.Numbers.{
  digits_of, decimal, itoa, is_digit, value_of, int_max, unsigned, negated, atoi,
}

abbrev pub IsDigit : ℕ → Type 0
IsDigit c = (b'0' ≤ c) × (c ≤ b'9')

value_of_digit : (n : ℕ) (out : Bytes) → value_of (n / 10) ((b'0' + n % 10) ∷ out) ≡ value_of n out
unfolding value_of is_digit
value_of_digit n out = ground arith

value_of-digits_of :
    (fuel n : ℕ) (out : Bytes) → n ≤ fuel → value_of 0 (digits_of fuel n out) ≡ value_of n out
unfolding digits_of
value_of-digits_of zero n out le = ground arith
value_of-digits_of (suc fuel) n out le =
    grind (arith, value_of-digits_of fuel (n / 10) ((b'0' + n % 10) ∷ out), value_of_digit n out)

digits_of-IsDigit :
    (fuel n : ℕ) (out : Bytes) → All IsDigit out → All IsDigit (digits_of fuel n out)
unfolding digits_of
digits_of-IsDigit zero n out h = h
digits_of-IsDigit (suc fuel) n out h =
    ground (arith, digits_of-IsDigit fuel (n / 10) ((b'0' + n % 10) ∷ out))

pub decimal-IsDigit : (n : ℕ) → All IsDigit (decimal n)
unfolding decimal
decimal-IsDigit n = ground (arith, digits_of-IsDigit n n [] tt)

pub value_of-decimal : (n : ℕ) → value_of 0 (decimal n) ≡ some n
unfolding decimal value_of is_digit
value_of-decimal n = ground (arith, value_of-digits_of n n [])

digits_of-ne-nil : (fuel n c : ℕ) (out : Bytes) → digits_of fuel n (c ∷ out) ≢ []
unfolding digits_of
digits_of-ne-nil zero n c out = cc
digits_of-ne-nil (suc fuel) n c out =
    ground (arith, digits_of-ne-nil fuel (n / 10) (b'0' + n % 10) (c ∷ out))

pub decimal-ne-nil : (n : ℕ) → decimal n ≢ []
unfolding decimal digits_of
decimal-ne-nil zero = ground arith
decimal-ne-nil (suc n) = ground (arith, digits_of-ne-nil n (suc n / 10) (b'0' + suc n % 10) [])

unsigned-some :
    (s t : Bytes) (n : ℕ) → t ≢ [] → value_of 0 t ≡ some n → n ≤ int_max → unsigned s t ≡ ok (pos n)
unfolding unsigned
unsigned-some s [] n h e le = absurd (h refl)
unsigned-some s (c ∷ r) n h e le = rw (unsigned, e) (ground (arith, le))

negated-some :
    (s t : Bytes) (n : ℕ)
    → t ≢ []
    → value_of 0 t ≡ some (suc n)
    → n ≤ int_max
    → negated s t ≡ ok (negsuc n)
unfolding negated
negated-some s [] n h e le = absurd (h refl)
negated-some s (c ∷ r) n h e le = rw (negated, e) (ground (arith, le))

atoi-IsDigit : (s : Bytes) → s ≢ [] → All IsDigit s → atoi s ≡ unsigned s s
unfolding atoi
atoi-IsDigit [] h d = absurd (h refl)
atoi-IsDigit (c ∷ s) h d = ground (arith, d.0)

-- an int of 64 bits
abbrev pub IsInt : ℤ → Type 0
IsInt (pos n) = n ≤ int_max
IsInt (negsuc n) = n ≤ int_max

-- Every 64-bit integer is read back from its decimal print.
pub atoi-itoa : (z : ℤ) → IsInt z → atoi (itoa z) ≡ ok z
unfolding itoa
atoi-itoa (pos n) h =
    rw (atoi-IsDigit (decimal n) (decimal-ne-nil n) (decimal-IsDigit n))
      (unsigned-some (decimal n) (decimal n) n (decimal-ne-nil n) (value_of-decimal n) h)
atoi-itoa (negsuc n) h =
    unfold atoi in
    ground (
      arith,
      negated-some (b'-' ∷ decimal (suc n)) (decimal (suc n)) n (decimal-ne-nil (suc n))
          (value_of-decimal (suc n)) h,
    )
