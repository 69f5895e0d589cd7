-- ===== src/Outbox/Delays.antt =====
-- How long the outbox waits before it tries again.
use duragraph.Base.{
  ap, ◌∙◌, ◌-◌, ℕ, zero, suc, ◌+◌, ◌*◌, ◌^◌, ◌%◌, ◌≤◌, ◌<◌, ◌≡◌, refl, if◌then◌else◌, ltb, arith,
  Bool-cases, inl, inr,
}
use native.Mathlib.Nat.{pow-le-pow_right}
use native.Mathlib.Decide.{ℕ_discrete}
use duragraph.Outbox.{minute, backoff_minutes, retry_delay}

double : (n : ℕ) → 2 ^ suc n ≡ 2 * 2 ^ n
double n = omega arith

suc_plus : (k : ℕ) → suc k + 64 ≡ suc (k + 64)
suc_plus k = omega arith

wrapped : (k : ℕ) → 2 ^ (k + 64) % 2 ^ 64 ≡ 0
wrapped zero = refl
wrapped (suc k) =
    let e : 2 ^ (suc k + 64) ≡ 2 * 2 ^ (k + 64) = ap (λ n. 2 ^ n) (suc_plus k) ∙ double (k + 64) in
    omega (arith, e, wrapped k)

power_at_most : (a b : ℕ) → a ≤ b → 2 ^ a ≤ 2 ^ b
power_at_most a b h = pow-le-pow_right (omega arith) h

few : (a : ℕ) → a < 63 → backoff_minutes a ≡ (if ltb 60 (2 ^ a) then 60 else 2 ^ a)
unfolding backoff_minutes
few a h =
    let p = power_at_most a 62 (omega (arith, h)) in
    let e : 2 ^ a % 2 ^ 64 ≡ 2 ^ a = omega (arith, p) in rw e (ground (arith, p))

within_hour :
    (a : ℕ) → let b = (if ltb 60 (2 ^ a) then 60 else 2 ^ a) in b * minute % 2 ^ 64 ≡ b * minute
within_hour a = elim (Bool-cases (ltb 60 (2 ^ a))) [
  | inl e ↦ rw e (omega arith)
  | inr e ↦ let h : 2 ^ a ≤ 60 = ground arith in rw e (omega (arith, h))
]

at_63 : retry_delay 63 ≡ 0
unfolding retry_delay backoff_minutes
at_63 = refl

after_63 : (k : ℕ) → retry_delay (k + 64) ≡ 0
unfolding retry_delay backoff_minutes
after_63 k = rw (wrapped k) refl

long : (a : ℕ) → 63 ≤ a → retry_delay a ≡ 0
long a h = elim (ℕ_discrete a 63) [
  | yes e ↦ ap retry_delay e ∙ at_63
  | no n ↦ let e : a ≡ (a - 64) + 64 = omega (arith, h, n) in ap retry_delay e ∙ after_63 (a - 64)
]

-- The wait doubles from one minute to at most an hour, but after 63 failures there is none: the
-- shift has lost the bit then.
pub retry_delay_lem :
    (a : ℕ)
    → retry_delay a ≡ (if ltb a 63 then (if ltb 60 (2 ^ a) then 60 else 2 ^ a) * minute else 0)
unfolding retry_delay
retry_delay_lem a = elim (Bool-cases (ltb a 63)) [
  | inl e ↦ rw e (rw (few a (ground arith)) (within_hour a))
  | inr e ↦ rw e (long a (ground arith))
]
