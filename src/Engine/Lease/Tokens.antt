-- ===== src/Engine/Lease/Tokens.antt =====
-- The tokens of leases in src/engine.rs: different counters print different tokens.
use cachebox.Prelude.{
  ℕ, zero, suc, ◌+◌, ◌-◌, ◌*◌, ◌/◌, ◌^◌, ◌≤◌, ◌<◌, ◌≡◌, sym, ap, ◌∙◌, inl, inr, arith, ltb,
  Bool-cases, drop, u64_max,
}
use cachebox.Engine.Types.{Text}
use cachebox.Engine.Lease.{digits, decimal, lease_token}
use native.Mathlib.Nat.{pow-suc}
use mathlib.Core.List.{foldl, foldl-append}

read_digit : ℕ → ℕ → ℕ
read_digit n d = n * 10 + (d - b'0')

value : Text → ℕ
value = foldl read_digit 0

-- Reading the digits back gives the number.
value-digits : (fuel n : ℕ) → n < 10 ^ fuel → value (digits fuel n) ≡ n
unfolding value digits read_digit
value-digits zero n h = omega arith
value-digits (suc fuel) n h = elim (Bool-cases (ltb n 10)) [
  | inl small ↦ rw small (omega arith)
  | inr large ↦
      rw large (rw foldl-append (omega (arith, pow-suc 10 fuel, value-digits fuel (n / 10))))
]

pub lease_token-injective :
    (m n : ℕ) → m ≤ u64_max → n ≤ u64_max → lease_token m ≡ lease_token n → m ≡ n
unfolding lease_token decimal
lease_token-injective m n hm hn e =
    sym (value-digits 20 m (omega arith))
    ∙ (ap (λ (t : Text). value (drop 6 t)) e ∙ value-digits 20 n (omega arith))
