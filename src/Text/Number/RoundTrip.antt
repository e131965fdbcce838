-- ===== src/Text/Number/RoundTrip.antt =====
-- Printing a number and reading it back.
use sbnn.Prelude.{
  Bool-cases, Bytes, [], ap, arith, inl, inr, ltb, refl, suc, sym, zero, ℕ, ◌%◌, ◌*◌, ◌+◌, ◌-◌, ◌/◌,
  ◌<◌, ◌∙◌, ◌∷◌, ◌≡◌,
}
use sbnn.Text.Number.{digits_onto, itoa, value_from}

digits_onto-value :
    (fuel n acc : ℕ) (after : Bytes)
    → n < fuel
    → acc ≡ 0
    → value_from acc (digits_onto fuel n after) ≡ value_from n after
unfolding digits_onto value_from
digits_onto-value zero n acc after lt z = absurd (omega arith)
digits_onto-value (suc fuel) n acc after lt z = elim (Bool-cases (ltb n 10)) [
  | inl small ↦
      let e : acc * 10 + (n % 10 + 48 - 48) ≡ n = ground arith in rw (small, value_from, e) refl
  | inr big ↦
      let lt' : n / 10 < fuel = ground arith in
      let e : n / 10 * 10 + (n % 10 + 48 - 48) ≡ n = omega arith in
      rw big (
        digits_onto-value fuel (n / 10) acc ((n % 10 + 48) ∷ after) lt' z ∙ rw (value_from, e) refl)
]

pub value_from-itoa : (n : ℕ) → value_from 0 (itoa n) ≡ n
unfolding itoa
value_from-itoa n =
    digits_onto-value (suc n) n 0 [] (omega arith) refl ∙ (unfold value_from in refl)

-- Different numbers are printed differently.
pub itoa_injective : (m n : ℕ) → itoa m ≡ itoa n → m ≡ n
itoa_injective m n e = sym (value_from-itoa m) ∙ ap (value_from 0) e ∙ value_from-itoa n
