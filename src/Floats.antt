-- ===== src/Floats.antt =====
-- Python's `float`, as far as the modelled code uses it. The scores of the program lie between 0 and
-- 1, and none is a NaN, so `<=` is a total preorder on them. A float is a number in JSON by its bits,
-- which Python prints so that they are read back; nothing else is assumed.
use agent_coordination.Prelude.{
  Bool, IsOrder, List, [], arith, if◌then◌else◌, leb, not, ℕ, ◌||◌, ◌∷◌, ◌≡◌,
}

pub record Floats (F : Type 0) : Type 0 where
  pub at_most : F → F → Bool
  pub order : IsOrder at_most
  pub zero : F
  pub one : F
  pub sub : F → F → F
  pub fmean : List F → F
  pub ratio : ℕ → ℕ → F
  pub round6 : F → F
  pub add : F → F → F
  pub mul : F → F → F
  pub over : F → ℕ → F
  pub bits : F → ℕ
  pub of_bits : ℕ → F
  pub bits_kept : (x : F) → of_bits (bits x) ≡ x

module _ {F : Type 0} ⦃o : Floats F⦄ where
  -- `x <= y`
  abbrev pub float_leb : F → F → Bool
  float_leb = o.at_most

  -- `max(xs, default=0.0)`
  unfoldable pub max_or_zero : List F → F
  max_or_zero [] = o.zero
  max_or_zero (x ∷ []) = x
  max_or_zero (x ∷ y ∷ ys) = let m = max_or_zero (y ∷ ys) in if o.at_most m x then x else m

-- Ascending by a number, and by the negated number.
module _ {F A : Type 0} ⦃o : Floats F⦄ (key : A → F) where
  abbrev pub ascending : A → A → Bool
  ascending a b = o.at_most (key a) (key b)

  abbrev pub descending : A → A → Bool
  descending a b = o.at_most (key b) (key a)

  pub ascending-IsOrder : IsOrder ascending
  ascending-IsOrder = record {
    total = λ a b. o.order.total (key a) (key b);
    trans = λ a b c. o.order.trans (key a) (key b) (key c);
  }

  pub descending-IsOrder : IsOrder descending
  descending-IsOrder = record {
    total = λ a b. o.order.total (key b) (key a);
    trans = λ a b c h k. o.order.trans (key c) (key b) (key a) k h;
  }

module _ {A : Type 0} where
  -- By a whole number, such as `str(id)` of a UUID.
  abbrev pub by_number : (A → ℕ) → A → A → Bool
  by_number key a b = leb (key a) (key b)

  pub by_number-IsOrder : (key : A → ℕ) → IsOrder (by_number key)
  by_number-IsOrder key = record {
    total = λ a b h. ground arith;
    trans = λ a b c h k. ground arith;
  }

  -- False comes before True.
  abbrev pub by_flag : (A → Bool) → A → A → Bool
  by_flag key a b = not (key a) || key b

  pub by_flag-IsOrder : (key : A → Bool) → IsOrder (by_flag key)
  by_flag-IsOrder key = record { total = λ a b h. ground arith; trans = λ a b c h k. ground arith }
