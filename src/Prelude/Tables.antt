-- ===== src/Prelude/Tables.antt =====
-- A database table as the list of its rows, each found by its number.
use Prim.Native.Nat.{ℕ}
use mathlib.Core.Path.{◌≡◌, refl}
use mathlib.Core.Option.{Option, none, some}
use mathlib.Core.Bool.{false}
use mathlib.Core.List.{List, [], ◌∷◌}
use native.Mathlib.Omega.{arith}
use agent_coordination.Prelude.Tests.{if◌then◌else◌, nat_beq, nat_beq_refl}

module _ {ℓ} {A : Type ℓ} (id : A → ℕ) where
  -- `session.get(Record, key)`
  unfoldable pub find_row : ℕ → List A → Option A
  find_row key [] = none
  find_row key (r ∷ rs) = if nat_beq (id r) key then some r else find_row key rs

  -- The row of that key is written anew.
  unfoldable pub put_row : ℕ → A → List A → List A
  put_row key r' [] = []
  put_row key r' (r ∷ rs) = if nat_beq (id r) key then r' ∷ rs else r ∷ put_row key r' rs

  pub find_row-id : (key : ℕ) (rs : List A) (r : A) → find_row key rs ≡ some r → id r ≡ key
  unfolding find_row
  find_row-id key [] r h = ground arith
  find_row-id key (x ∷ rs) r h = ground (arith, find_row-id key rs r)

  pub find_row-put_row :
      (key : ℕ) (r' r : A) (rs : List A)
      → find_row key rs ≡ some r
      → id r' ≡ key
      → find_row key (put_row key r' rs) ≡ some r'
  unfolding find_row put_row
  find_row-put_row key r' r [] h e = ground arith
  find_row-put_row key r' r (x ∷ rs) h e = ground (arith, find_row-put_row key r' r rs)

  pub find_row-put_row_other :
      (key other : ℕ) (r' : A) (rs : List A)
      → id r' ≡ key
      → nat_beq key other ≡ false
      → find_row other (put_row key r' rs) ≡ find_row other rs
  unfolding find_row put_row
  find_row-put_row_other key other r' [] e n = refl
  find_row-put_row_other key other r' (x ∷ rs) e n =
      ground (arith, find_row-put_row_other key other r' rs)

  pub put_row_twice :
      (key : ℕ) (r r' : A) (rs : List A)
      → id r ≡ key
      → put_row key r' (put_row key r rs) ≡ put_row key r' rs
  unfolding put_row
  put_row_twice key r r' [] e = refl
  put_row_twice key r r' (x ∷ rs) e = ground (arith, put_row_twice key r r' rs e, nat_beq_refl key)
