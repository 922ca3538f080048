-- ===== src/Verification/Fences/Fuel.antt =====
-- The fuel of the search for blocks is enough: more of it finds the same blocks.
use agent_coordination.Prelude.{
  Option-cases, Text, [], arith, codes, inl, inr, length, lstrip, refl, some, suc, zero, ℕ, ◌<◌,
  ◌∷◌, ◌≡◌, ◌≤◌,
}
use agent_coordination.Verification.Fences.{
  drop_prefix, fence, find_blocks, match_block, opening, python_blocks, split_fence,
}

drop_prefix_shrinks : (p s rest : Text) → drop_prefix p s ≡ some rest → length rest ≤ length s
unfolding drop_prefix
drop_prefix_shrinks [] s rest h = ground arith
drop_prefix_shrinks (p ∷ ps) [] rest h = ground arith
drop_prefix_shrinks (p ∷ ps) (c ∷ s) rest h = ground (arith, drop_prefix_shrinks ps s rest)

drop_prefix_strict :
    (p : ℕ) (ps s rest : Text) → drop_prefix (p ∷ ps) s ≡ some rest → length rest < length s
unfolding drop_prefix
drop_prefix_strict p ps [] rest h = ground arith
drop_prefix_strict p ps (c ∷ s) rest h = ground (arith, drop_prefix_shrinks ps s rest)

pub lstrip_shrinks : (s : Text) → length (lstrip s) ≤ length s
unfolding lstrip
lstrip_shrinks [] = omega arith
lstrip_shrinks (c ∷ s) = ground (arith, lstrip_shrinks s)

split_fence_shrinks :
    (s block rest : Text) → split_fence s ≡ some (block, rest) → length rest ≤ length s
unfolding split_fence
split_fence_shrinks [] block rest h = ground arith
split_fence_shrinks (c ∷ s) block rest h = elim (Option-cases (split_fence s)) [
  | inl e ↦ ground (arith, drop_prefix_shrinks fence (c ∷ s) rest)
  | inr ((b, r), e) ↦
      ground (arith, drop_prefix_shrinks fence (c ∷ s) rest, split_fence_shrinks s b r e)
]

pub match_block_strict :
    (s block rest : Text) → match_block s ≡ some (block, rest) → length rest < length s
unfolding match_block
match_block_strict s block rest h = elim (Option-cases (drop_prefix opening s)) [
  | inl e ↦ absurd (ground (arith, e))
  | inr (r, e) ↦
      let found : split_fence (lstrip r) ≡ some (block, rest) = ground (arith, e) in
      omega (
        arith,
        split_fence_shrinks (lstrip r) block rest found,
        lstrip_shrinks r,
        drop_prefix_strict b'`' (codes "``python") s r e,
      )
]

find_blocks_fuel :
    (fuel fuel' : ℕ) (s : Text)
    → length s ≤ fuel
    → length s ≤ fuel'
    → find_blocks fuel s ≡ find_blocks fuel' s
unfolding find_blocks
find_blocks_fuel zero zero [] h h' = refl
find_blocks_fuel zero (suc m) [] h h' = refl
find_blocks_fuel (suc n) zero [] h h' = refl
find_blocks_fuel (suc n) (suc m) [] h h' = refl
find_blocks_fuel zero fuel' (c ∷ s) h h' = absurd (omega arith)
find_blocks_fuel (suc n) zero (c ∷ s) h h' = absurd (omega arith)
find_blocks_fuel (suc n) (suc m) (c ∷ s) h h' = elim (Option-cases (match_block (c ∷ s))) [
  | inl e ↦ ground (arith, e, find_blocks_fuel n m s)
  | inr ((block, rest), e) ↦
      ground (arith, e, match_block_strict (c ∷ s) block rest e, find_blocks_fuel n m rest)
]

-- The search for Python blocks never runs out of fuel: with any fuel from the length of the text
-- upwards it finds the blocks that `python_blocks` finds.
pub find_blocks-python_blocks :
    (fuel : ℕ) (s : Text) → length s ≤ fuel → find_blocks fuel s ≡ python_blocks s
unfolding python_blocks
find_blocks-python_blocks fuel s h = find_blocks_fuel fuel (length s) s h (omega arith)
