-- ===== src/Verification/Fences.antt =====
-- `_PYTHON_BLOCK.findall`: the texts between "```python", with the white space after it, and the next
-- "```". The pattern ignores case, and its group is as short as it can be. A shorter match of the
-- white space finds no other fence, since a fence has no white space in it.
pub mod Fuel
pub mod Found
use agent_coordination.Prelude.{
  List, Option, Text, [], codes, if◌then◌else◌, leb, length, lstrip, nat_beq, none, some, suc, zero,
  ℕ, ◌&&◌, ◌+◌, ◌∷◌,
}

unfoldable pub lower : ℕ → ℕ
lower c = if leb b'A' c && leb c b'Z' then c + 32 else c

-- What follows the prefix, which is matched without regard to case.
unfoldable pub drop_prefix : Text → Text → Option Text
unfolding lower
drop_prefix [] s = some s
drop_prefix (p ∷ ps) [] = none
drop_prefix (p ∷ ps) (c ∷ s) =
    let rest = drop_prefix ps s in if nat_beq (lower c) p then rest else none

abbrev pub fence : Text
fence = codes "```"

abbrev pub opening : Text
opening = codes "```python"

-- The text up to the next fence, and what follows the fence.
unfoldable pub split_fence : Text → Option (Text × Text)
unfolding drop_prefix
split_fence [] = none
split_fence (c ∷ s) =
    let deeper = split_fence s in
    elim (drop_prefix fence (c ∷ s)) [
      | some rest ↦ some ([], rest)
      | none ↦ elim deeper [ none ↦ none | some (block, rest) ↦ some (c ∷ block, rest) ]
    ]

-- A match at the start of the text: the block, and where the search goes on.
unfoldable pub match_block : Text → Option (Text × Text)
unfolding split_fence lstrip
match_block s = elim (drop_prefix opening s) [ none ↦ none | some rest ↦ split_fence (lstrip rest) ]

-- `fuel` bounds the number of positions at which the search stops.
unfoldable pub find_blocks : ℕ → Text → List Text
unfolding match_block
find_blocks zero s = []
find_blocks (suc fuel) [] = []
find_blocks (suc fuel) (c ∷ s) = elim (match_block (c ∷ s)) [
  | none ↦ find_blocks fuel s
  | some (block, rest) ↦ block ∷ find_blocks fuel rest
]

unfoldable pub python_blocks : Text → List Text
unfolding find_blocks
python_blocks s = find_blocks (length s) s
