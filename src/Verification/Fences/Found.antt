-- ===== src/Verification/Fences/Found.antt =====
-- The texts in which the search for Python blocks finds a given list of blocks.
use agent_coordination.Prelude.{
  All, Bool-cases, List, Text, [], all_of, ap, arith, codes, false, inl, inr, is_space, length,
  lstrip, map, nat_beq_refl, none, refl, some, true, ℕ, ◌++◌, ◌+◌, ◌∙◌, ◌∷◌, ◌≡◌, ◌≤◌, ◌⊎◌,
}
use agent_coordination.Verification.Fences.Fuel.{
  find_blocks-python_blocks, lstrip_shrinks, match_block_strict,
}
use agent_coordination.Verification.Fences.{
  drop_prefix, fence, find_blocks, lower, match_block, opening, python_blocks, split_fence,
}
use agent_coordination.Testing.Paths.{contains_text, starts_with}

-- The text is the name in letters of either case. The name is in small letters.
abbrev pub Spells : Text → Text → Type 0
Spells [] [] = Unit
Spells [] (p ∷ name) = ⊥
Spells (c ∷ tag) [] = ⊥
Spells (c ∷ tag) (p ∷ name) = ((c ≡ p) ⊎ (c + 32 ≡ p)) × Spells tag name

-- Prose, and then a block behind three ticks, a tag and white space. Three ticks close it.
pub record Section : Type 0 where
  pub prose : Text
  pub tag : Text
  pub space : Text
  pub block : Text

-- Neither the prose nor the block has three ticks in it, nor ends with ticks that its fence would
-- make three of too early. The tag is `python` in any case, and the block does not begin with white
-- space.
pub record IsSection (s : Section) : Type 0 where
  pub plain_prose : contains_text (codes "```") (s.prose ++ codes "``") ≡ false
  pub python_tag : Spells s.tag (codes "python")
  pub blank_space : all_of is_space s.space ≡ true
  pub no_lead : lstrip s.block ≡ s.block
  pub plain_block : contains_text (codes "```") (s.block ++ codes "``") ≡ false

abbrev pub fenced : Section → Text → Text
fenced s after =
    s.prose ++ (codes "```" ++ (s.tag ++ (s.space ++ (s.block ++ (codes "```" ++ after)))))

abbrev pub document : List Section → Text → Text
document [] ending = ending
document (s ∷ sections) ending = fenced s (document sections ending)

IsSmall : ℕ → Type 0
IsSmall p = (97 ≤ p) × (p ≤ 122)

lower_spelled : (c p : ℕ) → IsSmall p → (c ≡ p) ⊎ (c + 32 ≡ p) → lower c ≡ p
unfolding lower IsSmall
lower_spelled c p small (inl e) = ground (arith, e, small.0)
lower_spelled c p small (inr e) = ground (arith, e, small.0, small.1)

drop_prefix_spelled :
    (tag name s : Text) → All IsSmall name → Spells tag name → drop_prefix name (tag ++ s) ≡ some s
unfolding drop_prefix
drop_prefix_spelled [] [] s small h = refl
drop_prefix_spelled [] (p ∷ name) s small h = elim h [ ]
drop_prefix_spelled (c ∷ tag) [] s small h = elim h [ ]
drop_prefix_spelled (c ∷ tag) (p ∷ name) s small h =
    rw (lower_spelled c p small.0 h.0, nat_beq_refl p) (drop_prefix_spelled tag name s small.1 h.1)

python-IsSmall : All IsSmall (codes "python")
unfolding IsSmall
python-IsSmall = ground arith

opening_spelled :
    (tag s : Text)
    → Spells tag (codes "python")
    → drop_prefix opening (codes "```" ++ (tag ++ s)) ≡ some s
unfolding drop_prefix lower
opening_spelled tag s h = drop_prefix_spelled tag (codes "python") s python-IsSmall h

no_prefix : (p q s : Text) → drop_prefix p s ≡ none → drop_prefix (p ++ q) s ≡ none
unfolding drop_prefix
no_prefix [] q s h = absurd (ground (arith, h))
no_prefix (c ∷ p) q [] h = refl
no_prefix (c ∷ p) q (d ∷ s) h = ground (arith, h, no_prefix p q s)

-- No fence begins in a plain text, whatever fence comes after it.
no_fence_yet :
    (c : ℕ) (t after : Text)
    → starts_with (codes "```") (c ∷ t ++ codes "``") ≡ false
    → drop_prefix fence (c ∷ t ++ (codes "```" ++ after)) ≡ none
unfolding drop_prefix starts_with lower
no_fence_yet c [] after h = ground (arith, h)
no_fence_yet c (d ∷ []) after h = ground (arith, h)
no_fence_yet c (d ∷ e ∷ t) after h = ground (arith, h)

plain_head :
    (c : ℕ) (t : Text)
    → contains_text (codes "```") (c ∷ t) ≡ false
    → starts_with (codes "```") (c ∷ t) ≡ false
unfolding contains_text
plain_head c t h = ground (arith, h)

plain_tail :
    (c : ℕ) (t : Text)
    → contains_text (codes "```") (c ∷ t) ≡ false
    → contains_text (codes "```") t ≡ false
unfolding contains_text
plain_tail c t h = ground (arith, h)

split_fence_next :
    (c : ℕ) (s block after : Text)
    → drop_prefix fence (c ∷ s) ≡ none
    → split_fence s ≡ some (block, after)
    → split_fence (c ∷ s) ≡ some (c ∷ block, after)
unfolding split_fence
split_fence_next c s block after h k = rw (split_fence, h, k) refl

split_fence_found :
    (block after : Text)
    → contains_text (codes "```") (block ++ codes "``") ≡ false
    → split_fence (block ++ (codes "```" ++ after)) ≡ some (block, after)
unfolding split_fence drop_prefix lower
split_fence_found [] after h = refl
split_fence_found (c ∷ block) after h =
    split_fence_next c (block ++ (codes "```" ++ after)) block after
      (no_fence_yet c block after (plain_head c (block ++ codes "``") h))
      (split_fence_found block after (plain_tail c (block ++ codes "``") h))

lstrip_space : (space s : Text) → all_of is_space space ≡ true → lstrip (space ++ s) ≡ lstrip s
unfolding lstrip all_of
lstrip_space [] s h = refl
lstrip_space (c ∷ space) s h = elim (Bool-cases (is_space c)) [
  | inl e ↦ rw (lstrip, e) (lstrip_space space s (rw (all_of, e) at h))
  | inr e ↦ absurd (cc (rw (all_of, e) at h))
]

lstrip_block :
    (block s : Text)
    → lstrip block ≡ block
    → lstrip (block ++ (codes "```" ++ s)) ≡ block ++ (codes "```" ++ s)
unfolding lstrip is_space
lstrip_block [] s h = refl
lstrip_block (c ∷ block) s h = elim (Bool-cases (is_space c)) [
  | inl e ↦ absurd (omega (arith, ap length (rw (lstrip, e) at h), lstrip_shrinks block))
  | inr e ↦ rw (lstrip, e) refl
]

-- One step of the search.
python_blocks_next :
    (c : ℕ) (s : Text) → drop_prefix fence (c ∷ s) ≡ none → python_blocks (c ∷ s) ≡ python_blocks s
unfolding python_blocks find_blocks match_block
python_blocks_next c s h =
    let no_opening : drop_prefix opening (c ∷ s) ≡ none =
      no_prefix fence (codes "python") (c ∷ s) h in
    rw (find_blocks, match_block, no_opening) refl

python_blocks_match :
    (c : ℕ) (s block after : Text)
    → match_block (c ∷ s) ≡ some (block, after)
    → python_blocks (c ∷ s) ≡ block ∷ python_blocks after
unfolding python_blocks find_blocks
python_blocks_match c s block after h =
    rw (find_blocks, h)
      (ap (λ bs. block ∷ bs)
        (find_blocks-python_blocks (length s) after
          (omega (arith, match_block_strict (c ∷ s) block after h))))

skip_prose :
    (prose after : Text)
    → contains_text (codes "```") (prose ++ codes "``") ≡ false
    → python_blocks (prose ++ (codes "```" ++ after)) ≡ python_blocks (codes "```" ++ after)
skip_prose [] after h = refl
skip_prose (c ∷ prose) after h =
    python_blocks_next c (prose ++ (codes "```" ++ after))
      (no_fence_yet c prose after (plain_head c (prose ++ codes "``") h))
    ∙ skip_prose prose after (plain_tail c (prose ++ codes "``") h)

no_fence_here : (s : Text) → starts_with (codes "```") s ≡ false → drop_prefix fence s ≡ none
unfolding drop_prefix starts_with lower
no_fence_here [] h = refl
no_fence_here (c ∷ []) h = ground (arith, h)
no_fence_here (c ∷ d ∷ []) h = ground (arith, h)
no_fence_here (c ∷ d ∷ e ∷ s) h = ground (arith, h)

no_block : (s : Text) → contains_text (codes "```") s ≡ false → python_blocks s ≡ []
unfolding python_blocks find_blocks
no_block [] h = refl
no_block (c ∷ s) h =
    python_blocks_next c s (no_fence_here (c ∷ s) (plain_head c s h))
    ∙ no_block s (plain_tail c s h)

match_section :
    (s : Section) (after : Text)
    → IsSection s
    → match_block (codes "```" ++ (s.tag ++ (s.space ++ (s.block ++ (codes "```" ++ after)))))
      ≡ some (s.block, after)
unfolding match_block
match_section s after h =
    let rest = s.block ++ (codes "```" ++ after) in
    rw
      (
        match_block,
        opening_spelled s.tag (s.space ++ rest) h.python_tag,
        lstrip_space s.space rest h.blank_space,
        lstrip_block s.block after h.no_lead,
      )
      (split_fence_found s.block after h.plain_block)

-- In a document of sections, each of them prose and then a block between fences with the tag `python`
-- in any case, and of an ending with no three ticks, the search finds the blocks of the sections, in
-- their order: each without the white space after its tag, and nothing else.
pub python_blocks-document :
    (sections : List Section) (ending : Text)
    → All IsSection sections
    → contains_text (codes "```") ending ≡ false
    → python_blocks (document sections ending) ≡ map (λ (s : Section). s.block) sections
python_blocks-document [] ending h plain = no_block ending plain
python_blocks-document (s ∷ sections) ending h plain =
    let after = document sections ending in
    let inside = s.tag ++ (s.space ++ (s.block ++ (codes "```" ++ after))) in
    skip_prose s.prose inside h.0.plain_prose
    ∙ (python_blocks_match b'`' (codes "``" ++ inside) s.block after (match_section s after h.0)
        ∙ ap (λ bs. s.block ∷ bs) (python_blocks-document sections ending h.1 plain))
