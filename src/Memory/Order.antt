-- ===== src/Memory/Order.antt =====
-- The order of a packet and what can be in it, without the tests of the code.
use agent_coordination.Prelude.{
  Bool, Bool-cases, Text, [], any_of, arith, false, inl, inr, is_empty, is_space, lexi, lexi-cases,
  lstrip, nat_eq, not, refl, string_eq, strip, true, ◌<◌, ◌==◌, ◌∷◌, ◌≡◌, ◌≤◌,
}
use agent_coordination.Memory.{comes_first, confidence_or_zero, is_usable, kind_priority}
use agent_coordination.Domain.Enums.{knowledge_status_eq, refuted, verified}
use agent_coordination.Domain.Research.{KnowledgeItem}
use agent_coordination.Floats.{Floats, by_flag, by_number, descending}

module _ {F : Type 0} ⦃o : Floats F⦄ (lower : Text → Text) where
  abbrev AsVerified : KnowledgeItem F → KnowledgeItem F → Type 0
  AsVerified i j =
      (i.status ≡ verified → j.status ≡ verified) × (j.status ≡ verified → i.status ≡ verified)

  abbrev SameKind : KnowledgeItem F → KnowledgeItem F → Type 0
  SameKind i j = AsVerified i j × (kind_priority i.kind ≡ kind_priority j.kind)

  -- Verified ones come first, then those of a more important kind, then those of which one is more
  -- confident, where none is no confidence, and then those of a smaller id.
  pub data Precedes (i j : KnowledgeItem F) : Type 0 where
    by_status : i.status ≡ verified → ¬ (j.status ≡ verified) → Precedes i j
    by_kind : AsVerified i j → kind_priority i.kind < kind_priority j.kind → Precedes i j
    by_confidence :
        SameKind i j
        → o.at_most (confidence_or_zero lower i) (confidence_or_zero lower j) ≡ false
        → Precedes i j
    by_id :
        SameKind i j
        → o.at_most (confidence_or_zero lower i) (confidence_or_zero lower j) ≡ true
        → i.id ≤ j.id
        → Precedes i j

  -- The item is not refuted, and its content is not only white space.
  abbrev pub Usable : KnowledgeItem F → Type 0
  Usable i = (¬ (i.status ≡ refuted)) × (any_of (λ c. not (is_space c)) i.content ≡ true)

  abbrev verified_first : KnowledgeItem F → KnowledgeItem F → Bool
  verified_first = by_flag (λ (i : KnowledgeItem F). not (i.status == verified))

  abbrev kind_first : KnowledgeItem F → KnowledgeItem F → Bool
  kind_first = by_number (λ (i : KnowledgeItem F). kind_priority i.kind)

  abbrev smaller_id : KnowledgeItem F → KnowledgeItem F → Bool
  smaller_id = by_number (λ (i : KnowledgeItem F). i.id)

  status_differs :
      (i j : KnowledgeItem F)
      → verified_first j i ≡ false
      → (i.status ≡ verified) × (¬ (j.status ≡ verified))
  status_differs i j h = (
    (knowledge_status_eq.beq_iff i.status verified).0 (ground (arith, h)),
    λ e. absurd (ground (arith, h, (knowledge_status_eq.beq_iff j.status verified).1 e)),
  )

  status_agrees :
      (i j : KnowledgeItem F)
      → verified_first j i ≡ true
      → i.status ≡ verified
      → j.status ≡ verified
  status_agrees i j h e =
      (knowledge_status_eq.beq_iff j.status verified).0
        (ground (arith, h, (knowledge_status_eq.beq_iff i.status verified).1 e))

  comes_first_confident :
      (i j : KnowledgeItem F)
      → SameKind i j
      → lexi (descending (confidence_or_zero lower)) smaller_id i j ≡ true
      → Precedes i j
  comes_first_confident i j same h =
      elim (lexi-cases (descending (confidence_or_zero lower)) smaller_id i j h) [
        | inl e ↦ by_confidence same e
        | inr (p, q, n) ↦ by_id same q (ground (arith, n))
      ]

  pub comes_first_lem : (i j : KnowledgeItem F) → comes_first lower i j ≡ true → Precedes i j
  unfolding comes_first
  comes_first_lem i j h =
      let confident = lexi (descending (confidence_or_zero lower)) smaller_id in
      elim (lexi-cases verified_first (lexi kind_first confident) i j h) [
        | inl e ↦ let (v, n) = status_differs i j e in by_status v n
        | inr (a, b, more) ↦
            let same : AsVerified i j = (status_agrees i j b, status_agrees j i a) in
            elim (lexi-cases kind_first confident i j more) [
              | inl e ↦ by_kind same (ground (arith, e))
              | inr (c, d, rest) ↦ comes_first_confident i j (same, ground (arith, c, d)) rest
            ]
      ]

blank_left : (s : Text) → any_of (λ c. not (is_space c)) s ≡ false → lstrip s ≡ []
unfolding lstrip any_of
blank_left [] h = refl
blank_left (c ∷ s) h = elim (Bool-cases (is_space c)) [
  | inl e ↦ rw e (blank_left s (ground (arith, e, h)))
  | inr e ↦ absurd (ground (arith, e, h))
]

not_blank : (s : Text) → is_empty (strip s) ≡ false → any_of (λ c. not (is_space c)) s ≡ true
unfolding strip lstrip
not_blank s h = elim (Bool-cases (any_of (λ c. not (is_space c)) s)) [
  | inl e ↦ e
  | inr e ↦ absurd (cc (rw (blank_left s e) at h))
]

pub is_usable_lem :
    {F : Type 0} ⦃o : Floats F⦄ (lower : Text → Text) (i : KnowledgeItem F)
    → is_usable lower i ≡ true
    → Usable lower i
unfolding is_usable
is_usable_lem lower i h = (
  λ e. absurd (ground (arith, h, (knowledge_status_eq.beq_iff i.status refuted).1 e)),
  not_blank i.content (ground (arith, h)),
)
