-- ===== src/Memory/Packets.antt =====
-- What `build_memory_packet` puts into a prompt.
use agent_coordination.Prelude.{
  All-at, Bool-cases, List, Member, Member-sort, Text, [], arith, inl, inr, keep_if,
  keep_if-Member_of, leb, leb→le, length, length-map, nat_eq, sort, string_eq, true, ℕ, ◌<◌, ◌||◌,
  ◌≡◌, ◌≤◌,
}
use agent_coordination.Memory.Gather.{gather-Covers, has_key, key_of, length-gather}
use agent_coordination.Memory.{
  build_memory_packet, comes_first, entry_of, gather, is_usable, packet_items,
}
use agent_coordination.Domain.Enums.{knowledge_status_eq}
use agent_coordination.Domain.Research.{KnowledgeItem}
use agent_coordination.Floats.{Floats}
use agent_coordination.Selection.Similarity.{text_in}

module _ (lower : Text → Text) {F : Type 0} ⦃o : Floats F⦄ where
  -- A packet never has more than `max_items` entries.
  pub build_memory_packet_bounded :
      (max_items : ℕ) (items : List (KnowledgeItem F))
      → length (build_memory_packet lower max_items items) ≤ max_items
  unfolding build_memory_packet packet_items
  build_memory_packet_bounded max_items items = elim (Bool-cases (leb max_items 0)) [
    | inl none_wanted ↦ rw none_wanted (omega arith)
    | inr wanted ↦
        let sorted = sort (comes_first lower) (keep_if (is_usable lower) items) in
        rw (wanted, length-map (gather lower max_items 0 [] sorted) (entry_of lower))
          (omega (arith, length-gather lower max_items 0 [] sorted (ground arith)))
  ]

  -- A packet that is not full leaves nothing out: each item that is neither refuted nor blank has the
  -- normalised content of an item of the packet.
  pub packet_items_complete :
      (max_items : ℕ) (items : List (KnowledgeItem F))
      → length (packet_items lower max_items items) < max_items
      → (i : KnowledgeItem F) → Member i items
      → is_usable lower i ≡ true
      → has_key lower (packet_items lower max_items items) (key_of lower i) ≡ true
  unfolding packet_items text_in
  packet_items_complete max_items items h i m e = elim (Bool-cases (leb max_items 0)) [
    | inl none_wanted ↦
        absurd (omega (arith, rw (packet_items, none_wanted) at h, leb→le max_items 0 none_wanted))
    | inr wanted ↦
        let usable = keep_if (is_usable lower) items in
        let sorted = sort (comes_first lower) usable in
        rw wanted (
          All-at
            (λ j.
              (text_in (key_of lower j) []
                || has_key lower (gather lower max_items 0 [] sorted) (key_of lower j))
              ≡ true)
            (Member-sort (comes_first lower) usable (keep_if-Member_of (is_usable lower) items m e))
            (gather-Covers lower max_items 0 [] sorted
              (omega (arith, rw (packet_items, wanted) at h))))
  ]
