-- ===== src/Domain/Keys.antt =====
-- Equality of f-strings, piece by piece.
use agent_coordination.Prelude.{
  Bool, true, false, [], ◌∷◌, Eq, ◌==◌, ◌≡◌, ◌↔◌, ◌&&◌, arith, Text, string_eq, nat_eq,
}
use agent_coordination.Domain.Data.{Piece, word, num, ident, quote, Format}

unfoldable pub text_beq : Text → Text → Bool
text_beq [] [] = true
text_beq (c ∷ s) (d ∷ t) = c == d && text_beq s t
text_beq _ _ = false

pub text_beq_iff : (s t : Text) → (text_beq s t ≡ true) ↔ (s ≡ t)
unfolding text_beq
text_beq_iff [] [] = ground arith
text_beq_iff (c ∷ s) (d ∷ t) = ground (arith, text_beq_iff s t)
text_beq_iff [] (d ∷ t) = ground arith
text_beq_iff (c ∷ s) [] = ground arith

instance abbrev pub text_eq : Eq Text
text_eq = record { beq = text_beq; beq_iff = text_beq_iff }

unfoldable pub piece_beq : Piece → Piece → Bool
unfolding text_beq
piece_beq (word a) (word b) = a == b
piece_beq (num a) (num b) = a == b
piece_beq (ident a) (ident b) = a == b
piece_beq (quote a) (quote b) = text_beq a b
piece_beq _ _ = false

pub piece_beq_iff : (a b : Piece) → (piece_beq a b ≡ true) ↔ (a ≡ b)
unfolding piece_beq
piece_beq_iff (word a) (word b) = ground (arith, string_eq.beq_iff a b)
piece_beq_iff (num a) (num b) = ground arith
piece_beq_iff (ident a) (ident b) = ground arith
piece_beq_iff (quote a) (quote b) = ground (arith, text_beq_iff a b)
piece_beq_iff _ _ = ground arith

unfoldable pub format_beq : Format → Format → Bool
unfolding piece_beq
format_beq [] [] = true
format_beq (c ∷ s) (d ∷ t) = piece_beq c d && format_beq s t
format_beq _ _ = false

pub format_beq_iff : (s t : Format) → (format_beq s t ≡ true) ↔ (s ≡ t)
unfolding format_beq
format_beq_iff [] [] = ground arith
format_beq_iff (c ∷ s) (d ∷ t) = ground (arith, piece_beq_iff c d, format_beq_iff s t)
format_beq_iff [] (d ∷ t) = ground arith
format_beq_iff (c ∷ s) [] = ground arith

instance abbrev pub format_eq : Eq Format
format_eq = record { beq = format_beq; beq_iff = format_beq_iff }
