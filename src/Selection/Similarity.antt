-- ===== src/Selection/Similarity.antt =====
-- `TournamentPolicy._fingerprint` and `_jaccard`: a submission's set of words, and how alike two such
-- sets are. `str.lower` of the standard library is a parameter; `[a-z0-9]+` is matched by hand.
use agent_coordination.Prelude.{
  Bool, List, Text, [], codes, false, if◌then◌else◌, is_empty, join, keep_if, leb, length, ltb, not,
  or_empty, reverse, ℕ, ◌&&◌, ◌++◌, ◌||◌, ◌∷◌,
}
use agent_coordination.Domain.Keys.{text_beq}
use agent_coordination.Domain.Research.{ClaimDraft, Submission}
use agent_coordination.Floats.{Floats}

unfoldable pub is_token_char : ℕ → Bool
is_token_char c = (leb b'a' c && leb c b'z') || (leb b'0' c && leb c b'9')

-- `_TOKEN_RE.findall`: the longest runs of token characters. `run` is the run so far, reversed.
unfoldable pub find_tokens : Text → Text → List Text
unfolding is_token_char
find_tokens run [] = if is_empty run then [] else reverse run ∷ []
find_tokens run (c ∷ s) =
    let longer = find_tokens (c ∷ run) s in
    let ended = find_tokens [] s in
    if is_token_char c then longer else if is_empty run then ended else reverse run ∷ ended

abbrev pub stopwords : List Text
stopwords =
    codes "a"
    ∷ codes "an"
    ∷ codes "and"
    ∷ codes "are"
    ∷ codes "as"
    ∷ codes "at"
    ∷ codes "be"
    ∷ codes "by"
    ∷ codes "for"
    ∷ codes "from"
    ∷ codes "in"
    ∷ codes "is"
    ∷ codes "it"
    ∷ codes "of"
    ∷ codes "on"
    ∷ codes "or"
    ∷ codes "that"
    ∷ codes "the"
    ∷ codes "this"
    ∷ codes "to"
    ∷ codes "was"
    ∷ codes "with"
    ∷ []

-- A set of texts is a list without repetitions.
unfoldable pub text_in : Text → List Text → Bool
unfolding text_beq
text_in t [] = false
text_in t (s ∷ ss) = text_beq t s || text_in t ss

unfoldable pub set_of : List Text → List Text
unfolding text_in
set_of [] = []
set_of (t ∷ ts) = let rest = set_of ts in if text_in t rest then rest else t ∷ rest

unfoldable pub claim_parts : {F : Type 0} → List (ClaimDraft F) → List Text
unfolding or_empty
claim_parts [] = []
claim_parts (claim ∷ claims) = claim.statement ∷ or_empty claim.support ∷ claim_parts claims

unfoldable pub parts : {F : Type 0} → Submission F → List Text
unfolding claim_parts
parts s =
    (s.summary ∷ s.approach ∷ s.evidence)
    ++ (s.discoveries
        ++ (s.failed_attempts
            ++ (s.open_questions ++ or_empty s.final_answer ∷ claim_parts s.claims)))

unfoldable pub fingerprint : {F : Type 0} → (Text → Text) → Submission F → List Text
unfolding find_tokens set_of parts join keep_if
fingerprint lower submission = set_of (
    keep_if (λ token. ltb 2 (length token) && not (text_in token stopwords))
      (find_tokens [] (lower (join (codes " ") (parts submission)))))

unfoldable pub jaccard : {F : Type 0} ⦃o : Floats F⦄ → List Text → List Text → F
unfolding text_in keep_if
jaccard ⦃o⦄ left right =
    if is_empty left && is_empty right
    then o.one
    else if is_empty left || is_empty right
    then o.zero
    else o.ratio (length (keep_if (λ t. text_in t right) left))
        (length (left ++ keep_if (λ t. not (text_in t left)) right))
