-- ===== src/Domain/Data.antt =====
-- What the entities are built from. A UUID is its number: the source compares UUIDs with one
-- another and sorts by `str(id)`, whose fixed-width lower-case hexadecimal digits sort as the
-- number does. An f-string is the list of its pieces.
use agent_coordination.Prelude.{Bool, List, String, Text, [], ℕ, ◌∷◌}

-- A piece of an f-string: a literal, a number, a UUID or a text of the data.
pub data Piece : Type 0 where
  word : String → Piece
  num : ℕ → Piece
  ident : ℕ → Piece
  quote : Text → Piece

abbrev pub Format : Type 0
Format = List Piece

-- JSON values. `ident` is the text of a UUID, and `float` a number by its bits.
mutual
  pub data Json : Type 0 where
    null : Json
    bool : Bool → Json
    number : ℕ → Json
    float : ℕ → Json
    text : Text → Json
    ident : ℕ → Json
    formatted : List Piece → Json
    arr : Items → Json
    obj : Fields → Json

  pub data Items : Type 0 where
    nil : Items
    cons : Json → Items → Items

  pub data Fields : Type 0 where
    end : Fields
    field : String → Json → Fields → Fields

-- `Agent.role`: "researcher:0", "judge:1", "critic:2".
pub data Role : Type 0 where
  researcher : ℕ → Role
  judge : ℕ → Role
  critic : ℕ → Role

-- `SelectionDecision.score_vector`
pub record ScoreVector (F : Type 0) : Type 0 where
  pub fatal_error : Bool
  pub correctness : F
  pub rigor : F
  pub judge_novelty : F
  pub research_progress : F
  pub verifiability : F
  pub judge_confidence : F
  pub text_novelty : F
  pub max_text_similarity : F

-- JSON arrays of texts, of UUIDs and of formatted texts.
abbrev pub texts : List Text → Items
texts [] = nil
texts (t ∷ ts) = cons (text t) (texts ts)

abbrev pub idents : List ℕ → Items
idents [] = nil
idents (i ∷ is) = cons (ident i) (idents is)

abbrev pub formats : List Format → Items
formats [] = nil
formats (f ∷ fs) = cons (formatted f) (formats fs)
