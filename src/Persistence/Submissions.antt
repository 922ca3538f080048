-- ===== src/Persistence/Submissions.antt =====
-- The tables of the submissions, whose claims are kept as JSON: packages/persistence/models.py, the mappers of
-- packages/persistence/mappers.py, and the repositories of packages/persistence/repositories.py.
use agent_coordination.Prelude.{
  List, Option, Text, [], if◌then◌else◌, nat_eq, none, refl, some, string_eq, ℕ, ◌==◌, ◌∷◌, ◌≡◌,
}
use agent_coordination.Errors.{Error, Result, err, ok, type_error, ◌>>=◌}
use agent_coordination.Persistence.Sql.{Codec, fetch, fetch_where, insert_one, select_rows}
use agent_coordination.Persistence.Agents.{AgentRecord, is_agent_in}
use agent_coordination.Domain.Data.{
  Fields, Items, Json, cons, end, field, float, nil, null, obj, text, word,
}
use agent_coordination.Domain.Research.{ClaimDraft, Submission}
use agent_coordination.Floats.{Floats}

pub record SubmissionRecord (F : Type 0) : Type 0 where
  pub id : ℕ
  pub agent_id : ℕ
  pub summary : Text
  pub approach : Text
  pub claims : Items
  pub evidence : List Text
  pub discoveries : List Text
  pub failed_attempts : List Text
  pub open_questions : List Text
  pub final_answer : Option Text
  pub raw_response : Text
  pub created_at : ℕ

abbrev pub wrong_type : Error
wrong_type = type_error (word "a value of another type" ∷ [])

abbrev text_json : Option Text → Json
text_json none = null
text_json (some t) = text t

-- The values of a claim have the types that `add` writes. Python would keep any others as they are.
abbrev pub text_value : Json → Result Text
text_value (text t) = ok t
text_value _ = err wrong_type

abbrev pub text_or_none : Json → Result (Option Text)
text_or_none null = ok none
text_or_none (text t) = ok (some t)
text_or_none _ = err wrong_type

-- The keyword arguments of a `ClaimDraft`, of which the last two may be left out.
pub record Arguments (F : Type 0) : Type 0 where
  pub statement : Option Text
  pub confidence : Option F
  pub support : Option Text

module _ {F : Type 0} ⦃o : Floats F⦄ where
  abbrev confidence_json : Option F → Json
  confidence_json none = null
  confidence_json (some x) = float (o.bits x)

  abbrev pub claim_json : ClaimDraft F → Json
  claim_json claim = obj (
      field "statement" (text claim.statement) (
        field "confidence" (confidence_json claim.confidence)
          (field "support" (text_json claim.support) end)))

  -- `[{"statement": ..., "confidence": ..., "support": ...} for claim in submission.claims]`
  unfoldable pub claims_json : List (ClaimDraft F) → Items
  claims_json [] = nil
  claims_json (claim ∷ claims) = cons (claim_json claim) (claims_json claims)

  abbrev pub float_or_none : Json → Result (Option F)
  float_or_none null = ok none
  float_or_none (float bits) = ok (some (o.of_bits bits))
  float_or_none _ = err wrong_type

  unfoldable pub arguments_of : Fields → Arguments F → Result (Arguments F)
  arguments_of end d = ok d
  arguments_of (field name value rest) d =
      if name == "statement"
      then (text_value value >>= λ t. arguments_of rest (record d { statement = some t }))
      else if name == "confidence"
      then (float_or_none value >>= λ x. arguments_of rest (record d { confidence = x }))
      else if name == "support"
      then (text_or_none value >>= λ t. arguments_of rest (record d { support = t }))
      else err (type_error (word "got an unexpected keyword argument " ∷ word name ∷ []))

  abbrev pub draft_of : Arguments F → Result (ClaimDraft F)
  draft_of d = elim d.statement [
    | none ↦ err (type_error (word "missing 1 required positional argument: 'statement'" ∷ []))
    | some t ↦ ok (record { statement = t; confidence = d.confidence; support = d.support })
  ]

  -- `ClaimDraft(**claim)`
  unfoldable pub claim_of : Json → Result (ClaimDraft F)
  unfolding arguments_of
  claim_of (obj fields) =
      arguments_of fields (record { statement = none; confidence = none; support = none })
      >>= draft_of
  claim_of _ = err wrong_type

  -- `[ClaimDraft(**claim) for claim in record.claims]`
  unfoldable pub claims_of : Items → Result (List (ClaimDraft F))
  unfolding claim_of
  claims_of nil = ok []
  claims_of (cons j js) = do claim ← claim_of j; claims ← claims_of js; ok (claim ∷ claims)

  claim_of_json : (claim : ClaimDraft F) → claim_of (claim_json claim) ≡ ok claim
  unfolding claim_of
  claim_of_json claim = read_back claim.statement claim.confidence claim.support
    where
      read_back :
          (statement : Text) (confidence : Option F) (support : Option Text)
          → claim_of (
              claim_json
                (record { statement = statement; confidence = confidence; support = support }))
            ≡ ok (record { statement = statement; confidence = confidence; support = support })
      read_back t none none = refl
      read_back t none (some s) = refl
      read_back t (some x) none = rw (o.bits_kept x) refl
      read_back t (some x) (some s) = rw (o.bits_kept x) refl

  pub claims_of_json : (claims : List (ClaimDraft F)) → claims_of (claims_json claims) ≡ ok claims
  unfolding claims_of claims_json
  claims_of_json [] = refl
  claims_of_json (claim ∷ claims) = rw (claim_of_json claim, claims_of_json claims) refl

  -- The record that `add` makes.
  unfoldable pub submission_record : ℕ → Submission F → SubmissionRecord F
  unfolding claims_json
  submission_record now s = record {
    id = s.id;
    agent_id = s.agent_id;
    summary = s.summary;
    approach = s.approach;
    claims = claims_json s.claims;
    evidence = s.evidence;
    discoveries = s.discoveries;
    failed_attempts = s.failed_attempts;
    open_questions = s.open_questions;
    final_answer = s.final_answer;
    raw_response = s.raw_response;
    created_at = now;
  }

  unfoldable pub submission_from_record : SubmissionRecord F → Result (Submission F)
  unfolding claims_of
  submission_from_record r = do
    claims ← claims_of r.claims
    ok (record {
      agent_id = r.agent_id;
      summary = r.summary;
      approach = r.approach;
      claims = claims;
      evidence = r.evidence;
      discoveries = r.discoveries;
      failed_attempts = r.failed_attempts;
      open_questions = r.open_questions;
      final_answer = r.final_answer;
      raw_response = r.raw_response;
      id = r.id;
    })

  -- The mapper reads back, from the record that `add` makes of a submission, the same submission, its
  -- claims included, which the record keeps as JSON.
  pub submission_round_trip :
      (now : ℕ) (s : Submission F) → submission_from_record (submission_record now s) ≡ ok s
  unfolding submission_record submission_from_record
  submission_round_trip now s = rw (claims_of_json s.claims) refl

  pub submission_same_key :
      (now : ℕ) (s : Submission F)
      → ((submission_record now s).id ≡ s.id) × ((submission_record now s).created_at ≡ now)
  unfolding submission_record
  submission_same_key now s = (refl, refl)

  abbrev pub submission_codec : Codec (Submission F) (SubmissionRecord F)
  submission_codec = record {
    entity_id = λ s. s.id;
    record_id = λ r. r.id;
    created_at = λ r. r.created_at;
    to_record = submission_record;
    from_record = submission_from_record;
    same_id = λ now s. (submission_same_key now s).0;
    same_time = λ now s. (submission_same_key now s).1;
    round_trip = submission_round_trip;
  }

  unfoldable pub add_submission :
      ℕ
      → Submission F
      → List (SubmissionRecord F)
      → Result (Submission F × List (SubmissionRecord F))
  unfolding insert_one
  add_submission = insert_one submission_codec

  unfoldable pub get_submission : ℕ → List (SubmissionRecord F) → Result (Option (Submission F))
  unfolding fetch
  get_submission = fetch submission_codec

  unfoldable pub get_submission_for_agent :
      ℕ → List (SubmissionRecord F) → Result (Option (Submission F))
  unfolding fetch_where
  get_submission_for_agent id = fetch_where submission_codec (λ r. r.agent_id == id)

  -- The join with the agents.
  unfoldable pub list_submissions :
      ℕ → List AgentRecord → List (SubmissionRecord F) → Result (List (Submission F))
  unfolding select_rows is_agent_in
  list_submissions generation agents =
      select_rows submission_codec (λ r. is_agent_in generation agents r.agent_id)
