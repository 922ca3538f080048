-- ===== src/Persistence/Events.antt =====
-- `RunEventSqlRepository` of packages/persistence/repositories.py: the log of a run, which a client
-- reads in pages, each after the last event that it has seen.
use agent_coordination.Prelude.{
  Bool, List, Option, [], find_row, keep_if, lexi, ltb, map, nat_eq, none, some, sort, string_eq,
  true, ℕ, ◌&&◌, ◌++◌, ◌==◌, ◌||◌, ◌∷◌,
}
use agent_coordination.Domain.Data.{Fields}
use agent_coordination.Domain.Service.{RunEvent}
use agent_coordination.Domain.Enums.{RunEventType}
use agent_coordination.Floats.{by_number}

pub record RunEventRecord : Type 0 where
  pub id : ℕ
  pub run_id : ℕ
  pub event_type : RunEventType
  pub payload : Fields
  pub created_at : ℕ

unfoldable pub run_event_from_record : RunEventRecord → RunEvent
run_event_from_record r = record {
  run_id = r.run_id;
  event_type = r.event_type;
  payload = r.payload;
  created_at = some r.created_at;
  id = r.id;
}

-- `created_at` is the database's, whatever the event says.
unfoldable pub append_event : ℕ → RunEvent → List RunEventRecord → RunEvent × List RunEventRecord
unfolding run_event_from_record
append_event now e table =
    let r : RunEventRecord = record {
      id = e.id;
      run_id = e.run_id;
      event_type = e.event_type;
      payload = e.payload;
      created_at = now;
    } in
    (run_event_from_record r, table ++ r ∷ [])

abbrev pub event_id : RunEventRecord → ℕ
event_id r = r.id

abbrev pub event_time : RunEventRecord → ℕ
event_time r = r.created_at

-- `ORDER BY created_at, id`
abbrev pub event_order : RunEventRecord → RunEventRecord → Bool
event_order = lexi (by_number event_time) (by_number event_id)

-- `(created_at > anchor.created_at) | ((created_at == anchor.created_at) & (id > anchor.id))`
unfoldable pub is_after : RunEventRecord → RunEventRecord → Bool
is_after anchor r =
    ltb anchor.created_at r.created_at || (r.created_at == anchor.created_at && ltb anchor.id r.id)

-- What `after_id` asks of a row: nothing, when there is no such event.
unfoldable pub passes : Option ℕ → List RunEventRecord → RunEventRecord → Bool
unfolding find_row is_after
passes none table r = true
passes (some id) table r = elim (find_row event_id id table) [
  | none ↦ true
  | some anchor ↦ is_after anchor r
]

unfoldable pub event_rows : ℕ → Option ℕ → List RunEventRecord → List RunEventRecord
unfolding sort keep_if passes
event_rows run after_id table =
    sort event_order (keep_if (passes after_id table) (keep_if (λ r. r.run_id == run) table))

-- `RunEventSqlRepository.list_for_run`
unfoldable pub list_for_run : ℕ → Option ℕ → List RunEventRecord → List RunEvent
unfolding event_rows run_event_from_record
list_for_run run after_id table = map run_event_from_record (event_rows run after_id table)
