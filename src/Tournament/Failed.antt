-- ===== src/Tournament/Failed.antt =====
-- `fail_run` of packages/core/orchestration/tournament.py runs through on every run that is there.
use agent_coordination.Store.{Session, gets, pure, ◌>>=◌, ◌>>◌}
use agent_coordination.Store.Returns.{>>-Returns, Returns, append_event-Returns, pure-Returns}
use agent_coordination.Store.Effects.{Anything}
use agent_coordination.Store.Rows.{write_where}
use agent_coordination.Prelude.{
  Bool, Bool-cases, List, Option, [], ap, false, find_row, find_row-id, inl, inr, nat_eq, none,
  refl, some, string_eq, subst, sym, true, ℕ, ◌==◌, ◌∙◌, ◌∷◌, ◌≡◌,
}
use agent_coordination.Store.Repositories.{get_agent, get_run, update_agent_status}
use agent_coordination.Tournament.Calls.{accepted, update_run_status-Returns}
use agent_coordination.Tournament.Started.{require_run-Returns}
use agent_coordination.Tournament.Failure.{fail_agent, fail_found, fail_run}
use agent_coordination.Tournament.Queries.{require_run}
use agent_coordination.Domain.Data.{Format, end, field, formatted, ident}
use agent_coordination.Domain.Research.{Agent, Run}
use agent_coordination.Domain.Enums.{
  AgentStatus, RunStatus, agent_failed, agent_status_eq, completed, created, failed, judging,
  paused, researching,
}
use agent_coordination.Errors.{ok}
use agent_coordination.RunLifecycle.{assert_run_transition, member, run_id, update_status}

may_fail :
    (status : RunStatus)
    → member status (completed ∷ failed ∷ []) ≡ false
    → assert_run_transition status failed ≡ ok tt
unfolding member assert_run_transition
may_fail created h = refl
may_fail researching h = refl
may_fail judging h = refl
may_fail paused h = refl
may_fail completed h = absurd (cc)
may_fail failed h = absurd (cc)

module _ {F : Type 0} where
  updated :
      (id : ℕ) (status : AgentStatus) (s : Session F) (a : Agent)
      → get_agent id s.store ≡ some a
      → (t : Session F) × (update_agent_status id status s ≡ ok (tt, t))
        × (t.store.runs ≡ s.store.runs)
  unfolding update_agent_status
  updated id status s a found = (
    record s {
      store = record s.store {
        agents = write_where (λ x. x.id == id) (λ x. record x { status = status }) s.store.agents;
      };
    },
    rw (found, update_agent_status) refl,
    refl,
  )

  found_fails :
      (run : ℕ) (reason : Format) (id : ℕ) (s : Session F) (found : Option Agent)
      → get_agent id s.store ≡ found
      → (u : Unit {0}) × (t : Session F) × (fail_found run reason id found s ≡ ok (u, t))
        × (t.store.runs ≡ s.store.runs)
  unfolding fail_found pure ◌>>=◌ ◌>>◌
  found_fails run reason id s none e = (tt, s, refl, refl)
  found_fails run reason id s (some a) e = elim (Bool-cases (a.status == failed)) [
    | inl f ↦ (tt, s, rw f refl, refl)
    | inr n ↦
        let (t, e', same) = updated id failed s a e in
        let (v, u, e2, kept, w) =
          (append_event-Returns run agent_failed
              (field "agent_id" (ident id) (field "reason" (formatted reason) end))).apply
            t refl in
        (v, u, rw (n, e', ◌>>=◌) e2, kept ∙ same)
  ]

module _ {F : Type 0} {runs : List (Run F)} where
  fail_agent-Returns :
      (run : ℕ) (reason : Format) (agent : ℕ)
      → Returns runs runs (fail_agent run reason agent) Anything
  unfolding fail_agent ◌>>=◌ gets
  fail_agent-Returns run reason agent = record {
    apply = λ s same.
        let (u, t, e, kept) = found_fails run reason agent s (get_agent agent s.store) refl in
        (u, t, e, kept ∙ same, tt);
  }

  fail_any-Returns :
      (run : ℕ) (reason : Format) (agent : Option ℕ)
      → Returns runs runs
          (elim agent [ none ↦ pure tt | some a ↦ fail_agent run reason a ])
          Anything
  fail_any-Returns run reason none = pure-Returns tt tt
  fail_any-Returns run reason (some a) = fail_agent-Returns run reason a

  fail_run-Returns :
      {after : List (Run F)} (id : ℕ) (run : Run F) (reason : Format) (agent : Option ℕ)
      → find_row run_id id runs ≡ some run
      → member run.status (completed ∷ failed ∷ []) ≡ false
      → update_status id failed runs ≡ ok after
      → Returns runs after (fail_run id reason agent) Anything
  unfolding fail_run
  fail_run-Returns id run reason agent found unended written = require_run-Returns _ id run found (
      rw unended (
        >>-Returns (fail_any-Returns id reason agent)
          (>>-Returns (update_run_status-Returns id failed written) (append_event-Returns id _ _))))

module _ {F : Type 0} where
  -- What `fail_run` does to a run: nothing once it has ended.
  abbrev pub ended : Run F → Bool
  ended run = member run.status (completed ∷ failed ∷ [])

  ended_stays_so :
      (id : ℕ) (run : Run F) (reason : Format) (agent : Option ℕ) (s : Session F)
      → get_run id s.store ≡ some run
      → ended run ≡ true
      → fail_run id reason agent s ≡ ok (tt, s)
  unfolding fail_run require_run ◌>>=◌ pure
  ended_stays_so id run reason agent s found over = rw (found, ◌>>=◌, over) refl

  -- `fail_run` returns for every run that is there, whatever its status and whichever agent is
  -- named. It leaves the tables of a run that is completed or has failed as they are, and any other
  -- run has failed afterwards, with nothing else of it changed.
  pub fail_run_returns :
      (id : ℕ) (run : Run F) (reason : Format) (agent : Option ℕ) (s : Session F)
      → get_run id s.store ≡ some run
      → (after : Session F) × (fail_run id reason agent s ≡ ok (tt, after))
        × (ended run ≡ true → after ≡ s)
        × (ended run ≡ false → get_run id after.store ≡ some (record run { status = failed }))
  unfolding get_run
  fail_run_returns id run reason agent s found = elim (Bool-cases (ended run)) [
    | inl over ↦ (s, ended_stays_so id run reason agent s found over, λ _. refl, λ e. absurd (cc))
    | inr unended ↦
        let is = find_row-id run_id id s.store.runs run found in
        let (after, written, here) =
          accepted s.store.runs run failed
            (subst (λ n. find_row run_id n s.store.runs ≡ some run) (sym is) found)
            (may_fail run.status unended) in
        let (u, t, e, kept, v) =
          (fail_run-Returns id run reason agent found unended
              (subst (λ n. update_status n failed s.store.runs ≡ ok after) is written)).apply
            s refl in
        (
          t,
          e,
          λ over. absurd (cc),
          λ _.
              ap (find_row run_id id) kept
              ∙ subst (λ n. find_row run_id n after ≡ some (record run { status = failed })) is
                  here,
        )
  ]
