-- ===== src/Tournament/Examples.antt =====
-- A run of two researchers that is started.
use agent_coordination.Store.{
  Session, Store, collect, for_each, fresh_id, gets, lift, pure, raise, ◌>>=◌, ◌>>◌,
}
use agent_coordination.Store.Rows.{Stamped}
use agent_coordination.Prelude.{
  List, [], arith, false, find_row, if◌then◌else◌, keep_if, leb, map, nat_eq, none, put_row, refl,
  some, string_eq, true, ℕ, ◌*◌, ◌+◌, ◌-◌, ◌/◌, ◌==◌, ◌∷◌, ◌≡◌,
}
use agent_coordination.Errors.{err, ok}
use agent_coordination.Store.Repositories.{get_run}
use agent_coordination.Tournament.Methods.{World, begin_session, on_start, perform}
use agent_coordination.Tournament.Started.{begun, start_run_returns}
use agent_coordination.Tournament.Scheduled.{scheduled_judging_returns}
use agent_coordination.Tournament.Failed.{ended, fail_run_returns}
use agent_coordination.Tournament.Failure.{fail_run}
use agent_coordination.Tournament.Calls.{Called}
use agent_coordination.Tournament.Evolution.{Evolves}
use agent_coordination.Tournament.Changes.{perform-Evolves}
use agent_coordination.Tournament.Bounds.{AllSound, perform-AllSound}
use agent_coordination.Tournament.Start.{start_run}
use agent_coordination.Tournament.Judging.{maybe_schedule_judging, start_judging}
use agent_coordination.Tournament.Cast.{
  Externals, judge_count, judge_order, range_from, research_orders, start_judging_order,
}
use agent_coordination.Domain.Research.{Agent, Generation, Run, Submission}
use agent_coordination.Domain.Enums.{
  completed, constructive, created, failed, initial, judging, researching, run_status_eq,
}
use agent_coordination.Domain.Data.{judge, researcher, word}
use agent_coordination.RunLifecycle.{assert_run_transition, member}
use agent_coordination.Floats.{Floats, by_number-IsOrder}
use agent_coordination.Queue.Orders.{Draws}
use agent_coordination.Domain.Keys.{format_beq}
use Prim.Native.Nat.{◌-◌, ◌/◌}

instance abbrev units : Floats ℕ
units = record {
  at_most = leb;
  order = by_number-IsOrder (λ (n : ℕ). n);
  zero = 0;
  one = 1;
  sub = λ a b. a - b;
  fmean = λ xs. 0;
  ratio = λ a b. a / b;
  round6 = λ a. a;
  add = λ a b. a + b;
  mul = λ a b. a * b;
  over = λ a n. a / n;
  bits = λ a. a;
  of_bits = λ a. a;
  bits_kept = λ a. refl;
}

abbrev ext : Externals
ext = record { lower = λ t. t; digest = λ f. 0; syntax_error = λ t. none }

abbrev draws : Draws
draws = record { now = 5; ids = λ n. 100 + n }

abbrev new_run : Run ℕ
new_run = record {
  problem_id = 1;
  status = created;
  max_generations = 2;
  population_size = 2;
  survivor_count = 1;
  fresh_agent_count = 1;
  redundancy_threshold = 1;
  critic_count = 0;
  verification_enabled = false;
  id = 7;
}

abbrev empty_store : Store ℕ
empty_store = record {
  runs = new_run ∷ [];
  generations = [];
  agents = [];
  submissions = [];
  evaluations = [];
  selections = [];
  lineages = [];
  candidate_states = [];
  critic_findings = [];
  cross_pollination = [];
  verifications = [];
  events = [];
}

abbrev world : World ℕ
world = record { store = empty_store; jobs = [] }

abbrev after_start : World ℕ
after_start = elim (perform ext on_start 7 draws world) [ ok w ↦ w | err e ↦ world ]

start_returns : perform ext on_start 7 draws world ≡ ok after_start
unfolding perform ◌>>=◌ ◌>>◌ pure gets lift fresh_id for_each collect raise assert_run_transition
    format_beq
start_returns = refl

new_run_found : get_run 7 world.store ≡ some new_run
unfolding get_run
new_run_found = refl

-- The run goes on to research, with its first generation and a job for each researcher.
started : map (λ (r : Run ℕ). r.status) after_start.store.runs ≡ researching ∷ []
unfolding perform ◌>>=◌ ◌>>◌ pure gets lift fresh_id for_each collect raise assert_run_transition
    format_beq put_row
started = refl

perform-Evolves_example : Evolves 7 world.store after_start.store
perform-Evolves_example =
    perform-Evolves ext on_start 7 draws world after_start start_returns new_run new_run_found

world_sound : AllSound world.store
unfolding get_run find_row keep_if
world_sound = record {
  each = λ id r found. record { positive = ground (arith, found); below = tt; distinct = tt };
}

perform-AllSound_example : AllSound after_start.store
perform-AllSound_example =
    perform-AllSound ext on_start 7 draws world after_start start_returns new_run new_run_found
      world_sound

abbrev at_start : Session ℕ
at_start = begin_session draws empty_store

new_run_at_start : get_run 7 at_start.store ≡ some new_run
unfolding get_run begin_session
new_run_at_start = refl

new_run_may_start : member new_run.status (created ∷ researching ∷ judging ∷ completed ∷ []) ≡ true
unfolding member
new_run_may_start = refl

start_run_returns_example :
    (generation : Generation) × (researchers : List Agent) × (after : Session ℕ) × (start_run 7
        at_start
      ≡ ok (
        (
          generation,
          if new_run.status == completed then [] else research_orders 7 generation researchers,
        ),
        after,
      ))
    × (generation.run_id ≡ 7)
    × (generation.index ≡ 0)
    × Called researcher (range_from 0 2) researchers
    × (get_run 7 after.store ≡ some (begun new_run))
start_run_returns_example = start_run_returns 7 new_run at_start new_run_at_start new_run_may_start

abbrev done : ℕ → ℕ → Stamped Agent
done index id = record {
  row = record {
    generation_id = 3;
    role = researcher index;
    status = completed;
    niche = constructive;
    origin = initial;
    id = id;
  };
  created_at = 1;
}

abbrev submitted : ℕ → ℕ → Stamped (Submission ℕ)
submitted agent id = record {
  row = record {
    agent_id = agent;
    summary = [];
    approach = [];
    claims = [];
    evidence = [];
    discoveries = [];
    failed_attempts = [];
    open_questions = [];
    final_answer = none;
    raw_response = [];
    id = id;
  };
  created_at = 2;
}

abbrev researched : Session ℕ
researched = begin_session draws (record empty_store {
  runs = record new_run { status = researching } ∷ [];
  generations = record { run_id = 7; index = 0; id = 3 } ∷ [];
  agents = done 0 10 ∷ done 1 11 ∷ [];
  submissions = submitted 10 20 ∷ submitted 11 21 ∷ [];
})

judging_scheduled :
    maybe_schedule_judging 7 (some 3) researched
    ≡ ok ((true, start_judging_order 7 3 ∷ []), researched)
unfolding maybe_schedule_judging begin_session ◌>>=◌ ◌>>◌ pure gets lift
judging_scheduled = refl

scheduled_judging_returns_example :
    (start_judging_order 7 3 ∷ [] ≡ start_judging_order 7 3 ∷ [])
    × (judges : List Agent) × (run : Run ℕ) × (after : Session ℕ) × (start_judging 7
          (some 3)
          researched
        ≡ ok ((judges, map (judge_order 7 3) judges), after))
    × Called judge (range_from 0 judge_count) judges
    × (get_run 7 after.store ≡ some run)
    × (run.status ≡ judging)
scheduled_judging_returns_example =
    scheduled_judging_returns 7 3 researched researched researched (start_judging_order 7 3 ∷ [])
      judging_scheduled refl

fail_run_returns_example :
    (after : Session ℕ) × (fail_run 7 (word "no answer" ∷ []) (some 10) at_start ≡ ok (tt, after))
    × (ended new_run ≡ true → after ≡ at_start)
    × (ended new_run ≡ false → get_run 7 after.store ≡ some (record new_run { status = failed }))
fail_run_returns_example =
    fail_run_returns 7 new_run (word "no answer" ∷ []) (some 10) at_start new_run_at_start
