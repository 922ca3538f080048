-- ===== src/Tournament/Methods.antt =====
-- The methods of `TournamentOrchestrator` under one name each, and how a method is carried out: its
-- transaction is committed, and then its jobs are enqueued.
use agent_coordination.Store.{Session, Store, Tx, pure, ◌>>=◌, ◌>>◌}
use agent_coordination.Prelude.{List, Option, [], ℕ}
use agent_coordination.Errors.{Result, err, ok}
use agent_coordination.Tournament.Start.{start_run}
use agent_coordination.Tournament.Judging.{maybe_schedule_judging, start_judging}
use agent_coordination.Tournament.Failure.{fail_run}
use agent_coordination.Tournament.Critics.{maybe_schedule_finalize}
use agent_coordination.Tournament.Advance.{finalize_run}
use agent_coordination.Tournament.Cast.{Externals}
use agent_coordination.Domain.Data.{Format}
use agent_coordination.Floats.{Floats}
use agent_coordination.Queue.Orders.{Draws, Order, enqueue_all}
use agent_coordination.Queue.Rows.{JobRecord}

-- The database and the job queue.
pub record World (F : Type 0) : Type 0 where
  pub store : Store F
  pub jobs : List JobRecord

-- What a caller asks of a run.
pub data Method : Type 0 where
  on_start : Method
  on_research on_judging on_judged on_finalize : Option ℕ → Method
  on_failure : Format → Option ℕ → Method

module _ {F : Type 0} where
  unfoldable pub orders_of : {A : Type 0} → Tx F (A × List Order) → Tx F (List Order)
  orders_of m = m >>= λ r. pure r.1

  unfoldable pub transaction : ⦃o : Floats F⦄ → Externals → Method → ℕ → Tx F (List Order)
  unfolding orders_of start_run maybe_schedule_judging start_judging maybe_schedule_finalize
      finalize_run fail_run
  transaction ext on_start id = orders_of (start_run id)
  transaction ext (on_research generation) id = orders_of (maybe_schedule_judging id generation)
  transaction ext (on_judging generation) id = orders_of (start_judging id generation)
  transaction ext (on_judged generation) id = orders_of (maybe_schedule_finalize ext id generation)
  transaction ext (on_finalize generation) id = orders_of (finalize_run ext id generation)
  transaction ext (on_failure reason agent) id = fail_run id reason agent >> pure []

  unfoldable pub begin_session : Draws → Store F → Session F
  begin_session draws store = record { store = store; now = draws.now; ids = draws.ids; drawn = 0 }

  abbrev pub committed : Draws → World F → Result (List Order × Session F) → Result (World F)
  committed draws world (err e) = err e
  committed draws world (ok (orders, s)) = elim (enqueue_all draws s.drawn orders world.jobs) [
    | err e ↦ err e
    | ok jobs ↦ ok (record { store = s.store; jobs = jobs })
  ]

  unfoldable pub perform :
      ⦃o : Floats F⦄ → Externals → Method → ℕ → Draws → World F → Result (World F)
  unfolding transaction begin_session enqueue_all
  perform ext method id draws world =
      committed draws world (transaction ext method id (begin_session draws world.store))
