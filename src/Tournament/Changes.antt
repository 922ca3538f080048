-- ===== src/Tournament/Changes.antt =====
-- What a method of packages/core/orchestration/tournament.py that returns has done to the tables.
use agent_coordination.Store.{Session, Store, Tx}
use agent_coordination.Store.Effects.{>>-Ensures, >>=-Ensures, Keeps, pure-Ensures}
use agent_coordination.Prelude.{List, ap, inl, inr, refl, some, subst, sym, ℕ, ◌≡◌}
use agent_coordination.Errors.{Result, Result-cases, err, ok, same_ok}
use agent_coordination.Store.Repositories.{get_run}
use agent_coordination.Tournament.Stable.{Stable}
use agent_coordination.Tournament.KeptStart.{
  fail_run-Keeps, maybe_schedule_judging-Keeps, start_judging-Keeps, start_run-Keeps,
}
use agent_coordination.Tournament.KeptCritics.{maybe_schedule_finalize-Keeps}
use agent_coordination.Tournament.KeptFinal.{finalize_run-Keeps}
use agent_coordination.Tournament.Methods.{
  Method, World, begin_session, committed, on_failure, on_finalize, on_judged, on_judging,
  on_research, on_start, orders_of, perform, transaction,
}
use agent_coordination.Tournament.Evolution.{Evolves, Evolves-Stable, Evolves-refl}
use agent_coordination.Tournament.Cast.{Externals}
use agent_coordination.Domain.Research.{Run}
use agent_coordination.Floats.{Floats}
use agent_coordination.Queue.Orders.{Draws, Order, enqueue_all}

module _ {F : Type 0} {id limit : ℕ} {P : Store F → Type 0} (stable : Stable id limit P) where
  orders_of-Keeps : {A : Type 0} (m : Tx F (A × List Order)) → Keeps P m → Keeps P (orders_of m)
  unfolding orders_of
  orders_of-Keeps m h = >>=-Ensures h λ r _. pure-Ensures _ tt

  pub transaction-Keeps :
      ⦃o : Floats F⦄ (ext : Externals) (method : Method) → Keeps P (transaction ext method id)
  unfolding transaction
  transaction-Keeps ext on_start = orders_of-Keeps _ (start_run-Keeps stable)
  transaction-Keeps ext (on_research g) = orders_of-Keeps _ (maybe_schedule_judging-Keeps stable g)
  transaction-Keeps ext (on_judging g) = orders_of-Keeps _ (start_judging-Keeps stable g)
  transaction-Keeps ext (on_judged g) =
      orders_of-Keeps _ (maybe_schedule_finalize-Keeps stable ext g)
  transaction-Keeps ext (on_finalize g) = orders_of-Keeps _ (finalize_run-Keeps stable ext g)
  transaction-Keeps ext (on_failure reason agent) =
      >>-Ensures (fail_run-Keeps stable reason agent) (pure-Ensures _ tt)

module _ {F : Type 0} ⦃o : Floats F⦄ (ext : Externals) (method : Method) (id : ℕ) (draws : Draws)
    (world after : World F) (returns : perform ext method id draws world ≡ ok after) where
  committed_store :
      (r : Result (List Order × Session F))
      → committed draws world r ≡ ok after
      → (orders : List Order) × (s : Session F) × (r ≡ ok (orders, s)) × (after.store ≡ s.store)
  committed_store (err e) h = cc
  committed_store (ok (orders, s)) h =
      elim (Result-cases (enqueue_all draws s.drawn orders world.jobs)) [
        | inl (jobs, e) ↦
            let same = same_ok (rw (e, committed) at h) in
            (orders, s, refl, ap (λ (w : World F). w.store) (sym same))
        | inr (x, e) ↦ cc (rw (e, committed) at h)
      ]

  -- A property that withstands the writes of the run holds after the method.
  pub perform-Stable :
      {limit : ℕ} {P : Store F → Type 0} → Stable id limit P → P world.store → P after.store
  unfolding perform begin_session
  perform-Stable {P} stable p =
      let (orders, s, e, same) =
        committed_store (transaction ext method id (begin_session draws world.store)) returns in
      let kept = (transaction-Keeps stable ext method).apply _ s orders e p in
      subst P (sym same) kept.0

  -- A method that returns, on a run that is there, moves the status of that run along the lifecycle
  -- diagram and changes nothing else of it; the row of every other run stays as it is. It leaves all
  -- submissions, evaluations and critic findings as they are. Generations, selections, lineage
  -- links, packets and verification results are only added, generations and events to this run
  -- only; agents and candidate states are only added too, or change their status.
  pub perform-Evolves :
      (run : Run F) → get_run id world.store ≡ some run → Evolves id world.store after.store
  perform-Evolves run found =
      perform-Stable (Evolves-Stable world.store id run found) (Evolves-refl id world.store)
