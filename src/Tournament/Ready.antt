-- ===== src/Tournament/Ready.antt =====
-- When `maybe_schedule_judging` of packages/core/orchestration/tournament.py answers True.
use agent_coordination.Store.{Session, Store, Tx, gets, lift, pure, ◌>>=◌, ◌>>◌}
use agent_coordination.Store.Effects.{>>=-eq-ok}
use agent_coordination.Prelude.{
  Bool, Bool-cases, List, Option-cases, [], ap, false, find_row-id, if◌then◌else◌, inl, inr, length,
  nat_eq, not, refl, some, string_eq, subst, sym, true, ℕ, ◌==◌, ◌∙◌, ◌∷◌, ◌≡◌,
}
use agent_coordination.Store.Repositories.{get_generation, get_run, submissions_for_generation}
use agent_coordination.Tournament.Judging.{
  judging_verdict, maybe_schedule_judging, research_is_complete,
}
use agent_coordination.Tournament.Cast.{start_judging_order}
use agent_coordination.Tournament.Queries.{
  all_in, any_in, is_latest, require_run, researchers_of, resolve_generation,
}
use agent_coordination.Domain.Research.{Generation, Run}
use agent_coordination.Domain.Enums.{completed, failed, researching, run_status_eq}
use agent_coordination.Errors.{Result, Result-cases, ok, same_ok}
use agent_coordination.Queue.Orders.{Order}

abbrev nothing_scheduled : Bool × List Order
nothing_scheduled = (false, [])

module _ {F : Type 0} where
  -- What is the case when the judging of a generation can begin.
  pub record Ready (id gid : ℕ) (store : Store F) (run : Run F) (generation : Generation)
      : Type 0 where
    pub found : get_run id store ≡ some run
    pub status : run.status ≡ researching
    pub resolved : resolve_generation id (some gid) store ≡ ok generation
    pub latest : is_latest id generation store ≡ true
    pub complete : research_is_complete run generation store ≡ true

  failing :
      (m : Tx F (Unit {0})) (s t : Session F) (orders : List Order)
      → (m >> pure nothing_scheduled) s ≡ ok ((true, orders), t)
      → ⊥
  unfolding ◌>>◌ pure
  failing m s t orders h =
      let (u, s1, e, e') = >>=-eq-ok m (λ _. pure nothing_scheduled) s t (true, orders) h in cc

  verdict_complete :
      (id : ℕ) (run : Run F) (generation : Generation) (s t : Session F) (orders : List Order)
      → judging_verdict id run generation s ≡ ok ((true, orders), t)
      → (research_is_complete run generation s.store ≡ true)
        × (orders ≡ start_judging_order id generation.id ∷ [])
  unfolding judging_verdict research_is_complete ◌>>=◌ gets pure
  verdict_complete id run generation s t orders h =
      let researchers = researchers_of generation.id s.store in
      let submissions = submissions_for_generation generation.id s.store in
      elim (Bool-cases (length researchers == run.population_size)) [
        | inr few ↦ absurd (cc (rw few at h))
        | inl all ↦ elim (Bool-cases (any_in failed researchers)) [
          | inl bad ↦ absurd (failing _ s t orders (rw (all, bad) at h))
          | inr good ↦ elim (Bool-cases (all_in completed researchers)) [
            | inr open_one ↦ absurd (cc (rw (all, good, open_one) at h))
            | inl done ↦ elim (Bool-cases (length submissions == run.population_size)) [
              | inr less ↦ absurd (cc (rw (all, good, done, less) at h))
              | inl enough ↦ (rw (all, done, enough) refl, cc (rw (all, good, done, enough) at h))
            ]
          ]
        ]
      ]

  require_run_found :
      (id : ℕ) (s s1 : Session F) (run : Run F)
      → require_run id s ≡ ok (run, s1)
      → (get_run id s.store ≡ some run) × (s1 ≡ s)
  unfolding require_run
  require_run_found id s s1 run h = elim (Option-cases (get_run id s.store)) [
    | inl missing ↦ cc (rw (require_run, missing) at h)
    | inr (r, found) ↦
        let same = same_ok (rw (require_run, found) at h) in
        (found ∙ ap (λ (x : Run F × Session F). some x.0) same, sym (ap (λ x. x.1) same))
  ]

  lift_found :
      {A : Type 0} (f : Store F → Result A) (s s1 : Session F) (a : A)
      → lift f s ≡ ok (a, s1)
      → (f s.store ≡ ok a) × (s1 ≡ s)
  unfolding lift
  lift_found {A} f s s1 a h = elim (Result-cases (f s.store)) [
    | inr (x, e) ↦ cc (rw (lift, e) at h)
    | inl (b, e) ↦
        let same = same_ok (rw (lift, e) at h) in
        (e ∙ ap (λ (x : A × Session F). ok x.0) same, sym (ap (λ x. x.1) same))
  ]

  gets_step :
      {A B : Type 0} (f : Store F → A) (k : A → Tx F B) (s : Session F)
      → (gets f >>= k) s ≡ k (f s.store) s
  unfolding ◌>>=◌ gets
  gets_step f k s = refl

  abbrev unless_old : ℕ → Run F → Generation → Bool → Tx F (Bool × List Order)
  unless_old id run generation latest =
      if not latest then pure nothing_scheduled else judging_verdict id run generation

  abbrev schedule : ℕ → ℕ → Run F → Tx F (Bool × List Order)
  schedule id gid run =
      if not (run.status == researching)
      then pure nothing_scheduled
      else (lift (resolve_generation id (some gid)) >>= λ generation.
          gets (is_latest id generation) >>= unless_old id run generation)

  latest_verdict :
      (id gid : ℕ) (run : Run F) (s t : Session F) (orders : List Order)
      → get_run id s.store ≡ some run
      → schedule id gid run s ≡ ok ((true, orders), t)
      → (generation : Generation) × Ready id gid s.store run generation
        × (orders ≡ start_judging_order id generation.id ∷ [])
  unfolding pure
  latest_verdict id gid run s t orders found h = elim (Bool-cases (run.status == researching)) [
    | inr other ↦ absurd (cc (rw other at h))
    | inl is ↦
        let (generation, s1, e1, h1) = >>=-eq-ok _ _ s t (true, orders) (rw is at h) in
        let (resolved, same) = lift_found (resolve_generation id (some gid)) s s1 generation e1 in
        let h2 : unless_old id run generation (is_latest id generation s.store) s
            ≡ ok ((true, orders), t) =
          sym (gets_step (is_latest id generation) (unless_old id run generation) s)
          ∙ subst
              (λ (x : Session F).
                (gets (is_latest id generation) >>= unless_old id run generation) x
                ≡ ok ((true, orders), t))
              same h1 in
        elim (Bool-cases (is_latest id generation s.store)) [
          | inr old ↦ absurd (cc (rw old at h2))
          | inl latest ↦
              let (complete, jobs) =
                verdict_complete id run generation s t orders (rw latest at h2) in
              (
                generation,
                record {
                  found = found;
                  status = (run_status_eq.beq_iff run.status researching).0 is;
                  resolved = resolved;
                  latest = latest;
                  complete = complete;
                },
                jobs,
              )
        ]
  ]

  pub schedule-Ready :
      (id gid : ℕ) (s t : Session F) (orders : List Order)
      → maybe_schedule_judging id (some gid) s ≡ ok ((true, orders), t)
      → (run : Run F) × (generation : Generation) × Ready id gid s.store run generation
        × (orders ≡ start_judging_order id generation.id ∷ [])
  unfolding maybe_schedule_judging
  schedule-Ready id gid s t orders h =
      let (run, s1, e1, h1) = >>=-eq-ok (require_run id) (schedule id gid) s t (true, orders) h in
      let (found, same) = require_run_found id s s1 run e1 in
      let (generation, ready, jobs) =
        latest_verdict id gid run s t orders found
          (subst (λ (x : Session F). schedule id gid run x ≡ ok ((true, orders), t)) same h1) in
      (run, generation, ready, jobs)

  pub numbered :
      (run gid : ℕ) (store : Store F) (g : Generation)
      → resolve_generation run (some gid) store ≡ ok g
      → g.id ≡ gid
  unfolding resolve_generation get_generation
  numbered run gid store g h = elim (Option-cases (get_generation gid store)) [
    | inl missing ↦ absurd (cc (rw (resolve_generation, missing) at h))
    | inr (x, found) ↦ elim (Bool-cases (x.run_id == run)) [
      | inr other ↦ absurd (cc (rw (resolve_generation, found, other) at h))
      | inl own ↦
          ap (λ (y : Generation). y.id) (sym (same_ok (rw (resolve_generation, found, own) at h)))
          ∙ find_row-id (λ (y : Generation). y.id) gid store.generations x found
    ]
  ]
