-- ===== src/Routing/Choice.antt =====
-- What the router chooses.
use agent_coordination.Prelude.{
  All, All-at, All-imp, Bool, Bool-cases, IsOrder, IsSorted, List, Member, Member-cons,
  Member-image, Member-sort, String, [], ap, arith, false, first, inl, inr, is_empty, keep_if,
  keep_if-Member, keep_if-Member_of, keep_if-empty, later, length, length-map, length-sort, lexi,
  lexi-IsOrder, lexi-cases, map, refl, sort, sort-IsSorted, sort-Member, subst, sym, true, ◌<◌, ◌∙◌,
  ◌∷◌, ◌≡◌, ◌≤◌, ◌⊎◌,
}
use agent_coordination.Errors.{err, ok, runtime_error}
use agent_coordination.Routing.{
  AdaptiveRouter, Arithmetic, RoutingDecision, choose, decision_on, has_capacity, preferred,
  utility,
}
use agent_coordination.Domain.Data.{word}
use agent_coordination.Domain.Service.{ModelState}
use agent_coordination.Floats.{
  Floats, ascending, ascending-IsOrder, by_number, by_number-IsOrder, descending,
  descending-IsOrder,
}

List-cases : {A : Type 0} (xs : List A) → (xs ≡ []) ⊎ ((x : A) × (rest : List A) × (xs ≡ x ∷ rest))
List-cases [] = inl refl
List-cases (x ∷ rest) = inr (x, rest, refl)

is_empty-length : {A : Type 0} (xs : List A) → length xs ≡ 0 → is_empty xs ≡ true
is_empty-length [] h = refl
is_empty-length (x ∷ xs) h = absurd (omega (arith, h))

image-Member :
    {A B : Type 0} (f : A → B) {a : A} (xs : List A) → Member a xs → Member (f a) (map f xs)
image-Member f (x ∷ xs) first = first
image-Member f (x ∷ xs) (later m) = later (image-Member f xs m)
image-Member f [] m = elim m [ ]

module _ {F : Type 0} ⦃o : Floats F⦄ (arithmetic : Arithmetic F) (router : AdaptiveRouter F)
    (task_type : String) (task_value : F) where
  abbrev pub precedes : RoutingDecision F → RoutingDecision F → Bool
  precedes = preferred arithmetic router task_type task_value

  preferred-IsOrder : IsOrder precedes
  unfolding preferred
  preferred-IsOrder = lexi-IsOrder (descending-IsOrder (λ (d : RoutingDecision F). d.utility)) (
      lexi-IsOrder (ascending-IsOrder (λ (d : RoutingDecision F). d.state.failure_rate)) (
        lexi-IsOrder (ascending-IsOrder (λ (d : RoutingDecision F). d.state.latency_ms))
          (by_number-IsOrder (λ (d : RoutingDecision F). d.state.model_profile_id))))

  -- The model is enabled and has a free slot.
  abbrev pub Available : ModelState F → Type 0
  Available s = (s.enabled ≡ true) × (0 < s.available_concurrency)

  abbrev gain : ModelState F → F
  gain = utility arithmetic router task_type task_value

  abbrev Same : (ModelState F → F) → ModelState F → ModelState F → Type 0
  Same key s t = (o.at_most (key s) (key t) ≡ true) × (o.at_most (key t) (key s) ≡ true)

  abbrev Less : (ModelState F → F) → ModelState F → ModelState F → Type 0
  Less key s t = o.at_most (key t) (key s) ≡ false

  -- The first model has the greater utility; or the same and fails less often; or is as reliable and
  -- has the smaller latency; or is as fast and has no greater id.
  pub data Beats (s t : ModelState F) : Type 0 where
    more_useful : Less gain t s → Beats s t
    more_reliable : Same gain s t → Less (λ m. m.failure_rate) s t → Beats s t
    faster :
        Same gain s t → Same (λ m. m.failure_rate) s t → Less (λ m. m.latency_ms) s t → Beats s t
    smaller_id :
        Same gain s t
        → Same (λ m. m.failure_rate) s t
        → Same (λ m. m.latency_ms) s t
        → s.model_profile_id ≤ t.model_profile_id
        → Beats s t

  -- The decision is on an available model, with its utility, and that model beats each available one.
  pub record Best (states : List (ModelState F)) (d : RoutingDecision F) : Type 0 where
    pub offered : Member d.state states
    pub free : Available d.state
    pub weighed : d.utility ≡ utility arithmetic router task_type task_value d.state
    pub beats_others :
        (other : ModelState F) → Member other states → Available other → Beats d.state other

  abbrev decide : ModelState F → RoutingDecision F
  decide = decision_on arithmetic router task_type task_value

  abbrev capable : ModelState F → Bool
  capable = has_capacity arithmetic router task_type task_value

  abbrev scored : List (ModelState F) → List (RoutingDecision F)
  scored states = map decide (keep_if capable states)

  none_scored :
      (states : List (ModelState F))
      → sort precedes (scored states) ≡ []
      → All (λ s. capable s ≡ false) states
  none_scored states e = keep_if-empty capable states (
      is_empty-length (keep_if capable states) (
        sym (length-map (keep_if capable states) decide)
        ∙ (sym (length-sort precedes (scored states)) ∙ ap length e)))

  comes_before :
      (d other : RoutingDecision F) (rest : List (RoutingDecision F))
      → IsSorted precedes (d ∷ rest)
      → Member other (d ∷ rest)
      → precedes d other ≡ true
  comes_before d other rest sorted m = elim (Member-cons m) [
    | inl same ↦
        subst (λ x. precedes d x ≡ true) same
          (elim (Bool-cases (precedes d d)) [ inl e ↦ e | inr e ↦ preferred-IsOrder.total d d e ])
    | inr n ↦ All-at (λ y. precedes d y ≡ true) n sorted.0
  ]

  capable_free : (s : ModelState F) → capable s ≡ true → Available s
  unfolding has_capacity
  capable_free s h = (ground (arith, h), ground (arith, h))

  free_capable : (s : ModelState F) → Available s → capable s ≡ true
  unfolding has_capacity
  free_capable s (on, slots) = ground (arith, on, slots)

  not_capable : (s : ModelState F) → capable s ≡ false → ¬ Available s
  not_capable s h free = absurd (cc (h, free_capable s free))

  faster_first : RoutingDecision F → RoutingDecision F → Bool
  faster_first =
      lexi (ascending (λ (d : RoutingDecision F). d.state.latency_ms))
        (by_number (λ (d : RoutingDecision F). d.state.model_profile_id))

  beats_by_latency :
      (s t : ModelState F)
      → Same gain s t
      → Same (λ m. m.failure_rate) s t
      → faster_first (decide s) (decide t) ≡ true
      → Beats s t
  unfolding faster_first
  beats_by_latency s t useful reliable h =
      elim (lexi-cases (ascending (λ (d : RoutingDecision F). d.state.latency_ms))
        (by_number (λ (d : RoutingDecision F). d.state.model_profile_id)) (decide s) (decide t) h) [
          | inl e ↦ faster useful reliable e
          | inr (p, q, n) ↦ smaller_id useful reliable (p, q) (ground (arith, n))
        ]

  beats : (s t : ModelState F) → precedes (decide s) (decide t) ≡ true → Beats s t
  unfolding preferred faster_first
  beats s t h =
      let by_failures = ascending (λ (d : RoutingDecision F). d.state.failure_rate) in
      elim (lexi-cases (descending (λ (d : RoutingDecision F). d.utility))
        (lexi by_failures faster_first) (decide s) (decide t) h) [
          | inl e ↦ more_useful e
          | inr (p, q, more) ↦
              elim (lexi-cases by_failures faster_first (decide s) (decide t) more) [
                | inl e ↦ more_reliable (q, p) e
                | inr (u, v, rest) ↦ beats_by_latency s t (q, p) (u, v) rest
              ]
        ]

  chosen_by_order :
      (states : List (ModelState F)) (d : RoutingDecision F) (rest : List (RoutingDecision F))
      → sort precedes (scored states) ≡ d ∷ rest
      → Best states d
  chosen_by_order states d rest e =
      let (s, m, same) =
        Member-image decide (keep_if capable states)
          (sort-Member precedes (scored states) (subst (Member d) (sym e) first)) in
      let (k, h) = keep_if-Member capable states m in
      let state : s ≡ d.state = ap (λ (x : RoutingDecision F). x.state) same in
      let decided : d ≡ decide d.state = sym same ∙ ap decide state in
      record {
        offered = subst (λ x. Member x states) state k;
        free = capable_free d.state (subst (λ x. capable x ≡ true) state h);
        weighed = ap (λ (x : RoutingDecision F). x.utility) decided;
        beats_others = λ other n c. beats d.state other (
            subst (λ x. precedes x (decide other) ≡ true) decided
              (comes_before d (decide other) rest
                (subst (IsSorted precedes) e
                  (sort-IsSorted precedes preferred-IsOrder (scored states)))
                (subst (Member (decide other)) e (
                  Member-sort precedes (scored states) (
                    image-Member decide (keep_if capable states)
                      (keep_if-Member_of capable states n (free_capable other c)))))));
      }

  -- `choose` raises exactly when no model is enabled with a free slot. Otherwise it returns a decision
  -- on such a model, with its utility, and the model beats each other such model: by utility, then by
  -- failure rate, then by latency, then by id.
  pub choose_lem :
      (states : List (ModelState F))
      → (All (λ s. ¬ ((s.enabled ≡ true) × (0 < s.available_concurrency))) states
          × (choose arithmetic router task_type task_value states
              ≡ err (runtime_error (word "No model capacity is currently available" ∷ []))))
        ⊎ ((d : RoutingDecision F) × (choose arithmetic router task_type task_value states ≡ ok d)
            × Best states d)
  unfolding choose
  choose_lem states = elim (List-cases (sort precedes (scored states))) [
    | inl e ↦ inl (All-imp states not_capable (none_scored states e), rw (e, choose) refl)
    | inr (d, rest, e) ↦ inr (d, rw (e, choose) refl, chosen_by_order states d rest e)
  ]
