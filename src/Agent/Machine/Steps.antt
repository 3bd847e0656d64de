-- ===== src/Agent/Machine/Steps.antt =====
-- The machine of steps: the race between two copies.
use noshiro_db_backend.Base.{
  ℕ, ◌≡◌, refl, sym, ◌∙◌, ◌≢◌, inl, inr, true, false, some, List, arith, Option-cases, get, IsKeyed,
  update_one, update_one_refused, update_one_flag, get-update_one, IsKeyed-update_one,
}
use noshiro_db_backend.Agent.Model.{StepStatus, AgentStep, step_status_eq_iff}
use noshiro_db_backend.Agent.Machine.{
  StepTransition, step_next, step_updates, step_guard, step_transition, step_pk,
}

step_next-ne_self : (s s' : StepStatus) (a : StepTransition) → step_next s a ≡ some s' → s' ≢ s
unfolding step_next
step_next-ne_self s s' a h = ground arith

module _ (now : ℕ) (copy : AgentStep) (a : StepTransition) (rows : List AgentStep) (row : AgentStep)
    (u : IsKeyed step_pk rows) (g : get step_pk copy.pk rows ≡ some row) where
  -- A copy whose status is no longer the row's loses, and nothing is written.
  pub step_transition_stale :
      row.status ≢ copy.status → step_transition now copy a rows ≡ (false, copy, rows)
  unfolding step_transition
  step_transition_stale ne = elim (Option-cases (step_next copy.status a)) [
    | inl e ↦ rw (e, step_transition)
    | inr (s, e) ↦
        let other : step_guard copy row ≡ false =
          ground (arith, step_status_eq_iff row.status copy.status) in
        rw (
          e,
          step_transition,
          update_one_refused step_pk copy.pk (step_guard copy) (step_updates now copy a s) rows row
              u g other,
        )
  ]

  -- Of a won transition: the row was as the copy says, the action is allowed from there, and the
  -- row is now in the status that the table of transitions gives.
  step_transition_won :
      (step_transition now copy a rows).0 ≡ true
      → (row.status ≡ copy.status)
        × ((s : StepStatus) × (step_next copy.status a ≡ some s)
            × (get step_pk copy.pk (step_transition now copy a rows).2
                ≡ some (step_updates now copy a s row)))
  unfolding step_transition
  step_transition_won won = elim (Option-cases (step_next copy.status a)) [
    | inl e ↦ absurd (cc (rw (e, step_transition) at won))
    | inr (s, e) ↦
        let f = step_updates now copy a s in
        let flag : step_guard copy row ≡ true =
          sym (update_one_flag step_pk copy.pk (step_guard copy) f rows row u g)
          ∙ (rw (e, step_transition) at won) in
        (
          (step_status_eq_iff row.status copy.status).0 flag,
          (
            s,
            e,
            rw (
              e,
              step_transition,
              get-update_one step_pk copy.pk (step_guard copy) f rows row (λ x. refl) g,
              flag,
            ),
          ),
        )
  ]

  -- A copy that is up to date wins with an action that is allowed.
  pub step_transition_fresh :
      (s : StepStatus)
      → row.status ≡ copy.status
      → step_next copy.status a ≡ some s
      → ((step_transition now copy a rows).0 ≡ true)
        × ((step_transition now copy a rows).1 ≡ record copy { status = s })
        × (get step_pk copy.pk (step_transition now copy a rows).2
            ≡ some (step_updates now copy a s row))
  unfolding step_transition
  step_transition_fresh s same e =
      let f = step_updates now copy a s in
      let good : step_guard copy row ≡ true = (step_status_eq_iff row.status copy.status).1 same in
      let flag : (update_one step_pk copy.pk (step_guard copy) f rows).0 ≡ true =
        update_one_flag step_pk copy.pk (step_guard copy) f rows row u g ∙ good in
      (
        rw (e, step_transition) flag,
        rw (e, step_transition, flag),
        rw (
          e,
          step_transition,
          get-update_one step_pk copy.pk (step_guard copy) f rows row (λ x. refl) g,
          good,
        ),
      )

  pub step_transition-IsKeyed : IsKeyed step_pk (step_transition now copy a rows).2
  unfolding step_transition
  step_transition-IsKeyed = elim (Option-cases (step_next copy.status a)) [
    | inl e ↦ rw (e, step_transition) u
    | inr (s, e) ↦
        rw (e, step_transition)
          (IsKeyed-update_one step_pk copy.pk (step_guard copy) (step_updates now copy a s) rows
            (λ x. refl) u)
  ]

-- Two workers hold copies of one step, in a table with unique keys, in the same status. When the
-- first has made its transition, every transition of the second answers false and writes nothing.
step_transition-one_winner :
    (now later : ℕ) (copy rival : AgentStep) (a b : StepTransition) (rows : List AgentStep)
    (row : AgentStep)
    → IsKeyed step_pk rows
    → get step_pk copy.pk rows ≡ some row
    → rival.pk ≡ copy.pk
    → rival.status ≡ copy.status
    → (step_transition now copy a rows).0 ≡ true
    → let after = (step_transition now copy a rows).2 in
      step_transition later rival b after ≡ (false, rival, after)
step_transition-one_winner now later copy rival a b rows row u g same_pk same_status won =
    let (was, (s, e, g')) = step_transition_won now copy a rows row u g won in
    step_transition_stale later rival b (step_transition now copy a rows).2
      (step_updates now copy a s row) (step_transition-IsKeyed now copy a rows row u g)
      (rw same_pk g') (λ back. step_next-ne_self copy.status s a e (back ∙ same_status))
