-- ===== src/Agent/Machine/Race.antt =====
-- The guarded writes of the state machines: who wins, and what a lost race leaves behind.
use noshiro_db_backend.Base.{
  ℕ, ◌≡◌, ◌≢◌, inl, inr, true, false, some, List, arith, Option-cases, get, IsKeyed,
  update_one_refused, update_one_flag, get-update_one, IsKeyed-update_one, refl, sym, ◌∙◌,
}
use noshiro_db_backend.Agent.Model.{RunStatus, AgentRun, run_status_eq_iff}
use noshiro_db_backend.Agent.Machine.{
  RunTransition, run_next, run_updates, run_guard, run_transition, run_pk,
}

run_next-ne_self : (s s' : RunStatus) (a : RunTransition) → run_next s a ≡ some s' → s' ≢ s
unfolding run_next
run_next-ne_self s s' a h = ground arith

module _ (now : ℕ) (copy : AgentRun) (a : RunTransition) (rows : List AgentRun) (row : AgentRun)
    (u : IsKeyed run_pk rows) (g : get run_pk copy.pk rows ≡ some row) where
  -- A copy whose status is no longer the row's loses, and nothing is written.
  pub run_transition_stale :
      row.status ≢ copy.status → run_transition now copy a rows ≡ (false, copy, rows)
  unfolding run_transition
  run_transition_stale ne = elim (Option-cases (run_next copy.status a)) [
    | inl e ↦ rw (e, run_transition)
    | inr (s, e) ↦
        let other : run_guard copy row ≡ false =
          ground (arith, run_status_eq_iff row.status copy.status) in
        rw (
          e,
          run_transition,
          update_one_refused run_pk copy.pk (run_guard copy) (run_updates now copy a s) rows row u g
              other,
        )
  ]

  -- Of a won transition: the row was as the copy says, the action is allowed from there, and the
  -- row is now in the status that the table of transitions gives.
  run_transition_won :
      (run_transition now copy a rows).0 ≡ true
      → (row.status ≡ copy.status)
        × ((s : RunStatus) × (run_next copy.status a ≡ some s)
            × (get run_pk copy.pk (run_transition now copy a rows).2
                ≡ some (run_updates now copy a s row)))
  unfolding run_transition
  run_transition_won won = elim (Option-cases (run_next copy.status a)) [
    | inl e ↦ absurd (cc (rw (e, run_transition) at won))
    | inr (s, e) ↦
        let f = run_updates now copy a s in
        let flag : run_guard copy row ≡ true =
          sym (update_one_flag run_pk copy.pk (run_guard copy) f rows row u g)
          ∙ (rw (e, run_transition) at won) in
        (
          (run_status_eq_iff row.status copy.status).0 flag,
          (
            s,
            e,
            rw (
              e,
              run_transition,
              get-update_one run_pk copy.pk (run_guard copy) f rows row (λ x. refl) g,
              flag,
            ),
          ),
        )
  ]

  run_transition-IsKeyed : IsKeyed run_pk (run_transition now copy a rows).2
  unfolding run_transition
  run_transition-IsKeyed = elim (Option-cases (run_next copy.status a)) [
    | inl e ↦ rw (e, run_transition) u
    | inr (s, e) ↦
        rw (e, run_transition)
          (IsKeyed-update_one run_pk copy.pk (run_guard copy) (run_updates now copy a s) rows
            (λ x. refl) u)
  ]

-- Two workers hold copies of one run, in a table with unique keys, in the same status. When the
-- first has made its transition, every transition of the second answers false and writes nothing.
pub run_transition-one_winner :
    (now later : ℕ) (copy rival : AgentRun) (a b : RunTransition) (rows : List AgentRun)
    (row : AgentRun)
    → IsKeyed run_pk rows
    → get run_pk copy.pk rows ≡ some row
    → rival.pk ≡ copy.pk
    → rival.status ≡ copy.status
    → (run_transition now copy a rows).0 ≡ true
    → let after = (run_transition now copy a rows).2 in
      run_transition later rival b after ≡ (false, rival, after)
run_transition-one_winner now later copy rival a b rows row u g same_pk same_status won =
    let (was, (s, e, g')) = run_transition_won now copy a rows row u g won in
    run_transition_stale later rival b (run_transition now copy a rows).2
      (run_updates now copy a s row) (run_transition-IsKeyed now copy a rows row u g)
      (rw same_pk g') (λ back. run_next-ne_self copy.status s a e (back ∙ same_status))
