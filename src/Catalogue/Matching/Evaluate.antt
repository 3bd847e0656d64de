-- ===== src/Catalogue/Matching/Evaluate.antt =====
-- How an evaluation ends, exceptions included: what it leaves of the run and of the tables.
use noshiro_db_backend.Base.{
  first_where, ◌⊎◌, ℕ, ◌≡◌, refl, sym, ◌∙◌, inl, inr, Bool, true, false, ==_refl, List, [], ◌∷◌,
  ◌++◌, Option, none, some, String, Bool-cases, get, arith,
}
use mathlib.Core.Path.{subst}
use noshiro_db_backend.Base.Result.{Result, ok, err, >>=-eq-ok, ok_injective, get_or_raise}
use noshiro_db_backend.Catalogue.Model.{MatchCandidate, Outcome, Failure}
use noshiro_db_backend.Catalogue.Merge.{find_entity}
use noshiro_db_backend.Catalogue.Decide.{is_pending, decide_candidate}
use noshiro_db_backend.Catalogue.Proposals.{
  ProposalStatus, PolicyReason, AiProposal, AiPolicy, RunStatus, AiRun, AiWorld, RawOutput, Output,
  InvalidOutput, validate_matching_output,
}
use noshiro_db_backend.Catalogue.Matching.{
  policy_is_production_ready, bind_allowed, finish_and_decide, decide_by_gate, apply_policy,
  set_run, new_proposal, persist_result, Evaluated, finish_evaluate, mark_run_failed, started_run,
  evaluate_output, evaluate_answer, default_policy, is_of_use_case, policy_or_create,
  evaluate_policy, evaluate_candidate, evaluate,
}

-- The tables that the policy does not write.
abbrev IsKept : AiWorld → AiWorld → Type 0
IsKept w w' =
    (w'.runs ≡ w.runs)
    × (w'.policies ≡ w.policies)
    × (w'.evaluations ≡ w.evaluations)
    × (w'.evidence ≡ w.evidence)

finish_and_decide-IsKept :
    (w : AiWorld) (p : AiProposal) (c : MatchCandidate) (status : ProposalStatus)
    (cause : PolicyReason) (outcome : Outcome) (text : String) (now new_id : ℕ) (w' : AiWorld)
    → finish_and_decide w p c status cause outcome text now new_id ≡ ok w'
    → IsKept w w'
unfolding finish_and_decide
finish_and_decide-IsKept w p c status cause outcome text now new_id w' h =
    let (d, decided, done) =
      >>=-eq-ok (decide_candidate w.catalogue c.id outcome "ai_policy" text new_id) _ h in
    subst (IsKept w) (ok_injective done) (refl, refl, refl, refl)

decide_by_gate-IsKept :
    (allowed : Bool) (w : AiWorld) (p : AiProposal) (c : MatchCandidate) (now new_id : ℕ)
    (w' : AiWorld)
    → decide_by_gate allowed w p c now new_id ≡ ok w'
    → IsKept w w'
decide_by_gate-IsKept true w p c now new_id w' h =
    finish_and_decide-IsKept w p c ProposalStatus.accepted PolicyReason.passed_gate Outcome.bind
      "Passed calibrated conservative auto-bind gate." now new_id w' h
decide_by_gate-IsKept false w p c now new_id w' h =
    finish_and_decide-IsKept w p c ProposalStatus.abstained PolicyReason.failed_gate Outcome.abstain
      "Conservative policy abstained because one or more bind gates failed." now new_id w' h

apply_policy-IsKept :
    (w : AiWorld) (p : AiProposal) (c : MatchCandidate) (policy : AiPolicy) (now new_id : ℕ)
    (w' : AiWorld)
    → apply_policy w p c policy now new_id ≡ ok w'
    → IsKept w w'
unfolding apply_policy
apply_policy-IsKept w p c policy now new_id w' h = elim (Bool-cases (is_pending c.status)) [
  | inr decided ↦ subst (IsKept w) (ok_injective (rw decided at h)) (refl, refl, refl, refl)
  | inl undecided ↦ elim (Bool-cases (policy_is_production_ready w policy c)) [
    | inr shadow ↦
        subst (IsKept w) (ok_injective (rw (undecided, shadow) at h)) (refl, refl, refl, refl)
    | inl ready ↦
        let h0 = (rw (undecided, ready) at h) in
        let (a, fa, h1) = >>=-eq-ok (find_entity w.catalogue c.left_entity) _ h0 in
        let (b, fb, h2) = >>=-eq-ok (find_entity w.catalogue c.right_entity) _ h1 in
        decide_by_gate-IsKept (bind_allowed w p c a b policy) w p c now new_id w' h2
  ]
]

persist_result-IsKept :
    (w : AiWorld) (run candidate policy_id : ℕ) (output : Output) (now proposal_id event_id : ℕ)
    (res : AiProposal × AiWorld)
    → persist_result w run candidate policy_id output now proposal_id event_id ≡ ok res
    → IsKept (record w { runs = set_run RunStatus.succeeded now run w.runs }) res.1
unfolding persist_result
persist_result-IsKept w run candidate policy_id output now proposal_id event_id res h =
    let (c, found, h1) =
      >>=-eq-ok
        (get_or_raise Failure.does_not_exist
          (get MatchCandidate.id candidate w.catalogue.candidates))
        _ h in
    let (policy, kept, h2) =
      >>=-eq-ok (get_or_raise Failure.does_not_exist (get AiPolicy.id policy_id w.policies)) _ h1 in
    let proposal = new_proposal proposal_id run c.id output in
    let stored : AiWorld = record w {
      runs = set_run RunStatus.succeeded now run w.runs;
      proposals = w.proposals ++ proposal ∷ [];
    } in
    let (after, applied, done) =
      >>=-eq-ok (apply_policy stored proposal c policy now event_id) _ h2 in
    subst (λ (q : AiProposal × AiWorld). IsKept stored q.1) (ok_injective done)
      (apply_policy-IsKept stored proposal c policy now event_id after applied)

-- The run of an evaluation, as it stands.
abbrev run_row : ℕ → RunStatus → Option ℕ → AiRun
run_row run status finished = record { id = run; status = status; finished_at = finished }

set_run_last :
    (t : List AiRun) (run now : ℕ) (status : RunStatus)
    → get AiRun.id run t ≡ none
    → set_run status now run (t ++ started_run run ∷ []) ≡ t ++ run_row run status (some now) ∷ []
set_run_last [] run now status h = ground (arith, ==_refl run)
set_run_last (x ∷ t) run now status h = ground (arith, h, set_run_last t run now status)

-- The policy of the use case is there and no policy has changed, or there was none and the default one
-- has been added, of the version of the candidate.
abbrev HasPolicy : AiWorld → ℕ → ℕ → ℕ → AiWorld → Type 0
HasPolicy w candidate policy_key one w' =
    (c : MatchCandidate) × (get MatchCandidate.id candidate w.catalogue.candidates ≡ some c)
    × (((p : AiPolicy) × (first_where is_of_use_case w.policies ≡ some p)
          × (w'.policies ≡ w.policies))
        ⊎ ((first_where is_of_use_case w.policies ≡ none)
            × (w'.policies ≡ w.policies ++ default_policy policy_key one c.policy_version ∷ [])))

-- The evaluation has added its run, which stands like this, and has written no other run, no evaluation
-- run and no evidence.
abbrev HasRun : AiWorld → ℕ → RunStatus → Option ℕ → AiWorld → Type 0
HasRun w run status finished w' =
    (w'.runs ≡ w.runs ++ run_row run status finished ∷ [])
    × (w'.evaluations ≡ w.evaluations)
    × (w'.evidence ≡ w.evidence)

-- It has written neither the catalogue nor a proposal either.
abbrev IsLeft : AiWorld → ℕ → RunStatus → Option ℕ → AiWorld → Type 0
IsLeft w run status finished w' =
    (w'.catalogue ≡ w.catalogue) × (w'.proposals ≡ w.proposals) × HasRun w run status finished w'

-- What each end of an evaluation leaves.
abbrev pub IsEvaluated : AiWorld → ℕ → ℕ → ℕ → ℕ → ℕ → Evaluated → AiWorld → Type 0
IsEvaluated w run candidate key one now Evaluated.candidate_missing w' =
    (get MatchCandidate.id candidate w.catalogue.candidates ≡ none) × (w' ≡ w)
IsEvaluated w run candidate key one now (Evaluated.proposed p) w' =
    HasRun w run RunStatus.succeeded (some now) w' × HasPolicy w candidate key one w'
IsEvaluated w run candidate key one now Evaluated.gateway_raised w' =
    IsLeft w run RunStatus.failed (some now) w' × HasPolicy w candidate key one w'
IsEvaluated w run candidate key one now (Evaluated.output_raised e) w' =
    IsLeft w run RunStatus.failed (some now) w' × HasPolicy w candidate key one w'
IsEvaluated w run candidate key one now (Evaluated.persist_raised e) w' =
    IsLeft w run RunStatus.running none w' × HasPolicy w candidate key one w'

abbrev IsEnd : AiWorld → ℕ → ℕ → ℕ → ℕ → ℕ → Evaluated × AiWorld → Type 0
IsEnd w run candidate key one now (e, w') = IsEvaluated w run candidate key one now e w'

module _ (w : AiWorld) (run candidate key one now proposal_id event_id : ℕ)
    (policies : List AiPolicy) (candidate_id policy_id : ℕ)
    (fresh : get AiRun.id run w.runs ≡ none) where
  abbrev begun : AiWorld
  begun = record w { policies = policies; runs = w.runs ++ started_run run ∷ [] }

  module _ (has : HasPolicy w candidate key one begun) where
    failed_run : IsLeft w run RunStatus.failed (some now) (mark_run_failed begun now run)
    failed_run = (refl, refl, (set_run_last w.runs run now RunStatus.failed fresh, refl, refl))

    has_policy : (w' : AiWorld) → w'.policies ≡ policies → HasPolicy w candidate key one w'
    has_policy w' e =
        subst (λ (t : List AiPolicy). HasPolicy w candidate key one (record begun { policies = t }))
          (sym e) has

    finish_evaluate-IsEnd :
        (output : Output) (r : Result Failure (AiProposal × AiWorld))
        → persist_result begun run candidate_id policy_id output now proposal_id event_id ≡ r
        → IsEnd w run candidate key one now (finish_evaluate begun r)
    finish_evaluate-IsEnd output (err e) h = ((refl, refl, (refl, refl, refl)), has)
    finish_evaluate-IsEnd output (ok res) h =
        let kept =
          persist_result-IsKept begun run candidate_id policy_id output now proposal_id event_id res
            h in
        (
          (kept.0 ∙ set_run_last w.runs run now RunStatus.succeeded fresh, kept.2, kept.3),
          has_policy res.1 kept.1,
        )

    evaluate_output-IsEnd :
        (r : Result InvalidOutput Output)
        → IsEnd w run candidate key one now
            (evaluate_output begun run candidate_id policy_id r now proposal_id event_id)
    evaluate_output-IsEnd (err e) = (failed_run, has)
    evaluate_output-IsEnd (ok output) =
        finish_evaluate-IsEnd output
          (persist_result begun run candidate_id policy_id output now proposal_id event_id) refl

    evaluate_answer-IsEnd :
        (answer : Option RawOutput)
        → IsEnd w run candidate key one now
            (evaluate_answer begun run candidate_id policy_id one answer now proposal_id event_id)
    evaluate_answer-IsEnd none = (failed_run, has)
    evaluate_answer-IsEnd (some raw) = evaluate_output-IsEnd (validate_matching_output one raw)

module _ (w : AiWorld) (run candidate key one : ℕ) (answer : Option RawOutput)
    (now proposal_id event_id : ℕ) (fresh : get AiRun.id run w.runs ≡ none) where
  evaluate_policy-IsEnd :
      (c : MatchCandidate) (o : Option AiPolicy)
      → get MatchCandidate.id candidate w.catalogue.candidates ≡ some c
      → first_where is_of_use_case w.policies ≡ o
      → IsEnd w run candidate key one now (
          evaluate_policy w run c.id
            (policy_or_create o (default_policy key one c.policy_version) w.policies)
            one
            answer
            now
            proposal_id
            event_id)
  evaluate_policy-IsEnd c none h absent =
      evaluate_answer-IsEnd w run candidate key one now proposal_id event_id
        (w.policies ++ default_policy key one c.policy_version ∷ []) c.id key fresh
        (c, h, inr (absent, refl)) answer
  evaluate_policy-IsEnd c (some p) h found =
      evaluate_answer-IsEnd w run candidate key one now proposal_id event_id w.policies c.id p.id
        fresh (c, h, inl (p, found, refl)) answer

  evaluate_candidate-IsEnd :
      (o : Option MatchCandidate)
      → get MatchCandidate.id candidate w.catalogue.candidates ≡ o
      → IsEnd w run candidate key one now
          (evaluate_candidate w run o key one answer now proposal_id event_id)
  evaluate_candidate-IsEnd none h = (h, refl)
  evaluate_candidate-IsEnd (some c) h =
      evaluate_policy-IsEnd c (first_where is_of_use_case w.policies) h refl

-- An evaluation of a candidate that is missing changes nothing. Any other gets or makes the policy of
-- its use case and adds one run, under a key that is not in use: where it proposes, the run has
-- succeeded; where the gateway raises or its answer is invalid, the run has failed, and neither the
-- catalogue nor a proposal has changed; where the result cannot be stored, the run is left running, and
-- neither of them has changed. No other run, policy, evaluation run or evidence is written.
pub evaluate-IsEvaluated :
    (w : AiWorld) (run candidate policy_key one : ℕ) (answer : Option RawOutput)
    (now proposal_id event_id : ℕ)
    → get AiRun.id run w.runs ≡ none
    → IsEvaluated w run candidate policy_key one now
        (evaluate w run candidate policy_key one answer now proposal_id event_id).0
        (evaluate w run candidate policy_key one answer now proposal_id event_id).1
unfolding evaluate
evaluate-IsEvaluated w run candidate policy_key one answer now proposal_id event_id fresh =
    evaluate_candidate-IsEnd w run candidate policy_key one answer now proposal_id event_id fresh
      (get MatchCandidate.id candidate w.catalogue.candidates) refl
