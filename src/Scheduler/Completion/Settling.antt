-- ===== src/Scheduler/Completion/Settling.antt =====
-- A run of a task settles its message once.
use nebula_flow.Prelude.{
  ℕ, suc, ◌≡◌, refl, ap, ◌∙◌, String, Bool, true, false, List, [], ◌∷◌, ◌++◌, inl, inr, Bool-cases,
  append-nil,
}
use nebula_flow.Prelude.Int.{ℤ}
use nebula_flow.Model.{TaskStatus}
use nebula_flow.Scheduler.Completion.{
  Effect, updates, publishes, acks, nacks, nacks_after, creates_nodes, updates_node, enqueues,
  releases, finish, fail_task, settles,
}

-- A call of one of the two methods that end a run.
pub data Ending : Type 0 where
  finishes : ℤ → ℕ → TaskStatus → String → String → String → Bool → Ending
  fails : ℕ → String → String → Ending

unfoldable pub ends : Ending → Bool → Bool × List Effect
ends (finishes d task status output e id retry) finished =
    finish d task status output e id finished retry
ends (fails task e id) finished = fail_task task e id finished

-- The effects of calls that share the flag.
abbrev pub all_effects : Bool → List Ending → List Effect
all_effects finished [] = []
all_effects finished (c ∷ cs) =
    let (finished', effects) = ends c finished in effects ++ all_effects finished' cs

-- How often the message is acknowledged or refused.
abbrev pub settled : List Effect → ℕ
settled [] = 0
settled (updates task status output e ∷ es) = settled es
settled (publishes ev task ∷ es) = settled es
settled (acks id ∷ es) = suc (settled es)
settled (nacks id e retry_left ∷ es) = suc (settled es)
settled (nacks_after id retry_left delay ∷ es) = suc (settled es)
settled (creates_nodes task ∷ es) = settled es
settled (updates_node task key status output ∷ es) = settled es
settled (enqueues task ∷ es) = settled es
settled (releases key ∷ es) = settled es

ends_again : (c : Ending) → ends c true ≡ (true, [])
unfolding ends finish fail_task
ends_again (finishes d task status output e id retry) = refl
ends_again (fails task e id) = refl

nothing_more : (cs : List Ending) → all_effects true cs ≡ []
nothing_more [] = refl
nothing_more (c ∷ cs) = rw (ends_again c) (nothing_more cs)

ends_first : (c : Ending) → ((ends c false).0 ≡ true) × (settled (ends c false).1 ≡ 1)
unfolding ends finish fail_task
ends_first (finishes d task status output e id retry) = elim (Bool-cases (settles status)) [
  | inl p ↦ rw p (refl, refl)
  | inr p ↦ rw p (refl, refl)
]
ends_first (fails task e id) = (refl, refl)

-- However many of the calls that end a run are made, and in whatever order, all effects are those
-- of the first, and the message is acknowledged or refused exactly once.
pub settled_once :
    (c : Ending) (cs : List Ending)
    → (all_effects false (c ∷ cs) ≡ (ends c false).1) × (settled (all_effects false (c ∷ cs)) ≡ 1)
settled_once c cs =
    let (flag, once) = ends_first c in
    let first : all_effects false (c ∷ cs) ≡ (ends c false).1 =
      ap (λ b. (ends c false).1 ++ all_effects b cs) flag
      ∙ ap (λ es. (ends c false).1 ++ es) (nothing_more cs)
      ∙ append-nil (ends c false).1 in
    (first, ap settled first ∙ once)
