-- ===== src/Scheduler/Completion/Output.antt =====
-- Which node's result is the output of a task.
use nebula_flow.Prelude.{
  ◌≡◌, refl, String, Bool, true, List, [], ◌∷◌, ◌++◌, none, some, string_eq, if◌then◌else◌, All,
}
use nebula_flow.Prelude.Maps.{lookup}
use nebula_flow.Scheduler.Dag.{Dag}
use nebula_flow.Scheduler.Completion.{last_result, final_output, is_output_key}

abbrev pub HasNone : (String → Bool) → List (String × String) → String → Type 0
HasNone p results key = (if p key then lookup key results else none) ≡ none

none_after :
    (p : String → Bool) (results : List (String × String)) (keys : List String)
    → All (HasNone p results) keys
    → last_result p results keys ≡ none
unfolding last_result
none_after p results [] w = refl
none_after p results (key ∷ keys) w = rw (none_after p results keys w.1) w.0

last_at :
    (p : String → Bool) (results : List (String × String)) (front back : List String)
    (key v : String)
    → p key ≡ true
    → lookup key results ≡ some v
    → All (HasNone p results) back
    → last_result p results (front ++ key ∷ back) ≡ some v
unfolding last_result
last_at p results [] back key v t e w = rw (none_after p results back w, t) e
last_at p results (k ∷ front) back key v t e w = rw (last_at p results front back key v t e w) refl

module _ {C : Type 0} where
  -- Where an output node has a result, the final output is that of the last such node in the order
  -- of the graph. Where none has, it is that of the last node of all that has a result.
  pub final_output_lem :
      (d : Dag C) (results : List (String × String)) (front back : List String) (key v : String)
      → d.order ≡ front ++ key ∷ back
      → lookup key results ≡ some v
      → (is_output_key d key ≡ true
          → All (HasNone (is_output_key d) results) back
          → final_output d results ≡ v)
        × (All (HasNone (is_output_key d) results) d.order
            → All (HasNone (λ k. true) results) back
            → final_output d results ≡ v)
  unfolding final_output
  final_output_lem d results front back key v o e = (
    λ t w. rw (o, last_at (is_output_key d) results front back key v t e w) refl,
    λ w u.
        rw
          (
            none_after (is_output_key d) results d.order w,
            o,
            last_at (λ k. true) results front back key v refl e u,
          )
          refl,
  )
