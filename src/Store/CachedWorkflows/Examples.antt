-- ===== src/Store/CachedWorkflows/Examples.antt =====
-- A workflow that is stored, read twice, deleted and read again, through the memory cache.
use nebula_flow.Prelude.{
  ℕ, ◌≡◌, true, false, ◌&&◌, List, [], ◌∷◌, some, nat_eq, ◌==◌, Eq, ◌↔◌, arith,
}
use nebula_flow.Prelude.Maps.{lookup}
use nebula_flow.Cache.{memory_cache}
use nebula_flow.Cache.Laws.{Stores, memory_cache-CacheLaws}
use nebula_flow.Store.Workflows.{Workflow, draft, new_workflows}
use nebula_flow.Store.CachedWorkflows.Equivalence.{
  Call, creates, gets, deletes, cached_calls, store_calls, AllMatch, cached_calls_lem,
}

pair_beq_iff : (p q : ℕ × ℕ) → ((p.0 == q.0 && p.1 == q.1) ≡ true) ↔ (p ≡ q)
pair_beq_iff p q = ground arith

instance abbrev pair_eq : Eq (ℕ × ℕ)
pair_eq = record { beq = λ p q. p.0 == q.0 && p.1 == q.1; beq_iff = pair_beq_iff }

abbrev flow : Workflow ℕ
flow = record {
  id = 0;
  user_id = 4;
  name = "flow";
  description = "";
  status = draft;
  is_template = false;
  category = "";
  icon = "";
  created_at = 0;
  updated_at = 0;
  nodes = [];
  edges = [];
}

abbrev calls : List (ℕ × Call ℕ)
calls =
    (0, creates flow)
    ∷ (1, gets 1 4)
    ∷ (2, gets 1 4)
    ∷ (3, gets 1 5)
    ∷ (4, deletes 1 4)
    ∷ (5, gets 1 4)
    ∷ []

nothing_held : (k : ℕ × ℕ) (v : Workflow ℕ) → ¬ Stores [] k v
unfolding lookup
nothing_held k v h = cc

cached_calls_lem_example :
    AllMatch
      (λ n. n)
      memory_cache
      (λ w. some w)
      (λ w. some w)
      60
      true
      (store_calls (λ n. n) calls new_workflows)
      (cached_calls
        (λ n. n)
        memory_cache
        (λ w. some w)
        (λ w. some w)
        60
        true
        calls
        (record { next = new_workflows; cache = []; hits = 0; misses = 0; errs = 0 }))
cached_calls_lem_example =
    cached_calls_lem (λ n. n) memory_cache (λ w. some w) (λ w. some w) 60 true Stores
      memory_cache-CacheLaws [] nothing_held calls
