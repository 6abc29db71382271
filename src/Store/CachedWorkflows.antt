-- ===== src/Store/CachedWorkflows.antt =====
-- internal/store/cached_workflows.go: the cache in front of the workflows. The text of a key,
-- `nebulaflow:wf:<user>:<id>`, is the pair of its numbers here; `encode` and `decode` are JSON's.
pub mod Equivalence
mod Examples
use nebula_flow.Prelude.{
  ℕ, suc, String, Bool, true, false, List, Option, none, some, Result, ok, err, Eq, ◌==◌, nat_eq,
  ◌&&◌, ◌≡◌, ◌↔◌, if◌then◌else◌, arith,
}
use nebula_flow.Cache.{Cache, CacheError}
use nebula_flow.Store.Workflows.{
  Workflow, Workflows, WorkflowError, create_workflow, update_workflow, delete_workflow,
  get_workflow, list_workflows, list_templates, list_template_categories, get_template,
  create_from_template,
}

abbrev pub workflow_cache_key : ℕ → ℕ → ℕ × ℕ
workflow_cache_key user id = (user, id)

pub record CachedWorkflows (C S : Type 0) : Type 0 where
  pub next : Workflows C
  pub cache : S
  pub hits : ℕ
  pub misses : ℕ
  pub errs : ℕ

module _ {C S V : Type 0} (commands : Cache (ℕ × ℕ) V S) (encode : Workflow C → Option V)
    (decode : V → Option (Workflow C)) (ttl : ℕ) (enabled : Bool) where
  -- What a failed deletion or write leaves.
  abbrev pub count_failure : S × Bool → CachedWorkflows C S → CachedWorkflows C S
  count_failure (cache, true) s = record s { cache = cache }
  count_failure (cache, false) s = record s { cache = cache; errs = suc s.errs }

  abbrev pub keep_encoded : ℕ → ℕ × ℕ → Option V → CachedWorkflows C S → CachedWorkflows C S
  keep_encoded now key none s = s
  keep_encoded now key (some v) s = count_failure (commands.set now key v ttl s.cache) s

  abbrev pub keep :
      ℕ
      → ℕ × ℕ
      → Result WorkflowError (Workflow C)
      → CachedWorkflows C S
      → CachedWorkflows C S × Result WorkflowError (Workflow C)
  keep now key (err e) s = (s, err e)
  keep now key (ok w) s = (keep_encoded now key (encode w) s, ok w)

  -- The workflow is read from the store.
  abbrev pub load :
      ℕ → ℕ → ℕ → CachedWorkflows C S → CachedWorkflows C S × Result WorkflowError (Workflow C)
  load now id user s =
      keep now (workflow_cache_key user id) (get_workflow id user s.next)
        (record s { misses = suc s.misses })

  -- A value that cannot be read is deleted; whether that fails is not looked at.
  abbrev pub read_value :
      ℕ
      → ℕ
      → ℕ
      → Option (Workflow C)
      → CachedWorkflows C S
      → CachedWorkflows C S × Result WorkflowError (Workflow C)
  read_value now id user (some w) s = (record s { hits = suc s.hits }, ok w)
  read_value now id user none s = load now id user (record s {
    errs = suc s.errs;
    cache = (commands.del (workflow_cache_key user id) s.cache).0;
  })

  abbrev pub read_answer :
      ℕ
      → ℕ
      → ℕ
      → Result CacheError (Option V)
      → CachedWorkflows C S
      → CachedWorkflows C S × Result WorkflowError (Workflow C)
  read_answer now id user (ok (some v)) s = read_value now id user (decode v) s
  read_answer now id user (ok none) s = load now id user s
  read_answer now id user (err e) s = load now id user s

  unfoldable pub cached_get :
      ℕ → ℕ → ℕ → CachedWorkflows C S → CachedWorkflows C S × Result WorkflowError (Workflow C)
  cached_get now id user s =
      if enabled
      then (let (cache, answer) = commands.get now (workflow_cache_key user id) s.cache in
          read_answer now id user answer (record s { cache = cache }))
      else (s, get_workflow id user s.next)

  unfoldable pub invalidate : ℕ → ℕ → CachedWorkflows C S → CachedWorkflows C S
  invalidate user id s =
      if enabled then count_failure (commands.del (workflow_cache_key user id) s.cache) s else s

  unfoldable pub cached_create :
      ℕ → Workflow C → CachedWorkflows C S → CachedWorkflows C S × Workflow C
  cached_create now w s =
      let (next, w') = create_workflow now w s.next in
      (invalidate w'.user_id w'.id (record s { next = next }), w')

  abbrev pub after_write :
      ℕ
      → ℕ
      → Workflows C × Result WorkflowError (Unit {0})
      → CachedWorkflows C S
      → CachedWorkflows C S × Result WorkflowError (Unit {0})
  after_write user id (next, err e) s = (record s { next = next }, err e)
  after_write user id (next, ok u) s = (invalidate user id (record s { next = next }), ok u)

  unfoldable pub cached_update :
      ℕ → Workflow C → CachedWorkflows C S → CachedWorkflows C S × Result WorkflowError (Unit {0})
  cached_update now w s = after_write w.user_id w.id (update_workflow now w s.next) s

  unfoldable pub cached_delete :
      ℕ → ℕ → CachedWorkflows C S → CachedWorkflows C S × Result WorkflowError (Unit {0})
  cached_delete id user s = after_write user id (delete_workflow id user s.next) s

  unfoldable pub cached_from_template :
      (String → String)
      → ℕ
      → ℕ
      → ℕ
      → String
      → CachedWorkflows C S
      → CachedWorkflows C S × Result WorkflowError (Workflow C)
  cached_from_template copy_name now template user name s =
      let (next, r) = create_from_template copy_name now template user name s.next in
      (record s { next = next }, r)
