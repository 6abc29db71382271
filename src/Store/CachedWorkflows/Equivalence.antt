-- ===== src/Store/CachedWorkflows/Equivalence.antt =====
-- The cache is not seen, but for what JSON changes: each call is answered as by the store alone.
use nebula_flow.Prelude.{
  ℕ, ◌≡◌, refl, ap, ◌∙◌, String, Bool, true, false, List, [], ◌∷◌, Option, none, some, arith,
  nat_eq, ◌==◌, Result, ok, err, inl, inr, Bool-cases, if_both, subst,
}
use nebula_flow.Prelude.Maps.{lookup}
use nebula_flow.Cache.{Cache, CacheError}
use nebula_flow.Cache.Laws.{CacheLaws}
use nebula_flow.Store.Workflows.{
  Workflow, Workflows, WorkflowError, create_workflow, update_workflow, delete_workflow,
  get_workflow, list_workflows, list_templates, list_template_categories, get_template,
  create_from_template, new_workflows,
}
use nebula_flow.Store.Workflows.Visibility.{
  IsNumbered, Keeps, Touches, Written, create_workflow-Keeps, create_from_template-Keeps,
  update_workflow-Written, delete_workflow-Written,
}
use nebula_flow.Store.CachedWorkflows.{
  CachedWorkflows, count_failure, keep_encoded, keep, load, read_value, read_answer, cached_get,
  invalidate, cached_create, after_write, cached_update, cached_delete, cached_from_template,
}

-- The calls of a WorkflowStore.
pub data Call (C : Type 0) : Type 0 where
  creates updates : Workflow C → Call C
  deletes gets gets_template : ℕ → ℕ → Call C
  lists lists_categories : ℕ → Call C
  lists_templates : ℕ → String → Call C
  copies : ℕ → ℕ → String → Call C

pub data Answer (C : Type 0) : Type 0 where
  created : Workflow C → Answer C
  written : Result WorkflowError (Unit {0}) → Answer C
  read : Result WorkflowError (Workflow C) → Answer C
  listing : List (Workflow C) → Answer C
  names : List String → Answer C

module _ {C : Type 0} (copy_name : String → String) where
  -- A call of the store at the time `now`.
  abbrev pub store_call : ℕ → Call C → Workflows C → Workflows C × Answer C
  store_call now (creates w) m = let (m', w') = create_workflow now w m in (m', created w')
  store_call now (updates w) m = let (m', r) = update_workflow now w m in (m', written r)
  store_call now (deletes id user) m = let (m', r) = delete_workflow id user m in (m', written r)
  store_call now (gets id user) m = (m, read (get_workflow id user m))
  store_call now (gets_template id user) m = (m, read (get_template id user m))
  store_call now (lists user) m = (m, listing (list_workflows user m))
  store_call now (lists_categories user) m = (m, names (list_template_categories user m))
  store_call now (lists_templates user category) m = (m, listing (list_templates user category m))
  store_call now (copies template user name) m =
      let (m', r) = create_from_template copy_name now template user name m in (m', read r)

  abbrev pub store_calls : List (ℕ × Call C) → Workflows C → List (Answer C)
  store_calls [] m = []
  store_calls ((now, c) ∷ cs) m = let (m', a) = store_call now c m in a ∷ store_calls cs m'

  module _ {S V : Type 0} (commands : Cache (ℕ × ℕ) V S) (encode : Workflow C → Option V)
      (decode : V → Option (Workflow C)) (ttl : ℕ) (enabled : Bool) where
    -- The same call of the cached store.
    abbrev pub cached_call : ℕ → Call C → CachedWorkflows C S → CachedWorkflows C S × Answer C
    cached_call now (creates w) s =
        let (s', w') = cached_create commands encode decode ttl enabled now w s in (s', created w')
    cached_call now (updates w) s =
        let (s', r) = cached_update commands encode decode ttl enabled now w s in (s', written r)
    cached_call now (deletes id user) s =
        let (s', r) = cached_delete commands encode decode ttl enabled id user s in (s', written r)
    cached_call now (gets id user) s =
        let (s', r) = cached_get commands encode decode ttl enabled now id user s in (s', read r)
    cached_call now (gets_template id user) s = (s, read (get_template id user s.next))
    cached_call now (lists user) s = (s, listing (list_workflows user s.next))
    cached_call now (lists_categories user) s = (s, names (list_template_categories user s.next))
    cached_call now (lists_templates user category) s =
        (s, listing (list_templates user category s.next))
    cached_call now (copies template user name) s =
        let (s', r) =
          cached_from_template commands encode decode ttl enabled copy_name now template user name
            s in
        (s', read r)

    abbrev pub cached_calls : List (ℕ × Call C) → CachedWorkflows C S → List (Answer C)
    cached_calls [] s = []
    cached_calls ((now, c) ∷ cs) s = let (s', a) = cached_call now c s in a ∷ cached_calls cs s'

    -- What JSON gives back of a workflow that it wrote: numbers in its settings come back as floats.
    abbrev pub Reread : Workflow C → Workflow C → Type 0
    Reread w w' = (v : V) × (encode w ≡ some v) × (decode v ≡ some w')

    -- The answer of the cached store against the store's.
    pub data Matches : Answer C → Answer C → Type 0 where
      same : {a : Answer C} → Matches a a
      reread : {w w' : Workflow C} → Reread w w' → Matches (read (ok w)) (read (ok w'))

    abbrev pub AllMatch : List (Answer C) → List (Answer C) → Type 0
    AllMatch [] [] = Unit
    AllMatch (a ∷ as_) (b ∷ bs) = Matches a b × AllMatch as_ bs
    AllMatch [] (b ∷ bs) = ⊥
    AllMatch (a ∷ as_) [] = ⊥

    module _ (holds : S → ℕ × ℕ → V → Type 0) (laws : CacheLaws commands holds) where
      -- What the cache may answer is what the store answers.
      record Fresh (s : CachedWorkflows C S) : Type 0 where
        honest :
            enabled ≡ true
            → (user id : ℕ) (v : V) → holds s.cache (user, id) v
            → (w : Workflow C) × (get_workflow id user s.next ≡ ok w) × (encode w ≡ some v)
        numbered : IsNumbered s.next

      count_failure_kept :
          (a : S × Bool) (s : CachedWorkflows C S)
          → ((count_failure commands encode decode ttl enabled a s).next ≡ s.next)
            × ((count_failure commands encode decode ttl enabled a s).cache ≡ a.0)
      count_failure_kept (c, true) s = (refl, refl)
      count_failure_kept (c, false) s = (refl, refl)

      -- A read that is answered as by the store, and leaves the books in order.
      Reads :
          ℕ
          → ℕ
          → CachedWorkflows C S
          → CachedWorkflows C S × Result WorkflowError (Workflow C)
          → Type 0
      Reads id user s (s', r) =
          Matches (read (get_workflow id user s.next)) (read r) × (s'.next ≡ s.next) × Fresh s'

      keep_encoded-Fresh :
          (now id user : ℕ) (w : Workflow C) (o : Option V) (s : CachedWorkflows C S)
          → encode w ≡ o
          → get_workflow id user s.next ≡ ok w
          → Fresh s
          → ((keep_encoded commands encode decode ttl enabled now (user, id) o s).next ≡ s.next)
            × Fresh (keep_encoded commands encode decode ttl enabled now (user, id) o s)
      keep_encoded-Fresh now id user w none s e h f = (refl, f)
      keep_encoded-Fresh now id user w (some v) s e h f =
          let (next, cache) = count_failure_kept (commands.set now (user, id) v ttl s.cache) s in
          (
            next,
            record {
              honest = λ on u i x held.
                  rw next
                    (elim (laws.set-holds now (user, id) v ttl s.cache (u, i) x
                      (rw cache at held)) [
                        | inl (key, equal) ↦
                            subst
                              (λ (p : ℕ × ℕ).
                                (y : Workflow C) × (get_workflow p.1 p.0 s.next ≡ ok y)
                                × (encode y ≡ some x))
                              key (w, h, e ∙ ap some equal)
                        | inr before ↦ f.honest on u i x before
                      ]);
              numbered = rw next f.numbered;
            },
          )

      keep-Reads :
          (now id user : ℕ) (r : Result WorkflowError (Workflow C)) (s : CachedWorkflows C S)
          → get_workflow id user s.next ≡ r
          → Fresh s
          → Reads id user s (keep commands encode decode ttl enabled now (user, id) r s)
      unfolding Reads
      keep-Reads now id user (err e) s h f = rw h (same, refl, f)
      keep-Reads now id user (ok w) s h f =
          let (next, g) = keep_encoded-Fresh now id user w (encode w) s refl h f in
          rw h (same, next, g)

      load-Reads :
          (now id user : ℕ) (s : CachedWorkflows C S)
          → Fresh s
          → Reads id user s (load commands encode decode ttl enabled now id user s)
      unfolding Reads
      load-Reads now id user s f =
          keep-Reads now id user _ _ refl (record { honest = f.honest; numbered = f.numbered })

      read_value-Reads :
          (now id user : ℕ) (o : Option (Workflow C)) (s : CachedWorkflows C S)
          → ((w' : Workflow C)
              → o ≡ some w'
              → (w : Workflow C) × (get_workflow id user s.next ≡ ok w) × Reread w w')
          → Fresh s
          → Reads id user s (read_value commands encode decode ttl enabled now id user o s)
      unfolding Reads
      read_value-Reads now id user (some w') s h f =
          let (w, found, again) = h w' refl in
          rw found (reread again, refl, record { honest = f.honest; numbered = f.numbered })
      read_value-Reads now id user none s h f = load-Reads now id user _ (record {
        honest =
            λ on u i v held. f.honest on u i v (laws.del-keeps (user, id) s.cache (u, i) v held).1;
        numbered = f.numbered;
      })

      read_answer-Reads :
          (now id user : ℕ) (a : Result CacheError (Option V)) (s : CachedWorkflows C S)
          → ((v : V)
              → a ≡ ok (some v)
              → (w : Workflow C) × (get_workflow id user s.next ≡ ok w) × (encode w ≡ some v))
          → Fresh s
          → Reads id user s (read_answer commands encode decode ttl enabled now id user a s)
      read_answer-Reads now id user (ok (some v)) s h f =
          let (w, found, written_as) = h v refl in
          read_value-Reads now id user (decode v) s (λ w' d. (w, found, (v, written_as, d))) f
      read_answer-Reads now id user (ok none) s h f = load-Reads now id user s f
      read_answer-Reads now id user (err e) s h f = load-Reads now id user s f

      cached_get-Reads :
          (now id user : ℕ) (s : CachedWorkflows C S)
          → Fresh s
          → Reads id user s (cached_get commands encode decode ttl enabled now id user s)
      unfolding cached_get Reads
      cached_get-Reads now id user s f =
          if_both (Reads id user s) enabled
            (λ on.
              let got = commands.get now (user, id) s.cache in
              read_answer-Reads now id user got.1 (record s { cache = got.0 })
                (λ v h. f.honest on user id v (laws.get-held now (user, id) v s.cache h))
                (record {
                  honest = λ p u i v held.
                      f.honest p u i v (laws.get-keeps now (user, id) s.cache (u, i) v held);
                  numbered = f.numbered;
                }))
            (λ off. (same, refl, f))

      -- After a write of the store the key is deleted.
      invalidate-Fresh :
          (id user : ℕ) (m : Workflows C) (s : CachedWorkflows C S)
          → Fresh s
          → Touches id user s.next m
          → ((invalidate commands encode decode ttl enabled user id (record s { next = m })).next
              ≡ m)
            × Fresh (invalidate commands encode decode ttl enabled user id (record s { next = m }))
      unfolding invalidate
      invalidate-Fresh id user m s f t =
          if_both (λ (s' : CachedWorkflows C S). (s'.next ≡ m) × Fresh s') enabled
            (λ _.
              let (next, cache) =
                count_failure_kept (commands.del (user, id) s.cache) (record s { next = m }) in
              (
                next,
                record {
                  honest = λ on u i v held.
                      let (other, before) =
                        laws.del-keeps (user, id) s.cache (u, i) v (rw cache at held) in
                      let (w, got, written_as) = f.honest on u i v before in
                      rw next (elim (Bool-cases (id == i)) [
                        | inl equal ↦
                            let e : id ≡ i = (nat_eq.beq_iff id i).0 equal in
                            let own : user ≡ u = t.owner u w (rw (← e) at got) in
                            absurd (other (ap (λ z. (z, id)) own ∙ ap (λ z. (u, z)) e))
                        | inr apart ↦ (
                          w,
                          t.apart i u (λ e. absurd (ground (arith, nat_eq.beq_iff id i, e))) ∙ got,
                          written_as,
                        )
                      ]);
                  numbered = rw next t.numbered;
                },
              ))
            (λ off. (
              refl,
              record {
                honest = λ on u i v held. absurd (ground (arith, on, off));
                numbered = t.numbered;
              },
            ))

      -- Where every workflow that was read stays as it was, no key needs to be deleted.
      Keeps-Fresh :
          (m : Workflows C) (s : CachedWorkflows C S)
          → Fresh s
          → Keeps s.next m
          → Fresh (record s { next = m })
      Keeps-Fresh m s f k = record {
        honest = λ on u i v held.
            let (w, got, written_as) = f.honest on u i v held in (w, k.kept i u w got, written_as);
        numbered = k.numbered;
      }

      invalidate_more :
          (id user : ℕ) (s : CachedWorkflows C S)
          → Fresh s
          → ((invalidate commands encode decode ttl enabled user id s).next ≡ s.next)
            × Fresh (invalidate commands encode decode ttl enabled user id s)
      unfolding invalidate
      invalidate_more id user s f =
          if_both (λ (s' : CachedWorkflows C S). (s'.next ≡ s.next) × Fresh s') enabled
            (λ _.
              let (next, cache) = count_failure_kept (commands.del (user, id) s.cache) s in
              (
                next,
                record {
                  honest = λ on u i v held. rw next (
                      f.honest on u i v
                        (laws.del-keeps (user, id) s.cache (u, i) v (rw cache at held)).1);
                  numbered = rw next f.numbered;
                },
              ))
            (λ off. (refl, f))

      -- The cached store after a call, and its answer, against the store's.
      Agrees : Workflows C × Answer C → CachedWorkflows C S × Answer C → Type 0
      Agrees (m, a) (s, b) = Matches a b × (s.next ≡ m) × Fresh s

      after_write-Agrees :
          (id user : ℕ) (p : Workflows C × Result WorkflowError (Unit {0}))
          (s : CachedWorkflows C S)
          → Fresh s
          → Written id user s.next p
          → Agrees
              (p.0, written p.1)
              (
                (after_write commands encode decode ttl enabled user id p s).0,
                written (after_write commands encode decode ttl enabled user id p s).1,
              )
      unfolding Agrees
      after_write-Agrees id user p s f (inl (e, h)) = rw h (same, refl, f)
      after_write-Agrees id user p s f (inr (m, h, t)) =
          rw h (let (next, g) = invalidate-Fresh id user m s f t in (same, next, g))

      call-Agrees :
          (now : ℕ) (c : Call C) (s : CachedWorkflows C S)
          → Fresh s
          → Agrees (store_call now c s.next) (cached_call now c s)
      unfolding Agrees Reads cached_create cached_update cached_delete cached_from_template
      call-Agrees now (creates w) s f =
          let (m, w') = create_workflow now w s.next in
          let g = Keeps-Fresh m s f (create_workflow-Keeps now w s.next f.numbered) in
          let (next, h) = invalidate_more w'.id w'.user_id (record s { next = m }) g in
          (same, next, h)
      call-Agrees now (updates w) s f =
          after_write-Agrees w.id w.user_id _ s f (update_workflow-Written now w s.next f.numbered)
      call-Agrees now (deletes id user) s f =
          after_write-Agrees id user _ s f (delete_workflow-Written id user s.next f.numbered)
      call-Agrees now (gets id user) s f = cached_get-Reads now id user s f
      call-Agrees now (gets_template id user) s f = (same, refl, f)
      call-Agrees now (lists user) s f = (same, refl, f)
      call-Agrees now (lists_categories user) s f = (same, refl, f)
      call-Agrees now (lists_templates user category) s f = (same, refl, f)
      call-Agrees now (copies template user name) s f = (
        same,
        refl,
        Keeps-Fresh _ s f
            (create_from_template-Keeps copy_name now template user name s.next f.numbered),
      )

      calls_match :
          (cs : List (ℕ × Call C)) (s : CachedWorkflows C S) (m : Workflows C)
          → s.next ≡ m
          → Fresh s
          → AllMatch (store_calls cs m) (cached_calls cs s)
      unfolding Agrees
      calls_match [] s m e f = tt
      calls_match ((now, c) ∷ cs) s m e f =
          let (a, next, g) = call-Agrees now c s f in
          (
            subst (λ x. Matches (store_call now c x).1 (cached_call now c s).1) e a,
            calls_match cs (cached_call now c s).0 (store_call now c m).0
                (next ∙ ap (λ z. (store_call now c z).0) e) g,
          )

      -- Whatever calls are made through the cached store, from an empty store and a cache that holds
      -- nothing on, each is answered as by the store alone, but that a workflow may be given as JSON
      -- gives it back, where the store gives it as it is. A cache may forget values and fail to
      -- answer and to store them, as long as it answers what was set and a deletion takes effect.
      pub cached_calls_lem :
          (cache : S)
          → ((k : ℕ × ℕ) (v : V) → ¬ holds cache k v)
          → (cs : List (ℕ × Call C))
          → AllMatch (store_calls cs new_workflows) (
              cached_calls cs
                (record { next = new_workflows; cache = cache; hits = 0; misses = 0; errs = 0 }))
      unfolding new_workflows lookup
      cached_calls_lem cache empty cs = calls_match cs _ new_workflows refl (record {
        honest = λ on u i v held. absurd (empty (u, i) v held);
        numbered = λ id h. refl;
      })
