-- ===== src/Store/Tasks/Access.antt =====
-- Who reads what: the task of its owner, and the pages of an owner's tasks.
use nebula_flow.Prelude.{
  ℕ, zero, suc, String, ◌-◌, ◌≤◌, ◌≡◌, ◌≢◌, refl, ap, ◌∙◌, List, [], ◌∷◌, some, inl, inr,
  Bool-cases, nat_eq, nat_beq_iff, ltb, min, if◌then◌else◌, ok, err, length, take, drop,
  length-take, length-drop, All, arith,
}
use nebula_flow.Prelude.Int.{ℤ, pos_part}
use nebula_flow.Prelude.Maps.{lookup, insert, or_zero, lookup-insert, lookup-insert_same}
use nebula_flow.Model.{TaskStatus, Task, TaskNode}
use nebula_flow.Store.Tasks.{
  MemoryStore, task_not_found, create_task, get_task, owned, list_tasks, tasks_of, insert_desc,
  sort_desc, page_limit, update_task_status, with_status,
}

elsewhere :
    (id : ℕ) (t : Task) (m : MemoryStore)
    → id ≢ suc m.seq
    → lookup id (insert (suc m.seq) t m.tasks) ≡ lookup id m.tasks
elsewhere id t m ne =
    ground (arith, lookup-insert (suc m.seq) id t m.tasks, nat_beq_iff (suc m.seq) id)

owned_own :
    (nodes : List TaskNode) (t : Task)
    → owned t.user_id nodes (some t) ≡ ok (record t { nodes = nodes })
owned_own nodes t =
    ap (λ b. if b then ok (record t { nodes = nodes }) else err task_not_found)
      ((nat_beq_iff t.user_id t.user_id).1 refl)

-- Its owner reads the task with the new status.
pub update_task_status-get :
    (now id : ℕ) (status : TaskStatus) (output error : String) (t : Task) (m : MemoryStore)
    → lookup id m.tasks ≡ some t
    → let (m', r) = update_task_status now id status output error m in
      (r ≡ ok tt)
      × (get_task id t.user_id m'
          ≡ ok (record (with_status now status output error t) {
            nodes = or_zero [] (lookup id m.task_nodes);
          }))
unfolding get_task update_task_status
update_task_status-get now id status output error t m found =
    let nodes = or_zero [] (lookup id m.task_nodes) in
    let t' = with_status now status output error t in
    rw found
      (refl, ap (owned t.user_id nodes) (lookup-insert_same id t' m.tasks) ∙ owned_own nodes t')

owned_other :
    (user : ℕ) (nodes : List TaskNode) (t : Task)
    → t.user_id ≢ user
    → owned user nodes (some t) ≡ err task_not_found
owned_other user nodes t ne = ground (arith, nat_beq_iff t.user_id user)

-- A task is read back by its owner as it was created, with the nodes stored under its number, and
-- is not found by anyone else. What was stored under other numbers reads as before.
pub create-get :
    (now user id : ℕ) (t : Task) (m : MemoryStore)
    → let (m', t') = create_task now t m in
      (t'.id ≡ suc m.seq)
      × (get_task t'.id t.user_id m'
          ≡ ok (record t' { nodes = or_zero [] (lookup t'.id m.task_nodes) }))
      × (t.user_id ≢ user → get_task t'.id user m' ≡ err task_not_found)
      × (id ≢ t'.id → get_task id user m' ≡ get_task id user m)
unfolding create_task get_task
create-get now user id t m =
    let t' = (create_task now t m).1 in
    let nodes = or_zero [] (lookup (suc m.seq) m.task_nodes) in
    let found = lookup-insert_same (suc m.seq) t' m.tasks in
    (
      refl,
      ap (owned t.user_id nodes) found ∙ owned_own nodes t',
      λ ne. ap (owned user nodes) found ∙ owned_other user nodes t' ne,
      λ ne. ap (owned user (or_zero [] (lookup id m.task_nodes))) (elsewhere id t' m ne),
    )

abbrev pub IsDesc : List Task → Type 0
IsDesc [] = Unit
IsDesc (t ∷ ts) = All (λ s. s.id ≤ t.id) ts × IsDesc ts

module _ (P : Task → Type 0) where
  insert_desc-All :
      (t : Task) (ts : List Task) → P t → All P ts → All P (insert_desc (λ s. s.id) t ts)
  insert_desc-All t [] p w = (p, tt)
  insert_desc-All t (s ∷ ts) p w = elim (Bool-cases (ltb t.id s.id)) [
    | inl q ↦ rw q (w.0, insert_desc-All t ts p w.1)
    | inr q ↦ rw q (p, w)
  ]

  sort_desc-All : (ts : List Task) → All P ts → All P (sort_desc (λ s. s.id) ts)
  sort_desc-All [] w = tt
  sort_desc-All (t ∷ ts) w = insert_desc-All t (sort_desc (λ s. s.id) ts) w.0 (sort_desc-All ts w.1)

  take-All : (n : ℕ) (ts : List Task) → All P ts → All P (take n ts)
  take-All zero ts w = tt
  take-All (suc n) [] w = tt
  take-All (suc n) (t ∷ ts) w = (w.0, take-All n ts w.1)

  drop-All : (n : ℕ) (ts : List Task) → All P ts → All P (drop n ts)
  drop-All zero ts w = w
  drop-All (suc n) [] w = tt
  drop-All (suc n) (t ∷ ts) w = drop-All n ts w.1

All-weaken : (n k : ℕ) (ts : List Task) → n ≤ k → All (λ s. s.id ≤ n) ts → All (λ s. s.id ≤ k) ts
All-weaken n k [] h w = tt
All-weaken n k (t ∷ ts) h w = (omega (arith, h, w.0), All-weaken n k ts h w.1)

insert_desc-IsDesc : (t : Task) (ts : List Task) → IsDesc ts → IsDesc (insert_desc (λ s. s.id) t ts)
insert_desc-IsDesc t [] w = (tt, tt)
insert_desc-IsDesc t (s ∷ ts) w = elim (Bool-cases (ltb t.id s.id)) [
  | inl q ↦
      rw q (insert_desc-All (λ x. x.id ≤ s.id) t ts (ground arith) w.0, insert_desc-IsDesc t ts w.1)
  | inr q ↦ let le : s.id ≤ t.id = ground arith in rw q ((le, All-weaken s.id t.id ts le w.0), w)
]

sort_desc-IsDesc : (ts : List Task) → IsDesc (sort_desc (λ s. s.id) ts)
sort_desc-IsDesc [] = tt
sort_desc-IsDesc (t ∷ ts) = insert_desc-IsDesc t (sort_desc (λ s. s.id) ts) (sort_desc-IsDesc ts)

take-IsDesc : (n : ℕ) (ts : List Task) → IsDesc ts → IsDesc (take n ts)
take-IsDesc zero ts w = tt
take-IsDesc (suc n) [] w = tt
take-IsDesc (suc n) (t ∷ ts) w = (take-All (λ s. s.id ≤ t.id) n ts w.0, take-IsDesc n ts w.1)

drop-IsDesc : (n : ℕ) (ts : List Task) → IsDesc ts → IsDesc (drop n ts)
drop-IsDesc zero ts w = w
drop-IsDesc (suc n) [] w = tt
drop-IsDesc (suc n) (t ∷ ts) w = drop-IsDesc n ts w.1

length-insert_desc :
    (t : Task) (ts : List Task) → length (insert_desc (λ s. s.id) t ts) ≡ suc (length ts)
length-insert_desc t [] = refl
length-insert_desc t (s ∷ ts) = ground (arith, length-insert_desc t ts)

length-sort_desc : (ts : List Task) → length (sort_desc (λ s. s.id) ts) ≡ length ts
length-sort_desc [] = refl
length-sort_desc (t ∷ ts) =
    length-insert_desc t (sort_desc (λ s. s.id) ts) ∙ ap suc (length-sort_desc ts)

tasks_of-All : (user : ℕ) (m : List (ℕ × Task)) → All (λ t. t.user_id ≡ user) (tasks_of user m)
tasks_of-All user [] = tt
tasks_of-All user ((id, t) ∷ m) = ground (arith, tasks_of-All user m, nat_beq_iff t.user_id user)

-- A page lists tasks of the user only, by falling number, and never more than 100: as many as the
-- limit and what is left after the offset allow.
pub list_tasks_lem :
    (user : ℕ) (limit offset : ℤ) (m : MemoryStore)
    → let page = list_tasks user limit offset m in
      All (λ t. t.user_id ≡ user) page
      × IsDesc page
      × (length page ≤ 100)
      × (length page ≡ min (page_limit limit) (length (tasks_of user m.tasks) - pos_part offset))
unfolding list_tasks
list_tasks_lem user limit offset m =
    let own = tasks_of user m.tasks in
    let sorted = sort_desc (λ t. t.id) own in
    let rest = drop (pos_part offset) sorted in
    let size : length (take (page_limit limit) rest)
        ≡ min (page_limit limit) (length own - pos_part offset) =
      omega (
        arith,
        length-take (page_limit limit) rest,
        length-drop (pos_part offset) sorted,
        length-sort_desc own,
      ) in
    (
      take-All (λ t. t.user_id ≡ user) (page_limit limit) rest
          (drop-All (λ t. t.user_id ≡ user) (pos_part offset) sorted
            (sort_desc-All (λ t. t.user_id ≡ user) own (tasks_of-All user m.tasks))),
      take-IsDesc (page_limit limit) rest
          (drop-IsDesc (pos_part offset) sorted (sort_desc-IsDesc own)),
      ground (arith, size),
      size,
    )
