-- ===== src/Tasks/Laws.antt =====
-- The tasks in memory are the rows of the store, and a call that fails changes neither.
use clawdchat.Base.{ℕ, String, ◌≡◌, refl, Bool, true, Option, none, some, arith, ◌∙◌}
use clawdchat.Map.{get, get-insert}
use clawdchat.Core.Models.{TaskInfo}
use clawdchat.Store.Schema.{err, StoreError}
use clawdchat.Store.TaskRows.{save_task}
use clawdchat.Tasks.{Tasks, create_task, update_task, updated, get_task}

-- Memory and store hold the same tasks, each under its own id.
abbrev pub Keyed : String → Option TaskInfo → Type 0
Keyed id none = Unit {0}
Keyed id (some t) = t.task_id ≡ id

pub record IsSynced (s : Tasks) : Type 0 where
  pub same_rows : (id : String) → get s.store.room_tasks id ≡ get s.manager.tasks id
  pub keyed : (id : String) → Keyed id (get s.manager.tasks id)

-- A call that fails leaves the tasks in memory and the store as they were.
pub create_task-fails :
    (s : Tasks) (now : ℕ) (id room title : String) (description assignee : Option String)
    (by : String) (e : StoreError)
    → (create_task s now id room title description assignee by).1 ≡ err e
    → (create_task s now id room title description assignee by).0 ≡ s
unfolding create_task save_task
create_task-fails s now id room title description assignee by e h = ground arith

pub update_task-fails :
    (s : Tasks) (now : ℕ) (id : String) (status assignee remark : Option String) (e : StoreError)
    → (update_task s now id status assignee remark).1 ≡ err e
    → (update_task s now id status assignee remark).0 ≡ s
unfolding update_task save_task
update_task-fails s now id status assignee remark e h = ground arith

abbrev new_task : ℕ → String → String → String → Option String → Option String → String → TaskInfo
new_task now id room title description assignee by = record {
  task_id = id;
  room_id = room;
  title = title;
  description = description;
  status = "pending";
  assignee = assignee;
  created_by = by;
  created_at = now;
  updated_at = none;
  note = none;
}

-- What the synchronised state says of one id.
abbrev At : Tasks → String → Type 0
At s j = (get s.store.room_tasks j ≡ get s.manager.tasks j) × Keyed j (get s.manager.tasks j)

create_task-At :
    (s : Tasks) (now : ℕ) (id room title : String) (description assignee : Option String)
    (by j : String)
    → get s.manager.tasks id ≡ none
    → IsSynced s
    → At (create_task s now id room title description assignee by).0 j
unfolding create_task save_task
create_task-At s now id room title description assignee by j fresh v =
    let t : TaskInfo = new_task now id room title description assignee by in
    ground (
      arith,
      v.same_rows id,
      v.same_rows j,
      v.keyed j,
      get-insert s.store.room_tasks id t j,
      get-insert s.manager.tasks id t j,
    )

update_task-At :
    (s : Tasks) (now : ℕ) (id : String) (status assignee remark : Option String) (j : String)
    → IsSynced s
    → (o : Option TaskInfo) → get s.manager.tasks id ≡ o
    → At (update_task s now id status assignee remark).0 j
unfolding update_task save_task
update_task-At s now id status assignee remark j v none e = ground (arith, v.same_rows j, v.keyed j)
update_task-At s now id status assignee remark j v (some old) e =
    let t : TaskInfo = updated now status assignee remark old in
    ground (
      arith,
      v.same_rows id,
      v.same_rows j,
      v.keyed id,
      v.keyed j,
      get-insert s.store.room_tasks id t j,
      get-insert s.manager.tasks id t j,
    )

-- What the clients ask of the tasks.
pub data Call : Type 0 where
  creates : ℕ → String → String → String → Option String → Option String → String → Call
  updates : ℕ → String → Option String → Option String → Option String → Call
  outage : Bool → Call

unfoldable pub call : Tasks → Call → Tasks
call s (creates now id room title description assignee by) =
    (create_task s now id room title description assignee by).0
call s (updates now id status assignee remark) = (update_task s now id status assignee remark).0
call s (outage up) = record s { store = record s.store { available = up } }

-- A task that is created has an id that no task has.
abbrev pub IsFresh : Tasks → Call → Type 0
IsFresh s (creates now id room title description assignee by) = get s.manager.tasks id ≡ none
IsFresh s (updates now id status assignee remark) = Unit {0}
IsFresh s (outage up) = Unit {0}

-- If memory and store hold the same tasks, then they do after creating under a fresh id, after an
-- update and after losing or regaining the database, whether the call succeeds or not.
pub call-IsSynced : (s : Tasks) (c : Call) → IsFresh s c → IsSynced s → IsSynced (call s c)
unfolding call
call-IsSynced s (creates now id room title description assignee by) f v = record {
  same_rows = λ j. (create_task-At s now id room title description assignee by j f v).0;
  keyed = λ j. (create_task-At s now id room title description assignee by j f v).1;
}
call-IsSynced s (updates now id status assignee remark) f v = record {
  same_rows =
      λ j. (update_task-At s now id status assignee remark j v (get s.manager.tasks id) refl).0;
  keyed = λ j. (update_task-At s now id status assignee remark j v (get s.manager.tasks id) refl).1;
}
call-IsSynced s (outage up) f v = record { same_rows = v.same_rows; keyed = v.keyed }

update-get :
    (s : Tasks) (now : ℕ) (id : String) (status assignee remark : Option String) (old : TaskInfo)
    → IsSynced s
    → s.store.available ≡ true
    → get s.manager.tasks id ≡ some old
    → get_task (update_task s now id status assignee remark).0.manager id
      ≡ some (updated now status assignee remark old)
unfolding update_task save_task get_task
update-get s now id status assignee remark old v up e = ground (
  arith,
  v.same_rows id,
  v.keyed id,
  get-insert s.manager.tasks id (updated now status assignee remark old) id,
)

available-update :
    (s : Tasks) (now : ℕ) (id : String) (status assignee remark : Option String)
    → (update_task s now id status assignee remark).0.store.available ≡ s.store.available
unfolding update_task save_task
available-update s now id status assignee remark = ground arith

module _ (s : Tasks) (t u : ℕ) (id : String) (old : TaskInfo) where
  two_updates :
      (status assignee remark status' assignee' remark' : Option String)
      → IsSynced s
      → s.store.available ≡ true
      → get s.manager.tasks id ≡ some old
      → get_task
          (update_task
            (update_task s t id status assignee remark).0
            u
            id
            status'
            assignee'
            remark').0.manager
          id
        ≡ some (updated u status' assignee' remark' (updated t status assignee remark old))
  unfolding call get_task
  two_updates status assignee remark status' assignee' remark' v up e =
      let c : Call = updates t id status assignee remark in
      update-get (call s c) u id status' assignee' remark' (updated t status assignee remark old)
        (call-IsSynced s c tt v) (available-update s t id status assignee remark ∙ up)
        (update-get s t id status assignee remark old v up e)

-- While memory and store agree and the database is up, two updates of different fields of a task
-- both take effect, in either order: the task ends with the status of the one, the assignee and
-- remark of the other, and the time of the later one.
pub updates_merge :
    (s : Tasks) (t u : ℕ) (id status assignee remark : String) (old : TaskInfo)
    → IsSynced s
    → s.store.available ≡ true
    → get s.manager.tasks id ≡ some old
    → let merged : TaskInfo = record old {
      status = status;
      assignee = some assignee;
      note = some remark;
    } in
      let s₁ = (update_task s t id (some status) none none).0 in
      let s₂ = (update_task s t id none (some assignee) (some remark)).0 in
      (get_task (update_task s₁ u id none (some assignee) (some remark)).0.manager id
        ≡ some (record merged { updated_at = some u }))
      × (get_task (update_task s₂ u id (some status) none none).0.manager id
          ≡ some (record merged { updated_at = some u }))
updates_merge s t u id status assignee remark old v up e = (
  two_updates s t u id old (some status) none none none (some assignee) (some remark) v up e,
  two_updates s t u id old none (some assignee) (some remark) (some status) none none v up e,
)
