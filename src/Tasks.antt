-- ===== src/Tasks.antt =====
-- crates/clawchat-server/src/tasks.rs: the tasks in memory, written through to the store.
pub mod Laws
use clawdchat.Base.{
  ℕ, String, ite, Bool, true, false, ◌&&◌, Option, none, some, List, [], ◌∷◌, keep, same, or_else,
  if◌then◌else◌,
}
use clawdchat.Map.{Map, empty, get, insert, values}
use clawdchat.Core.Models.{TaskInfo}
use clawdchat.Store.Schema.{Store, Result, ok, err, StoreError}
use clawdchat.Store.TaskRows.{save_task, load_tasks}

pub record TaskManager : Type 0 where
  pub tasks : Map TaskInfo

insert_tasks : Map TaskInfo → List TaskInfo → Map TaskInfo
insert_tasks m [] = m
insert_tasks m (t ∷ ts) = insert_tasks (insert m t.task_id t) ts

-- `if let Ok(persisted)`: with no rows to be had the table starts empty.
loaded : Result (List TaskInfo) → Map TaskInfo
unfolding insert_tasks
loaded (ok ts) = insert_tasks empty ts
loaded (err e) = empty

unfoldable pub new_manager : Store → TaskManager
unfolding loaded
new_manager store = record { tasks = loaded (load_tasks store) }

-- The state that the task functions change: the manager and the store behind it.
pub record Tasks : Type 0 where
  pub manager : TaskManager
  pub store : Store

unfoldable pub create_task :
    Tasks
    → ℕ
    → String
    → String
    → String
    → Option String
    → Option String
    → String
    → Tasks × Result TaskInfo
create_task s now task_id room_id title description assignee created_by =
    let task : TaskInfo = record {
      task_id = task_id;
      room_id = room_id;
      title = title;
      description = description;
      status = "pending";
      assignee = assignee;
      created_by = created_by;
      created_at = now;
      updated_at = none;
      note = none;
    } in
    elim (save_task s.store task).1 [
      | err e ↦ (record s { store = (save_task s.store task).0 }, err e)
      | ok _ ↦ (
        record {
          manager = record { tasks = insert s.manager.tasks task_id task };
          store = (save_task s.store task).0;
        },
        ok task,
      )
    ]

-- `if let Some(v) = new { field = Some(v) }`.
abbrev pub set_some : Option String → Option String → Option String
set_some none old = old
set_some (some v) old = some v

-- The task with what the update gives; what it leaves out stays.
abbrev pub updated : ℕ → Option String → Option String → Option String → TaskInfo → TaskInfo
updated now status assignee note task = record task {
  status = or_else status task.status;
  assignee = set_some assignee task.assignee;
  note = set_some note task.note;
  updated_at = some now;
}

unfoldable pub update_task :
    Tasks
    → ℕ
    → String
    → Option String
    → Option String
    → Option String
    → Tasks × Result (Option TaskInfo)
update_task s now task_id status assignee note = elim (get s.manager.tasks task_id) [
  | none ↦ (s, ok none)
  | some old ↦
      let task : TaskInfo = updated now status assignee note old in
      elim (save_task s.store task).1 [
        | err e ↦ (record s { store = (save_task s.store task).0 }, err e)
        | ok _ ↦ (
          record {
            manager = record { tasks = insert s.manager.tasks task_id task };
            store = (save_task s.store task).0;
          },
          ok (some task),
        )
      ]
]

abbrev pub has_status : Option String → TaskInfo → Bool
has_status none t = true
has_status (some status) t = same t.status status

unfoldable pub list_tasks : TaskManager → String → Option String → List TaskInfo
list_tasks m room_id status_filter =
    keep (λ (t : TaskInfo). same t.room_id room_id && has_status status_filter t) (values m.tasks)

unfoldable pub get_task : TaskManager → String → Option TaskInfo
get_task m task_id = get m.tasks task_id
