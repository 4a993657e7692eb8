-- ===== src/Store/TaskRows.antt =====
-- The rows of tasks.
use clawdchat.Base.{not, none, some, List, if◌then◌else◌}
use clawdchat.Map.{get, insert, contains_key, values}
use clawdchat.Core.Models.{TaskInfo}
use clawdchat.Store.Schema.{Store, Result, ok, err, db_error, query}

-- A new row needs its room; of a row that is there only four columns are written.
unfoldable pub save_task : Store → TaskInfo → Store × Result (Unit {0})
save_task s task =
    if not s.available then (s, err db_error) else elim (get s.room_tasks task.task_id) [
      | none ↦
          if contains_key s.rooms task.room_id
          then (record s { room_tasks = insert s.room_tasks task.task_id task }, ok tt)
          else (s, err db_error)
      | some row ↦ (
        record s {
          room_tasks = insert s.room_tasks task.task_id (record row {
            status = task.status;
            assignee = task.assignee;
            updated_at = task.updated_at;
            note = task.note;
          });
        },
        ok tt,
      )
    ]

unfoldable pub load_tasks : Store → Result (List TaskInfo)
load_tasks s = query s (values s.room_tasks)
