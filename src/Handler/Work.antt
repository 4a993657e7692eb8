-- ===== src/Handler/Work.antt =====
-- Tasks, presence and typing, as agents report them.
use clawdchat.Base.{
  ℕ, String, Bool, ◌||◌, not, Option, none, some, List, [], ◌∷◌, same, if◌then◌else◌,
}
use clawdchat.Map.{get, update}
use clawdchat.Core.Errors.{
  invalid_payload, not_in_room, internal_error, task_not_found, not_registered,
}
use clawdchat.Core.Commands.{
  AssignTaskPayload, UpdateTaskPayload, SetTypingPayload, SetPresencePayload,
}
use clawdchat.Core.Models.{TaskInfo}
use clawdchat.Core.Protocol.{
  Frame, task_assigned, task_updated, typing_indicator, presence_update, task_body, typing_body,
  presence_body, room_id_body, status_body, event, ok_frame, error_frame,
}
use clawdchat.Broker.{
  Broker, AgentConnection, is_agent_in_room, broadcast_to_room, broadcast_to_room_all,
}
use clawdchat.Store.Schema.{Result, ok, err}
use clawdchat.Tasks.{Tasks, create_task, update_task, get_task}
use clawdchat.Handler.{World, Request}
use clawdchat.Handler.Posts.{seen_at}

abbrev pub with_tasks : World → Tasks → World
with_tasks w t = record w { tasks = t.manager; store = t.store }

unfoldable pub handle_assign_task : World → Request → Option AssignTaskPayload → World × Frame
handle_assign_task w r none = (w, error_frame r.req_id invalid_payload)
handle_assign_task w r (some p) =
    let (t, made) =
      create_task (record { manager = w.tasks; store = w.store }) r.now r.fresh p.room_id p.title
        p.description p.assignee r.agent_id in
    if not (is_agent_in_room w.broker r.agent_id p.room_id)
    then (w, error_frame r.req_id not_in_room)
    else elim made [
      | err e ↦ (with_tasks w t, error_frame r.req_id internal_error)
      | ok task ↦ (
        record (with_tasks w t) {
          broker = broadcast_to_room_all w.broker p.room_id (event task_assigned (task_body task));
        },
        ok_frame r.req_id (task_body task),
      )
    ]

report_update : World → Request → String → Tasks × Result (Option TaskInfo) → World × Frame
report_update w r room_id (t, err e) = (with_tasks w t, error_frame r.req_id internal_error)
report_update w r room_id (t, ok none) = (with_tasks w t, error_frame r.req_id task_not_found)
report_update w r room_id (t, ok (some task)) = (
  record (with_tasks w t) {
    broker = broadcast_to_room_all w.broker room_id (event task_updated (task_body task));
  },
  ok_frame r.req_id (task_body task),
)

unfoldable pub handle_update_task : World → Request → Option UpdateTaskPayload → World × Frame
unfolding report_update
handle_update_task w r none = (w, error_frame r.req_id invalid_payload)
handle_update_task w r (some p) = elim (get_task w.tasks p.task_id) [
  | none ↦ (w, error_frame r.req_id task_not_found)
  | some task ↦
      if not (is_agent_in_room w.broker r.agent_id task.room_id)
      then (w, error_frame r.req_id not_in_room)
      else report_update w r task.room_id (
          update_task (record { manager = w.tasks; store = w.store }) r.now p.task_id p.status
            p.assignee p.note)
]

unfoldable pub handle_set_typing : World → Request → Option SetTypingPayload → World × Frame
handle_set_typing w r none = (w, error_frame r.req_id invalid_payload)
handle_set_typing w r (some p) =
    let b = record w.broker { agents = update w.broker.agents r.agent_id (seen_at r.now) } in
    if not (is_agent_in_room w.broker r.agent_id p.room_id)
    then (w, error_frame r.req_id not_in_room)
    else (
      record w {
        broker =
            broadcast_to_room b p.room_id r.agent_id
              (event typing_indicator (typing_body p.room_id r.agent_id r.agent_name p.typing));
      },
      ok_frame r.req_id (room_id_body p.room_id),
    )

abbrev pub is_presence : String → Bool
is_presence status =
    same status "idle" || same status "waiting" || same status "working" || same status "thinking"

abbrev pub present : ℕ → SetPresencePayload → AgentConnection → AgentConnection
present now p c = record c {
  info = record c.info {
    status = some p.status;
    status_detail = p.status_detail;
    progress = p.progress;
    last_active = some now;
  };
}

tell_rooms : Broker → List String → String → Frame → Broker
tell_rooms b [] a f = b
tell_rooms b (room_id ∷ rest) a f = tell_rooms (broadcast_to_room b room_id a f) rest a f

unfoldable pub handle_set_presence : World → Request → Option SetPresencePayload → World × Frame
unfolding tell_rooms
handle_set_presence w r none = (w, error_frame r.req_id invalid_payload)
handle_set_presence w r (some p) =
    let b = record w.broker { agents = update w.broker.agents r.agent_id (present r.now p) } in
    if not (is_presence p.status)
    then (w, error_frame r.req_id invalid_payload)
    else elim (get w.broker.agents r.agent_id) [
      | none ↦ (w, error_frame r.req_id not_registered)
      | some c ↦ (
        record w {
          broker = tell_rooms b c.rooms r.agent_id (
              event presence_update
                (presence_body r.agent_id r.agent_name p.status p.status_detail p.progress));
        },
        ok_frame r.req_id (status_body p.status),
      )
    ]
