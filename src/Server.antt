-- ===== src/Server.antt =====
-- src/server.cpp: the queue of the tasks that other threads hand to the server's thread, with the
-- states of the server that admit a task, the time-out of `invoke`, and the end of the thread.
pub mod Queue
pub mod Answer
pub mod Tracked
use rtt_opcua.Base.{
  ℕ, zero, suc, ◌+◌, Bool, true, false, not, ◌||◌, Option, none, some, List, [], ◌∷◌, ◌++◌,
  if◌then◌else◌, length, is_empty, Bytes, codes,
}

pub data ServerState : Type 0 where
  stopped starting running stopping failed : ServerState

unfoldable pub is_running : ServerState → Bool
is_running running = true
is_running _ = false

-- `before == running || before == starting`
unfoldable pub may_stop : ServerState → Bool
may_stop running = true
may_stop starting = true
may_stop _ = false

pub data QueuedTaskState : Type 0 where
  task_queued task_running task_cancelled : QueuedTaskState

-- A queued task: whether it has a completion (`post` gives none), the two fields of the completion,
-- the atomic state, and how often the callback has been called.
pub record QueuedTask : Type 0 where
  pub has_completion : Bool
  pub done : Bool
  pub error : Bytes
  pub state : QueuedTaskState
  pub calls : ℕ

abbrev pub new_task : Bool → QueuedTask
new_task has_completion = record {
  has_completion = has_completion;
  done = false;
  error = [];
  state = task_queued;
  calls = 0;
}

-- `complete`
unfoldable pub complete : Bytes → QueuedTask → QueuedTask
complete error t = if t.has_completion then record t { done = true; error = error } else t

-- The time-out of the wait in `invoke`, with the lock on the completion: it is not taken on a done
-- task, and then `compare_exchange_strong(queued, cancelled)`.
unfoldable pub cancel : QueuedTask → QueuedTask
cancel t = if t.done || not t.has_completion then t else elim t.state [
  | task_queued ↦ record t { state = task_cancelled }
  | task_running ↦ t
  | task_cancelled ↦ t
]

-- One round of the loop of `drainTasks`, as one step; `thrown` is the message of what the callback
-- throws, empty where it throws nothing.
unfoldable pub run_task : Bytes → QueuedTask → QueuedTask
unfolding complete
run_task thrown t = elim t.state [
  | task_queued ↦ complete thrown (record t { state = task_running; calls = t.calls + 1 })
  | task_running ↦ complete (codes "OPC UA server task cancelled") t
  | task_cancelled ↦ complete (codes "OPC UA server task cancelled") t
]

-- What `invoke` returns: the time-out when it has cancelled the task, the completion's error when
-- that is done, and `none` while it waits.
unfoldable pub invoke_result : QueuedTask → Option (Bool × Bytes)
invoke_result t = elim t.state [
  | task_cancelled ↦ some (false, codes "OPC UA server task timed out")
  | task_queued ↦ if t.done then some (is_empty t.error, t.error) else none
  | task_running ↦ if t.done then some (is_empty t.error, t.error) else none
]

-- The server: its state, the tasks that have been made, in the order of making, and the positions
-- of those in the deque, in the deque that `drainTasks` took, and in the one that
-- `failPendingTasks` took.
pub record Server : Type 0 where
  pub current_state : ServerState
  pub stop_requested : Bool
  pub store : List QueuedTask
  pub tasks : List ℕ
  pub pending : List ℕ
  pub failing : List ℕ

abbrev pub modify_at : ℕ → (QueuedTask → QueuedTask) → List QueuedTask → List QueuedTask
modify_at i f [] = []
modify_at zero f (t ∷ ts) = f t ∷ ts
modify_at (suc i) f (t ∷ ts) = t ∷ modify_at i f ts

-- `enqueue`, and the part of `invoke` under the lock.
unfoldable pub enqueue : Bool → Server → Server
unfolding is_running
enqueue has_completion s =
    if is_running s.current_state
    then record s {
      store = s.store ++ (new_task has_completion ∷ []);
      tasks = s.tasks ++ (length s.store ∷ []);
    }
    else s

unfoldable pub request_stop : Server → Server
unfolding may_stop
request_stop s = record s {
  stop_requested = true;
  current_state = if may_stop s.current_state then stopping else s.current_state;
}

-- The `swap` of `drainTasks`, and a round of its loop.
unfoldable pub drain_swap : Server → Server
drain_swap s = elim s.pending [ [] ↦ record s { pending = s.tasks; tasks = [] } | i ∷ is ↦ s ]

unfoldable pub drain_one : Bytes → Server → Server
unfolding run_task
drain_one thrown s = elim s.pending [
  | [] ↦ s
  | i ∷ is ↦ record s { store = modify_at i (run_task thrown) s.store; pending = is }
]

-- The `swap` of `failPendingTasks`, and a round of its loop.
unfoldable pub fail_swap : Server → Server
fail_swap s = elim s.failing [ [] ↦ record s { failing = s.tasks; tasks = [] } | i ∷ is ↦ s ]

unfoldable pub fail_one : Bytes → Server → Server
unfolding complete
fail_one error s = elim s.failing [
  | [] ↦ s
  | i ∷ is ↦ record s { store = modify_at i (complete error) s.store; failing = is }
]

-- The thread's report that it runs, and its last state.
unfoldable pub report_running : Server → Server
report_running s = if s.stop_requested then s else record s { current_state = running }

pub data Operation : Type 0 where
  submit : Bool → Operation
  time_out : ℕ → Operation
  stop_request swap_drain swap_fail : Operation
  run_one : Bytes → Operation
  fail_stopped fail_failed report finish set_failure : Operation

unfoldable pub step : Server → Operation → Server
unfolding cancel enqueue request_stop drain_swap drain_one fail_swap fail_one report_running
step s (submit has_completion) = enqueue has_completion s
step s (time_out i) = record s { store = modify_at i cancel s.store }
step s stop_request = request_stop s
step s swap_drain = drain_swap s
step s swap_fail = fail_swap s
step s (run_one thrown) = drain_one thrown s
step s fail_stopped = fail_one (codes "OPC UA server stopped") s
step s fail_failed = fail_one (codes "OPC UA server failed") s
step s report = report_running s
step s finish = record s { current_state = stopped }
step s set_failure = record s { current_state = failed }

unfoldable pub run : Server → List Operation → Server
run s [] = s
run s (op ∷ ops) = run (step s op) ops
