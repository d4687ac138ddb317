-- ===== src/Tests/Tasks.antt =====
-- Two tasks handed to the thread of a server: one runs, one is cancelled in time.
use rtt_opcua.Base.{◌≡◌, refl, true, false, some, List, [], ◌∷◌, get_elem?}
use rtt_opcua.Server.{
  running, is_running, task_running, QueuedTask, complete, cancel, run_task, invoke_result, Server,
  enqueue, drain_swap, drain_one, Operation, submit, time_out, swap_drain, run_one, step, run,
}
use rtt_opcua.Server.Queue.{invoke_success}
use rtt_opcua.Server.Answer.{At, IsCancelled, IsOpen, timed_out_never_runs}
use rtt_opcua.Server.Tracked.{IsTracked, answered_when_drained}

abbrev idle : Server
idle = record {
  current_state = running;
  stop_requested = false;
  store = [];
  tasks = [];
  pending = [];
  failing = [];
}

abbrev first : List Operation
first = submit true ∷ submit true ∷ time_out 1 ∷ swap_drain ∷ run_one [] ∷ []

abbrev history : List Operation
history = submit true ∷ submit true ∷ time_out 1 ∷ swap_drain ∷ run_one [] ∷ run_one [] ∷ []

abbrev ran : QueuedTask
ran = record { has_completion = true; done = true; error = []; state = task_running; calls = 1 }

history_runs : get_elem? (run idle history).store 0 ≡ some ran
unfolding run step enqueue is_running cancel drain_swap drain_one run_task complete
history_runs = refl

ran_succeeds : invoke_result ran ≡ some (true, [])
unfolding invoke_result
ran_succeeds = refl

invoke_success_example : ran.calls ≡ 1
invoke_success_example = invoke_success idle history 0 ran [] tt history_runs ran_succeeds

second-IsCancelled : At IsCancelled (run idle first).store 1
unfolding run step enqueue is_running cancel drain_swap drain_one run_task complete
second-IsCancelled = (refl, refl)

timed_out_never_runs_example : At IsCancelled (run (run idle first) (run_one [] ∷ [])).store 1
timed_out_never_runs_example =
    timed_out_never_runs (run idle first) (run_one [] ∷ []) 1 second-IsCancelled

idle-IsTracked : IsTracked idle
idle-IsTracked = λ i h. absurd h

no_tasks : (run idle history).tasks ≡ []
unfolding run step enqueue is_running cancel drain_swap drain_one run_task complete
no_tasks = refl

no_pending : (run idle history).pending ≡ []
unfolding run step enqueue is_running cancel drain_swap drain_one run_task complete
no_pending = refl

no_failing : (run idle history).failing ≡ []
unfolding run step enqueue is_running cancel drain_swap drain_one run_task complete
no_failing = refl

answered_when_drained_example : ¬ At IsOpen (run idle history).store 1
answered_when_drained_example =
    answered_when_drained idle history idle-IsTracked no_tasks no_pending no_failing 1
