-- ===== src/Tests/Ports.antt =====
-- Pumps of a remote port against a session that fails once.
use rtt_opcua.Base.{
  ℕ, ◌+◌, ◌-◌, ◌≡◌, refl, ◌⊎◌, inl, true, false, Option, none, some, List, [], ◌∷◌, ◌++◌, map, ltb,
  if◌then◌else◌, codes,
}
use rtt_opcua.RemotePort.{
  input, RemotePortDescription, SessionWrite, accepted, refused, write_success, write_failure,
  value, Adapter, InputWorld, OutputWorld, Codec, transfer_pending_state_to,
}
use rtt_opcua.RemotePort.Pump.{pump_input}
use rtt_opcua.RemotePort.Delivery.{
  held_input, held_output, decoded, run_input, run_output, run_input_conserves,
  run_output_conserves, pump_input_drains,
}
use rtt_opcua.RemotePort.Transfer.{SamePort, transfer_pending_state_to_cases}

-- Samples are numbers; those from 100 on have no encoding.
abbrev small_codec : Codec ℕ ℕ
small_codec = record {
  to_variant = λ s. if ltb s 100 then some (s + 1) else none;
  make_data_source = λ v. if ltb 100 v then none else some (v - 1);
}

abbrev total_codec : Codec ℕ ℕ
total_codec = record { to_variant = λ s. some (s + 1); make_data_source = λ v. some (v - 1) }

abbrev command_port : RemotePortDescription
command_port = record {
  name = codes "Command";
  type_name = codes "Int32";
  service_path = [];
  description = [];
  direction = input;
}

abbrev idle : Adapter ℕ ℕ
idle = record {
  description = command_port;
  pending_input_source = none;
  pending_input = none;
  pending_output = none;
  last_error = [];
}

abbrev input_world : Option ℕ → SessionWrite → InputWorld ℕ
input_world sample session = record {
  is_input = true;
  connected = true;
  local_throws = none;
  sample = sample;
  session = session;
}

abbrev rounds : List (InputWorld ℕ)
rounds =
    input_world (some 4) (refused (codes "offline"))
    ∷ input_world (some 5) accepted
    ∷ input_world (some 6) accepted
    ∷ []

-- The sample read first is sent in the second round; the third round takes the next one.
run_input_test : (run_input small_codec rounds idle).2 ≡ 5 ∷ 7 ∷ []
unfolding run_input pump_input
run_input_test = refl

abbrev output_rounds : List (OutputWorld ℕ)
output_rounds =
    record { is_output = true; connected = true; read = value 8; mirror = write_failure }
    ∷ record { is_output = true; connected = true; read = value 9; mirror = write_success }
    ∷ []

run_input_conserves_example :
    held_input small_codec idle ++ map small_codec.to_variant (run_input small_codec rounds idle).1
    ≡ map some (run_input small_codec rounds idle).2
      ++ held_input small_codec (run_input small_codec rounds idle).0
run_input_conserves_example = run_input_conserves small_codec rounds idle

run_output_conserves_example :
    held_output small_codec idle
      ++ decoded small_codec (run_output small_codec output_rounds idle).1
    ≡ (run_output small_codec output_rounds idle).2
      ++ held_output small_codec (run_output small_codec output_rounds idle).0
run_output_conserves_example = run_output_conserves small_codec output_rounds idle

pump_input_drains_example :
    held_input total_codec (pump_input total_codec (input_world (some 4) accepted) idle).adapter
    ≡ []
pump_input_drains_example =
    pump_input_drains total_codec (input_world (some 4) accepted) idle refl refl
      (λ s. (s + 1, refl)) (inl refl)

abbrev holding : Adapter ℕ ℕ
holding = record idle { pending_input = some 5; last_error = codes "offline" }

transfer_pending_state_to_cases_example :
    (((transfer_pending_state_to holding idle).2 ≡ true)
      × SamePort command_port command_port
      × (held_input small_codec (transfer_pending_state_to holding idle).1
          ≡ held_input small_codec holding)
      × (held_input small_codec (transfer_pending_state_to holding idle).0
          ≡ held_input small_codec idle)
      × (held_output small_codec (transfer_pending_state_to holding idle).1
          ≡ held_output small_codec holding)
      × (held_output small_codec (transfer_pending_state_to holding idle).0
          ≡ held_output small_codec idle)
      × ((transfer_pending_state_to holding idle).1.last_error ≡ holding.last_error))
    ⊎ ((transfer_pending_state_to holding idle ≡ (holding, idle, false))
        × ¬ SamePort command_port command_port)
transfer_pending_state_to_cases_example = transfer_pending_state_to_cases small_codec holding idle
