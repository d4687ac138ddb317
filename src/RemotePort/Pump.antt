-- ===== src/RemotePort/Pump.antt =====
-- src/remote_port.cpp, `pumpInput` and `pumpOutput`.
use rtt_opcua.Base.{not, ◌||◌, Option, none, some, if◌then◌else◌}
use rtt_opcua.RemotePort.{
  SessionWrite, accepted, refused, write_threw, WriteStatus, write_success, mirror_threw,
  ReadResult, waiting, failed, value, read_threw, Adapter, InputWorld, OutputWorld, InputStep,
  OutputStep, Codec, encode_error, decode_error, pump_error, mirror_error, set_error, clear_error,
}

module _ {Source Variant : Type 0} where
  -- The part of `pumpInput` from the write on, with the encoded sample at hand.
  unfoldable pub write_pending :
      SessionWrite → Option Source → Variant → Adapter Source Variant → InputStep Source Variant
  write_pending accepted taken v a = record {
    adapter = clear_error (record a { pending_input = none });
    taken = taken;
    handed = some v;
  }
  write_pending (refused error) taken v a = record {
    adapter = set_error error a;
    taken = taken;
    handed = none;
  }
  write_pending (write_threw what) taken v a = record {
    adapter = set_error (pump_error a.description.name what) a;
    taken = taken;
    handed = none;
  }

  -- The part from `if (!pending_input_)` on, with a source at hand.
  unfoldable pub encode_pending :
      Codec Source Variant
      → SessionWrite
      → Option Source
      → Source
      → Adapter Source Variant
      → InputStep Source Variant
  unfolding write_pending
  encode_pending codec session taken source a = elim (codec.to_variant source) [
    | none ↦ record {
      adapter =
          set_error (encode_error a.description.name)
            (record a { pending_input_source = some source });
      taken = taken;
      handed = none;
    }
    | some v ↦
        write_pending session taken v
          (record a { pending_input = some v; pending_input_source = none })
  ]

  -- `pumpInput`, inside the handlers of `pump`.
  unfoldable pub pump_input :
      Codec Source Variant → InputWorld Source → Adapter Source Variant → InputStep Source Variant
  unfolding encode_pending write_pending
  pump_input codec world a =
      if not world.is_input
      then record { adapter = a; taken = none; handed = none }
      else elim a.pending_input [
        | some v ↦ write_pending world.session none v a
        | none ↦ elim a.pending_input_source [
          | some source ↦ encode_pending codec world.session none source a
          | none ↦
              if not world.connected
              then record { adapter = a; taken = none; handed = none }
              else elim world.local_throws [
                | some what ↦ record {
                  adapter = set_error (pump_error a.description.name what) a;
                  taken = none;
                  handed = none;
                }
                | none ↦ elim world.sample [
                  | none ↦ record { adapter = a; taken = none; handed = none }
                  | some source ↦
                      encode_pending codec world.session (some source) source
                        (record a { pending_input_source = some source })
                ]
              ]
        ]
      ]

  -- A write of the held sample to the local mirror.
  unfoldable pub write_mirror :
      WriteStatus → Option Variant → Source → Adapter Source Variant → OutputStep Source Variant
  unfolding mirror_error
  write_mirror write_success taken source a = record {
    adapter = clear_error (record a { pending_output = none });
    taken = taken;
    handed = some source;
  }
  write_mirror (mirror_threw what) taken source a = record {
    adapter =
        set_error (pump_error a.description.name what) (record a { pending_output = some source });
    taken = taken;
    handed = none;
  }
  write_mirror status taken source a = record {
    adapter =
        set_error (mirror_error a.description.name status)
          (record a { pending_output = some source });
    taken = taken;
    handed = none;
  }

  -- The answer of `readPortValue`.
  unfoldable pub take_read :
      Codec Source Variant
      → WriteStatus
      → ReadResult Variant
      → Adapter Source Variant
      → OutputStep Source Variant
  unfolding write_mirror
  take_read codec mirror waiting a = record { adapter = clear_error a; taken = none; handed = none }
  take_read codec mirror (failed error) a = record {
    adapter = set_error error a;
    taken = none;
    handed = none;
  }
  take_read codec mirror (read_threw what) a = record {
    adapter = set_error (pump_error a.description.name what) a;
    taken = none;
    handed = none;
  }
  take_read codec mirror (value v) a = elim (codec.make_data_source v) [
    | none ↦ record {
      adapter = set_error (decode_error a.description.name) a;
      taken = some v;
      handed = none;
    }
    | some source ↦ write_mirror mirror (some v) source a
  ]

  -- `pumpOutput`, inside the handlers of `pump`.
  unfoldable pub pump_output :
      Codec Source Variant
      → OutputWorld Variant
      → Adapter Source Variant
      → OutputStep Source Variant
  unfolding take_read write_mirror
  pump_output codec world a =
      if not world.is_output || not world.connected
      then record { adapter = a; taken = none; handed = none }
      else elim a.pending_output [
        | some source ↦ write_mirror world.mirror none source a
        | none ↦ take_read codec world.mirror world.read a
      ]
