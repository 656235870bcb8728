-- ===== src/Connect/Tests.antt =====
-- Runs of startup_fsm and connect_fsm.
use nativepg.Prelude.{ℕ, ◌≡◌, refl, List, [], ◌∷◌, replicate, none, some}
use nativepg.Protocol.{Error, client, incomplete_message}
use nativepg.ReadBuffer.{ReadBuffer}
use nativepg.Wire.Integers.{big_endian}
use nativepg.Startup.{ScramFsm, ConnectParams, ResumePoint, StartupFsm}
use nativepg.Connect.{DriverPoint, ConnectFsm, ConnectPoint, ConnectResult, close, connect, resume}
use nativepg.Connect.Closing.{History, begun, later, Ended, connect-Ended}

-- A SCRAM that accepts everything.
abbrev easy : ScramFsm ℕ
easy = record {
  on_init = λ b s. some (none, 1 ∷ [], 1);
  on_server_first = λ m p b s. some (none, 2 ∷ [], 2);
  on_server_final = λ m s. some none;
}

abbrev zeros : ℕ → List ℕ
zeros n = replicate n 0

abbrev params : ConnectParams
params = record { username = 117 ∷ []; password = []; database = [] }

abbrev machine : ResumePoint → StartupFsm ℕ
machine p = record {
  point = p;
  scram = 0;
  write_buffer = [];
  backend_process_id = 0;
  backend_secret_key = 0;
}

-- A block of four bytes, two of which are committed, and two more that were read.
abbrev buffer : ReadBuffer
buffer = record {
  size = 4;
  committed_offset = 0;
  prepared_offset = 2;
  memory = 82 ∷ 0 ∷ 0 ∷ 0 ∷ [];
}

abbrev fresh : ConnectFsm ℕ
fresh = record {
  point = ConnectPoint.not_started;
  startup = record { point = DriverPoint.initial; impl = machine ResumePoint.initial };
  stored_ec = none;
}

abbrev refused : Error
refused = client incomplete_message

-- A connect that fails.
closes :
    History easy big_endian params zeros
      (close ∷ connect ∷ [])
      (record fresh { point = ConnectPoint.closing; stored_ec = some refused })
unfolding resume
closes =
    later buffer buffer (some refused) 0 (later buffer buffer none 0 (begun fresh refl) refl tt)
      refl tt

ends :
    resume easy big_endian params zeros
      (record fresh { point = ConnectPoint.closing; stored_ec = some refused })
      buffer
      none
      0
    ≡ some (
      ConnectResult.ended (some refused),
      record fresh { point = ConnectPoint.closing; stored_ec = some refused },
      buffer,
    )
unfolding resume
ends = refl

connect-Ended_example : Ended easy big_endian params zeros (some refused) (close ∷ connect ∷ [])
connect-Ended_example =
    connect-Ended easy big_endian params zeros (close ∷ connect ∷ [])
      (record fresh { point = ConnectPoint.closing; stored_ec = some refused })
      (record fresh { point = ConnectPoint.closing; stored_ec = some refused }) buffer buffer none
      (some refused) 0 closes ends
