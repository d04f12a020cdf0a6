-- ===== src/Client/Tests.antt =====
-- A client with a small block, and lines that it does not take.
use aspr1net.Base.{
  suc, ◌+◌, [], ◌∷◌, ◌++◌, none, some, ◌≡◌, refl, arith, ok, err, out_of_bounds, Bytes, codes,
  replicate, false, List, ap, true, eq_bytes,
}
use aspr1net.Base.Int.{pos, minus_one}
use aspr1net.Arg
use aspr1net.Arg.{Arg, argc}
use aspr1net.Buffer.{Buffer}
use aspr1net.Wire.{packed}
use aspr1net.Chunks.{file_chunks}
use aspr1net.Chunks.Pieces.{pieces}
use aspr1net.Chunks.Read.{AllHold, file_chunks_lem}
use aspr1net.Client.{
  Client, ClientCommand, ping_command, get_command, set_command, file_send_command,
  file_recv_command, invoke, check, close_client, connect, recv, process,
}
use aspr1net.Client.Recv.{recv_overruns}
use aspr1net.Client.Dispatch.{
  entered, Takes, takes_ping, takes_get, takes_set, takes_file_send, takes_file_recv, process-Takes,
  connect_leaks,
}
use aspr1net.Samples.{
  zeros, empty_buffer, Link, line_os, line-Stands, Disk, disk_files, disk-FileLaws,
}

abbrev small_buffer : Buffer
small_buffer = record { buff = replicate 4 0; size = 4; read_idx = 0; write_idx = 0 }

abbrev client : Client
client = record {
  ip = none;
  port = minus_one;
  fd = pos 3;
  r_buffer = small_buffer;
  w_buffer = empty_buffer;
  buffer_list = [];
  arg = record { kind = 0; argv = [] };
}

abbrev hello : Bytes
hello = codes "hello"

abbrev line : Link
line = record { input = packed hello ++ []; output = [] }

recv_overruns_example : recv zeros line_os client line ≡ err out_of_bounds
recv_overruns_example =
    recv_overruns zeros line_os 3 (line-Stands 3) client hello [] line refl (refl, omega arith)
      (omega arith) (omega arith) refl

abbrev disk : Disk
disk = record { held = hello; left = hello; met = false; out = [] }

file_chunks_lem_example :
    (f' : Disk) × (cs : List Buffer) × (file_chunks zeros disk_files (suc (suc (0 + 0))) 0 disk []
      ≡ ok (f', [] ++ cs))
    × AllHold cs (pieces 0 hello)
file_chunks_lem_example =
    file_chunks_lem zeros disk_files disk-FileLaws 0 0 0 disk [] hello refl refl (omega arith)
      (omega arith)

abbrev unknown_arg : Arg
unknown_arg = record { kind = 0; argv = codes "nope" ∷ [] }

unknown-splits : Arg.process client.arg (some (codes "nope")) ≡ some unknown_arg
unfolding Arg.process
unknown-splits = refl

not_taken : (command : ClientCommand) → ¬ Takes (codes "nope") (argc unknown_arg) command
not_taken ping_command (takes_ping e n) =
    let same : false ≡ true = ap (λ x. eq_bytes x (codes "ping")) e in cc
not_taken get_command (takes_get e n) = absurd (omega arith)
not_taken set_command (takes_set e n) = absurd (omega arith)
not_taken file_send_command (takes_file_send e n) = absurd (omega arith)
not_taken file_recv_command (takes_file_recv e n) = absurd (omega arith)

process-Takes_example :
    ((command : ClientCommand)
      → Takes (codes "nope") (argc unknown_arg) command
      → process zeros line_os disk_files 9 client (codes "nope") line disk
        ≡ invoke zeros line_os disk_files 9 command (entered client unknown_arg) line disk)
    × (((command : ClientCommand) → ¬ Takes (codes "nope") (argc unknown_arg) command)
        → process zeros line_os disk_files 9 client (codes "nope") line disk
          ≡ ok (record {
            world = line;
            files = disk;
            client = entered client unknown_arg;
            printed = [];
            status = minus_one;
          }))
process-Takes_example =
    process-Takes zeros line_os disk_files 9 client (codes "nope") (codes "nope") line disk
      unknown_arg unknown-splits refl

connect_leaks_example :
    (check (connect line_os client (codes "::1") 12345 line).1 ≡ false)
    × (close_client line_os (connect line_os client (codes "::1") 12345 line).1 line ≡ line)
connect_leaks_example = connect_leaks line_os client (codes "::1") 12345 line line refl
