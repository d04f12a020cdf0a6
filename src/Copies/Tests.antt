-- ===== src/Copies/Tests.antt =====
-- A file of two characters that is downloaded, and one that is uploaded.
use aspr1net.Base.{
  ◌+◌, ◌<◌, [], ◌∷◌, ◌++◌, none, ◌≡◌, refl, arith, ok, Bytes, length, codes, false, true,
}
use aspr1net.Base.Int.{ℤ, pos}
use aspr1net.Buffer.Memory.{c_string}
use aspr1net.Wire.{packed}
use aspr1net.Chunks.Pieces.{rounds_of}
use aspr1net.Chunks.Whole.{file_stream}
use aspr1net.Client
use aspr1net.Client.{Client, file_recv, file_send}
use aspr1net.Client.Send.{HasRoom}
use aspr1net.Client.FileRecv.{download_command}
use aspr1net.Client.Upload.{upload_command}
use aspr1net.Server
use aspr1net.Server.{Session}
use aspr1net.Server.Handlers.{write_session}
use aspr1net.Samples.{
  zeros, empty_buffer, empty_buffer-size, empty_buffer-IsValid, Link, line_os, line-Stands,
  line-ReadsWhole, Disk, disk_files, disk-FileLaws,
}
use aspr1net.Copies.{download_copies, upload_copies}

abbrev hello : Bytes
hello = codes "hi"

abbrev name : Bytes
name = codes "client-a"

abbrev path : Bytes
path = codes "server-a"

abbrev disk : Disk
disk = record { held = hello; left = []; met = false; out = [] }

abbrev line : Link
line = record { input = file_stream hello ++ 7 ∷ []; output = [] }

abbrev client : Client
client = record {
  ip = none;
  port = pos 0;
  fd = pos 3;
  r_buffer = empty_buffer;
  w_buffer = empty_buffer;
  buffer_list = [];
  arg = record { kind = 0; argv = [] };
}

abbrev session : Session
session = record {
  fd = pos 5;
  r_buffer = empty_buffer;
  w_buffer = empty_buffer;
  buffer_list = [];
  has_loop = true;
  arg = record { kind = 0; argv = codes "file" ∷ path ∷ [] };
}

download_room : HasRoom (download_command name) client
unfolding c_string
download_room = record { valid = empty_buffer-IsValid; room = omega arith; int_size = omega arith }

upload_room : HasRoom (upload_command name) client
unfolding c_string
upload_room = record { valid = empty_buffer-IsValid; room = omega arith; int_size = omega arith }

short_download : length (download_command name) < 1024
unfolding c_string
short_download = omega arith

short_upload : length (upload_command name) < 1024
unfolding c_string
short_upload = omega arith

download_copies_example :
    (s1 : Session) × (f' : Disk) × (w' : Link) × (s2 : Session) × (v1 : Link) × (c1 : Client)
    × (n : ℤ) × (v' : Link) × (c' : Client) × (g' : Disk) × (Server.file_recv zeros line_os
          disk_files
          (rounds_of hello + 2 + 0)
          session
          line
          disk
        ≡ ok (line, s1, f'))
    × (write_session line_os s1 line ≡ ok (w', s2))
    × (w'.output ≡ [] ++ file_stream hello)
    × (Client.send zeros line_os client (download_command name) line ≡ ok (v1, c1, n))
    × (v1.output ≡ [] ++ packed (download_command name))
    × (file_recv zeros line_os disk_files client name line disk ≡ ok (v', c', g'))
    × (g'.out ≡ hello)
    × (v'.input ≡ 7 ∷ [])
download_copies_example =
    download_copies zeros line_os 3 (line-Stands 3) disk_files disk-FileLaws line_os 5
      (line-Stands 5) disk_files disk-FileLaws 0 0 0 name path hello (7 ∷ []) session line disk
      (record disk { left = hello }) client line disk disk (omega arith) refl empty_buffer-IsValid
      (omega arith) refl refl refl refl (empty_buffer-size, omega arith) (omega arith) download_room
      refl short_download refl refl

upload_copies_example :
    (v' : Link) × (c' : Client) × (g' : Disk) × (n : ℤ) × (w' : Link) × (s' : Session) × (f' : Disk)
    × (file_send zeros line_os disk_files (rounds_of hello + 2 + 0) client name line disk
        ≡ ok (v', c', g', n))
    × (v'.output ≡ [] ++ (packed (upload_command name) ++ file_stream hello))
    × (Server.file_send zeros line_os disk_files session line disk ≡ ok (w', s', f'))
    × (f'.out ≡ hello)
    × (w'.input ≡ 7 ∷ [])
upload_copies_example =
    upload_copies zeros line_os 3 (line-Stands 3) disk_files disk-FileLaws line_os 5 (line-Stands 5)
      disk_files disk-FileLaws (line-ReadsWhole 5) 0 0 0 name path hello (7 ∷ []) client line disk
      (record disk { left = hello }) session line disk disk (omega arith) refl upload_room
      short_upload refl refl refl (empty_buffer-size, omega arith) (omega arith) refl refl refl
