-- ===== src/Server/Tests.antt =====
-- A server with one session, and lines that it does not serve.
use aspr1net.Base.{
  Bool, true, false, [], ◌∷◌, ◌++◌, none, some, ◌≡◌, refl, arith, ok, err, out_of_bounds, ◌>>=◌,
  Sure, Bytes, codes, replicate, length-replicate,
}
use aspr1net.Base.Int.{pos}
use aspr1net.Arg
use aspr1net.Arg.{Arg}
use aspr1net.Ae.Types.{ae_readable, FileEvent, FiredEvent, Report, EventLoop}
use aspr1net.Ae.Epoll.{Kernel}
use aspr1net.Ae.Create.{Arrays}
use aspr1net.Anet.{Os, af_inet}
use aspr1net.Anet.Serve.{tcp_server, server_each}
use aspr1net.Buffer.Memory.{c_string}
use aspr1net.Wire.{packed}
use aspr1net.Command.{find}
use aspr1net.Server.{Session, server_table}
use aspr1net.Server.Handlers.{World, read_proc, put_session, with_system, read_event_handler}
use aspr1net.Server.Start.{init, wait, init_unserved}
use aspr1net.Server.Pointers.{Sound}
use aspr1net.Server.Safety.{server-Sound}
use aspr1net.Server.Dispatch.{
  HasLine, Refused, unknown, lined, read_event_handler-Refused, read_event_handler_blank,
}
use aspr1net.Samples.{
  zeros, empty_buffer, empty_buffer-size, Link, line_os, line-ReadsWhole, Disk, disk_files,
}

abbrev kernel : Kernel Link
kernel = record {
  epoll_create = λ w. (w, some 4);
  ctl = λ op fd i w. (w, false);
  wait = λ n t w. (w, some []);
  time = λ w. pos 0;
  gettimeofday = λ w. (pos 0, 0);
  registered = λ w j. none;
}

abbrev session : Session
session = record {
  fd = pos 1;
  r_buffer = empty_buffer;
  w_buffer = empty_buffer;
  buffer_list = [];
  has_loop = true;
  arg = record { kind = 0; argv = [] };
}

abbrev entry : Bool → FileEvent
entry watched = record {
  mask = record { readable = watched; writable = false };
  r_proc = some read_proc;
  w_proc = none;
  client_data = 0;
}

-- The loop, with a line that is to come.
abbrev serving : Bytes → EventLoop (World Link Disk)
serving line = record {
  max_fd = pos 1;
  fdset_size = 2;
  time_event_next_id = 0;
  last_time = pos 0;
  events = entry false ∷ entry true ∷ [];
  fired = [];
  time_event_list = [];
  stop_flag = false;
  api_data = some (record { events_size = 2; events = [] });
  bs_proc = none;
  world = record {
    system = record { input = packed line ++ []; output = [] };
    files = record { held = []; left = []; met = false; out = [] };
    sessions = some session ∷ [];
  };
}

abbrev unknown_line : Bytes
unknown_line = codes "nope 1"

abbrev unknown_arg : Arg
unknown_arg = record { kind = 0; argv = codes "nope" ∷ codes "1" ∷ [] }

unknown_line-HasLine : HasLine line_os 1 (serving unknown_line) 0 session unknown_line []
unknown_line-HasLine = record {
  lives = refl;
  block = (empty_buffer-size, omega arith);
  some_line = omega arith;
  fits = omega arith;
  comes = refl;
}

unknown_line-splits : Arg.process session.arg (some (c_string unknown_line)) ≡ some unknown_arg
unfolding Arg.process c_string
unknown_line-splits = refl

unknown_line-Refused : Refused unknown_arg (find (codes "nope") server_table)
unfolding find
unknown_line-Refused = unknown

read_event_handler-Refused_example :
    (w' : Link) × (w'.input ≡ [])
    × (read_event_handler zeros kernel line_os disk_files 9
          (serving unknown_line)
          (pos 1)
          0
          ae_readable
        ≡ ok (
            put_session
              (with_system (serving unknown_line) w')
              0
              (some (lined session unknown_line unknown_arg))))
read_event_handler-Refused_example =
    read_event_handler-Refused zeros kernel line_os disk_files 9 1 (line-ReadsWhole 1)
      (serving unknown_line) 0 ae_readable session unknown_line [] (codes "nope") unknown_arg
      unknown_line-HasLine unknown_line-splits refl unknown_line-Refused

abbrev blank_line : Bytes
blank_line = codes " "

blank_line-HasLine : HasLine line_os 1 (serving blank_line) 0 session blank_line []
blank_line-HasLine = record {
  lives = refl;
  block = (empty_buffer-size, omega arith);
  some_line = omega arith;
  fits = omega arith;
  comes = refl;
}

blank_line-splits :
    Arg.process session.arg (some (c_string blank_line)) ≡ some (record { kind = 0; argv = [] })
unfolding Arg.process c_string
blank_line-splits = refl

read_event_handler_blank_example :
    read_event_handler zeros kernel line_os disk_files 9 (serving blank_line) (pos 1) 0 ae_readable
    ≡ err out_of_bounds
read_event_handler_blank_example =
    read_event_handler_blank zeros kernel line_os disk_files 9 1 (line-ReadsWhole 1)
      (serving blank_line) 0 ae_readable session blank_line [] (record { kind = 0; argv = [] })
      blank_line-HasLine blank_line-splits refl

abbrev blank_fired : FiredEvent
blank_fired = record { fd = pos 0; mask = ae_readable }

abbrev blank_report : Report
blank_report = record {
  fd = pos 0;
  epollin = false;
  epollout = false;
  epollerr = false;
  epollhup = false;
}

abbrev arrays : Arrays
arrays = record {
  fresh_fired = λ n. replicate n blank_fired;
  fresh_reports = λ n. replicate n blank_report;
  length-fresh_fired = λ n. length-replicate n blank_fired;
  length-fresh_reports = λ n. length-replicate n blank_report;
}

no_server :
    tcp_server line_os 12345 none af_inet 511 (serving []).world.system
    ≡ ((serving []).world.system, none)
unfolding tcp_server server_each
no_server = refl

init_unserved_example :
    init zeros kernel line_os disk_files 9 arrays 12345 511 2 (serving []).world ≡ err out_of_bounds
init_unserved_example =
    init_unserved zeros kernel line_os disk_files 9 arrays 12345 511 2 4 (serving []).world
      (serving []).world.system (serving []).world.system refl no_server

-- A system with a socket to listen on, and a kernel that reports it in each round.
abbrev listening_os : Os Link
listening_os = record line_os {
  socket = λ family socktype protocol w. (w, some 1);
  getaddrinfo = λ host port family passive w.
      (w, some (record { family = 2; socktype = 1; protocol = 6; sockaddr = [] } ∷ []));
}

abbrev busy_kernel : Kernel Link
busy_kernel = record kernel {
  wait = λ n t w. (
    w,
    some (
        record { fd = pos 1; epollin = true; epollout = false; epollerr = false; epollhup = false }
        ∷ []),
  );
}

server-Sound_example : Sure Sound (
    init zeros busy_kernel listening_os disk_files 9 arrays 12345 511 20 (serving []).world
    >>= wait zeros busy_kernel listening_os disk_files 9 3)
server-Sound_example =
    server-Sound zeros busy_kernel listening_os disk_files 9 arrays 12345 511 20 4
      (serving []).world refl 3
