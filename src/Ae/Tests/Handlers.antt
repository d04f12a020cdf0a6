-- ===== src/Ae/Tests/Handlers.antt =====
-- The handlers of the server on a loop with a listening descriptor.
use aspr1net.Base.{false, [], some, none, err, null_pointer, refl, ◌==◌, if◌then◌else◌}
use aspr1net.Base.Int.{pos}
use aspr1net.Ae.Types.{EventLoop}
use aspr1net.Ae.Process.Calls.{IsServing}
use aspr1net.Ae.Process.Loop.{Ran}
use aspr1net.Anet.{Os, accepted, connected}
use aspr1net.Samples.{zeros, Disk, disk_files}
use aspr1net.Server.Handlers
use aspr1net.Server.Handlers.{lifted}
use aspr1net.Server.Start.{Server, procs, wait}
use aspr1net.Server.Watching.{Undisturbed}
use aspr1net.Server.Serving.{wait-Ran}
use aspr1net.Ae.Tests.{World, kernel, kernel_laws, serving, serving-IsServing}

-- Each accept gives descriptor 9, and nothing is ever to be read.
abbrev system : Os World
system = record {
  socket = λ family socktype protocol w. (w, none);
  close = λ fd w j. if fd == j then none else w j;
  setsockopt = λ fd option val w. (w, false);
  set_sndtimeo = λ fd sec usec w. (w, false);
  getfl = λ fd w. (w, none);
  setfl = λ fd st w. (w, false);
  bind = λ fd a w. (w, false);
  listen = λ fd backlog w. (w, false);
  connect = λ fd a w. (w, connected);
  accept = λ fd w. (w, accepted 9);
  getaddrinfo = λ host port family passive w. (w, some []);
  chmod = λ path perm w. w;
  read = λ fd n w. (w, some []);
  write = λ fd bs w. (w, none);
  opened = λ w j. false;
  pending = λ w fd. [];
  sent = λ w fd. [];
}

system-Undisturbed : Undisturbed kernel system
system-Undisturbed = record {
  read_keeps = λ fd n w j. refl;
  write_keeps = λ fd bs w j. refl;
  accept_keeps = λ fd w j. refl;
  setsockopt_keeps = λ fd option val w j. refl;
  closed = λ fd w j. refl;
}

abbrev disk : Disk
disk = record { held = []; left = []; met = false; out = [] }

-- Descriptor 1 listens, with the handler of new connections.
abbrev listening : EventLoop (Handlers.World World Disk)
listening = record {
  max_fd = serving.max_fd;
  fdset_size = serving.fdset_size;
  time_event_next_id = serving.time_event_next_id;
  last_time = serving.last_time;
  events = serving.events;
  fired = serving.fired;
  time_event_list = serving.time_event_list;
  stop_flag = serving.stop_flag;
  api_data = serving.api_data;
  bs_proc = serving.bs_proc;
  world = record { system = serving.world; files = disk; sessions = [] };
}

listening-IsServing : IsServing (lifted kernel) listening
listening-IsServing =
    let v = serving-IsServing in
    record {
      well_formed = record {
        sized = v.well_formed.sized;
        top = v.well_formed.top;
        watched = v.well_formed.watched;
      };
      sizes = (
        v.sizes.0,
        record { opened = v.sizes.1.opened; reports = v.sizes.1.reports; fired = v.sizes.1.fired },
      );
      has_procs = v.has_procs;
    }

abbrev server : Server World Disk
server = record {
  port = 12345;
  tcp_backlog = 511;
  max_client_count = 2;
  listen_fd = pos 1;
  loop = listening;
}

wait-Ran_example :
    Ran
      (lifted kernel)
      (procs zeros kernel system disk_files 9)
      (λ p l. err null_pointer)
      3
      (record listening { stop_flag = false })
      (wait zeros kernel system disk_files 9 3 server)
wait-Ran_example =
    wait-Ran kernel kernel_laws system system-Undisturbed zeros disk_files 9 3 server
      listening-IsServing
