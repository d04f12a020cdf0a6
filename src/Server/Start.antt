-- ===== src/Server/Start.antt =====
-- `init` and `wait` of server.cpp, with the procedures of the program.
use aspr1net.Base.{
  ℕ, ◌==◌, Option, none, some, Result, ok, err, null_pointer, out_of_bounds, ◌≡◌, arith, ◌>>=◌,
  if◌then◌else◌,
}
use aspr1net.Base.Int.{ℤ, pos, minus_one}
use aspr1net.Ae.Types.{ae_readable, EventLoop}
use aspr1net.Ae.Epoll.{Kernel}
use aspr1net.Ae.Create.{Arrays, create}
use aspr1net.Ae.Files.{add_file_event, index_of}
use aspr1net.Ae.Process.{Procs, run}
use aspr1net.Anet.{Os, af_inet}
use aspr1net.Anet.Calls.{non_block, tcp4_server}
use aspr1net.Anet.Serve.{tcp_server}
use aspr1net.Buffer.{Allocator}
use aspr1net.Stdio.{Files}
use aspr1net.Server.Handlers.{
  World, lifted, with_system, accept_proc, read_proc, write_proc, accept_tcp_handler,
  read_event_handler, write_event_handler,
}

pub record Server (W F : Type 0) : Type 0 where
  pub port : ℕ
  pub tcp_backlog : ℕ
  pub max_client_count : ℕ
  pub listen_fd : ℤ
  pub loop : EventLoop (World W F)

module _ {W F : Type 0} (alloc : Allocator) (k : Kernel W) (os : Os W) (fs : Files F)
    (fuel : ℕ) where
  -- The procedures that the program registers. The fuel is for a loop over a file, and for accept.
  unfoldable pub procs : Procs (World W F)
  unfolding accept_tcp_handler read_event_handler write_event_handler
  procs p l fd client_data mask =
      if p == accept_proc
      then accept_tcp_handler alloc k os fuel l (index_of fd) client_data mask
      else if p == read_proc
      then read_event_handler alloc k os fs fuel l fd client_data mask
      else if p == write_proc
      then write_event_handler k os l fd client_data mask
      else err null_pointer

  abbrev pub listening : W → Option ℕ → W
  listening w none = w
  listening w (some fd) = (non_block os fd w).0

  abbrev pub descriptor : Option ℕ → ℤ
  descriptor none = minus_one
  descriptor (some fd) = pos fd

  -- `init` with the port, the backlog and the size of the table. The server itself is the client data
  -- of its listening descriptor.
  unfoldable pub init : Arrays → ℕ → ℕ → ℕ → World W F → Result (Server W F)
  unfolding create tcp_server add_file_event
  init arrays port backlog max_clients world = do
    let l = create (lifted k) arrays max_clients world
    let (w, listen_fd) = tcp4_server os port none backlog l.world.system
    (loop, r) ←
        add_file_event (lifted k) (with_system l (listening w listen_fd)) (descriptor listen_fd)
          ae_readable (some accept_proc) 0
    ok (record {
      port = port;
      tcp_backlog = backlog;
      max_client_count = max_clients;
      listen_fd = descriptor listen_fd;
      loop = loop;
    })

  -- `wait`, on fuel; nothing sets a procedure to call before the loop sleeps.
  unfoldable pub wait : ℕ → Server W F → Result (EventLoop (World W F))
  unfolding procs run
  wait rounds s = run (lifted k) procs (λ p l. err null_pointer) rounds s.loop

module _ {W F : Type 0} (alloc : Allocator) (k : Kernel W) (os : Os W) (fs : Files F)
    (fuel : ℕ) where
  -- Where no socket can be served, as where the port is in use, `init` goes on with the descriptor -1,
  -- and `add_file_event` takes it for an index of the table: past its start, if epoll could be opened.
  pub init_unserved :
      (arrays : Arrays) (port backlog max_clients n : ℕ) (world : World W F) (w1 w2 : W)
      → k.epoll_create world.system ≡ (w1, some n)
      → tcp_server os port none af_inet backlog w1 ≡ (w2, none)
      → init alloc k os fs fuel arrays port backlog max_clients world ≡ err out_of_bounds
  unfolding init create add_file_event
  init_unserved arrays port backlog max_clients n world w1 w2 opened unserved =
      ground (arith, opened, unserved)
