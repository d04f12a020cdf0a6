-- ===== src/Server/Safety.antt =====
-- The program of the server: `init`, and then `wait`.
use aspr1net.Base.{
  ℕ, zero, suc, Option, none, some, ◌≡◌, inl, refl, arith, ◌>>=◌, get_elem?, replicate, Sure,
  bind-Sure, fails, gives,
}
use aspr1net.Ae.Types.{ae_none, ae_readable, no_file_event, FileEvent}
use aspr1net.Ae.Epoll.{Kernel}
use aspr1net.Ae.Create.{Arrays, create, epoll_state, clear_from, length-new_table}
use aspr1net.Ae.Files.{add_file_event, merge_event}
use aspr1net.Ae.Files.Effects.{negative_descriptor}
use aspr1net.Anet.{Os, af_inet}
use aspr1net.Anet.Serve.{tcp_server}
use aspr1net.Buffer.{Allocator}
use aspr1net.Stdio.{Files}
use aspr1net.Server.Handlers.{World, lifted, with_system, accept_proc}
use aspr1net.Server.Start.{init, wait, listening, descriptor}
use aspr1net.Server.Pointers.{IsSound, Sound, add_file_event-IsSound}
use aspr1net.Server.Running.{wait-Sound}

-- No entry of a new table is watched.
quiet-new_table :
    (size j : ℕ) (fe : FileEvent)
    → get_elem? (clear_from 0 (replicate size no_file_event)) j ≡ some fe
    → fe.mask ≡ ae_none
quiet-new_table zero j fe e = cc
quiet-new_table (suc n) zero fe e = cc
quiet-new_table (suc n) (suc j) fe e = quiet-new_table n j fe e

module _ {W F : Type 0} (k : Kernel W) (arrays : Arrays) (size m : ℕ) (world : World W F)
    (opens : (k.epoll_create world.system).1 ≡ some m) where
  create-Sound : Sound (create (lifted k) arrays size world)
  unfolding create epoll_state
  create-Sound = record {
    opened =
        (record { events_size = size; events = arrays.fresh_reports size }, ground (arith, opens));
    sized = length-new_table size;
    entries = λ j fe at watched.
        let quiet = quiet-new_table size j fe at in absurd (ground (arith, quiet, watched));
  }

  -- The entry of the listening descriptor.
  accepting :
      (n : ℕ) (fe : FileEvent)
      → get_elem? (create (lifted k) arrays size world).events n ≡ some fe
      → IsSound
          (create (lifted k) arrays size world).world.sessions
          n
          (merge_event fe ae_readable (some accept_proc) 0)
  unfolding create
  accepting n fe here watched =
      let quiet = quiet-new_table size n fe here in inl (ground (arith, quiet), refl)

module _ {W F : Type 0} (alloc : Allocator) (k : Kernel W) (os : Os W) (fs : Files F) (fuel : ℕ)
    (arrays : Arrays) (port backlog size m : ℕ) (world : World W F)
    (opens : (k.epoll_create world.system).1 ≡ some m) where
  -- The loop that listens on a descriptor, or the fault without one.
  listens :
      (w : W) (fd : Option ℕ)
      → Sure
          (λ r. Sound r.0)
          (add_file_event
            (lifted k)
            (with_system (create (lifted k) arrays size world) w)
            (descriptor alloc k os fs fuel fd)
            ae_readable
            (some accept_proc)
            0)
  listens w none =
      let start = create-Sound k arrays size m world opens in
      let (st, opened) = start.opened in
      let failed =
        (negative_descriptor (lifted k) (with_system (create (lifted k) arrays size world) w) 0
          ae_readable (some accept_proc) 0 opened).0 in
      rw failed (fails tt)
  listens w (some n) =
      let start = create-Sound k arrays size m world opens in
      let l = with_system (create (lifted k) arrays size world) w in
      let (after, status, done, sound, same) =
        add_file_event-IsSound k l
          (record { opened = start.opened; sized = start.sized; entries = start.entries }) n
          ae_readable (some accept_proc) 0 (accepting k arrays size m world opens n) in
      rw done (gives sound)

  init-Sound : Sure (λ s. Sound s.loop) (init alloc k os fs fuel arrays port backlog size world)
  unfolding init
  init-Sound =
      let made =
        tcp_server os port none af_inet backlog
          (create (lifted k) arrays size world).world.system in
      bind-Sure (listens (listening alloc k os fs fuel made.0 made.1) made.1)
        (λ r sound. gives sound)

  -- From its start on, where epoll can be opened, the server never goes through a pointer to a session
  -- that was deleted, in any number of rounds of its loop, whatever the system calls return and the
  -- clients send: `init` followed by `wait` never ends with that fault, and where it ends with a loop,
  -- each entry of its table that is watched is the listening one or holds the address of a session
  -- that lives and has the descriptor of the entry.
  pub server-Sound :
      (rounds : ℕ)
      → Sure Sound (
          init alloc k os fs fuel arrays port backlog size world >>= wait alloc k os fs fuel rounds)
  server-Sound rounds =
      bind-Sure init-Sound (λ s sound. wait-Sound alloc k os fs fuel rounds s sound)
