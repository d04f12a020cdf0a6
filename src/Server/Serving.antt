-- ===== src/Server/Serving.antt =====
-- The handlers leave the event loop in order, and so does the whole of `wait`.
use aspr1net.Base.{
  ℕ, true, false, ◌∷◌, [], ◌++◌, Option, none, some, refl, Result, err, null_pointer, ◌==◌, length,
  set, of_le_bytes, Gives, raised, gave, bind-Gives, if-Gives, Gives-Any, Gives-of, Gives-ok,
  Gives-map,
}
use aspr1net.Base.Int.{ℤ, pos, eqb_ℤ}
use aspr1net.Arg.{argv}
use aspr1net.Ae.Types.{Mask, ae_readable, ae_writable, EventLoop}
use aspr1net.Ae.Epoll.{Kernel, KernelLaws}
use aspr1net.Ae.Files.{ae_err, add_file_event, index_of}
use aspr1net.Ae.Process.Calls.{IsServing, Keep, Ordered, Ordered-refl, Ordered-trans}
use aspr1net.Ae.Process.Keeping.{err_ok, add_file_event-Ordered, del_file_event-Ordered}
use aspr1net.Ae.Process.Loop.{Ran, run-Ran}
use aspr1net.Anet.{Os, tcp_nodelay}
use aspr1net.Anet.Calls.{enable_tcp_no_delay}
use aspr1net.Buffer
use aspr1net.Buffer.{Allocator, Buffer, head_size, readable_size}
use aspr1net.Stdio.{Files}
use aspr1net.Wire.{stored, bytes_of, read_once}
use aspr1net.Command.{find, element}
use aspr1net.Server.{Session, new_session, Entry, server_table, process_input_buffer}
use aspr1net.Server.Handlers.{
  World, lifted, session_at, accept_proc, read_proc, write_proc, write_event_handler, filled,
  at_end, run_command, process_command, serve, read_event_handler, welcome, accept_tcp_handler,
}
use aspr1net.Server.Start.{Server, procs, wait}
use aspr1net.Server.Watching.{
  Undisturbed, accept-Kept, read_once-Kept, write_session-Kept, invoke-Kept,
}
use aspr1net.Server.Closing.{lifted-KernelLaws, moved-Ordered, delete_session-Ordered}

module _ {W F : Type 0} (k : Kernel W) (laws : KernelLaws k) (os : Os W)
    (u : Undisturbed k os) where
  -- A result that is in order after `l`, if there is one.
  abbrev Orders : EventLoop (World W F) → Result (EventLoop (World W F)) → Type 0
  Orders l = Gives (Ordered (lifted k) l)

  -- What follows on a loop that is in order after `l`.
  Orders-after :
      {l mid : EventLoop (World W F)} {r : Result (EventLoop (World W F))}
      → Ordered (lifted k) l mid
      → Orders mid r
      → Orders l r
  Orders-after o rest = Gives-map rest (λ after p. Ordered-trans o p)

  write_event_handler-Orders :
      (l : EventLoop (World W F)) (fd : ℤ) (address : ℕ) (mask : Mask)
      → IsServing (lifted k) l
      → Orders l (write_event_handler k os l fd address mask)
  unfolding write_event_handler
  write_event_handler-Orders l fd address mask v =
      bind-Gives (Gives-Any (session_at l address)) (λ s t.
        bind-Gives (Gives-Any (readable_size s.w_buffer)) (λ size t.
          if-Gives _ (delete_session-Ordered k laws os u l address v) (
            bind-Gives (write_session-Kept k os u l.world.system s l.world.system (λ j. refl))
              (λ r h. bind-Gives (Gives-Any (readable_size r.1.w_buffer)) (λ left t.
                let o =
                  moved-Ordered k laws os u l
                    (record l.world {
                      system = r.0;
                      sessions = set l.world.sessions address (some r.1);
                    })
                    v h in
                if-Gives _
                  (Gives-of _ (λ after done. Ordered-trans o (
                    del_file_event-Ordered (lifted k) (lifted-KernelLaws k laws) _ o.serving r.1.fd
                      ae_writable done)))
                  (gave o))))))

  module _ (alloc : Allocator) (fs : Files F) (fuel : ℕ) where
    run_command-Orders :
        (l : EventLoop (World W F)) (address : ℕ) (s : Session) (e : Option Entry)
        → IsServing (lifted k) l
        → Orders l (run_command alloc k os fs fuel l address s e)
    run_command-Orders l address s none v = gave (Ordered-refl v)
    run_command-Orders l address s (some e) v =
        if-Gives _
          (bind-Gives {P = λ r. Ordered (lifted k) l r.0}
            (if-Gives e.reply
              (Gives-of _ (λ r done.
                add_file_event-Ordered (lifted k) (lifted-KernelLaws k laws) l v s.fd ae_writable
                  write_proc address refl done))
              (gave (Ordered-refl v)))
            (λ r o.
              bind-Gives
                (invoke-Kept k os u r.0.world.system alloc fs fuel e.proc s r.0.world.system
                  r.0.world.files (λ j. refl))
                (λ out h. gave (Ordered-trans o (moved-Ordered k laws os u r.0 _ o.serving h)))))
          (gave (Ordered-refl v))

    process_command-Orders :
        (l : EventLoop (World W F)) (address : ℕ)
        → IsServing (lifted k) l
        → Orders l (process_command alloc k os fs fuel l address)
    unfolding process_command
    process_command-Orders l address v = bind-Gives (Gives-Any (session_at l address)) (λ s t.
        bind-Gives (Gives-Any (element (argv s.arg 0)))
          (λ name t. run_command-Orders l address s (find name server_table) v))

    serve-Orders :
        (l : EventLoop (World W F)) (address : ℕ) (s : Session) (b : Option Buffer)
        → IsServing (lifted k) l
        → Orders l (serve alloc k os fs fuel l address s b)
    serve-Orders l address s none v = delete_session-Ordered k laws os u l address v
    serve-Orders l address s (some b) v =
        bind-Gives (Gives-Any (process_input_buffer (record s { r_buffer = b }))) (λ s' t.
          let o =
            moved-Ordered k laws os u l
              (record l.world { sessions = set l.world.sessions address (some s') }) v
              (λ j. refl) in
          Orders-after o (process_command-Orders _ address o.serving))

    read_event_handler-Orders :
        (l : EventLoop (World W F)) (fd : ℤ) (address : ℕ) (mask : Mask)
        → IsServing (lifted k) l
        → Orders l (read_event_handler alloc k os fs fuel l fd address mask)
    unfolding read_event_handler
    read_event_handler-Orders l fd address mask v =
        let w0 = l.world.system in
        let head = read_once os fd head_size w0 in
        let len = of_le_bytes (stored (alloc.fresh head_size) (bytes_of head.1)) in
        let body = read_once os fd len head.0 in
        let h1 = read_once-Kept k os u w0 fd head_size w0 (λ j. refl) in
        let h2 = read_once-Kept k os u w0 fd len head.0 h1 in
        let o1 = moved-Ordered k laws os u l (record l.world { system = head.0 }) v h1 in
        let o2 = moved-Ordered k laws os u l (record l.world { system = body.0 }) v h2 in
        bind-Gives (Gives-Any (session_at l address)) (λ s t.
          if-Gives (at_end head.1)
            (Orders-after o1 (delete_session-Ordered k laws os u _ address o1.serving))
            (bind-Gives (Gives-Any (filled (Buffer.reset s.r_buffer) body.1))
              (λ b t. Orders-after o2 (serve-Orders _ address s b o2.serving))))

  module _ (alloc : Allocator) where
    welcome-Orders :
        (l : EventLoop (World W F)) (client : Option ℕ)
        → IsServing (lifted k) l
        → Orders l (welcome alloc k os l client)
    welcome-Orders l none v = gave (Ordered-refl v)
    welcome-Orders l (some fd) v =
        let s = record (new_session alloc) { fd = pos fd; has_loop = true } in
        let address = length l.world.sessions in
        let world = record l.world {
          system = (enable_tcp_no_delay os fd l.world.system).0;
          sessions = l.world.sessions ++ some s ∷ [];
        } in
        let o =
          moved-Ordered k laws os u l world v
            (u.setsockopt_keeps fd tcp_nodelay (pos 1) l.world.system) in
        let l1 = record l { world = world } in
        Orders-after o (
          bind-Gives {P = λ r. Ordered (lifted k) l1 r.0}
            (Gives-of (add_file_event (lifted k) l1 (pos fd) ae_readable (some read_proc) address)
              (λ r done.
                add_file_event-Ordered (lifted k) (lifted-KernelLaws k laws) l1 o.serving (pos fd)
                  ae_readable read_proc address refl done))
            (λ r added.
              if-Gives (eqb_ℤ r.1 ae_err)
                (Orders-after added (delete_session-Ordered k laws os u r.0 address added.serving))
                (gave added)))

    accept_tcp_handler-Orders :
        (rounds : ℕ) (l : EventLoop (World W F)) (fd server : ℕ) (mask : Mask)
        → IsServing (lifted k) l
        → Orders l (accept_tcp_handler alloc k os rounds l fd server mask)
    unfolding accept_tcp_handler
    accept_tcp_handler-Orders rounds l fd server mask v =
        bind-Gives (accept-Kept k os u l.world.system rounds fd l.world.system (λ j. refl)) (λ r h.
          let o = moved-Ordered k laws os u l (record l.world { system = r.0 }) v h in
          Orders-after o (welcome-Orders _ r.1 o.serving))

  module _ (alloc : Allocator) (fs : Files F) (fuel : ℕ) where
    procs-Orders :
        (p : ℕ) (l : EventLoop (World W F)) (fd : ℤ) (client_data : ℕ) (mask : Mask)
        → IsServing (lifted k) l
        → Orders l (procs alloc k os fs fuel p l fd client_data mask)
    unfolding procs
    procs-Orders p l fd client_data mask v =
        if-Gives (p == accept_proc)
          (accept_tcp_handler-Orders alloc fuel l (index_of fd) client_data mask v)
          (if-Gives (p == read_proc)
            (read_event_handler-Orders alloc fs fuel l fd client_data mask v)
            (if-Gives (p == write_proc) (write_event_handler-Orders l fd client_data mask v)
              raised))

    -- The procedures of the server leave a loop in order whenever they return.
    pub procs-Keep : Keep (lifted k) (procs alloc k os fs fuel)
    procs-Keep p l n client_data mask after v known done =
        Gives-ok (procs-Orders p l (pos n) client_data mask v) done

    -- `wait` of the server, on a loop that is in order, goes round as `run` does: after as many
    -- rounds as there is fuel it is still going, or before that it has returned, with the loop in
    -- order either way, or the next round ended with a fault of a registered procedure, called on a
    -- loop in order, or of a `_bs_proc`, if one was set. read, write, accept and setsockopt have to leave the interest list of
    -- epoll alone, and close has to take the descriptor out of it.
    pub wait-Ran :
        (rounds : ℕ) (s : Server W F)
        → IsServing (lifted k) s.loop
        → Ran
            (lifted k)
            (procs alloc k os fs fuel)
            (λ p l. err null_pointer)
            rounds
            (record s.loop { stop_flag = false })
            (wait alloc k os fs fuel rounds s)
    unfolding wait
    wait-Ran rounds s v =
        run-Ran (lifted k) (lifted-KernelLaws k laws) (procs alloc k os fs fuel) procs-Keep
          (λ p l. err null_pointer) (λ p l after w done. absurd (err_ok done)) rounds s.loop v
