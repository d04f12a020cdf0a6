-- ===== src/Server/Handlers.antt =====
-- The handlers of server.cpp. A session is on the heap: its address is its place in a list, and the
-- place of one that was deleted is empty, so that a use of it is the fault `dangling_pointer`.
use aspr1net.Base.{
  ℕ, ◌+◌, ◌%◌, ◌^◌, ◌==◌, Bool, true, false, List, [], ◌∷◌, ◌++◌, Option, none, some, Result, ok,
  err, dangling_pointer, ◌>>=◌, if◌then◌else◌, Bytes, of_le_bytes, length, set, get_elem?,
}
use aspr1net.Base.Int.{ℤ, pos, negsuc, eqb_ℤ}
use aspr1net.Arg.{argc, argv}
use aspr1net.Ae.Types.{Mask, ae_readable, ae_writable, EventLoop}
use aspr1net.Ae.Epoll.{Kernel}
use aspr1net.Ae.Files.{ae_err, add_file_event, del_file_event}
use aspr1net.Anet.{Os}
use aspr1net.Anet.Calls.{enable_tcp_no_delay}
use aspr1net.Anet.Transfer.{generic_accept}
use aspr1net.Buffer
use aspr1net.Buffer.{Allocator, Buffer, head_size, readable_size}
use aspr1net.Buffer.Memory.{mem_write}
use aspr1net.Stdio.{Files}
use aspr1net.Wire.{stored, bytes_of, read_once}
use aspr1net.Chunks.{flush, flush_all}
use aspr1net.Command.{find, arity_fits, element}
use aspr1net.Server.{Session, new_session, Entry, server_table, process_input_buffer, invoke}

-- What the handlers share: the operating system, the files, and the heap.
pub record World (W F : Type 0) : Type 0 where
  pub system : W
  pub files : F
  pub sessions : List (Option Session)

-- The kernel acts on the operating system.
abbrev pub lifted : {W F : Type 0} → Kernel W → Kernel (World W F)
lifted k = record {
  epoll_create = λ w. let (v, fd) = k.epoll_create w.system in (record w { system = v }, fd);
  ctl = λ op fd i w. let (v, failed) = k.ctl op fd i w.system in (record w { system = v }, failed);
  wait = λ n t w. let (v, reports) = k.wait n t w.system in (record w { system = v }, reports);
  time = λ w. k.time w.system;
  gettimeofday = λ w. k.gettimeofday w.system;
  registered = λ w. k.registered w.system;
}

-- The procedures by their numbers.
abbrev pub accept_proc : ℕ
accept_proc = 0

abbrev pub read_proc : ℕ
read_proc = 1

abbrev pub write_proc : ℕ
write_proc = 2

abbrev live : Option (Option Session) → Result Session
live none = err dangling_pointer
live (some none) = err dangling_pointer
live (some (some s)) = ok s

module _ {W F : Type 0} where
  -- Through a pointer to a session.
  unfoldable pub session_at : EventLoop (World W F) → ℕ → Result Session
  session_at l address = live (get_elem? l.world.sessions address)

  abbrev pub with_system : EventLoop (World W F) → W → EventLoop (World W F)
  with_system l v = record l { world = record l.world { system = v } }

  abbrev pub put_session : EventLoop (World W F) → ℕ → Option Session → EventLoop (World W F)
  put_session l address s = record l {
    world = record l.world { sessions = set l.world.sessions address s };
  }

-- `close`; -1 is not open.
abbrev pub close_fd : {W : Type 0} → Os W → ℤ → W → W
close_fd os (pos fd) w = os.close fd w
close_fd os (negsuc m) w = w

-- `_read_idx` after `anetWrite` returned.
abbrev pub advanced : Buffer → Option ℕ → Buffer
advanced b none = b
advanced b (some n) = record b { read_idx = b.read_idx + n }

module _ {W : Type 0} (os : Os W) where
  -- The writes of `write_event_handler`, and what they leave of a session.
  unfoldable pub write_session : Session → W → Result (W × Session)
  unfolding flush flush_all
  write_session s w = do
    (w1, written) ← flush os s.fd s.w_buffer w
    (w2, ns) ← flush_all os s.fd s.buffer_list w1
    ok (w2, record s { w_buffer = advanced s.w_buffer written; buffer_list = [] })

module _ {W F : Type 0} (k : Kernel W) (os : Os W) where
  -- `delete _c`, with the destructor.
  unfoldable pub delete_session : EventLoop (World W F) → ℕ → Result (EventLoop (World W F))
  delete_session l address = do
    s ← session_at l address
    unread ← (if s.has_loop then del_file_event (lifted k) l s.fd ae_readable else ok l)
    unwatched ←
        (if s.has_loop then del_file_event (lifted k) unread s.fd ae_writable else ok unread)
    let closed = with_system unwatched (close_fd os s.fd unwatched.world.system)
    ok (put_session (if s.has_loop then closed else l) address none)

  unfoldable pub write_event_handler :
      EventLoop (World W F) → ℤ → ℕ → Mask → Result (EventLoop (World W F))
  unfolding write_session
  write_event_handler l fd address mask = do
    s ← session_at l address
    data_size ← readable_size s.w_buffer
    let deleted = delete_session l address
    let flushed = (do
      (w, s') ← write_session os s l.world.system
      left ← readable_size s'.w_buffer
      let l' = put_session (with_system l w) address (some s')
      let idle = del_file_event (lifted k) l' s'.fd ae_writable
      if left == 0 then idle else ok l')
    if data_size % 2 ^ 32 == 0 then deleted else flushed

-- What came into the buffer of `read_event_handler`; none is its `err:`.
abbrev pub filled : Buffer → Option Bytes → Result (Option Buffer)
filled b none = ok (some b)
filled b (some []) = ok none
filled b (some (c ∷ cs)) = do
  buff ← mem_write b.buff b.write_idx (c ∷ cs)
  let write_idx = b.write_idx + length (c ∷ cs)
  ended ← mem_write buff write_idx (0 ∷ [])
  ok (some (record b { buff = ended; write_idx = write_idx }))

abbrev pub at_end : Option Bytes → Bool
at_end none = false
at_end (some bs) = length bs == 0

module _ {W F : Type 0} (alloc : Allocator) (k : Kernel W) (os : Os W) (fs : Files F)
    (fuel : ℕ) where
  -- The call of the procedure, and before it the interest in a reply.
  abbrev pub run_command :
      EventLoop (World W F) → ℕ → Session → Option Entry → Result (EventLoop (World W F))
  run_command l address s none = ok l
  run_command l address s (some e) =
      let added = add_file_event (lifted k) l s.fd ae_writable (some write_proc) address in
      let invoked = (do
        (replying, r) ← (if e.reply then added else ok (l, ae_err))
        (w, s', f) ← invoke alloc os fs fuel e.proc s replying.world.system replying.world.files
        let world = record replying.world { system = w; files = f }
        ok (put_session (record replying { world = world }) address (some s'))) in
      if arity_fits e.arity (argc s.arg) then invoked else ok l

  unfoldable pub process_command : EventLoop (World W F) → ℕ → Result (EventLoop (World W F))
  process_command l address = do
    s ← session_at l address
    name ← element (argv s.arg 0)
    run_command l address s (find name server_table)

  -- `process_input_buffer` and `process_command`, for what was read; none is `err:`.
  abbrev pub serve :
      EventLoop (World W F) → ℕ → Session → Option Buffer → Result (EventLoop (World W F))
  serve l address s none = delete_session k os l address
  serve l address s (some b) = do
    s' ← process_input_buffer (record s { r_buffer = b })
    process_command (put_session l address (some s')) address

  unfoldable pub read_event_handler :
      EventLoop (World W F) → ℤ → ℕ → Mask → Result (EventLoop (World W F))
  unfolding read_once Buffer.reset
  read_event_handler l fd address mask = do
    s ← session_at l address
    let (w1, got) = read_once os fd head_size l.world.system
    let ended = delete_session k os (with_system l w1) address
    let len = of_le_bytes (stored (alloc.fresh head_size) (bytes_of got))
    let (w2, body) = read_once os fd len w1
    let going = (do b ← filled (Buffer.reset s.r_buffer) body; serve (with_system l w2) address s b)
    if at_end got then ended else going

module _ {W F : Type 0} (alloc : Allocator) (k : Kernel W) (os : Os W) where
  -- A descriptor from accept; none is -1.
  abbrev pub welcome : EventLoop (World W F) → Option ℕ → Result (EventLoop (World W F))
  welcome l none = ok l
  welcome l (some client_fd) =
      let (w, failed) = enable_tcp_no_delay os client_fd l.world.system in
      let s = record (new_session alloc) { fd = pos client_fd; has_loop = true } in
      let address = length l.world.sessions in
      let world = record l.world { system = w; sessions = l.world.sessions ++ some s ∷ [] } in
      (do
        (added, r) ←
            add_file_event (lifted k) (record l { world = world }) (pos client_fd) ae_readable
              (some read_proc) address
        if eqb_ℤ r ae_err then delete_session k os added address else ok added)

  -- With fuel for the interrupted calls of accept.
  unfoldable pub accept_tcp_handler :
      ℕ → EventLoop (World W F) → ℕ → ℕ → Mask → Result (EventLoop (World W F))
  accept_tcp_handler rounds l fd server mask = do
    (w, client_fd) ← generic_accept os rounds fd l.world.system
    welcome (with_system l w) client_fd
