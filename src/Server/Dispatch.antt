-- ===== src/Server/Dispatch.antt =====
-- `read_event_handler` where each read gets all that it asks for: the line of a package, and the
-- command that it names.
use aspr1net.Base.{
  ℕ, ◌<◌, false, List, [], ◌∷◌, ◌++◌, Option, none, some, ◌≡◌, refl, sym, ap, ◌∙◌, arith, ok, err,
  out_of_bounds, Bytes, length, drop, drop-all, get_elem?, of_le_bytes, length-le_bytes,
  of_le_bytes-le_bytes, append_assoc, append-nil,
}
use aspr1net.Base.Int.{pos}
use aspr1net.Arg
use aspr1net.Arg.{Arg, argc, argv}
use aspr1net.Ae.Types.{Mask, EventLoop}
use aspr1net.Ae.Epoll.{Kernel}
use aspr1net.Anet.{Os}
use aspr1net.Buffer.{Allocator, head_size, head_bytes}
use aspr1net.Buffer.Memory.{c_string}
use aspr1net.Stdio.{Files}
use aspr1net.Wire.{packed, stored}
use aspr1net.Command.{find, arity_fits}
use aspr1net.Server.{Session, Entry, server_table}
use aspr1net.Server.Handlers.{
  World, with_system, put_session, run_command, process_command, read_event_handler,
}
use aspr1net.Server.Receiving.{ReadsWhole, HasBlock, read_whole}
use aspr1net.Server.Lines.{
  with_line, filled-line, input-line, Lives, Lives-put, process_command-found, process_command-none,
  read_event_handler-steps,
}

-- A session after a line: the line in its block, and its arguments.
abbrev pub lined : Session → Bytes → Arg → Session
lined s line arg = record s { r_buffer = with_line s.r_buffer line; arg = arg }

-- What `read_event_handler` needs for a line: a session at the address, with room for the line and a
-- NUL, and the package that is to come.
pub record HasLine {W F : Type 0} (os : Os W) (fd : ℕ) (l : EventLoop (World W F)) (address : ℕ)
    (s : Session) (line rest : Bytes) : Type 0 where
  pub lives : Lives l address s
  pub block : HasBlock s
  pub some_line : 0 < length line
  pub fits : length line < s.r_buffer.size
  pub comes : os.pending l.world.system fd ≡ packed line ++ rest

module _ {W F : Type 0} (alloc : Allocator) (k : Kernel W) (os : Os W) (fs : Files F) (fuel fd : ℕ)
    (reads : ReadsWhole os fd) (l : EventLoop (World W F)) (address : ℕ) (mask : Mask) (s : Session)
    (line rest : Bytes) (arg : Arg) (has : HasLine os fd l address s line rest)
    (splits : Arg.process s.arg (some (c_string line)) ≡ some arg) where
  -- The line is taken from the stream and split, and then its command is processed.
  line_read :
      (w' : W) × (os.pending w' fd ≡ rest)
      × (read_event_handler alloc k os fs fuel l (pos fd) address mask
          ≡ process_command alloc k os fs fuel
              (put_session (with_system l w') address (some (lined s line arg)))
              address)
  line_read =
      let n = length line in
      let head = head_bytes n in
      let eight = length-le_bytes 8 n in
      let fits = has.fits in
      let more = has.some_line in
      let (sized, small) = has.block in
      let (w1, headed, left) =
        read_whole os fd reads head_size head (line ++ rest) l.world.system
          (has.comes ∙ append_assoc head line rest) (sym eight) in
      let (w2, done, end) = read_whole os fd reads n line rest w1 left refl in
      let gone : drop (length head) (alloc.fresh 8) ≡ [] =
        drop-all (length head) (alloc.fresh 8) (omega (arith, alloc.length-fresh 8)) in
      let len : of_le_bytes (stored (alloc.fresh head_size) head) ≡ n =
        ap of_le_bytes (ap (λ x. head ++ x) gone ∙ append-nil head)
        ∙ of_le_bytes-le_bytes n (omega arith) in
      (
        w2,
        end,
        read_event_handler-steps alloc k os fs fuel l fd address mask s (lined s line arg) head line
            (with_line s.r_buffer line) w1 w2 has.lives headed (omega arith)
            (ap (λ x. os.read fd x w1) len ∙ done)
            (filled-line s line has.block has.fits has.some_line)
            (input-line s line has.block has.fits arg splits),
      )

  -- A line with a command runs what the table has for its first word, on the session with the line
  -- and its arguments.
  pub read_event_handler-runs :
      (word : Bytes)
      → argv arg 0 ≡ some word
      → (w' : W) × (os.pending w' fd ≡ rest)
        × (read_event_handler alloc k os fs fuel l (pos fd) address mask
            ≡ run_command alloc k os fs fuel
                (put_session (with_system l w') address (some (lined s line arg)))
                address
                (lined s line arg)
                (find word server_table))
  read_event_handler-runs word named =
      let (w', end, runs) = line_read in
      (
        w',
        end,
        runs
            ∙ process_command-found alloc k os fs fuel
                (put_session (with_system l w') address (some (lined s line arg))) address
                (lined s line arg) word
                (Lives-put (with_system l w') address s (lined s line arg) has.lives) named,
      )

  -- A line without a word makes the server read past the end of the arguments. Each read gets all
  -- that it asks for, the session at the address lives and has a block of its size, and the line is
  -- not empty and fits into the block with its NUL; the line ends at its first NUL.
  pub read_event_handler_blank :
      argc arg ≡ 0
      → read_event_handler alloc k os fs fuel l (pos fd) address mask ≡ err out_of_bounds
  read_event_handler_blank blank =
      let (w', end, runs) = line_read in
      runs
      ∙ process_command-none alloc k os fs fuel
          (put_session (with_system l w') address (some (lined s line arg))) address
          (lined s line arg) (Lives-put (with_system l w') address s (lined s line arg) has.lives)
          (no_words arg.argv blank)
    where
      no_words : (args : List Bytes) → length args ≡ 0 → get_elem? args 0 ≡ none
      no_words [] e = refl
      no_words (x ∷ args) e = absurd (omega arith)

-- The word names no command, or one that wants another number of arguments.
pub data Refused (arg : Arg) : Option Entry → Type 0 where
  unknown : Refused arg none
  misfit : {e : Entry} → arity_fits e.arity (argc arg) ≡ false → Refused arg (some e)

module _ {W F : Type 0} (alloc : Allocator) (k : Kernel W) (os : Os W) (fs : Files F)
    (fuel fd : ℕ) where
  run_command-Refused :
      (l : EventLoop (World W F)) (address : ℕ) (s : Session) (e : Option Entry)
      → Refused s.arg e
      → run_command alloc k os fs fuel l address s e ≡ ok l
  run_command-Refused l address s none unknown = refl
  run_command-Refused l address s (some e) (misfit differs) = rw differs refl

  -- A line that names no command of the table, or has the wrong number of arguments for its command,
  -- changes nothing but the block and the arguments of the session: no procedure runs, the table of
  -- events, the files and the other sessions are as they were, and no reply is registered. The stream
  -- goes on behind the line. Each read gets all that it asks for, and the line fits into the block.
  pub read_event_handler-Refused :
      (reads : ReadsWhole os fd) (l : EventLoop (World W F)) (address : ℕ) (mask : Mask)
      (s : Session) (line rest word : Bytes) (arg : Arg) (has : HasLine os fd l address s line rest)
      → Arg.process s.arg (some (c_string line)) ≡ some arg
      → argv arg 0 ≡ some word
      → Refused arg (find word server_table)
      → (w' : W) × (os.pending w' fd ≡ rest)
        × (read_event_handler alloc k os fs fuel l (pos fd) address mask
            ≡ ok (put_session (with_system l w') address (some (lined s line arg))))
  read_event_handler-Refused reads l address mask s line rest word arg has splits named refusal =
      let (w', end, runs) =
        read_event_handler-runs alloc k os fs fuel fd reads l address mask s line rest arg has
          splits word named in
      (
        w',
        end,
        runs
            ∙ run_command-Refused (put_session (with_system l w') address (some (lined s line arg)))
                address (lined s line arg) (find word server_table) refusal,
      )
