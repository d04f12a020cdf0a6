-- ===== src/Server/Lines.antt =====
-- The line of a package in the block of a session, as `process_input_buffer` takes it.
use aspr1net.Base.{
  ℕ, zero, suc, ◌<◌, List, [], ◌∷◌, Option, none, some, ◌≡◌, refl, ◌∙◌, arith, ok, err,
  out_of_bounds, Bytes, length, take, get_elem?, of_le_bytes, get_elem?-set_self,
}
use aspr1net.Base.Int.{pos}
use aspr1net.Arg
use aspr1net.Arg.{Arg, argc, argv}
use aspr1net.Ae.Types.{Mask, EventLoop}
use aspr1net.Ae.Epoll.{Kernel}
use aspr1net.Anet.{Os}
use aspr1net.Buffer
use aspr1net.Buffer.{Allocator, Buffer, head_size, head_bytes}
use aspr1net.Buffer.Memory.{
  c_string, strlen, mem_write-ok, overwrite, length-overwrite, take-overwrite, take-overwrite_below,
  get_elem?-overwrite,
}
use aspr1net.Stdio.{Files}
use aspr1net.Wire.{stored, read_once}
use aspr1net.Command.{find}
use aspr1net.Server.{Session, server_table, block_text, process_input_buffer}
use aspr1net.Server.Handlers.{
  World, session_at, with_system, put_session, filled, run_command, process_command,
  read_event_handler,
}
use aspr1net.Server.Receiving.{HasBlock}

-- A text at the start of a block with a NUL behind it is what the block is taken for.
front_text :
    (p m : Bytes)
    → take (length p) m ≡ p
    → get_elem? m (length p) ≡ some 0
    → (c_string m ≡ c_string p) × (strlen m < length m)
unfolding c_string
front_text [] [] same ended = cc
front_text [] (x ∷ m) same ended = ground (arith, ended)
front_text (c ∷ p) [] same ended = cc
front_text (c ∷ p) (x ∷ m) same ended =
    let (text, short) = front_text p m (cc) ended in ground (arith, same, text, short)

-- The buffer with a line.
abbrev pub with_line : Buffer → Bytes → Buffer
with_line b line = record b {
  buff = overwrite (overwrite b.buff 0 line) (length line) (0 ∷ []);
  read_idx = 0;
  write_idx = length line;
}

module _ (s : Session) (line : Bytes) (block : HasBlock s)
    (fits : length line < s.r_buffer.size) where
  pub filled-line :
      0 < length line
      → filled (Buffer.reset s.r_buffer) (some line) ≡ ok (some (with_line s.r_buffer line))
  unfolding Buffer.reset
  filled-line more = go line fits more
    where
      go :
          (t : Bytes)
          → length t < s.r_buffer.size
          → 0 < length t
          → filled (Buffer.reset s.r_buffer) (some t) ≡ ok (some (with_line s.r_buffer t))
      go [] short more = absurd (omega arith)
      go (c ∷ cs) short more =
          let (sized, small) = block in
          ground (
            arith,
            mem_write-ok s.r_buffer.buff 0 (c ∷ cs),
            length-overwrite s.r_buffer.buff 0 (c ∷ cs),
            mem_write-ok (overwrite s.r_buffer.buff 0 (c ∷ cs)) (length (c ∷ cs)) (0 ∷ []),
          )

  line_text : block_text (with_line s.r_buffer line).buff ≡ ok (c_string line)
  unfolding block_text
  line_text =
      let (sized, small) = block in
      let n = length line in
      let m = overwrite s.r_buffer.buff 0 line in
      let size : length m ≡ length s.r_buffer.buff =
        length-overwrite s.r_buffer.buff 0 line (omega arith) in
      let (text, short) =
        front_text line (with_line s.r_buffer line).buff
          (take-overwrite_below n m n (0 ∷ []) (omega arith) (omega arith)
            ∙ take-overwrite s.r_buffer.buff 0 line n (omega arith) (omega arith))
          (get_elem?-overwrite m n 0 (omega arith)) in
      ground (arith, text, short)

  pub input-line :
      (arg : Arg)
      → Arg.process s.arg (some (c_string line)) ≡ some arg
      → process_input_buffer (record s { r_buffer = with_line s.r_buffer line })
        ≡ ok (record s { r_buffer = with_line s.r_buffer line; arg = arg })
  unfolding process_input_buffer
  input-line arg splits = rw line_text (rw splits refl)

-- The session at an address.
abbrev pub Lives : {W F : Type 0} → EventLoop (World W F) → ℕ → Session → Type 0
Lives l address s = get_elem? l.world.sessions address ≡ some (some s)

module _ {W F : Type 0} where
  pub session_at-Lives :
      (l : EventLoop (World W F)) (address : ℕ) (s : Session)
      → Lives l address s
      → session_at l address ≡ ok s
  unfolding session_at
  session_at-Lives l address s there = rw there refl

  pub Lives-put :
      (l : EventLoop (World W F)) (address : ℕ) (s t : Session)
      → Lives l address s
      → Lives (put_session l address (some t)) address t
  Lives-put l address s t there =
      get_elem?-set_self l.world.sessions address (some t)
        (address-lt l.world.sessions address there)
    where
      address-lt :
          (xs : List (Option Session)) (i : ℕ) {x : Option Session}
          → get_elem? xs i ≡ some x
          → i < length xs
      address-lt [] i e = cc
      address-lt (y ∷ xs) zero e = omega arith
      address-lt (y ∷ xs) (suc i) e = omega (arith, address-lt xs i e)

module _ {W F : Type 0} (alloc : Allocator) (k : Kernel W) (os : Os W) (fs : Files F)
    (fuel : ℕ) where
  pub process_command-found :
      (l : EventLoop (World W F)) (address : ℕ) (s : Session) (word : Bytes)
      → Lives l address s
      → argv s.arg 0 ≡ some word
      → process_command alloc k os fs fuel l address
        ≡ run_command alloc k os fs fuel l address s (find word server_table)
  unfolding process_command
  process_command-found l address s word there named =
      rw (session_at-Lives l address s there) (rw named refl)

  pub read_event_handler-steps :
      (l : EventLoop (World W F)) (fd address : ℕ) (mask : Mask) (s s' : Session)
      (head line : Bytes) (b : Buffer) (w1 w2 : W)
      → Lives l address s
      → os.read fd head_size l.world.system ≡ (w1, some head)
      → 0 < length head
      → os.read fd (of_le_bytes (stored (alloc.fresh head_size) head)) w1 ≡ (w2, some line)
      → filled (Buffer.reset s.r_buffer) (some line) ≡ ok (some b)
      → process_input_buffer (record s { r_buffer = b }) ≡ ok s'
      → read_event_handler alloc k os fs fuel l (pos fd) address mask
        ≡ process_command alloc k os fs fuel
            (put_session (with_system l w2) address (some s'))
            address
  unfolding read_event_handler read_once
  read_event_handler-steps l fd address mask s s' head line b w1 w2 there headed some_head read
        fills input =
      ground (arith, session_at-Lives l address s there, headed, read, fills, input)

  pub process_command-none :
      (l : EventLoop (World W F)) (address : ℕ) (s : Session)
      → Lives l address s
      → argv s.arg 0 ≡ none
      → process_command alloc k os fs fuel l address ≡ err out_of_bounds
  unfolding process_command
  process_command-none l address s there empty =
      rw (session_at-Lives l address s there) (rw empty refl)
