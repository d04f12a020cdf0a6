-- ===== src/Server.antt =====
-- server.hpp and server.cpp: a session, which is `server_t::client_t`, and the commands.
pub mod Handlers
pub mod Start
pub mod Lines
pub mod Dispatch
pub mod Sending
pub mod Receiving
pub mod Upload
pub mod Clean
pub mod Pointers
pub mod Removal
pub mod Deletion
pub mod Rounds
pub mod Firing
pub mod Running
pub mod Watching
pub mod Closing
pub mod Serving
pub mod Safety
mod Tests
use Prim.Native.String.{String}
use aspr1net.Base.{
  ℕ, zero, suc, ◌+◌, Bool, true, false, List, [], ◌∷◌, ◌++◌, Option, none, some, ◌≡◌, Result, ok,
  err, out_of_bounds, null_pointer, out_of_fuel, ◌>>=◌, ltb, if◌then◌else◌, Bytes, of_le_bytes,
  length, drop, codes,
}
use aspr1net.Base.Int.{ℤ, pos, minus_one, eqb_ℤ}
use aspr1net.Arg
use aspr1net.Arg.{Arg, argv}
use aspr1net.Ae.Epoll.{to_int}
use aspr1net.Anet.{Os}
use aspr1net.Buffer
use aspr1net.Buffer.{Allocator, Buffer, head_size, readable_size, write_str, write_int}
use aspr1net.Buffer.Memory.{mem_read, mem_write, c_string, strlen}
use aspr1net.Stdio.{Files}
use aspr1net.Wire.{stored, bytes_of, length_of, size_of, read_once, recv_integer}
use aspr1net.Chunks.{file_chunks}
use aspr1net.Command.{element, split}

-- `_loop` is a null pointer or the one loop there is.
pub record Session : Type 0 where
  pub fd : ℤ
  pub r_buffer : Buffer
  pub w_buffer : Buffer
  pub buffer_list : List Buffer
  pub has_loop : Bool
  pub arg : Arg

unfoldable pub new_session : Allocator → Session
unfolding Buffer.create
new_session alloc = record {
  fd = minus_one;
  r_buffer = Buffer.create alloc;
  w_buffer = Buffer.create alloc;
  buffer_list = [];
  has_loop = false;
  arg = record { kind = 0; argv = [] };
}

pub data ServerCommand : Type 0 where
  ping_command get_command set_command file_send_command file_recv_command : ServerCommand

-- `command_t`.
pub record Entry : Type 0 where
  pub proc : ServerCommand
  pub arity : ℤ
  pub reply : Bool

abbrev entry : String → ServerCommand → ℕ → Bool → Bytes × Entry
entry name proc arity reply = (codes name, record { proc = proc; arity = pos arity; reply = reply })

abbrev pub server_table : List (Bytes × Entry)
server_table =
    entry "ping" ping_command 1 true
    ∷ entry "get" get_command 2 true
    ∷ entry "set" set_command 3 true
    ∷ entry "file_send" file_send_command 2 false
    ∷ entry "file_recv" file_recv_command 2 true
    ∷ []

-- `_file_name.erase(0, 7)`, as a C string.
abbrev pub file_name : Bytes → Bytes
file_name name = c_string (drop 7 name)

-- The text that a pointer to a block is taken for. Without a NUL in the block it goes on past it.
unfoldable pub block_text : Bytes → Result Bytes
block_text block =
    if ltb (strlen block) (length block) then ok (c_string block) else err out_of_bounds

-- `process_input_buffer`.
unfoldable pub process_input_buffer : Session → Result Session
unfolding block_text
process_input_buffer s = do
  text ← block_text s.r_buffer.buff
  arg ← split (Arg.process s.arg (some text))
  ok (record s { arg = arg })

module _ {W : Type 0} (alloc : Allocator) (os : Os W) where
  -- The bytes that came, from the start of the block, and the NUL behind them, whose place after a
  -- read that failed is `_buff[SIZE_MAX]`.
  unfoldable pub recv : Session → W → Result (W × Session × ℤ)
  unfolding read_once Buffer.reset
  recv s w =
      let (w1, got) = read_once os s.fd head_size w in
      let len = of_le_bytes (stored (alloc.fresh head_size) (bytes_of got)) in
      let (w2, body) = read_once os s.fd len w1 in
      let n = size_of (length_of body) in
      (do
        filled ← mem_write s.r_buffer.buff 0 (bytes_of body)
        ended ← mem_write filled n (0 ∷ [])
        let r = record (Buffer.reset s.r_buffer) { buff = ended; write_idx = n }
        ok (w2, record s { r_buffer = r }, to_int n))

module _ {W F : Type 0} (alloc : Allocator) (os : Os W) (fs : Files F) where
  -- `while (_num--)` of `file_send_command`, up to an empty package.
  unfoldable pub recv_chunks : ℕ → ℕ → Session → W → F → Result (W × Session × F)
  unfolding recv
  recv_chunks zero h s w f = ok (w, s, f)
  recv_chunks (suc n) h s w f = do
    (w1, s1, got) ← recv alloc os s w
    let more = (do
      size ← readable_size s1.r_buffer
      bs ← mem_read s1.r_buffer.buff 0 size
      recv_chunks n h s1 w1 (fs.fwrite h bs f))
    if eqb_ℤ got (pos 0) then ok (w1, s1, f) else more

  -- The client sends a file. Without a stream, fwrite or fclose goes through the null pointer.
  unfoldable pub file_send : Session → W → F → Result (W × Session × F)
  unfolding recv_chunks recv_integer
  file_send s w f = do
    name ← element (argv s.arg 1)
    let (f1, output) = fs.fopen_write (file_name name) f
    elim output [
      | none ↦ err null_pointer
      | some h ↦ (do
        (w1, num) ← recv_integer os (alloc.fresh head_size) s.fd w
        (w2, s1, f2) ← recv_chunks num h s w1 f1
        ok (w2, s1, fs.fclose h f2))
    ]

  -- The client receives a file. On fuel for the loop over it.
  unfoldable pub file_recv : ℕ → Session → W → F → Result (W × Session × F)
  unfolding file_chunks
  file_recv fuel s w f = do
    name ← element (argv s.arg 1)
    let (f1, input) = fs.fopen_read (file_name name) f
    elim input [
      | none ↦ err null_pointer
      | some h ↦ (do
        (f2, chunks) ← file_chunks alloc fs fuel h f1 []
        b ← write_int alloc s.w_buffer (length chunks)
        ok (w, record s { w_buffer = b; buffer_list = chunks }, fs.fclose h f2))
    ]

  unfoldable pub ping : Session → W → F → Result (W × Session × F)
  ping s w f = do
    b ← write_str alloc s.w_buffer (codes "pong.")
    ok (w, record s { w_buffer = b }, f)

  unfoldable pub done : Session → W → F → Result (W × Session × F)
  done s w f = do
    b ← write_str alloc s.w_buffer (codes "done.")
    ok (w, record s { w_buffer = b }, f)

  -- `_command_detail._proc(_c)`.
  unfoldable pub invoke : ℕ → ServerCommand → Session → W → F → Result (W × Session × F)
  unfolding ping file_send file_recv
  invoke fuel ping_command s w f = ping s w f
  invoke fuel get_command s w f = ok (w, s, f)
  invoke fuel set_command s w f = ok (w, s, f)
  invoke fuel file_send_command s w f = file_send s w f
  invoke fuel file_recv_command s w f = file_recv fuel s w f
