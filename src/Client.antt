-- ===== src/Client.antt =====
-- client.hpp and client.cpp: `client_t` and its commands. Its descriptor may be -1. After a read that
-- fails half-way the block is taken to be as it was: the write index is then SIZE_MAX, at which each
-- later look at the block fails its assert.
pub mod Recv
pub mod Send
pub mod Download
pub mod FileRecv
pub mod Upload
pub mod Dispatch
mod Tests
use aspr1net.Base.{
  ℕ, zero, suc, ◌+◌, ◌%◌, ◌||◌, Bool, true, false, not, List, [], ◌∷◌, ◌++◌, Option, none, some,
  ◌≡◌, Result, ok, err, out_of_bounds, null_pointer, out_of_fuel, ◌>>=◌, ltb, if◌then◌else◌, Bytes,
  size_mod, of_le_bytes, length, codes,
}
use aspr1net.Base.Int.{ℤ, pos, negsuc, minus_one, ltb_ℤ, eqb_ℤ}
use aspr1net.Arg
use aspr1net.Arg.{Arg, argc, argv}
use aspr1net.Ae.Epoll.{to_int}
use aspr1net.Anet.{Os}
use aspr1net.Anet.Calls.{block, tcp_connect}
use aspr1net.Buffer
use aspr1net.Buffer.{Allocator, Buffer, head_size, readable_size, write_str, write_int}
use aspr1net.Buffer.Memory.{mem_read, mem_write, c_string}
use aspr1net.Stdio.{Files}
use aspr1net.Wire.{stored, bytes_of, length_of, size_of, read_fd, recv_integer}
use aspr1net.Chunks.{file_chunks, flush, flush_all}
use aspr1net.Command.{find, arity_fits, element, split}

pub record Client : Type 0 where
  pub ip : Option Bytes
  pub port : ℤ
  pub fd : ℤ
  pub r_buffer : Buffer
  pub w_buffer : Buffer
  pub buffer_list : List Buffer
  pub arg : Arg

-- An int from what `anetRead` returned.
abbrev pub int_of : Option ℕ → ℤ
int_of none = minus_one
int_of (some n) = pos n

-- `check`, which the destructor asks.
unfoldable pub check : Client → Bool
check c = elim c.ip [ none ↦ false | some ip ↦ not (ltb_ℤ c.port (pos 0) || ltb_ℤ c.fd (pos 0)) ]

-- A sum of size_t.
abbrev pub total : List (Option ℕ) → ℕ
total [] = 0
total (n ∷ ns) = (size_of n + total ns) % size_mod

-- `sprintf` of a word and a name into 1024 characters.
unfoldable pub command_text : Bytes → Bytes → Result Bytes
command_text word name =
    let text = word ++ c_string name in
    if ltb (length text) 1024 then ok text else err out_of_bounds

module _ {W : Type 0} (os : Os W) where
  -- `~client_t`, as far as the descriptor goes.
  unfoldable pub close_client : Client → W → W
  unfolding check
  close_client c w = elim c.fd [ pos fd ↦ if check c then os.close fd w else w | negsuc m ↦ w ]

  abbrev pub connected_client : Client → W × Option ℕ → W × Client × ℤ
  connected_client c (w, none) = (w, record c { fd = minus_one }, minus_one)
  connected_client c (w, some fd) = ((block os fd w).0, record c { fd = pos fd }, pos fd)

  -- `connect(_ip, _port)`: the arguments, and not the fields of these names.
  unfoldable pub connect : Client → Bytes → ℕ → W → W × Client × ℤ
  connect c ip port w = connected_client c (tcp_connect os ip port w)

  unfoldable pub flush_2_server : Client → W → Result (W × Client × ℕ)
  unfolding flush flush_all Buffer.reset
  flush_2_server c w = do
    (w1, n) ← flush os c.fd c.w_buffer w
    (w2, ns) ← flush_all os c.fd c.buffer_list w1
    ok (w2, record c { w_buffer = Buffer.reset c.w_buffer; buffer_list = [] }, total (n ∷ ns))

-- What printf puts out: the readable characters, up to a NUL, and a line feed.
unfoldable pub flush_2_client : Client → Result Bytes
flush_2_client c = do
  n ← readable_size c.r_buffer
  bs ← mem_read c.r_buffer.buff 0 n
  ok (c_string bs ++ 10 ∷ [])

module _ {W : Type 0} (alloc : Allocator) (os : Os W) where
  unfoldable pub send : Client → Bytes → W → Result (W × Client × ℤ)
  unfolding flush_2_server
  send c text w = do
    b ← write_str alloc c.w_buffer text
    (w', c', n) ← flush_2_server os (record c { w_buffer = b }) w
    ok (w', c', to_int n)

  -- One package, with `_r_buffer` for its payload.
  unfoldable pub recv : Client → W → Result (W × Client × ℤ)
  unfolding read_fd
  recv c w = do
    (w1, got) ← read_fd os c.fd head_size w
    let len = of_le_bytes (stored (alloc.fresh head_size) (bytes_of got))
    (w2, body) ← read_fd os c.fd len w1
    buff ← mem_write c.r_buffer.buff 0 (bytes_of body)
    let r = record c.r_buffer { buff = buff; read_idx = 0; write_idx = size_of (length_of body) }
    ok (w2, record c { r_buffer = r }, int_of (length_of body))

module _ {W F : Type 0} (alloc : Allocator) (os : Os W) (fs : Files F) where
  -- `while (_num--)` of `file_recv`, up to an empty package.
  unfoldable pub recv_chunks : ℕ → ℕ → Client → W → F → Result (W × Client × F)
  unfolding recv
  recv_chunks zero h c w f = ok (w, c, f)
  recv_chunks (suc n) h c w f = do
    (w1, c1, got) ← recv alloc os c w
    let more = (do
      size ← readable_size c1.r_buffer
      bs ← mem_read c1.r_buffer.buff 0 size
      recv_chunks n h c1 w1 (fs.fwrite h bs f))
    if eqb_ℤ got (pos 0) then ok (w1, c1, f) else more

  -- Without a stream, fwrite or fclose goes through the null pointer.
  unfoldable pub file_recv : Client → Bytes → W → F → Result (W × Client × F)
  unfolding recv_chunks send
  file_recv c name w f = do
    text ← command_text (codes "file_recv ") name
    (w1, c1, n) ← send alloc os c text w
    let (f1, output) = fs.fopen_write (c_string name) f
    elim output [
      | none ↦ err null_pointer
      | some h ↦ (do
        (w2, num) ← recv_integer os (alloc.fresh head_size) c1.fd w1
        (w3, c3, f2) ← recv_chunks num h c1 w2 f1
        ok (w3, c3, fs.fclose h f2))
    ]

  -- On fuel for the loop over the file.
  unfoldable pub file_send : ℕ → Client → Bytes → W → F → Result (W × Client × F × ℤ)
  unfolding flush_2_server
  file_send fuel c name w f = do
    text ← command_text (codes "file_send ") name
    b ← write_str alloc c.w_buffer text
    let (f1, input) = fs.fopen_read (c_string name) f
    elim input [
      | none ↦ err null_pointer
      | some h ↦ (do
        (f2, chunks) ← file_chunks alloc fs fuel h f1 []
        first ← write_int alloc (Buffer.create alloc) (length chunks)
        (w', c', n) ← flush_2_server os (record c { w_buffer = b; buffer_list = first ∷ chunks }) w
        ok (w', c', fs.fclose h f2, to_int n))
    ]

pub data ClientCommand : Type 0 where
  ping_command get_command set_command file_send_command file_recv_command : ClientCommand

-- The procedure of a command, and its arity.
abbrev pub client_table : List (Bytes × (ClientCommand × ℤ))
client_table =
    (codes "ping", (ping_command, pos 1))
    ∷ (codes "get", (get_command, pos 2))
    ∷ (codes "set", (set_command, pos 3))
    ∷ (codes "file_send", (file_send_command, pos 2))
    ∷ (codes "file_recv", (file_recv_command, pos 2))
    ∷ []

-- What a call leaves: the world, the files, the client, what was printed, and the value returned.
pub record Outcome (W F : Type 0) : Type 0 where
  pub world : W
  pub files : F
  pub client : Client
  pub printed : Bytes
  pub status : ℤ

module _ {W F : Type 0} (alloc : Allocator) (os : Os W) (fs : Files F) (fuel : ℕ) where
  unfoldable pub invoke : ClientCommand → Client → W → F → Result (Outcome W F)
  unfolding send recv flush_2_client file_send file_recv
  invoke ping_command c w f = do
    (w1, c1, n) ← send alloc os c (codes "ping") w
    (w2, c2, m) ← recv alloc os c1 w1
    text ← flush_2_client c2
    ok (record { world = w2; files = f; client = c2; printed = text; status = pos (length text) })
  invoke get_command c w f =
      ok (record { world = w; files = f; client = c; printed = []; status = pos 0 })
  invoke set_command c w f =
      ok (record { world = w; files = f; client = c; printed = []; status = pos 0 })
  invoke file_send_command c w f = do
    name ← element (argv c.arg 1)
    (w1, c1, f1, n) ← file_send alloc os fs fuel c name w f
    ok (record { world = w1; files = f1; client = c1; printed = []; status = pos 0 })
  invoke file_recv_command c w f = do
    name ← element (argv c.arg 1)
    (w1, c1, f1) ← file_recv alloc os fs c name w f
    ok (record { world = w1; files = f1; client = c1; printed = []; status = pos 0 })

  -- The test of the arity, and the call.
  abbrev pub check_arity : Client → W → F → Option (ClientCommand × ℤ) → Result (Outcome W F)
  check_arity c w f none =
      ok (record { world = w; files = f; client = c; printed = []; status = minus_one })
  check_arity c w f (some (command, arity)) =
      if arity_fits arity (argc c.arg)
      then invoke command c w f
      else ok (record { world = w; files = f; client = c; printed = []; status = minus_one })

  unfoldable pub process : Client → Bytes → W → F → Result (Outcome W F)
  unfolding Buffer.reset invoke
  process c text w f = do
    arg ← split (Arg.process c.arg (some text))
    let c1 = record c { r_buffer = Buffer.reset c.r_buffer; buffer_list = []; arg = arg }
    name ← element (argv arg 0)
    check_arity c1 w f (find name client_table)
