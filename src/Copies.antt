-- ===== src/Copies.antt =====
-- client.cpp and server.cpp together: a file that goes from the one to the other. Each has its own
-- operating system and files; what the one sends is what is to come at the other.
mod Tests
use aspr1net.Base.{
  ℕ, suc, ◌+◌, ◌-◌, ◌^◌, ◌≤◌, ◌<◌, [], ◌++◌, some, ◌≡◌, sym, ap, ◌∙◌, arith, ok, Bytes, length,
  le_bytes, size_mod, subst,
}
use aspr1net.Base.Int.{ℤ, pos}
use aspr1net.Arg.{argv}
use aspr1net.Anet.{Os}
use aspr1net.Buffer.{Allocator}
use aspr1net.Buffer.Memory.{c_string}
use aspr1net.Buffer.Moves.{IsValid}
use aspr1net.Stdio.{Files, FileLaws}
use aspr1net.Wire.{packed}
use aspr1net.Wire.Exact.{Stands}
use aspr1net.Chunks.Pieces.{
  piece_size, rounds_of, rounds_bound, concat-pieces, length-pieces, AreChunks, pieces-AreChunks,
}
use aspr1net.Chunks.Whole.{pieces_of, file_stream}
use aspr1net.Client
use aspr1net.Client.{Client, file_recv, file_send}
use aspr1net.Client.Recv.{HasBlock}
use aspr1net.Client.Send.{HasRoom}
use aspr1net.Client.FileRecv.{download_command, file_recv-written}
use aspr1net.Client.Upload.{upload_command, file_send-sent}
use aspr1net.Server
use aspr1net.Server.{Session, file_name}
use aspr1net.Server.Handlers.{write_session}
use aspr1net.Server.Sending.{file_recv_lem, write_session-sent}
use aspr1net.Server.Receiving
use aspr1net.Server.Receiving.{ReadsWhole}
use aspr1net.Server.Upload.{file_send-written}

-- The payloads of a file, for a block with room for a piece.
chunks_of : (size : ℕ) (text : Bytes) → piece_size ≤ size → AreChunks size (pieces_of text)
chunks_of size text large =
    let (lo, hi) = rounds_bound text in (pieces-AreChunks size large (rounds_of text) text lo hi).0

count_of : (text : Bytes) → length text < size_mod → length (pieces_of text) < size_mod
count_of text small =
    let (lo, hi) = rounds_bound text in omega (arith, length-pieces (rounds_of text) text)

module _ {V G W F : Type 0} (alloc : Allocator) (near : Os V) (near_fd : ℕ)
    (near_stands : Stands near near_fd) (near_files : Files G) (near_laws : FileLaws near_files)
    (far : Os W) (far_fd : ℕ) (far_stands : Stands far far_fd) (far_files : Files F)
    (far_laws : FileLaws far_files) where
  -- A download copies the file, whatever its length (that is a size_t) and however the stream is cut:
  -- `file_recv_command` and the writes of the server return, and send a stream; where this stream
  -- comes to the client, its `file_recv` returns, sends the command, and writes just the text of the
  -- server's file to its own, and the stream goes on behind it. Both connections stand, the commands
  -- and the number fit into the buffers, both files can be opened, the client has no buffers left
  -- in its list, and its block has room for a package. A round for each 1015 bytes and two more are
  -- enough fuel.
  pub download_copies :
      (extra h h' : ℕ) (name path text rest : Bytes) (s : Session) (w : W) (f f1 : F) (c : Client)
      (v : V) (g g1 : G)
      → length text < size_mod
      → s.fd ≡ pos far_fd
      → IsValid s.w_buffer
      → 17 ≤ s.w_buffer.size
      → argv s.arg 1 ≡ some path
      → far_files.fopen_read (file_name path) f ≡ (f1, some h)
      → far_files.content f (file_name path) ≡ text
      → c.fd ≡ pos near_fd
      → HasBlock c
      → piece_size ≤ c.r_buffer.size
      → HasRoom (download_command name) c
      → c.buffer_list ≡ []
      → length (download_command name) < 1024
      → near_files.fopen_write (c_string name) g ≡ (g1, some h')
      → near.pending v near_fd ≡ file_stream text ++ rest
      → (s1 : Session) × (f' : F) × (w' : W) × (s2 : Session) × (v1 : V) × (c1 : Client) × (n : ℤ)
        × (v' : V) × (c' : Client) × (g' : G) × (Server.file_recv alloc far far_files
              (rounds_of text + 2 + extra)
              s
              w
              f
            ≡ ok (w, s1, f'))
        × (write_session far s1 w ≡ ok (w', s2))
        × (far.sent w' far_fd ≡ far.sent w far_fd ++ file_stream text)
        × (Client.send alloc near c (download_command name) v ≡ ok (v1, c1, n))
        × (near.sent v1 near_fd ≡ near.sent v near_fd ++ packed (download_command name))
        × (file_recv alloc near near_files c name v g ≡ ok (v', c', near_files.fclose h' g'))
        × (near_files.written g' h' ≡ text)
        × (near.pending v' near_fd ≡ rest)
  download_copies extra h h' name path text rest s w f f1 c v g g1 small at_far valid room named
        opened holds at_near block large has none_waiting short created comes =
      let (s1, f', makes, same, size, ready) =
        file_recv_lem alloc far far_files far_laws extra h s w f f1 path text named opened holds
          valid room in
      let (w', s2, writes, sent, kept, at_fd, nothing, empty) =
        write_session-sent far far_fd far_stands (length (pieces_of text)) (pieces_of text) s1 w
          (same ∙ at_far) ready in
      let (v1, c1, n, v', c', g', sends, asked, gets, written, end) =
        file_recv-written alloc near near_fd near_stands near_files near_laws (pieces_of text) h'
          name rest c v g g1 at_near block has none_waiting short
          (chunks_of c.r_buffer.size text large) (count_of text small) comes created in
      (
        s1,
        f',
        w',
        s2,
        v1,
        c1,
        n,
        v',
        c',
        g',
        makes,
        writes,
        sent,
        sends,
        asked,
        gets,
        written ∙ concat-pieces (rounds_of text) text,
        end,
      )

  -- An upload copies the file, where each read of the server gets all the bytes that it asks for:
  -- `file_send` of the client returns, and sends the command and a stream; where this stream comes to
  -- the server, `file_send_command` returns, and writes just the text of the client's file to its
  -- own, and the stream goes on behind it. Both connections stand, the command fits into the buffer,
  -- both files can be opened, and the block of the session has room for a package and a NUL. A round
  -- for each 1015 bytes and two more are enough fuel.
  pub upload_copies :
      (reads : ReadsWhole far far_fd) (extra h h' : ℕ) (name path text rest : Bytes) (c : Client)
      (v : V) (g g1 : G) (s : Session) (w : W) (f f1 : F)
      → length text < size_mod
      → c.fd ≡ pos near_fd
      → HasRoom (upload_command name) c
      → length (upload_command name) < 1024
      → near_files.fopen_read (c_string name) g ≡ (g1, some h)
      → near_files.content g (c_string name) ≡ text
      → s.fd ≡ pos far_fd
      → Receiving.HasBlock s
      → piece_size < s.r_buffer.size
      → argv s.arg 1 ≡ some path
      → far_files.fopen_write (file_name path) f ≡ (f1, some h')
      → far.pending w far_fd ≡ file_stream text ++ rest
      → (v' : V) × (c' : Client) × (g' : G) × (n : ℤ) × (w' : W) × (s' : Session) × (f' : F)
        × (file_send alloc near near_files (rounds_of text + 2 + extra) c name v g
            ≡ ok (v', c', g', n))
        × (near.sent v' near_fd
            ≡ near.sent v near_fd ++ (packed (upload_command name) ++ file_stream text))
        × (Server.file_send alloc far far_files s w f ≡ ok (w', s', far_files.fclose h' f'))
        × (far_files.written f' h' ≡ text)
        × (far.pending w' far_fd ≡ rest)
  upload_copies reads extra h h' name path text rest c v g g1 s w f f1 small at_near has short
        opened holds at_far block large named created comes =
      let (v', c', g', n, sends, sent, kept, empty) =
        file_send-sent alloc near near_fd near_stands near_files near_laws extra h name text c v g
          g1 at_near has short opened holds in
      let (w', s', f', gets, written, end) =
        file_send-written alloc far far_fd reads far_files far_laws far_stands (pieces_of text) h'
          (s.r_buffer.size - 1) path rest s w f f1 at_far block (omega arith)
          (chunks_of (s.r_buffer.size - 1) text (omega arith)) (count_of text small) named created
          comes in
      (
        v',
        c',
        g',
        n,
        w',
        s',
        f',
        sends,
        sent,
        gets,
        written ∙ concat-pieces (rounds_of text) text,
        end,
      )
