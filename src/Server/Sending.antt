-- ===== src/Server/Sending.antt =====
-- What a session sends: `file_recv_command` and the writes of `write_event_handler`.
use aspr1net.Base.{
  ℕ, ◌+◌, ◌≤◌, List, [], ◌++◌, Option, some, ◌≡◌, refl, ap, ◌∙◌, arith, ok, Bytes, length, le_bytes,
  length-le_bytes, subst,
}
use aspr1net.Base.Int.{pos}
use aspr1net.Arg.{argv}
use aspr1net.Anet.{Os}
use aspr1net.Buffer.{Allocator, Buffer, head_bytes, contents, readable_size, write_int}
use aspr1net.Buffer.Moves.{IsValid, readable_size-ok, length-contents}
use aspr1net.Buffer.Write.{Holds, write_int_fits}
use aspr1net.Stdio.{Files, FileLaws}
use aspr1net.Wire.{packed, packages}
use aspr1net.Wire.Exact.{Stands}
use aspr1net.Chunks.{file_chunks, flush, flush_all}
use aspr1net.Chunks.Pieces.{pieces, rounds_of, rounds_bound, AllSmall, pieces-AreChunks}
use aspr1net.Chunks.Read.{AllHold}
use aspr1net.Chunks.Flush.{flush_both, number-Holds}
use aspr1net.Chunks.Whole.{whole_file, length-AllHold}
use aspr1net.Server.{Session, file_recv, file_name}
use aspr1net.Server.Handlers.{write_session, advanced}

-- A session that is ready to send a number and payloads.
pub record IsReady (n : ℕ) (ps : List Bytes) (s : Session) : Type 0 where
  pub number : Holds (head_bytes 8) (le_bytes 8 n) s.w_buffer
  pub chunks : AllHold s.buffer_list ps
  pub small : AllSmall ps

module _ {W F : Type 0} (alloc : Allocator) (os : Os W) (fs : Files F) where
  file_recv_steps :
      (fuel : ℕ) (s : Session) (w : W) (f f1 f2 : F) (h : ℕ) (name : Bytes) (cs : List Buffer)
      (b : Buffer)
      → argv s.arg 1 ≡ some name
      → fs.fopen_read (file_name name) f ≡ (f1, some h)
      → file_chunks alloc fs fuel h f1 [] ≡ ok (f2, cs)
      → write_int alloc s.w_buffer (length cs) ≡ ok b
      → file_recv alloc os fs fuel s w f
        ≡ ok (w, record s { w_buffer = b; buffer_list = cs }, fs.fclose h f2)
  unfolding file_recv
  file_recv_steps fuel s w f f1 f2 h name cs b named opened loops packs =
      ground (arith, named, opened, loops, packs)

module _ {W F : Type 0} (alloc : Allocator) (os : Os W) (fs : Files F) (laws : FileLaws fs) where
  -- `file_recv_command` makes the session ready to send the file: a round for each package of 1015
  -- bytes and two more are enough fuel.
  pub file_recv_lem :
      (extra h : ℕ) (s : Session) (w : W) (f f1 : F) (name text : Bytes)
      → argv s.arg 1 ≡ some name
      → fs.fopen_read (file_name name) f ≡ (f1, some h)
      → fs.content f (file_name name) ≡ text
      → IsValid s.w_buffer
      → 17 ≤ s.w_buffer.size
      → (s' : Session) × (f' : F) × (file_recv alloc os fs (rounds_of text + 2 + extra) s w f
          ≡ ok (w, s', f'))
        × (s'.fd ≡ s.fd)
        × (s'.w_buffer.size ≡ s.w_buffer.size)
        × IsReady (length (pieces (rounds_of text) text)) (pieces (rounds_of text) text) s'
  file_recv_lem extra h s w f f1 name text named opened is v room =
      let ps = pieces (rounds_of text) text in
      let (f2, cs, loops, hold) =
        whole_file alloc fs laws extra h (file_name name) f f1 text opened is in
      let (b, packs, holds, size) = write_int_fits alloc s.w_buffer (length cs) v room in
      let (lo, hi) = rounds_bound text in
      let (sized, small) = pieces-AreChunks 1024 (omega arith) (rounds_of text) text lo hi in
      (
        record s { w_buffer = b; buffer_list = cs },
        fs.fclose h f2,
        file_recv_steps alloc os fs (rounds_of text + 2 + extra) s w f f1 f2 h name cs b named
            opened loops packs,
        refl,
        size,
        record {
          number =
              subst (λ n. Holds (head_bytes 8) (le_bytes 8 n) b) (length-AllHold cs ps hold) holds;
          chunks = hold;
          small = small;
        },
      )

-- All that is in the buffer was sent.
abbrev sent_session : Session → Session
sent_session s = record s {
  w_buffer = advanced s.w_buffer (some (length (contents s.w_buffer)));
  buffer_list = [];
}

module _ {W : Type 0} (os : Os W) where
  write_session_steps :
      (s : Session) (w w1 w2 : W) (written : Option ℕ) (ns : List (Option ℕ))
      → flush os s.fd s.w_buffer w ≡ ok (w1, written)
      → flush_all os s.fd s.buffer_list w1 ≡ ok (w2, ns)
      → write_session os s w
        ≡ ok (w2, record s { w_buffer = advanced s.w_buffer written; buffer_list = [] })
  unfolding write_session
  write_session_steps s w w1 w2 written ns first rest = rw first (rw rest refl)

module _ {W : Type 0} (os : Os W) (fd : ℕ) (stands : Stands os fd) where
  -- On a connection that stands, the writes send the number and all the packages, and leave nothing.
  pub write_session-sent :
      (n : ℕ) (ps : List Bytes) (s : Session) (w : W)
      → s.fd ≡ pos fd
      → IsReady n ps s
      → (w' : W) × (s' : Session) × (write_session os s w ≡ ok (w', s'))
        × (os.sent w' fd ≡ os.sent w fd ++ (packed (le_bytes 8 n) ++ packages ps))
        × (os.pending w' fd ≡ os.pending w fd)
        × (s'.fd ≡ pos fd)
        × (readable_size s'.w_buffer ≡ ok 0)
        × (s'.buffer_list ≡ [])
  write_session-sent n ps s w at_fd ready =
      let v = ready.number.valid in
      let (w1, w2, ns, first, rest, sent, kept) =
        flush_both os fd stands (le_bytes 8 n) ps s.w_buffer s.buffer_list w
          (number-Holds n s.w_buffer ready.number) (omega (arith, length-le_bytes 8 n)) ready.chunks
          ready.small in
      let end : s.w_buffer.read_idx + length (contents s.w_buffer) ≡ s.w_buffer.write_idx =
        omega (arith, length-contents s.w_buffer v, v.ordered) in
      (
        w2,
        sent_session s,
        write_session_steps os s w w1 w2 (some (length (contents s.w_buffer))) ns
            (ap (λ d. flush os d s.w_buffer w) at_fd ∙ first)
            (ap (λ d. flush_all os d s.buffer_list w1) at_fd ∙ rest),
        sent,
        kept,
        at_fd,
        readable_size-ok (sent_session s).w_buffer (record {
          ordered = omega arith;
          within = v.within;
          sized = v.sized;
          small = v.small;
        })
            ∙ ap (λ x. ok x) (omega arith),
        refl,
      )
