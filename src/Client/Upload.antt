-- ===== src/Client/Upload.antt =====
-- `file_send` on a connection that stands: the command, the number of packages, and the packages.
use aspr1net.Base.{
  ℕ, ◌+◌, ◌≤◌, ◌<◌, List, [], ◌∷◌, ◌++◌, some, ◌≡◌, refl, arith, ok, Bytes, length, le_bytes,
  length-le_bytes, codes, subst,
}
use aspr1net.Base.Int.{ℤ, pos}
use aspr1net.Ae.Epoll.{to_int}
use aspr1net.Anet.{Os}
use aspr1net.Buffer.{Allocator, Buffer, create, head_bytes, write_str, write_int}
use aspr1net.Buffer.Memory.{c_string}
use aspr1net.Buffer.Moves.{create-IsValid}
use aspr1net.Buffer.Write.{Holds, write_str_fits, write_int_fits}
use aspr1net.Stdio.{Files, FileLaws}
use aspr1net.Wire.{packed}
use aspr1net.Wire.Exact.{Stands}
use aspr1net.Chunks.{file_chunks}
use aspr1net.Chunks.Pieces.{rounds_of, rounds_bound, AllSmall, pieces-AreChunks}
use aspr1net.Chunks.Read.{AllHold}
use aspr1net.Chunks.Flush.{number-Holds}
use aspr1net.Chunks.Whole.{pieces_of, file_stream, whole_file, length-AllHold}
use aspr1net.Client.{Client, flush_2_server, file_send, command_text}
use aspr1net.Client.Send.{
  HasRoom, command, c_string-command, command_text-ok, file_send_word, flushed, flush-packages,
}

abbrev pub upload_command : Bytes → Bytes
upload_command name = command (codes "file_send ") name

module _ {W F : Type 0} (alloc : Allocator) (os : Os W) (fs : Files F) where
  file_send_steps :
      (fuel : ℕ) (c c' : Client) (name text : Bytes) (w w' : W) (f f1 f2 : F) (h n : ℕ)
      (b first : Buffer) (cs : List Buffer)
      → command_text (codes "file_send ") name ≡ ok text
      → write_str alloc c.w_buffer text ≡ ok b
      → fs.fopen_read (c_string name) f ≡ (f1, some h)
      → file_chunks alloc fs fuel h f1 [] ≡ ok (f2, cs)
      → write_int alloc (create alloc) (length cs) ≡ ok first
      → flush_2_server os (record c { w_buffer = b; buffer_list = first ∷ cs }) w ≡ ok (w', c', n)
      → file_send alloc os fs fuel c name w f ≡ ok (w', c', fs.fclose h f2, to_int n)
  unfolding file_send
  file_send_steps fuel c c' name text w w' f f1 f2 h n b first cs shaped packs opened loops number
        sends =
      ground (arith, shaped, packs, opened, loops, number, sends)

fresh_room : (alloc : Allocator) → 17 ≤ (create alloc).size
unfolding create
fresh_room alloc = omega arith

-- The buffers of a file, behind that of their number.
numbered-AllHold :
    (text : Bytes) (first : Buffer) (cs : List Buffer)
    → Holds (head_bytes 8) (le_bytes 8 (length cs)) first
    → AllHold cs (pieces_of text)
    → AllHold (first ∷ cs) (le_bytes 8 (length (pieces_of text)) ∷ pieces_of text)
numbered-AllHold text first cs holds hold =
    let n = length (pieces_of text) in
    (
      number-Holds n first (
          subst (λ k. Holds (head_bytes 8) (le_bytes 8 k) first)
            (length-AllHold cs (pieces_of text) hold) holds),
      hold,
    )

numbered-AllSmall :
    (text : Bytes) → AllSmall (le_bytes 8 (length (pieces_of text)) ∷ pieces_of text)
numbered-AllSmall text =
    let (lo, hi) = rounds_bound text in
    let (sizes, small) = pieces-AreChunks 1024 (omega arith) (rounds_of text) text lo hi in
    (omega (arith, length-le_bytes 8 (length (pieces_of text))), small)

module _ {W F : Type 0} (alloc : Allocator) (os : Os W) (fd : ℕ) (stands : Stands os fd)
    (fs : Files F) (laws : FileLaws fs) where
  -- On a connection that stands, `file_send` sends the command as a package, then the number of
  -- pieces of the file as a package, and then each piece as a package: a round for each 1015 bytes of
  -- the file and two more are enough fuel. It takes nothing of what is to come.
  pub file_send-sent :
      (extra h : ℕ) (name text : Bytes) (c : Client) (w : W) (f f1 : F)
      → c.fd ≡ pos fd
      → HasRoom (upload_command name) c
      → length (upload_command name) < 1024
      → fs.fopen_read (c_string name) f ≡ (f1, some h)
      → fs.content f (c_string name) ≡ text
      → (w' : W) × (c' : Client) × (f' : F) × (n : ℤ) × (file_send alloc os fs
            (rounds_of text + 2 + extra)
            c
            name
            w
            f
          ≡ ok (w', c', f', n))
        × (os.sent w' fd ≡ os.sent w fd ++ (packed (upload_command name) ++ file_stream text))
        × (os.pending w' fd ≡ os.pending w fd)
        × (c'.buffer_list ≡ [])
  file_send-sent extra h name text c w f f1 at_fd has short opened is =
      let line = upload_command name in
      let same = c_string-command (codes "file_send ") name file_send_word in
      let (b, packs, holds, size) = write_str_fits alloc c.w_buffer line has.valid has.room in
      let (f2, cs, loops, hold) =
        whole_file alloc fs laws extra h (c_string name) f f1 text opened is in
      let (first, number, numbered, size1) =
        write_int_fits alloc (create alloc) (length cs) (create-IsValid alloc) (fresh_room alloc) in
      let ready = record c { w_buffer = b; buffer_list = first ∷ cs } in
      let line_holds : Holds (head_bytes (length line)) line b =
        subst (λ x. Holds (head_bytes (length x)) x b) same holds in
      let (w', n, sends, sent, kept) =
        flush-packages os fd stands line (le_bytes 8 (length (pieces_of text)) ∷ pieces_of text)
          ready w at_fd line_holds (omega arith) (numbered-AllHold text first cs numbered hold)
          (numbered-AllSmall text) in
      (
        w',
        flushed ready,
        fs.fclose h f2,
        to_int n,
        file_send_steps alloc os fs (rounds_of text + 2 + extra) c (flushed ready) name line w w' f
            f1 f2 h n b first cs (command_text-ok (codes "file_send ") name short) packs opened
            loops number sends,
        sent,
        kept,
        refl,
      )
