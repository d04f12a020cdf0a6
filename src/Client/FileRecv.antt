-- ===== src/Client/FileRecv.antt =====
-- `file_recv` on a connection that stands: the file is the payloads of the packages that come.
use aspr1net.Base.{
  ℕ, ◌^◌, ◌<◌, List, [], ◌++◌, some, ◌≡◌, sym, ap, ◌∙◌, arith, ok, Bytes, length, le_bytes,
  size_mod, append_assoc, codes, subst,
}
use aspr1net.Base.Int.{ℤ, pos}
use aspr1net.Anet.{Os}
use aspr1net.Buffer.{Allocator}
use aspr1net.Buffer.Memory.{c_string}
use aspr1net.Stdio.{Files, FileLaws}
use aspr1net.Wire.{packed, packages, concat, recv_integer}
use aspr1net.Wire.Exact.{Stands, recv_integer-packed}
use aspr1net.Chunks.Pieces.{AreChunks}
use aspr1net.Client.{Client, send, recv_chunks, file_recv, command_text}
use aspr1net.Client.Recv.{HasBlock}
use aspr1net.Client.Send.{
  HasRoom, command, c_string-command, command_text-ok, file_recv_word, send-packed,
}
use aspr1net.Client.Download.{recv_chunks-written}

abbrev pub download_command : Bytes → Bytes
download_command name = command (codes "file_recv ") name

module _ {W F : Type 0} (alloc : Allocator) (os : Os W) (fs : Files F) where
  file_recv_steps :
      (c c1 c2 : Client) (name text : Bytes) (w w1 w2 w3 : W) (f f1 f2 : F) (n : ℤ) (num h : ℕ)
      → command_text (codes "file_recv ") name ≡ ok text
      → send alloc os c text w ≡ ok (w1, c1, n)
      → fs.fopen_write (c_string name) f ≡ (f1, some h)
      → recv_integer os (alloc.fresh 8) c1.fd w1 ≡ ok (w2, num)
      → recv_chunks alloc os fs num h c1 w2 f1 ≡ ok (w3, c2, f2)
      → file_recv alloc os fs c name w f ≡ ok (w3, c2, fs.fclose h f2)
  unfolding file_recv
  file_recv_steps c c1 c2 name text w w1 w2 w3 f f1 f2 n num h packs sends opened number loops =
      ground (arith, packs, sends, opened, number, loops)

module _ {W F : Type 0} (alloc : Allocator) (os : Os W) (fd : ℕ) (stands : Stands os fd)
    (fs : Files F) (laws : FileLaws fs) where
  -- The client sends the command, and writes what comes to the file.
  pub file_recv-written :
      (ps : List Bytes) (h : ℕ) (name rest : Bytes) (c : Client) (w : W) (f f1 : F)
      → c.fd ≡ pos fd
      → HasBlock c
      → HasRoom (download_command name) c
      → c.buffer_list ≡ []
      → length (download_command name) < 1024
      → AreChunks c.r_buffer.size ps
      → length ps < size_mod
      → os.pending w fd ≡ (packed (le_bytes 8 (length ps)) ++ packages ps) ++ rest
      → fs.fopen_write (c_string name) f ≡ (f1, some h)
      → (w1 : W) × (c1 : Client) × (n : ℤ) × (w' : W) × (c' : Client) × (f' : F) × (send alloc os c
            (download_command name)
            w
          ≡ ok (w1, c1, n))
        × (os.sent w1 fd ≡ os.sent w fd ++ packed (download_command name))
        × (file_recv alloc os fs c name w f ≡ ok (w', c', fs.fclose h f'))
        × (fs.written f' h ≡ concat ps)
        × (os.pending w' fd ≡ rest)
  file_recv-written ps h name rest c w f f1 at_fd block room none_waiting short sizes count there
        opened =
      let text = download_command name in
      let (w1, c1, n, sends, sent, kept, same_fd, same_block) =
        send-packed alloc os fd stands text c w at_fd room none_waiting in
      let (w2, number, left) =
        recv_integer-packed os fd stands (length ps) (packages ps ++ rest) (alloc.fresh 8) w1 count
          (alloc.length-fresh 8)
          (kept ∙ there ∙ append_assoc (packed (le_bytes 8 (length ps))) (packages ps) rest) in
      let block1 : HasBlock c1 =
        subst (λ b. (length b.buff ≡ b.size) × (b.size < 2 ^ 31)) (sym same_block) block in
      let (w3, c3, f3, loops, written, end) =
        recv_chunks-written alloc os fd stands fs laws ps h c1 rest w2 f1 (same_fd ∙ at_fd) block1
          (subst (λ b. AreChunks b.size ps) (sym same_block) sizes) left in
      (
        w1,
        c1,
        n,
        w3,
        c3,
        f3,
        sends,
        sent
            ∙ ap (λ x. os.sent w fd ++ packed x)
                (c_string-command (codes "file_recv ") name file_recv_word),
        file_recv_steps alloc os fs c c1 c3 name text w w1 w2 w3 f f1 f3 n (length ps) h
            (command_text-ok (codes "file_recv ") name short) sends opened
            (ap (λ d. recv_integer os (alloc.fresh 8) d w1) (same_fd ∙ at_fd) ∙ number) loops,
        written ∙ ap (λ x. x ++ concat ps) (laws.fopen_write_start (c_string name) f opened),
        end,
      )
