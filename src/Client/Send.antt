-- ===== src/Client/Send.antt =====
-- The commands that the client sends, on a connection that stands.
use aspr1net.Base.{
  ℕ, ◌+◌, ◌^◌, ◌≤◌, ◌<◌, [], ◌∷◌, ◌++◌, codes, Option, some, ◌≡◌, refl, ap, ◌∙◌, sym, arith, ok,
  Bytes, length, List, append-nil, subst,
}
use aspr1net.Base.Int.{ℤ, pos}
use aspr1net.Ae.Epoll.{to_int}
use aspr1net.Anet.{Os}
use aspr1net.Buffer
use aspr1net.Buffer.{Allocator, Buffer, head_bytes, write_str, contents}
use aspr1net.Buffer.Memory.{c_string, strlen}
use aspr1net.Buffer.Moves.{IsValid}
use aspr1net.Buffer.Write.{Holds, write_str_fits}
use aspr1net.Wire.{packed, packages}
use aspr1net.Wire.Exact.{Stands}
use aspr1net.Chunks.{flush, flush_all}
use aspr1net.Chunks.Pieces.{AllSmall}
use aspr1net.Chunks.Read.{AllHold}
use aspr1net.Chunks.Flush.{flush_both}
use aspr1net.Client.{Client, send, flush_2_server, total, command_text}

-- A command: a word and a name.
abbrev pub command : Bytes → Bytes → Bytes
command word name = word ++ c_string name

c_string_again : (s : Bytes) → c_string (c_string s) ≡ c_string s
unfolding c_string
c_string_again [] = refl
c_string_again (c ∷ s) = ground (arith, c_string_again s)

-- The command as a C string.
abbrev NoNul : Bytes → Type 0
NoNul word = (tail : Bytes) → c_string (word ++ tail) ≡ word ++ c_string tail

pub c_string-command :
    (word name : Bytes) → NoNul word → c_string (command word name) ≡ command word name
c_string-command word name whole = whole (c_string name) ∙ ap (λ x. word ++ x) (c_string_again name)

pub command_text-ok :
    (word name : Bytes)
    → length (command word name) < 1024
    → command_text word name ≡ ok (command word name)
unfolding command_text
command_text-ok word name short = ground arith

pub file_recv_word : NoNul (codes "file_recv ")
unfolding c_string
file_recv_word tail = refl

pub file_send_word : NoNul (codes "file_send ")
unfolding c_string
file_send_word tail = refl

-- What a flush leaves of a client.
abbrev pub flushed : Client → Client
flushed c = record c { w_buffer = Buffer.reset c.w_buffer; buffer_list = [] }

module _ {W : Type 0} (os : Os W) where
  flush_steps :
      (c : Client) (w w1 w2 : W) (n : Option ℕ) (ns : List (Option ℕ))
      → flush os c.fd c.w_buffer w ≡ ok (w1, n)
      → flush_all os c.fd c.buffer_list w1 ≡ ok (w2, ns)
      → flush_2_server os c w ≡ ok (w2, flushed c, total (n ∷ ns))
  unfolding flush_2_server
  flush_steps c w w1 w2 n ns first rest = rw first (rw rest refl)

module _ {W : Type 0} (os : Os W) (fd : ℕ) (stands : Stands os fd) where
  -- The flush sends the package of the buffer, and those of the list.
  pub flush-packages :
      (payload : Bytes) (ps : List Bytes) (c : Client) (w : W)
      → c.fd ≡ pos fd
      → Holds (head_bytes (length payload)) payload c.w_buffer
      → length payload + 8 < 2 ^ 31
      → AllHold c.buffer_list ps
      → AllSmall ps
      → (w' : W) × (n : ℕ) × (flush_2_server os c w ≡ ok (w', flushed c, n))
        × (os.sent w' fd ≡ os.sent w fd ++ (packed payload ++ packages ps))
        × (os.pending w' fd ≡ os.pending w fd)
  flush-packages payload ps c w at_fd holds small hold sizes =
      let (w1, w2, ns, first, rest, sent, kept) =
        flush_both os fd stands payload ps c.w_buffer c.buffer_list w holds small hold sizes in
      (
        w2,
        total (some (length (contents c.w_buffer)) ∷ ns),
        flush_steps os c w w1 w2 (some (length (contents c.w_buffer))) ns
            (ap (λ d. flush os d c.w_buffer w) at_fd ∙ first)
            (ap (λ d. flush_all os d c.buffer_list w1) at_fd ∙ rest),
        sent,
        kept,
      )

module _ {W : Type 0} (alloc : Allocator) (os : Os W) where
  send_steps :
      (c : Client) (text : Bytes) (w w' : W) (b : Buffer) (n : ℕ)
      → write_str alloc c.w_buffer text ≡ ok b
      → flush_2_server os (record c { w_buffer = b }) w
        ≡ ok (w', flushed (record c { w_buffer = b }), n)
      → send alloc os c text w ≡ ok (w', flushed (record c { w_buffer = b }), to_int n)
  unfolding send
  send_steps c text w w' b n packs done = rw packs (rw done refl)

-- Room for a text in the buffer that is sent.
pub record HasRoom (text : Bytes) (c : Client) : Type 0 where
  pub valid : IsValid c.w_buffer
  pub room : strlen text + 9 ≤ c.w_buffer.size
  pub int_size : c.w_buffer.size < 2 ^ 31

module _ {W : Type 0} (alloc : Allocator) (os : Os W) (fd : ℕ) (stands : Stands os fd) where
  -- `send` sends the text as one package, and takes nothing of what is to come.
  pub send-packed :
      (text : Bytes) (c : Client) (w : W)
      → c.fd ≡ pos fd
      → HasRoom text c
      → c.buffer_list ≡ []
      → (w' : W) × (c' : Client) × (n : ℤ) × (send alloc os c text w ≡ ok (w', c', n))
        × (os.sent w' fd ≡ os.sent w fd ++ packed (c_string text))
        × (os.pending w' fd ≡ os.pending w fd)
        × (c'.fd ≡ c.fd)
        × (c'.r_buffer ≡ c.r_buffer)
  send-packed text c w at_fd can none_waiting =
      let (b, packs, holds, size) = write_str_fits alloc c.w_buffer text can.valid can.room in
      let ready = record c { w_buffer = b } in
      let hold : AllHold c.buffer_list [] = subst (λ bs. AllHold bs []) (sym none_waiting) tt in
      let room = can.room in
      let int_size = can.int_size in
      let (w', n, done, sent, kept) =
        flush-packages os fd stands (c_string text) [] ready w at_fd holds (omega arith) hold tt in
      (
        w',
        flushed ready,
        to_int n,
        send_steps alloc os c text w w' b n packs done,
        sent ∙ ap (λ x. os.sent w fd ++ x) (append-nil (packed (c_string text))),
        kept,
        refl,
        refl,
      )
