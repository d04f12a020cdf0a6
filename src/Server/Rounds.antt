-- ===== src/Server/Rounds.antt =====
-- The three handlers on a loop whose addresses are sound.
use aspr1net.Base.{
  ℕ, zero, suc, true, List, [], ◌∷◌, ◌++◌, Option, none, some, ◌≡◌, inl, inr, refl, sym, ap, ◌∙◌,
  subst, Result, length, get_elem?, get_elem?-append, of_le_bytes, Bytes, Sure, Clean, bind-Sure,
  if-Sure, fails, gives,
}
use aspr1net.Base.Int.{ℤ, pos}
use aspr1net.Arg.{argv}
use aspr1net.Ae.Types.{Mask, ae_readable, ae_writable, EventLoop}
use aspr1net.Ae.Epoll.{Kernel}
use aspr1net.Ae.Files.{add_file_event, del_file_event}
use aspr1net.Anet.{Os, set_tcp_no_delay}
use aspr1net.Buffer
use aspr1net.Buffer.{Allocator, Buffer, head_size}
use aspr1net.Buffer.Clean.{mem_write-Clean, readable_size-Clean}
use aspr1net.Stdio.{Files}
use aspr1net.Wire.{stored, bytes_of, read_once}
use aspr1net.Wire.Clean.{generic_accept-Clean}
use aspr1net.Command.{find}
use aspr1net.Server.{Session, new_session, Entry, server_table}
use aspr1net.Server.Handlers.{
  World, lifted, read_proc, write_proc, put_session, with_system, write_event_handler, filled,
  at_end, run_command, process_command, serve, read_event_handler, welcome, accept_tcp_handler,
}
use aspr1net.Server.Clean.{
  SameEnds, element-Clean, process_input_buffer-Sure, write_session-Sure, invoke-Keeps,
}
use aspr1net.Server.Lines.{session_at-Lives, Lives-put}
use aspr1net.Server.Pointers.{Points, Sound, add_file_event-Sound}
use aspr1net.Server.Removal.{Removed, del_file_event-Removed}
use aspr1net.Server.Deletion.{Removed-Sound, replaced-Sound, delete_session-Sound}

-- What is sound stays so in another world with the same sessions.
abbrev elsewhere :
    {W F : Type 0} (l : EventLoop (World W F))
    → Sound l
    → (w : W) (f : F) → Sound (record l { world = record l.world { system = w; files = f } })
elsewhere l v w f = record { opened = v.opened; sized = v.sized; entries = v.entries }

filled-Clean : (b : Buffer) (got : Option Bytes) → Clean (filled b got)
filled-Clean b none = gives tt
filled-Clean b (some []) = gives tt
filled-Clean b (some (c ∷ cs)) =
    bind-Sure (mem_write-Clean b.buff b.write_idx (c ∷ cs))
      (λ buff h. bind-Sure (mem_write-Clean buff _ (0 ∷ [])) (λ ended h. gives tt))

module _ {W F : Type 0} (k : Kernel W) (os : Os W) (n address : ℕ) (mask : Mask) where
  pub write_event_handler-Sound :
      (l : EventLoop (World W F)) (v : Sound l)
      → Points l.world.sessions n address
      → Sure Sound (write_event_handler k os l (pos n) address mask)
  unfolding write_event_handler
  write_event_handler-Sound l v (s, lives, at_fd, loop) = rw (session_at-Lives l address s lives) (
      bind-Sure (readable_size-Clean s.w_buffer) (λ size h.
        if-Sure _ (delete_session-Sound k os l v n address s lives at_fd loop) (
          bind-Sure (write_session-Sure os s l.world.system) (λ r same.
            bind-Sure (readable_size-Clean r.1.w_buffer)
              (λ left h. if-Sure _ (idle r.0 r.1 same) (gives (flushed r.0 r.1 same)))))))
    where
      flushed :
          (w : W) (s' : Session)
          → SameEnds s s'
          → Sound (put_session (with_system l w) address (some s'))
      flushed w s' same =
          replaced-Sound (with_system l w) (elsewhere l v w l.world.files) address s lives s' same

      idle :
          (w : W) (s' : Session)
          → SameEnds s s'
          → Sure Sound (
              del_file_event
                (lifted k)
                (put_session (with_system l w) address (some s'))
                s'.fd
                ae_writable)
      idle w s' same =
          let l' = put_session (with_system l w) address (some s') in
          let v' = flushed w s' same in
          let (st, opened) = v'.opened in
          let deleted : Sure Sound (del_file_event (lifted k) l' (pos n) ae_writable) =
            after l' v' (del_file_event-Removed k l' n ae_writable st opened v'.sized) in
          subst (λ d. Sure Sound (del_file_event (lifted k) l' d ae_writable))
            (sym (same.0 ∙ at_fd)) deleted
        where
          after :
              (l' : EventLoop (World W F)) (v' : Sound l') {r : Result (EventLoop (World W F))}
              → Sure (Removed l' n ae_writable) r
              → Sure Sound r
          after l' v' (fails h) = fails h
          after l' v' (gives {value} h) = gives (Removed-Sound l' value n ae_writable v' h)

module _ {W F : Type 0} (alloc : Allocator) (k : Kernel W) (os : Os W) (fs : Files F)
    (fuel n address : ℕ) where
  -- What `add_file_event` leaves of the loop and the sessions.
  abbrev Added : EventLoop (World W F) → EventLoop (World W F) × ℤ → Type 0
  Added l r = Sound r.0 × (r.0.world.sessions ≡ l.world.sessions)

  run_command-Sound :
      (l : EventLoop (World W F)) (v : Sound l) (s : Session)
      → get_elem? l.world.sessions address ≡ some (some s)
      → s.fd ≡ pos n
      → s.has_loop ≡ true
      → (e : Option Entry) → Sure Sound (run_command alloc k os fs fuel l address s e)
  run_command-Sound l v s lives at_fd loop none = gives v
  run_command-Sound l v s lives at_fd loop (some e) =
      if-Sure _
        (bind-Sure {P = Added l} (if-Sure e.reply added (gives (v, refl))) (λ r sound.
          bind-Sure (invoke-Keeps alloc os fs fuel e.proc s r.0.world.system r.0.world.files)
            (λ out same. gives (
              replaced-Sound
                (record r.0 { world = record r.0.world { system = out.0; files = out.2 } })
                (elsewhere r.0 sound.0 out.0 out.2) address s
                (ap (λ ss. get_elem? ss address) sound.1 ∙ lives) out.1 same))))
        (gives v)
    where
      added :
          Sure (Added l) (add_file_event (lifted k) l s.fd ae_writable (some write_proc) address)
      added =
          let (after, status, done, sound, same) =
            add_file_event-Sound k l v n ae_writable (some write_proc) address
              (s, lives, at_fd, loop) in
          subst
            (λ d.
              Sure (Added l) (add_file_event (lifted k) l d ae_writable (some write_proc) address))
            (sym at_fd) (subst (Sure (Added l)) (sym done) (gives (sound, same)))

  process_command-Sound :
      (l : EventLoop (World W F)) (v : Sound l)
      → Points l.world.sessions n address
      → Sure Sound (process_command alloc k os fs fuel l address)
  unfolding process_command
  process_command-Sound l v (s, lives, at_fd, loop) = rw (session_at-Lives l address s lives) (
      bind-Sure (element-Clean (argv s.arg 0))
        (λ name h. run_command-Sound l v s lives at_fd loop (find name server_table)))

  serve-Sound :
      (l : EventLoop (World W F)) (v : Sound l) (s : Session)
      → get_elem? l.world.sessions address ≡ some (some s)
      → s.fd ≡ pos n
      → s.has_loop ≡ true
      → (got : Option Buffer) → Sure Sound (serve alloc k os fs fuel l address s got)
  serve-Sound l v s lives at_fd loop none =
      delete_session-Sound k os l v n address s lives at_fd loop
  serve-Sound l v s lives at_fd loop (some b) =
      bind-Sure (process_input_buffer-Sure (record s { r_buffer = b })) (λ s' same.
        process_command-Sound (put_session l address (some s'))
          (replaced-Sound l v address s lives s' same)
          (s', Lives-put l address s s' lives, same.0 ∙ at_fd, same.1 ∙ loop))

  pub read_event_handler-Sound :
      (mask : Mask) (l : EventLoop (World W F)) (v : Sound l)
      → Points l.world.sessions n address
      → Sure Sound (read_event_handler alloc k os fs fuel l (pos n) address mask)
  unfolding read_event_handler
  read_event_handler-Sound mask l v (s, lives, at_fd, loop) =
      let head = read_once os (pos n) head_size l.world.system in
      let len = of_le_bytes (stored (alloc.fresh head_size) (bytes_of head.1)) in
      let body = read_once os (pos n) len head.0 in
      rw (session_at-Lives l address s lives) (
        if-Sure (at_end head.1)
          (delete_session-Sound k os (with_system l head.0) (elsewhere l v head.0 l.world.files) n
            address s lives at_fd loop)
          (bind-Sure (filled-Clean (Buffer.reset s.r_buffer) body.1) (λ b h.
            serve-Sound (with_system l body.0) (elsewhere l v body.0 l.world.files) s lives at_fd
              loop b)))

get_elem?-append_left :
    {V : Type 0} (xs ys : List V) (i : ℕ) {x : V}
    → get_elem? xs i ≡ some x
    → get_elem? (xs ++ ys) i ≡ some x
get_elem?-append_left [] ys i e = cc
get_elem?-append_left (x ∷ xs) ys zero e = e
get_elem?-append_left (x ∷ xs) ys (suc i) e = get_elem?-append_left xs ys i e

module _ {W F : Type 0} (alloc : Allocator) (k : Kernel W) (os : Os W) where
  -- A new session, whose address nothing has yet.
  joined-Sound :
      (l : EventLoop (World W F)) (s : Option Session) (w : W)
      → Sound l
      → Sound (record l {
        world = record l.world { system = w; sessions = l.world.sessions ++ s ∷ [] };
      })
  joined-Sound l s w v = record {
    opened = v.opened;
    sized = v.sized;
    entries = λ j e at watched. elim (v.entries j e at watched) [
      | inl accepts ↦ inl accepts
      | inr (t, there, at_j, loop) ↦
          inr (t, get_elem?-append_left l.world.sessions (s ∷ []) e.client_data there, at_j, loop)
    ];
  }

  welcome-Sound :
      (l : EventLoop (World W F)) (v : Sound l) (fd : Option ℕ)
      → Sure Sound (welcome alloc k os l fd)
  welcome-Sound l v none = gives v
  welcome-Sound l v (some n) =
      let w = (set_tcp_no_delay os n (pos 1) l.world.system).0 in
      let s = record (new_session alloc) { fd = pos n; has_loop = true } in
      let address = length l.world.sessions in
      let l1 = record l {
        world = record l.world { system = w; sessions = l.world.sessions ++ some s ∷ [] };
      } in
      let new = get_elem?-append l.world.sessions [] (some s) in
      let (after, status, done, sound, same) =
        add_file_event-Sound k l1 (joined-Sound l (some s) w v) n ae_readable (some read_proc)
          address (s, new, refl, refl) in
      rw done (
        if-Sure _
          (delete_session-Sound k os after sound n address s
            (ap (λ ss. get_elem? ss address) same ∙ new) refl refl)
          (gives sound))

  pub accept_tcp_handler-Sound :
      (rounds fd server : ℕ) (mask : Mask) (l : EventLoop (World W F)) (v : Sound l)
      → Sure Sound (accept_tcp_handler alloc k os rounds l fd server mask)
  unfolding accept_tcp_handler
  accept_tcp_handler-Sound rounds fd server mask l v =
      bind-Sure (generic_accept-Clean os rounds fd l.world.system)
        (λ r h. welcome-Sound (with_system l r.0) (elsewhere l v r.0 l.world.files) r.1)
