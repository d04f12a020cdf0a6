-- ===== src/Client/Dispatch.antt =====
-- `process` of a line: the commands that the client takes, and the lines that it refuses.
use aspr1net.Base.{
  ℕ, ◌<◌, List, [], ◌∷◌, false, Option, none, some, ◌≡◌, ◌≢◌, refl, sym, ◌∙◌, arith, ok, err,
  out_of_bounds, Bytes, drop, codes, eq_bytes, eq_bytes-eq, Bool-cases, inl, inr,
}
use aspr1net.Base.Int.{ℤ, pos, negsuc, minus_one}
use aspr1net.Arg
use aspr1net.Arg.{Arg, argc, argv}
use aspr1net.Anet.{Os}
use aspr1net.Anet.Calls.{tcp_connect}
use aspr1net.Buffer
use aspr1net.Buffer.{Allocator}
use aspr1net.Stdio.{Files}
use aspr1net.Command.{find, arity_fits}
use aspr1net.Client.{
  Client, ClientCommand, ping_command, get_command, set_command, file_send_command,
  file_recv_command, invoke, client_table, check, close_client, connect, connected_client,
  check_arity, process,
}

-- The client with the arguments of a line, and nothing to read.
abbrev pub entered : Client → Arg → Client
entered c arg = record c { r_buffer = Buffer.reset c.r_buffer; buffer_list = []; arg = arg }

-- The word names no command, or one that wants another number of arguments.
pub data Refused (arg : Arg) : Option (ClientCommand × ℤ) → Type 0 where
  unknown : Refused arg none
  misfit : {e : ClientCommand × ℤ} → arity_fits e.1 (argc arg) ≡ false → Refused arg (some e)

-- The lines that the client takes: their first word, and how many words they have.
pub data Takes (word : Bytes) (words : ℕ) : ClientCommand → Type 0 where
  takes_ping : word ≡ codes "ping" → words ≡ 1 → Takes word words ping_command
  takes_get : word ≡ codes "get" → words ≡ 2 → Takes word words get_command
  takes_set : word ≡ codes "set" → words ≡ 3 → Takes word words set_command
  takes_file_send : word ≡ codes "file_send" → words ≡ 2 → Takes word words file_send_command
  takes_file_recv : word ≡ codes "file_recv" → words ≡ 2 → Takes word words file_recv_command

module _ (arg : Arg) (word : Bytes) where
  -- An entry of the table that the line does not fit.
  find-Refused_entry :
      (key : Bytes) (command : ClientCommand) (n : ℕ) (entries : List (Bytes × (ClientCommand × ℤ)))
      → 0 < n
      → (word ≡ key → argc arg ≢ n)
      → Refused arg (find word entries)
      → Refused arg (find word ((key, (command, pos n)) ∷ entries))
  unfolding find arity_fits
  find-Refused_entry key command n entries some_words differs rest =
      elim (Bool-cases (eq_bytes key word)) [
        | inr other ↦ rw other rest
        | inl same ↦
            let no : argc arg ≢ n = differs (sym (eq_bytes-eq key word same)) in
            rw same (misfit (ground (arith, no, some_words)))
      ]

  find-Refused :
      ((command : ClientCommand) → ¬ Takes word (argc arg) command)
      → Refused arg (find word client_table)
  unfolding find
  find-Refused none_taken =
      find-Refused_entry (codes "ping") ping_command 1 (drop 1 client_table) (omega arith)
        (λ e n. none_taken ping_command (takes_ping e n))
        (find-Refused_entry (codes "get") get_command 2 (drop 2 client_table) (omega arith)
          (λ e n. none_taken get_command (takes_get e n))
          (find-Refused_entry (codes "set") set_command 3 (drop 3 client_table) (omega arith)
            (λ e n. none_taken set_command (takes_set e n))
            (find-Refused_entry (codes "file_send") file_send_command 2 (drop 4 client_table)
              (omega arith) (λ e n. none_taken file_send_command (takes_file_send e n))
              (find-Refused_entry (codes "file_recv") file_recv_command 2 [] (omega arith)
                (λ e n. none_taken file_recv_command (takes_file_recv e n)) unknown))))

module _ {W F : Type 0} (alloc : Allocator) (os : Os W) (fs : Files F) (fuel : ℕ) where
  -- An entry that the line fits is called.
  check_arity-Takes :
      (c : Client) (w : W) (f : F) (word : Bytes) (command : ClientCommand)
      → Takes word (argc c.arg) command
      → check_arity alloc os fs fuel c w f (find word client_table)
        ≡ invoke alloc os fs fuel command c w f
  unfolding find arity_fits
  check_arity-Takes c w f word ping_command (takes_ping e n) = rw (e, n) refl
  check_arity-Takes c w f word get_command (takes_get e n) = rw (e, n) refl
  check_arity-Takes c w f word set_command (takes_set e n) = rw (e, n) refl
  check_arity-Takes c w f word file_send_command (takes_file_send e n) = rw (e, n) refl
  check_arity-Takes c w f word file_recv_command (takes_file_recv e n) = rw (e, n) refl

  check_arity-Refused :
      (c : Client) (w : W) (f : F) (e : Option (ClientCommand × ℤ))
      → Refused c.arg e
      → check_arity alloc os fs fuel c w f e
        ≡ ok (record { world = w; files = f; client = c; printed = []; status = minus_one })
  check_arity-Refused c w f none unknown = refl
  check_arity-Refused c w f (some (command, arity)) (misfit differs) = rw differs refl

  -- A line whose first word is one of the five commands, with just as many words as it has in
  -- `Takes`, makes `process` call its command, on the client with the new arguments, an empty read
  -- buffer and no list of buffers. Any other line with a word makes it return -1: nothing is sent or
  -- printed, no file is touched, and of the client only the arguments are new, and the read buffer and
  -- the list of buffers empty.
  pub process-Takes :
      (c : Client) (text word : Bytes) (w : W) (f : F) (arg : Arg)
      → Arg.process c.arg (some text) ≡ some arg
      → argv arg 0 ≡ some word
      → ((command : ClientCommand)
          → Takes word (argc arg) command
          → process alloc os fs fuel c text w f
            ≡ invoke alloc os fs fuel command (entered c arg) w f)
        × (((command : ClientCommand) → ¬ Takes word (argc arg) command)
            → process alloc os fs fuel c text w f
              ≡ ok (record {
                world = w;
                files = f;
                client = entered c arg;
                printed = [];
                status = minus_one;
              }))
  unfolding process
  process-Takes c text word w f arg splits named = (
    λ command takes.
        rw splits (rw named (check_arity-Takes (entered c arg) w f word command takes)),
    λ none_taken. rw splits (
        rw named (
          check_arity-Refused (entered c arg) w f (find word client_table)
            (find-Refused arg word none_taken))),
  )

  -- A line without a word makes it read past the end of the arguments.
  pub process_blank :
      (c : Client) (text : Bytes) (w : W) (f : F) (arg : Arg)
      → Arg.process c.arg (some text) ≡ some arg
      → argv arg 0 ≡ none
      → process alloc os fs fuel c text w f ≡ err out_of_bounds
  unfolding process
  process_blank c text w f arg splits blank = rw splits (rw blank refl)

module _ {W : Type 0} (os : Os W) where
  connected-ip : (c : Client) (r : W × Option ℕ) → (connected_client os c r).1.ip ≡ c.ip
  connected-ip c (w, none) = refl
  connected-ip c (w, some fd) = refl

  closes_none : (d : Client) (v : W) → d.ip ≡ none → close_client os d v ≡ v
  unfolding check close_client
  closes_none d v fresh = go d.fd refl
    where
      go : (fd : ℤ) → d.fd ≡ fd → close_client os d v ≡ v
      go (pos n) is = rw is (ground (arith, fresh))
      go (negsuc n) is = rw is refl

  -- `connect` names its arguments as the fields are named, and never sets the fields: a client that had
  -- no address before has none after, so that `check` fails, and the destructor closes nothing.
  pub connect_leaks :
      (c : Client) (ip : Bytes) (port : ℕ) (w v : W)
      → c.ip ≡ none
      → (check (connect os c ip port w).1 ≡ false)
        × (close_client os (connect os c ip port w).1 v ≡ v)
  unfolding check connect close_client
  connect_leaks c ip port w v fresh =
      let r = tcp_connect os ip port w in
      let same : (connected_client os c r).1.ip ≡ none = connected-ip c r ∙ fresh in
      let unchecked : check (connected_client os c r).1 ≡ false = ground (arith, same) in
      (unchecked, closes_none (connected_client os c r).1 v same)
