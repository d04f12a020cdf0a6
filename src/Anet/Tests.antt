-- ===== src/Anet/Tests.antt =====
-- A system whose world lists the open descriptors, and the theorems on the socket layer over it.
use aspr1net.Base.{
  codes, ℕ, zero, suc, Bool, true, false, List, [], ◌∷◌, ◌++◌, Option, none, some, ◌≡◌, refl, ok,
  Bytes, if◌then◌else◌, ◌==◌, arith, take, length, ap, sym, ◌≤◌, ◌∙◌,
}
use aspr1net.Anet.{
  connected, Acceptance, accepted, interrupted, Os, af_inet, set_block, create_socket,
}
use aspr1net.Anet.Opens.{Opens, OsLaws}
use aspr1net.Anet.Connect.{
  tcp_generic_connect, tcp_generic_connect-Opens, unix_generic_connect, unix_generic_connect_leaks,
}
use aspr1net.Anet.Serve.{tcp_server, tcp_server-Opens, tcp_server_leaks}
use aspr1net.Anet.Transfer.{
  generic_accept, at_once, once_more, descriptor_of, generic_accept_lem, read_all, StreamLaws,
  Filled, read_all_lem,
}
use aspr1net.Anet.Names.{inet6_name, digits, format_peer, format_sock, IsUncut, format-IsUncut}
use aspr1net.Anet.Write.{write_all, WriteLaws, Written, write_all_lem}

-- The descriptors that were given out, and whether each is open. `interrupts` calls of accept are
-- still interrupted, and reads and writes move one byte.
record World : Type 0 where
  flags : List Bool
  interrupts : ℕ
  input : Bytes
  output : Bytes

abbrev is_open : List Bool → ℕ → Bool
is_open [] j = false
is_open (b ∷ bs) zero = b
is_open (b ∷ bs) (suc j) = is_open bs j

abbrev shut : List Bool → ℕ → List Bool
shut [] j = []
shut (b ∷ bs) zero = false ∷ bs
shut (b ∷ bs) (suc j) = b ∷ shut bs j

abbrev accept_of : ℕ → World → World × Acceptance
accept_of zero w = (w, accepted 9)
accept_of (suc n) w = (record w { interrupts = n }, interrupted)

abbrev read_of : ℕ → Bytes → Bytes × Bytes
read_of zero bs = ([], bs)
read_of (suc n) [] = ([], [])
read_of (suc n) (b ∷ bs) = (b ∷ [], bs)

abbrev write_of : Bytes → ℕ
write_of [] = 0
write_of (b ∷ bs) = 1

-- The options fail, or the status flags cannot be read.
abbrev system : Bool → Bool → Os World
system no_options no_status = record {
  socket = λ family socktype protocol w.
      (record w { flags = w.flags ++ true ∷ [] }, some (length w.flags));
  close = λ fd w. record w { flags = shut w.flags fd };
  setsockopt = λ fd option val w. (w, no_options);
  set_sndtimeo = λ fd sec usec w. (w, no_options);
  getfl = λ fd w. (w, if no_status then none else some (record { non_block = false; others = 2 }));
  setfl = λ fd st w. (w, false);
  bind = λ fd a w. (w, false);
  listen = λ fd backlog w. (w, false);
  connect = λ fd a w. (w, connected);
  accept = λ fd w. accept_of w.interrupts w;
  getaddrinfo = λ host port family passive w.
      (w, some (record { family = 2; socktype = 1; protocol = 6; sockaddr = 127 ∷ [] } ∷ []));
  chmod = λ path perm w. w;
  read = λ fd n w. (record w { input = (read_of n w.input).1 }, some (read_of n w.input).0);
  write = λ fd bs w. (record w { output = w.output ++ take (write_of bs) bs }, some (write_of bs));
  opened = λ w j. is_open w.flags j;
  pending = λ w fd. w.input;
  sent = λ w fd. w.output;
}

is_open-new : (bs : List Bool) → is_open bs (length bs) ≡ false
is_open-new [] = refl
is_open-new (b ∷ bs) = is_open-new bs

is_open-append :
    (bs : List Bool) (j : ℕ)
    → is_open (bs ++ true ∷ []) j ≡ (if length bs == j then true else is_open bs j)
is_open-append [] zero = refl
is_open-append [] (suc j) = ground arith
is_open-append (b ∷ bs) zero = ground arith
is_open-append (b ∷ bs) (suc j) = ground (arith, is_open-append bs j)

is_open-shut :
    (bs : List Bool) (fd j : ℕ) → is_open (shut bs fd) j ≡ (if fd == j then false else is_open bs j)
is_open-shut [] fd j = ground arith
is_open-shut (b ∷ bs) zero zero = refl
is_open-shut (b ∷ bs) zero (suc j) = ground arith
is_open-shut (b ∷ bs) (suc fd) zero = ground arith
is_open-shut (b ∷ bs) (suc fd) (suc j) = ground (arith, is_open-shut bs fd j)

system_laws : (no_options no_status : Bool) → OsLaws (system no_options no_status)
system_laws no_options no_status = record {
  socket_opens = λ family socktype protocol w. (is_open-new w.flags, is_open-append w.flags);
  close_closes = λ fd w j. is_open-shut w.flags fd j;
  setsockopt_keeps = λ fd option val w j. refl;
  getfl_keeps = λ fd w j. refl;
  setfl_keeps = λ fd st w j. refl;
  bind_keeps = λ fd a w j. refl;
  listen_keeps = λ fd backlog w j. refl;
  connect_keeps = λ fd a w j. refl;
  getaddrinfo_keeps = λ host port family passive w j. refl;
  chmod_keeps = λ path perm w j. refl;
}

read_of_short : (n : ℕ) (bs : Bytes) → length (read_of n bs).0 ≤ n
read_of_short zero bs = omega arith
read_of_short (suc n) [] = omega arith
read_of_short (suc n) (b ∷ bs) = omega arith

read_of_all : (n : ℕ) (bs : Bytes) → bs ≡ (read_of n bs).0 ++ (read_of n bs).1
read_of_all zero bs = refl
read_of_all (suc n) [] = refl
read_of_all (suc n) (b ∷ bs) = refl

write_of_short : (bs : Bytes) → write_of bs ≤ length bs
write_of_short [] = omega arith
write_of_short (b ∷ bs) = omega arith

second :
    {V : Type 0} {a b : World} {x y : V}
    → ◌≡◌ {A = World × Option V} (a, some x) (b, some y)
    → (a ≡ b) × (x ≡ y)
second e = (cc, cc)

stream_laws : StreamLaws (system false false)
stream_laws = record {
  read_bounded = λ fd n w e. rw⁻¹ (second e).1 (read_of_short n w.input);
  read_taken = λ fd n w {w'} {bs} e.
      read_of_all n w.input
      ∙ ap (λ x. x ++ (read_of n w.input).1) (second e).1
      ∙ ap (λ x. bs ++ x.input) (second e).0;
}

write_laws : WriteLaws (system false false)
write_laws = record {
  write_bounded = λ fd bs w e. rw⁻¹ (second e).1 (write_of_short bs);
  write_sent = λ fd bs w {w'} {n} e.
      sym (ap (λ x. x.output) (second e).0) ∙ ap (λ x. w.output ++ take x bs) (second e).1;
}

-- Descriptors 0 to 2 are open, and two calls of accept will be interrupted.
abbrev start : World
start = record {
  flags = true ∷ true ∷ true ∷ [];
  interrupts = 2;
  input = b'p' ∷ b'i' ∷ b'n' ∷ b'g' ∷ [];
  output = [];
}

abbrev host : Bytes
host = b'h' ∷ []

tcp_generic_connect-Opens_example : Opens (system false true) start (
    tcp_generic_connect
      (system false true)
      (record { non_block = true; best_effort = true })
      host
      6379
      (some host)
      start)
tcp_generic_connect-Opens_example =
    tcp_generic_connect-Opens (system false true) (system_laws false true)
      (record { non_block = true; best_effort = true }) host 6379 (some host) start

unix_generic_connect_leaks_example :
    (end : World) × (unix_generic_connect
        (system false true)
        (record { non_block = true; best_effort = false })
        host
        start
      ≡ (end, none))
    × (is_open start.flags 3 ≡ false)
    × (is_open end.flags 3 ≡ true)
unfolding create_socket set_block
unix_generic_connect_leaks_example =
    unix_generic_connect_leaks (system false true) (system_laws false true) host start refl refl

tcp_server-Opens_example :
    Opens (system false false) start (tcp_server (system false false) 6379 none af_inet 128 start)
tcp_server-Opens_example =
    tcp_server-Opens (system false false) (system_laws false false) (λ fd w. refl) 6379 none af_inet
      128 start

tcp_server_leaks_example :
    (end : World) × (tcp_server (system true false) 6379 none af_inet 128 start ≡ (end, none))
    × (is_open start.flags 3 ≡ false)
    × (is_open end.flags 3 ≡ true)
tcp_server_leaks_example =
    tcp_server_leaks (system true false) (system_laws true false) 6379 none 128 start refl refl refl

abbrev quiet : World
quiet = record start { interrupts = 0 }

generic_accept_lem_example :
    generic_accept (system false false) 3 3 start
    ≡ ok (
      ((system false false).accept 3 quiet).0,
      descriptor_of ((system false false).accept 3 quiet).1,
    )
generic_accept_lem_example =
    generic_accept_lem (system false false) 3 2 (once_more refl (once_more refl at_once)) (λ e. cc)

read_all_lem_example :
    (r : World × Option Bytes) × (read_all (system false false) 5 3 start ≡ ok r)
    × Filled (system false false) 5 3 [] start r
read_all_lem_example = read_all_lem (system false false) stream_laws 5 3 start

write_all_lem_example :
    (r : World × Option ℕ) × (write_all (system false false) 5 host start ≡ ok r)
    × Written (system false false) 5 host 0 start r
write_all_lem_example = write_all_lem (system false false) write_laws 5 host start

format-IsUncut_example :
    IsUncut 64 (format_peer [] 64 (some (inet6_name (codes "fe80::1") 12345)))
    × IsUncut 64 (format_sock [] 64 (some (inet6_name (codes "fe80::1") 12345)))
format-IsUncut_example =
    format-IsUncut [] 64 (some (inet6_name (codes "fe80::1") 12345)) (omega arith)
      (omega arith, omega arith)

-- A text as it is printed.
format_sock_v6 :
    (format_sock [] 64 (some (inet6_name (codes "fe80::1") 12345))).0 ≡ codes "[fe80::1]:12345"
unfolding format_sock digits
format_sock_v6 = refl
