-- ===== src/Samples.antt =====
-- A small system for the examples: one connection, whose reads and writes move all that they can, and
-- one file.
use aspr1net.Base.{
  ℕ, ◌<◌, Bool, false, true, ◌||◌, [], ◌∷◌, ◌++◌, Option, none, some, ◌≡◌, refl, sym, ap, ◌∙◌,
  arith, Bytes, length, take, drop, ltb, take-append, take-append-drop, length-take, take-all,
  replicate, length-replicate,
}
use aspr1net.Anet.{Os, connected, accepted}
use aspr1net.Anet.Transfer.{StreamLaws}
use aspr1net.Anet.Write.{WriteLaws}
use aspr1net.Buffer.{Allocator, Buffer}
use aspr1net.Buffer.Moves.{IsValid}
use aspr1net.Stdio.{Files, FileLaws}
use aspr1net.Wire.Exact.{Stands}
use aspr1net.Server.Receiving.{ReadsWhole}

abbrev pub zeros : Allocator
zeros = record { fresh = λ n. replicate n 0; length-fresh = λ n. length-replicate n 0 }

-- A buffer of 1024 bytes, as `new` gives it.
abbrev pub empty_buffer : Buffer
empty_buffer = record { buff = replicate 1024 0; size = 1024; read_idx = 0; write_idx = 0 }

pub empty_buffer-size : length empty_buffer.buff ≡ 1024
empty_buffer-size = length-replicate {A = ℕ} 1024 0

pub empty_buffer-IsValid : IsValid empty_buffer
empty_buffer-IsValid = record {
  ordered = omega arith;
  within = omega arith;
  sized = empty_buffer-size;
  small = omega arith;
}

-- The bytes to come, and those sent.
pub record Link : Type 0 where
  pub input : Bytes
  pub output : Bytes

abbrev pub line_os : Os Link
line_os = record {
  socket = λ family socktype protocol w. (w, none);
  close = λ fd w. w;
  setsockopt = λ fd option val w. (w, false);
  set_sndtimeo = λ fd sec usec w. (w, false);
  getfl = λ fd w. (w, none);
  setfl = λ fd st w. (w, false);
  bind = λ fd a w. (w, false);
  listen = λ fd backlog w. (w, false);
  connect = λ fd a w. (w, connected);
  accept = λ fd w. (w, accepted 9);
  getaddrinfo = λ host port family passive w. (w, some []);
  chmod = λ path perm w. w;
  read = λ fd n w. (record w { input = drop n w.input }, some (take n w.input));
  write = λ fd bs w. (record w { output = w.output ++ bs }, some (length bs));
  opened = λ w j. true;
  pending = λ w fd. w.input;
  sent = λ w fd. w.output;
}

answer :
    {V : Type 0} {a b : Link} {x y : V}
    → ◌≡◌ {A = Link × Option V} (a, some x) (b, some y)
    → (a ≡ b) × (x ≡ y)
answer e = (cc, cc)

pub line-StreamLaws : StreamLaws line_os
line-StreamLaws = record {
  read_bounded = λ fd n w e. rw⁻¹ (answer e).1 (omega (arith, length-take n w.input));
  read_taken = λ fd n w {w'} {bs} e.
      sym (take-append-drop n w.input)
      ∙ ap (λ x. x ++ drop n w.input) (answer e).1
      ∙ ap (λ x. bs ++ x.input) (answer e).0;
}

line-WriteLaws : WriteLaws line_os
line-WriteLaws = record {
  write_bounded = λ fd bs w e. rw⁻¹ (answer e).1 (omega arith);
  write_sent = λ fd bs w {w'} {n} e.
      sym (ap (λ x. x.output) (answer e).0)
      ∙ ap (λ x. w.output ++ x) (sym (take-all n bs (omega (arith, (answer e).1))));
}

some_injective : {V : Type 0} {x y : V} → some x ≡ some y → x ≡ y
some_injective e = cc

none_taken : (n : ℕ) (bs : Bytes) → 0 < n → take n bs ≡ [] → bs ≡ []
none_taken n [] h e = refl
none_taken n (b ∷ bs) h e = absurd (omega (arith, length-take n (b ∷ bs), ap length e))

pub line-Stands : (fd : ℕ) → Stands line_os fd
line-Stands fd = record {
  read_laws = line-StreamLaws;
  write_laws = line-WriteLaws;
  reads = λ n w e. cc;
  reads_some = λ n w {w'} more e. none_taken n w.input more (answer e).1;
  writes = λ bs w e. cc;
  writes_apart = λ bs w. refl;
  writes_some = λ bs w more e. absurd (omega (arith, some_injective e));
}

pub line-ReadsWhole : (fd : ℕ) → ReadsWhole line_os fd
line-ReadsWhole fd = record {
  laws = line-StreamLaws;
  whole = λ n bs rest w there all.
      ap (λ k. some (take k w.input)) all
      ∙ ap (λ x. some (take (length bs) x)) there
      ∙ ap (λ x. some x) (take-append bs rest);
}

-- What the file holds, what is left of it to read, whether its end was met, and what was written.
pub record Disk : Type 0 where
  pub held : Bytes
  pub left : Bytes
  pub met : Bool
  pub out : Bytes

abbrev pub disk_files : Files Disk
disk_files = record {
  fopen_read = λ name f. (record f { left = f.held; met = false }, some 0);
  fopen_write = λ name f. (record f { out = [] }, some 0);
  feof = λ h f. f.met;
  fread = λ h n f. (
    record f { left = drop n f.left; met = f.met || ltb (length (take n f.left)) n },
    take n f.left,
  );
  fwrite = λ h bs f. record f { out = f.out ++ bs };
  fclose = λ h f. f;
  content = λ f name. f.held;
  unread = λ f h. f.left;
  written = λ f h. f.out;
}

pub disk-FileLaws : FileLaws disk_files
disk-FileLaws = record {
  fopen_read_start = λ name f e. (ap (λ x. x.0.left) (sym e), ap (λ x. x.0.met) (sym e));
  fread_takes = λ h n f. sym (take-append-drop n f.left);
  fread_full = λ h n f. length-take n f.left;
  fread_end = λ h n f. refl;
  fopen_write_start = λ name f e. ap (λ x. x.0.out) (sym e);
  fwrite_adds = λ h bs f. refl;
}
