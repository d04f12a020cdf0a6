-- ===== src/Ae/Process/Keeping.antt =====
-- `add_file_event` and `del_file_event`, of which procedures are made, on a loop that serves.
use aspr1net.Base.{
  ℕ, ◌<◌, Bool, true, false, ◌||◌, Option, some, none, ◌≡◌, ◌≢◌, refl, sym, Fault, err, ok,
  if◌then◌else◌, arith, ◌∙◌, ap, ◌==◌, get_elem?, set, get_elem?-set, get_elem?_of_lt, length,
  Bool-cases, inl, inr, ◌⊎◌,
}
use aspr1net.Base.Int.{ℤ, pos, negsuc, ltb_ℤ}
use aspr1net.Ae.Types.{Mask, mask_without, is_none, FileEvent, EventLoop}
use aspr1net.Ae.Epoll.{Kernel, KernelLaws, mod_event, del_event}
use aspr1net.Ae.Files.Top.{IsTop-lower}
use aspr1net.Ae.Files.{ae_ok, ae_err, merge_event, max_ℤ, watch, add_file_event, del_file_event}
use aspr1net.Ae.Files.Invariant.{WellFormed, add_file_event-WellFormed, del_file_event-WellFormed}
use aspr1net.Ae.Files.Effects.{negative_descriptor}
use aspr1net.Ae.Process.Calls.{IsServing, Ordered}

-- The procedures of an entry, for the events that it waits for.
abbrev HasProcs : FileEvent → Type 0
HasProcs fe =
    (fe.mask.readable ≡ true → fe.r_proc ≢ none) × (fe.mask.writable ≡ true → fe.w_proc ≢ none)

-- What a change of one entry leaves alone.
record Changes {W : Type 0} (l : EventLoop W) (n : ℕ) (after : EventLoop W) : Type 0 where
  pub same_fired : after.fired ≡ l.fired
  pub same_size : after.fdset_size ≡ l.fdset_size
  pub same_state : after.api_data ≡ l.api_data
  pub entries :
      (after.events ≡ l.events)
      ⊎ ((fe : FileEvent) × (after.events ≡ set l.events n fe)
          × (n < length l.events)
          × HasProcs fe)

merged-HasProcs :
    (fe : FileEvent) (mask : Mask) (p client_data : ℕ)
    → HasProcs fe
    → HasProcs (merge_event fe mask (some p) client_data)
merged-HasProcs fe mask p client_data (read, write) = (
  had mask.readable fe.mask.readable fe.r_proc read,
  had mask.writable fe.mask.writable fe.w_proc write,
)
  where
    had :
        (new old : Bool) (q : Option ℕ)
        → (old ≡ true → q ≢ none)
        → (old || new) ≡ true
        → (if new then some p else q) ≢ none
    had true old q h on e = cc
    had false old q h on e = h (ground arith) e

pub ok_eq : {A : Type 0} {a b : A} → ok a ≡ ok b → a ≡ b
ok_eq h = cc

pub err_ok : {A : Type 0} {a : A} {fault : Fault} → ¬ err fault ≡ ok a
err_ok h = cc

module _ {W : Type 0} (k : Kernel W) (l : EventLoop W) (v : IsServing k l) where
  entry_at :
      (n : ℕ)
      → n < l.fdset_size
      → (fe : FileEvent) × (get_elem? l.events n ≡ some fe) × (n < length l.events)
  entry_at n h =
      let (fe, here) = get_elem?_of_lt l.events n (omega (arith, v.well_formed.sized)) in
      (fe, here, omega (arith, v.well_formed.sized))

  unchanged : (n : ℕ) → Changes l n l
  unchanged n = record {
    same_fired = refl;
    same_size = refl;
    same_state = refl;
    entries = inl refl;
  }

  del_file_event-Changes :
      (n : ℕ) (mask : Mask)
      → (after : EventLoop W) × (del_file_event k l (pos n) mask ≡ ok after) × Changes l n after
  unfolding del_file_event
  del_file_event-Changes n mask =
      let (s, same) = v.sizes in
      let opened = same.opened in
      elim (Bool-cases (ltb_ℤ (pos n) (pos l.fdset_size))) [
        | inr past ↦ (l, ground (arith, past), unchanged n)
        | inl within ↦
            let (fe, here, inside) = entry_at n (ground arith) in
            let m = mask_without fe.mask mask in
            let left = record fe { mask = m } in
            let (max_fd, found, top) =
              IsTop-lower l.max_fd l.events n fe left inside here (λ off. ground arith)
                v.well_formed.top in
            (
              record l {
                events = set l.events n left;
                max_fd = max_fd;
                world = if is_none m then del_event k n m l.world else mod_event k n m l.world;
              },
              ground (arith, within, opened, here, found),
              record {
                same_fired = refl;
                same_size = refl;
                same_state = refl;
                entries = inr (
                  left,
                  refl,
                  inside,
                  (
                    λ h. (v.has_procs n fe here).0 (ground arith),
                    λ h. (v.has_procs n fe here).1 (ground arith),
                  ),
                );
              },
            )
      ]

  add_file_event-Changes :
      (n : ℕ) (mask : Mask) (p client_data : ℕ)
      → (after : EventLoop W) × (status : ℤ) × (add_file_event k l (pos n) mask (some p) client_data
          ≡ ok (after, status))
        × Changes l n after
  unfolding add_file_event
  add_file_event-Changes n mask p client_data =
      let (s, same) = v.sizes in
      let opened = same.opened in
      elim (Bool-cases (ltb_ℤ (pos n) (pos l.fdset_size))) [
        | inr past ↦ (l, ae_err, ground (arith, past), unchanged n)
        | inl within ↦
            let (fe, here, inside) = entry_at n (ground arith) in
            let merged = merge_event fe mask (some p) client_data in
            let (w, failed) = watch k fe n mask l.world in
            elim (Bool-cases (watch k fe n mask l.world).1) [
              | inl refused ↦ (
                record l { world = w },
                ae_err,
                ground (arith, within, opened, here, refused),
                record {
                  same_fired = refl;
                  same_size = refl;
                  same_state = refl;
                  entries = inl refl;
                },
              )
              | inr took ↦ (
                record l {
                  events = set l.events n merged;
                  max_fd = max_ℤ l.max_fd (pos n);
                  world = w;
                },
                ae_ok,
                ground (arith, within, opened, here, took),
                record {
                  same_fired = refl;
                  same_size = refl;
                  same_state = refl;
                  entries = inr (
                    merged,
                    refl,
                    inside,
                    merged-HasProcs fe mask p client_data (v.has_procs n fe here),
                  );
                },
              )
            ]
      ]

module _ {W : Type 0} (k : Kernel W) (laws : KernelLaws k) (l : EventLoop W)
    (v : IsServing k l) where
  Changes-Ordered :
      (n : ℕ) (after : EventLoop W) → WellFormed k after → Changes l n after → Ordered k l after
  Changes-Ordered n after formed c =
      let (s, same) = v.sizes in
      record {
        serving = record {
          well_formed = formed;
          sizes = (
            s,
            record {
              opened = c.same_state ∙ same.opened;
              reports = same.reports;
              fired = ap length c.same_fired ∙ same.fired;
            },
          );
          has_procs = λ m fe here. elim c.entries [
            | inl kept ↦ v.has_procs m fe (rw⁻¹ kept here)
            | inr (left, changed, inside, procs) ↦ elim (Bool-cases (n == m)) [
              | inl at_n ↦
                  let is : left ≡ fe =
                    ground (arith, get_elem?-set l.events n m left inside, changed, here, at_n) in
                  rw⁻¹ is procs
              | inr other ↦
                  v.has_procs m fe
                    (ground (arith, get_elem?-set l.events n m left inside, changed, here, other))
            ]
          ];
        };
        same_fired = c.same_fired;
        same_size = c.same_size;
      }

  -- A `del_file_event` that returns keeps the loop in order.
  pub del_file_event-Ordered :
      (fd : ℤ) (mask : Mask) {after : EventLoop W}
      → del_file_event k l fd mask ≡ ok after
      → Ordered k l after
  del_file_event-Ordered (negsuc m) mask done =
      let (s, same) = v.sizes in
      let failed = negative_descriptor k l m mask none 0 same.opened in
      absurd (err_ok (sym failed.1 ∙ done))
  del_file_event-Ordered (pos n) mask {after} done =
      let (out, returned, c) = del_file_event-Changes k l v n mask in
      let (out', returned', formed) = del_file_event-WellFormed k laws l v.well_formed n mask in
      let is : out ≡ after = ok_eq (sym returned ∙ done) in
      let is' : out' ≡ after = ok_eq (sym returned' ∙ done) in
      Changes-Ordered n after (rw⁻¹ is' formed) (rw⁻¹ is c)

  -- So does an `add_file_event` with a procedure, for some event to wait for.
  pub add_file_event-Ordered :
      (fd : ℤ) (mask : Mask) (p client_data : ℕ) {after : EventLoop W} {status : ℤ}
      → is_none mask ≡ false
      → add_file_event k l fd mask (some p) client_data ≡ ok (after, status)
      → Ordered k l after
  add_file_event-Ordered (negsuc m) mask p client_data some_mask done =
      let (s, same) = v.sizes in
      let failed = negative_descriptor k l m mask (some p) client_data same.opened in
      absurd (err_ok (sym failed.0 ∙ done))
  add_file_event-Ordered (pos n) mask p client_data {after} some_mask done =
      let (out, s1, returned, c) = add_file_event-Changes k l v n mask p client_data in
      let (out', s2, returned', formed) =
        add_file_event-WellFormed k laws l v.well_formed n mask (some p) client_data some_mask in
      let is : out ≡ after = ap (λ x. x.0) (ok_eq (sym returned ∙ done)) in
      let is' : out' ≡ after = ap (λ x. x.0) (ok_eq (sym returned' ∙ done)) in
      Changes-Ordered n after (rw⁻¹ is' formed) (rw⁻¹ is c)
