-- ===== src/Ae/Process/Polling.antt =====
-- `poll` hands the reports of epoll over to the array of fired events.
use aspr1net.Base.{
  ◌||◌, ℕ, zero, suc, ◌+◌, ◌≤◌, ◌<◌, List, [], ◌∷◌, ◌++◌, Option, none, some, ◌≡◌, refl, ok, arith,
  ◌∙◌, sym, ap, ltb, length, length-append, length-drop, drop, get_elem?, set, length-set,
  get_elem?-set, get_elem?_of_lt, get_elem?_past, get_elem?-set_self, subst, ◌==◌, Bool-cases, inl,
  inr,
}
use aspr1net.Base.Int.{pos, minus_one}
use aspr1net.Ae.Types.{FiredEvent, Report, EpollState, EventLoop}
use aspr1net.Ae.Epoll.{Kernel, KernelLaws, Timeval, timeout_of}
use aspr1net.Ae.Process.{fired_of, fill_fired, poll}

-- The fired events after the first reports went over them.
abbrev pub fired_at : List Report → List FiredEvent → ℕ → Option FiredEvent
fired_at reports fired j = elim (get_elem? reports j) [
  | none ↦ get_elem? fired j
  | some e ↦ some (record {
    fd = e.fd;
    mask = record { readable = e.epollin; writable = e.epollout || e.epollerr || e.epollhup };
  })
]

some_eq : {e f : Report} → some e ≡ some f → e ≡ f
some_eq h = cc

same_report :
    (reports : List Report) (i j : ℕ) (e f : Report)
    → i ≡ j
    → get_elem? reports i ≡ some e
    → get_elem? reports j ≡ some f
    → e ≡ f
same_report reports i j e f same here there =
    some_eq (sym here ∙ ap (get_elem? reports) same ∙ there)

fill_fired_lem :
    (n i : ℕ) (reports : List Report) (fired : List FiredEvent)
    → i + n ≤ length reports
    → i + n ≤ length fired
    → (out : List FiredEvent) × (fill_fired n i reports fired ≡ ok out)
      × (length out ≡ length fired)
      × ((j : ℕ) → j < i → get_elem? out j ≡ get_elem? fired j)
      × ((j : ℕ) → i + n ≤ j → get_elem? out j ≡ get_elem? fired j)
      × ((j : ℕ) (e : Report)
          → i ≤ j
          → j < i + n
          → get_elem? reports j ≡ some e
          → get_elem? out j ≡ some (fired_of e))
unfolding fill_fired
fill_fired_lem zero i reports fired h k =
    (fired, refl, refl, (λ j lt. refl), (λ j le. refl), λ j e le lt here. absurd (omega arith))
fill_fired_lem (suc n) i reports fired h k =
    let (e, here) = get_elem?_of_lt reports i (omega arith) in
    let next = set fired i (fired_of e) in
    let (out, done, same, below, past, filled) =
      fill_fired_lem n (i + 1) reports next (omega arith)
        (omega (arith, length-set fired i (fired_of e))) in
    let inside : i < length fired = omega arith in
    (
      out,
      ground (arith, here, done),
      same ∙ length-set fired i (fired_of e),
      (λ j lt. below j (omega arith) ∙ ground (arith, get_elem?-set fired i j (fired_of e) inside)),
      (λ j le. past j (omega arith) ∙ ground (arith, get_elem?-set fired i j (fired_of e) inside)),
      λ j f le lt there. elim (Bool-cases (i == j)) [
        | inl first ↦
            let here' : i ≡ j = ground arith in
            subst (λ m. get_elem? out m ≡ some (fired_of f)) here'
              (below i (omega arith)
                ∙ get_elem?-set_self fired i (fired_of e) inside
                ∙ ap (λ x. some (fired_of x)) (same_report reports i j e f here' here there))
        | inr later ↦ filled j f (ground arith) (omega arith) there
      ],
    )

fill_fired_none :
    (reports : List Report) (fired : List FiredEvent) → fill_fired 0 0 reports fired ≡ ok fired
unfolding fill_fired
fill_fired_none reports fired = refl

-- The arrays of the loop and of its epoll state have the same size.
pub record SameSize {W : Type 0} (l : EventLoop W) (s : EpollState) : Type 0 where
  pub opened : l.api_data ≡ some s
  pub reports : length s.events ≡ s.events_size
  pub fired : length l.fired ≡ s.events_size

get_elem?-append_left :
    {A : Type 0} (xs ys : List A) (j : ℕ) {a : A}
    → get_elem? xs j ≡ some a
    → (get_elem? (xs ++ ys) j ≡ some a) × (j < length xs)
get_elem?-append_left [] ys j h = cc
get_elem?-append_left (x ∷ xs) ys zero h = (h, omega arith)
get_elem?-append_left (x ∷ xs) ys (suc j) h =
    let (there, lt) = get_elem?-append_left xs ys j h in (there, omega arith)

-- The loop with what a `poll` may change.
abbrev pub polled : {W : Type 0} → EventLoop W → EventLoop W → EventLoop W
polled l after = record l { api_data = after.api_data; fired = after.fired; world = after.world }

-- What `poll` leaves, of a loop whose epoll_wait gave the reports.
pub record Polled {W : Type 0} (k : Kernel W) (l : EventLoop W) (w : W) (reports : List Report)
    (after : EventLoop W) : Type 0 where
  pub rest_kept : after ≡ polled l after
  pub world_is : after.world ≡ w
  pub sizes : (s : EpollState) × SameSize after s
  pub fired_is : (j : ℕ) → get_elem? after.fired j ≡ fired_at reports l.fired j

-- Where epoll_wait fails, `poll` returns -1 and leaves the fired events, and all else of the loop.
pub poll_failed-Polled :
    {W : Type 0} (k : Kernel W) (l : EventLoop W) (tvp : Option Timeval) {s : EpollState}
    → SameSize l s
    → let (w, answer) = k.wait s.events_size (timeout_of tvp) l.world in
      answer ≡ none
      → (after : EventLoop W) × (poll k l tvp ≡ ok (after, minus_one)) × Polled k l w [] after
unfolding poll
poll_failed-Polled k l tvp {s} v failed = (
  record l { world = (k.wait s.events_size (timeout_of tvp) l.world).0; api_data = some s },
  ground (arith, v.opened, failed, fill_fired_none s.events l.fired),
  record {
    rest_kept = refl;
    world_is = refl;
    sizes = (s, record { opened = refl; reports = v.reports; fired = v.fired });
    fired_is = λ j. refl;
  },
)

pub fired_at_report :
    (reports : List Report) (fired : List FiredEvent) (j : ℕ) {e : Report}
    → get_elem? reports j ≡ some e
    → fired_at reports fired j ≡ some (fired_of e)
fired_at_report reports fired j here = ground (arith, here)

fired_at_past :
    (reports : List Report) (fired : List FiredEvent) (j : ℕ)
    → length reports ≤ j
    → fired_at reports fired j ≡ get_elem? fired j
fired_at_past reports fired j le = ground (arith, get_elem?_past reports j le)

filled_at :
    (reports : List Report) (fired out : List FiredEvent) (j : ℕ)
    → (length reports ≤ j → get_elem? out j ≡ get_elem? fired j)
    → ((e : Report) → get_elem? reports j ≡ some e → get_elem? out j ≡ some (fired_of e))
    → get_elem? out j ≡ fired_at reports fired j
filled_at reports fired out j past filled = elim (Bool-cases (ltb j (length reports))) [
  | inl inside ↦
      let (e, here) = get_elem?_of_lt reports j (ground arith) in
      filled e here ∙ sym (fired_at_report reports fired j here)
  | inr outside ↦
      let le : length reports ≤ j = ground arith in past le ∙ sym (fired_at_past reports fired j le)
]

-- Where epoll_wait reports descriptors, and the arrays have its size, `poll` returns how many. The fired events then begin with
-- the reports in order: the descriptor, AE_READABLE for EPOLLIN, and AE_WRITABLE for EPOLLOUT,
-- EPOLLERR or EPOLLHUP. The rest of the array is as it was, and so is all else of the loop.
pub poll-Polled :
    {W : Type 0} (k : Kernel W) (laws : KernelLaws k) (l : EventLoop W) (tvp : Option Timeval)
    {s : EpollState} {reports : List Report}
    → SameSize l s
    → let (w, answer) = k.wait s.events_size (timeout_of tvp) l.world in
      answer ≡ some reports
      → (after : EventLoop W) × (poll k l tvp ≡ ok (after, pos (length reports)))
        × Polled k l w reports after
unfolding poll
poll-Polled k laws l tvp {s} {reports} v ready =
    let n = length reports in
    let stored = reports ++ drop n s.events in
    let room : n ≤ s.events_size = laws.wait_bounded s.events_size (timeout_of tvp) l.world ready in
    let long : length stored ≡ s.events_size =
      omega (arith, v.reports, length-append reports (drop n s.events), length-drop n s.events) in
    let (out, done, size, below, past, filled) =
      fill_fired_lem n 0 stored l.fired (omega arith) (omega (arith, v.fired)) in
    (
      record l {
        api_data = some (record s { events = stored });
        fired = out;
        world = (k.wait s.events_size (timeout_of tvp) l.world).0;
      },
      ground (arith, v.opened, ready, done),
      record {
        rest_kept = refl;
        world_is = refl;
        sizes = (
          record s { events = stored },
          record { opened = refl; reports = long; fired = size ∙ v.fired },
        );
        fired_is = λ j.
            filled_at reports l.fired out j (λ le. past j (omega arith))
              (λ e here.
                let (there, lt) = get_elem?-append_left reports (drop n s.events) j here in
                filled j e (omega arith) (omega arith) there);
      },
    )
