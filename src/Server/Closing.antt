-- ===== src/Server/Closing.antt =====
-- `delete_session` leaves the event loop in order.
use aspr1net.Base.{
  ◌>>=◌, ℕ, true, none, ◌≡◌, refl, ◌∙◌, arith, ok, ◌==◌, Bool-cases, inl, inr, length, ltb,
  get_elem?_past, get_elem?_of_lt, Gives, gave, bind-Gives, Gives-Any, bind-Gives_eq,
}
use aspr1net.Base.Int.{ℤ, pos, negsuc}
use aspr1net.Ae.Types.{Mask, ae_none, ae_readable, ae_writable, mask_without, is_none, EventLoop}
use aspr1net.Ae.Epoll.{Kernel, KernelLaws}
use aspr1net.Ae.Files.{del_file_event, get_file_event}
use aspr1net.Ae.Files.Effects.{get_file_event-del_file_event}
use aspr1net.Ae.Files.Invariant.{interest_at}
use aspr1net.Ae.Process.Calls.{IsServing, Ordered, Ordered-trans}
use aspr1net.Ae.Process.Keeping.{del_file_event-Ordered}
use aspr1net.Anet.{Os}
use aspr1net.Server.{Session}
use aspr1net.Server.Handlers.{
  World, lifted, session_at, with_system, put_session, close_fd, delete_session,
}
use aspr1net.Server.Watching.{Undisturbed}

pub lifted-KernelLaws : {W F : Type 0} (k : Kernel W) → KernelLaws k → KernelLaws (lifted {F = F} k)
lifted-KernelLaws k laws = record {
  created_empty = λ w. laws.created_empty w.system;
  ctl_failed = λ op fd i w. laws.ctl_failed op fd i w.system;
  ctl_added = λ fd i w. laws.ctl_added fd i w.system;
  ctl_modified = λ fd i old w. laws.ctl_modified fd i old w.system;
  ctl_deleted = λ fd i w. laws.ctl_deleted fd i w.system;
  wait_registered = λ n timeout w. laws.wait_registered n timeout w.system;
  wait_bounded = λ n timeout w. laws.wait_bounded n timeout w.system;
  wait_reported = λ n timeout w. laws.wait_reported n timeout w.system;
}

-- An entry without a mask is not watched.
unwatched_at :
    {W : Type 0} (l : EventLoop W) (n : ℕ) {m : Mask}
    → length l.events ≡ l.fdset_size
    → get_file_event l (pos n) ≡ ok m
    → is_none m ≡ true
    → interest_at l.events n ≡ none
unfolding get_file_event
unwatched_at l n sized there unset = ground (arith, sized, there, unset, get_elem?_past l.events n)

has_mask :
    {W : Type 0} (l : EventLoop W) (n : ℕ)
    → length l.events ≡ l.fdset_size
    → (m : Mask) × (get_file_event l (pos n) ≡ ok m)
unfolding get_file_event
has_mask l n sized = elim (Bool-cases (ltb n l.fdset_size)) [
  | inr past ↦ (ae_none, ground (arith, past))
  | inl within ↦
      let (fe, here) = get_elem?_of_lt l.events n (ground arith) in
      (fe.mask, ground (arith, within, here))
]

module _ {W F : Type 0} (k : Kernel W) (laws : KernelLaws k) (os : Os W)
    (u : Undisturbed k os) where
  -- A loop in another world, with the same interest list.
  pub moved-Ordered :
      (l : EventLoop (World W F)) (world : World W F)
      → IsServing (lifted k) l
      → ((j : ℕ) → k.registered world.system j ≡ k.registered l.world.system j)
      → Ordered (lifted k) l (record l { world = world })
  moved-Ordered l world v same = record {
    serving = record {
      well_formed = record {
        sized = v.well_formed.sized;
        top = v.well_formed.top;
        watched = λ j. same j ∙ v.well_formed.watched j;
      };
      sizes = (
        v.sizes.0,
        record { opened = v.sizes.1.opened; reports = v.sizes.1.reports; fired = v.sizes.1.fired },
      );
      has_procs = v.has_procs;
    };
    same_fired = refl;
    same_size = refl;
  }

  -- close takes nothing out of the interest list when both events are deleted before.
  closed_unwatched :
      (l unread after : EventLoop (World W F)) (fd : ℤ) (j : ℕ)
      → IsServing (lifted k) l
      → IsServing (lifted k) unread
      → IsServing (lifted k) after
      → del_file_event (lifted k) l fd ae_readable ≡ ok unread
      → del_file_event (lifted k) unread fd ae_writable ≡ ok after
      → k.registered (close_fd os fd after.world.system) j ≡ k.registered after.world.system j
  closed_unwatched l unread after (negsuc m) j v v1 v2 done1 done2 = refl
  closed_unwatched l unread after (pos n) j v v1 v2 done1 done2 = elim (Bool-cases (n == j)) [
    | inr other ↦ ground (arith, u.closed n after.world.system j, other)
    | inl same ↦
        let (old, had) = has_mask l n v.well_formed.sized in
        let first =
          get_file_event-del_file_event (lifted k) l v.well_formed.sized n n ae_readable
            v.sizes.1.opened had done1 in
        let less : get_file_event unread (pos n) ≡ ok (mask_without old ae_readable) =
          ground (arith, first) in
        let second =
          get_file_event-del_file_event (lifted k) unread v1.well_formed.sized n n ae_writable
            v1.sizes.1.opened less done2 in
        let none_left : get_file_event after (pos n)
            ≡ ok (mask_without (mask_without old ae_readable) ae_writable) =
          ground (arith, second) in
        let gone : interest_at after.events n ≡ none =
          unwatched_at after n v2.well_formed.sized none_left (ground arith) in
        ground (arith, u.closed n after.world.system j, same, gone, v2.well_formed.watched n)
  ]

  pub delete_session-Ordered :
      (l : EventLoop (World W F)) (address : ℕ)
      → IsServing (lifted k) l
      → Gives (Ordered (lifted k) l) (delete_session k os l address)
  unfolding delete_session
  delete_session-Ordered l address v = bind-Gives (Gives-Any (session_at l address)) (λ s t.
      elim (Bool-cases s.has_loop) [
        | inr off ↦ rw off (gave (moved-Ordered l _ v (λ j. refl)))
        | inl on ↦ rw on (watched s)
      ])
    where
      watched :
          (s : Session)
          → Gives (Ordered (lifted k) l) (do
            unread ← del_file_event (lifted k) l s.fd ae_readable
            unwatched ← del_file_event (lifted k) unread s.fd ae_writable
            ok (
                put_session
                  (with_system unwatched (close_fd os s.fd unwatched.world.system))
                  address
                  none))
      watched s =
          let klaws = lifted-KernelLaws k laws in
          bind-Gives_eq (del_file_event (lifted k) l s.fd ae_readable) (λ unread done1.
            let o1 = del_file_event-Ordered (lifted k) klaws l v s.fd ae_readable done1 in
            bind-Gives_eq (del_file_event (lifted k) unread s.fd ae_writable) (λ after done2.
              let o2 =
                del_file_event-Ordered (lifted k) klaws unread o1.serving s.fd ae_writable done2 in
              gave (
                Ordered-trans (Ordered-trans o1 o2) (
                  moved-Ordered after _ o2.serving (λ j.
                    closed_unwatched l unread after s.fd j v o1.serving o2.serving done1 done2)))))
