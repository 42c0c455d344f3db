-- ===== src/HttpServer/Batch.antt =====
-- The events of one `kevent` call in main.c: what it uses of routines and connections.
use ukgoll_github_io.Prelude.{
  ℕ, ◌≡◌, ◌≢◌, refl, sym, ◌∙◌, Bool, true, false, ◌&&◌, ◌==◌, if◌then◌else◌, none, some, List, [],
  ◌∷◌, arith, Bool-cases, ◌⊎◌, inl, inr,
}
use ukgoll_github_io.HttpServer.Poll.{Ptr, Backend}
use ukgoll_github_io.HttpServer.State.{
  Conn, Call, Server, done, running, fault, eagain, eintr, other,
}
use ukgoll_github_io.HttpServer.Routine.{
  ReadResult, got, end_of_file, read_fails, Replies, Switch, yields, exits, reading_on, poll_delete,
  client_routine,
}
use ukgoll_github_io.HttpServer.Loop.{
  Event, Answers, release, after_switch, resume, on_event, on_events,
}
use ukgoll_github_io.HttpServer.Inv.{Alive, Alive-kept, store_other, Inv}
use ukgoll_github_io.HttpServer.Turns.{AllFresh, some_stops, handle_accept-After}

-- The answers of `read` lead to a switch.
abbrev pub switches : List ReadResult → Bool
switches [] = false
switches (end_of_file ∷ rs) = true
switches (read_fails eagain ∷ rs) = true
switches (read_fails other ∷ rs) = true
switches (_ ∷ rs) = switches rs

module _ {K : Type 0} (backend : Backend K) where
  -- The routine has changed nothing in memory, and its descriptor is registered as before, or, after
  -- its end, no more.
  record Left (fd : ℕ) (gone : Bool) (s s' : Server K) : Type 0 where
    same_conns : s'.conns ≡ s.conns
    same_routines : s'.routines ≡ s.routines
    view :
        (j : ℕ)
        → backend.reading s'.kernel j
          ≡ (if gone && (j == fd) then none else backend.reading s.kernel j)

  SwitchLeft : ℕ → Server K → Switch K → Type 0
  SwitchLeft fd s (yields s') = Left fd false s s'
  SwitchLeft fd s (exits s') = Left fd true s s'
  SwitchLeft fd s reading_on = ⊥

  delete-Left :
      (c : Conn) (s : Server K) (l : List Call)
      → Left c.fd true s (poll_delete backend true c (record s { calls = l }))
  unfolding poll_delete
  delete-Left c s l =
      let (k, removed, view) = backend.remove-succeeds c.fd s.kernel in
      rw (removed, poll_delete) (record { same_conns = refl; same_routines = refl; view = view })

  -- Where the answers lead to a switch and the deletion succeeds, the routine gets there.
  client_routine-Left :
      (a : Replies) (c : Conn) (rs : List ReadResult) (s : Server K) (l : List Call)
      → switches rs ≡ true
      → a.delete_ok ≡ true
      → SwitchLeft c.fd s (client_routine backend a c rs (record s { calls = l }))
  unfolding client_routine SwitchLeft
  client_routine-Left a c [] s l h d = cc
  client_routine-Left a c (got ∷ rs) s l h d = client_routine-Left a c rs s _ h d
  client_routine-Left a c (end_of_file ∷ rs) s l h d = rw d (delete-Left c s _)
  client_routine-Left a c (read_fails eintr ∷ rs) s l h d = client_routine-Left a c rs s _ h d
  client_routine-Left a c (read_fails other ∷ rs) s l h d = rw d (delete-Left c s _)
  client_routine-Left a c (read_fails eagain ∷ rs) s l h d = elim (Bool-cases (a.write_ok)) [
    | inl w ↦ simp w (record { same_conns = refl; same_routines = refl; view = λ j. refl })
    | inr w ↦ simp (w, d) (delete-Left c s _)
  ]

  module _ (s_fd : ℕ) where
    -- What the handling of an event leaves of the state: the invariant, and what is registered for the
    -- other descriptors.
    pub record Handled (fd : ℕ) (s s' : Server K) : Type 0 where
      pub inv : Inv backend s_fd s'
      pub others :
          (j : ℕ) (p : Ptr)
          → j ≢ fd
          → backend.reading s.kernel j ≡ some p
          → backend.reading s'.kernel j ≡ some p

    module _ (fd : ℕ) (p : Ptr) (s : Server K) (v : Inv backend s_fd s) (l : Alive s fd p) where
      yields-Handled : (s' : Server K) → Left fd false s s' → Handled fd s s'
      yields-Handled s' w = record {
        inv = λ j q n r.
            Alive-kept s s' j q (v j q n (sym (w.view j) ∙ r)) (cc (w.same_conns))
              (cc (w.same_routines));
        others = λ j q n r. w.view j ∙ r;
      }

      exits-Handled :
          (s' : Server K) → Left fd true s s' → Handled fd s (release backend p l.routine s')
      unfolding release
      exits-Handled s' w = record {
        inv = λ j q n r. elim (Bool-cases (j == fd)) [
          | inl e ↦ absurd (cc (rw e at (w.view j)))
          | inr e ↦
              let other_fd : j ≢ fd = ground (arith, e) in
              let m : Alive s j q = v j q n (sym (rw e at (w.view j)) ∙ r) in
              let other_p : q ≢ p = λ h. other_fd (cc (h, m.conn_at, l.conn_at)) in
              let other_r : m.routine ≢ l.routine =
                λ h. other_p (cc (h, m.routine_at, l.routine_at)) in
              Alive-kept s _ j q m (store_other p q none s'.conns other_p ∙ cc)
                (store_other l.routine m.routine none s'.routines other_r ∙ cc)
        ];
        others = λ j q n r.
            let apart : (j == fd) ≡ false = ground (arith, n) in rw apart at (w.view j) ∙ r;
      }

    -- A readable event of a registered client is handled without a fault.
    resume-Handled :
        (a : Replies) (fd : ℕ) (p : Ptr) (s : Server K)
        → fd ≢ s_fd
        → backend.reading s.kernel fd ≡ some p
        → switches a.reads ≡ true
        → a.delete_ok ≡ true
        → Inv backend s_fd s
        → (s' : Server K) × (resume backend a p s ≡ done s') × Handled fd s s'
    unfolding resume SwitchLeft
    resume-Handled a fd p s n r h d v =
        let l : Alive s fd p = v fd p n r in
        let c : Conn = record { fd = fd; routine = l.routine; sa = l.sa } in
        let (s', q, w) =
          switched (client_routine backend a c a.reads s) l
            (client_routine-Left a c a.reads s s.calls h d) in
        (s', rw (l.conn_at, l.routine_at, l.conn_at) q, w)
      where
        switched :
            (t : Switch K) (l : Alive s fd p)
            → SwitchLeft fd s t
            → (s' : Server K) × (after_switch backend p l.routine t ≡ done s') × Handled fd s s'
        switched (yields s') l w = (s', refl, yields-Handled fd p s v l s' w)
        switched (exits s') l w =
            (release backend p l.routine s', refl, exits-Handled fd p s v l s' w)
        switched reading_on l w = absurd w

    -- What the calls answer while an event is handled: fresh addresses and descriptors, an end of the
    -- loop over `accept`; or a switch of the routine, and no error of the call that deletes.
    abbrev pub Fair : Answers → Event → Server K → Type 0
    Fair a e s =
        if e.ident == s_fd
        then AllFresh backend s_fd a.attempts s × (some_stops a.attempts ≡ true)
        else (switches a.replies.reads ≡ true) × (a.replies.delete_ok ≡ true)

    abbrev pub AllFair : List (Answers × Event) → Server K → Type 0
    AllFair [] s = Unit
    AllFair ((a, e) ∷ es) s = Fair a e s × elim (on_event backend s_fd a e s) [
      | done s' ↦ AllFair es s'
      | running ↦ Unit
      | fault ↦ Unit
    ]

    -- The events come with what is registered, and no two with the same descriptor.
    abbrev pub Differ : ℕ → List (Answers × Event) → Type 0
    Differ fd [] = Unit
    Differ fd ((a, e) ∷ es) = (e.ident ≢ fd) × Differ fd es

    abbrev pub Reported : List (Answers × Event) → Server K → Type 0
    Reported [] s = Unit
    Reported ((a, e) ∷ es) s =
        ((e.ident ≡ s_fd) ⊎ (backend.reading s.kernel e.ident ≡ some e.udata))
        × Differ e.ident es
        × Reported es s

    Reported-kept :
        (fd : ℕ) (es : List (Answers × Event)) (s s' : Server K)
        → Differ fd es
        → Handled fd s s'
        → Reported es s
        → Reported es s'
    Reported-kept fd [] s s' d h r = tt
    Reported-kept fd ((a, e) ∷ es) s s' d h r = (
      elim (r.0) [ inl x ↦ inl x | inr x ↦ inr (h.others e.ident e.udata d.0 x) ],
      r.1,
      Reported-kept fd es s s' d.1 h r.2,
    )

    on_event-Handled :
        (a : Answers) (e : Event) (s : Server K)
        → Inv backend s_fd s
        → (e.ident ≡ s_fd) ⊎ (backend.reading s.kernel e.ident ≡ some e.udata)
        → Fair a e s
        → (s' : Server K) × (on_event backend s_fd a e s ≡ done s') × Handled e.ident s s'
    unfolding on_event
    on_event-Handled a e s v r f = elim (Bool-cases (e.ident == s_fd)) [
      | inl i ↦ elim (Bool-cases (e.readable)) [
        | inl b ↦
            let g : AllFresh backend s_fd a.attempts s × (some_stops a.attempts ≡ true) =
              rw i at f in
            let (s', q, x) = handle_accept-After backend s_fd a.attempts s g.0 g.1 v in
            (s', simp (i, b) q, record { inv = x.inv; others = λ j p n y. x.keeps j p y })
        | inr b ↦ (s, simp (i, b) refl, record { inv = v; others = λ j p n y. y })
      ]
      | inr i ↦ elim (Bool-cases (e.readable)) [
        | inl b ↦
            let g : (switches a.replies.reads ≡ true) × (a.replies.delete_ok ≡ true) = rw i at f in
            let n : e.ident ≢ s_fd = ground (arith, i) in
            let known : backend.reading s.kernel e.ident ≡ some e.udata = elim r [
              | inl x ↦ absurd (n x)
              | inr x ↦ x
            ] in
            let (s', q, x) = resume-Handled a.replies e.ident e.udata s n known g.0 g.1 v in
            (s', simp (i, b) q, x)
        | inr b ↦ (s, simp (i, b) refl, record { inv = v; others = λ j p n y. y })
      ]
    ]

    -- In a state in which each registered client is alive, with events for descriptors that are
    -- registered, no two for the same one, where `malloc`, `accept` and `aco_create` return what is not
    -- in use, the loop over `accept` and the reads of each client come to an end, and each call that
    -- deletes a registration succeeds: all the events are handled, no routine or connection is used
    -- that has ended or been freed, and each registered client is alive again.
    pub on_events_safe :
        (es : List (Answers × Event)) (s : Server K)
        → Inv backend s_fd s
        → Reported es s
        → AllFair es s
        → (s' : Server K) × (on_events backend s_fd es s ≡ done s') × Inv backend s_fd s'
    unfolding on_events
    on_events_safe [] s v r f = (s, refl, v)
    on_events_safe ((a, e) ∷ es) s v r f =
        let (s', q, h) = on_event-Handled a e s v r.0 f.0 in
        let rest : AllFair es s' = rw q at (f.1) in
        let (s'', q', v') =
          on_events_safe es s' h.inv (Reported-kept e.ident es s s' r.1 h r.2) rest in
        (s'', rw (q, on_events) q', v')
