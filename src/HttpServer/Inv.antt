-- ===== src/HttpServer/Inv.antt =====
-- The invariant of the server of main.c: what is registered is alive.
use ukgoll_github_io.Prelude.{
  ℕ, ◌≡◌, ◌≢◌, refl, sym, subst, ◌∙◌, false, ◌==◌, Option, none, some, arith, Bool-cases, inl, inr,
}
use ukgoll_github_io.HttpServer.Poll.{Ptr, eread, Backend}
use ukgoll_github_io.HttpServer.State.{Server, store}
use ukgoll_github_io.HttpServer.Accept.{got_client, Attempt, watch}

-- The connection at `p` is that of the descriptor, and its routine has not ended.
pub record Alive {K : Type 0} (s : Server K) (fd : ℕ) (p : Ptr) : Type 0 where
  pub routine : Ptr
  pub sa : Ptr
  pub conn_at : s.conns p ≡ some (record { fd = fd; routine = routine; sa = sa })
  pub routine_at : s.routines routine ≡ some (record { arg = p; is_end = false })

-- What is alive stays so while its connection and its routine are left alone.
pub Alive-kept :
    {K : Type 0} (s s' : Server K) (fd : ℕ) (p : Ptr) (l : Alive s fd p)
    → s'.conns p ≡ s.conns p
    → s'.routines l.routine ≡ s.routines l.routine
    → Alive s' fd p
Alive-kept s s' fd p l c r = record {
  routine = l.routine;
  sa = l.sa;
  conn_at = c ∙ l.conn_at;
  routine_at = r ∙ l.routine_at;
}

pub store_self : {A : Type 0} (p : Ptr) (v : Option A) (f : Ptr → Option A) → store p v f p ≡ v
store_self p v f = ground arith

pub store_other :
    {A : Type 0} (p q : Ptr) (v : Option A) (f : Ptr → Option A) → q ≢ p → store p v f q ≡ f q
store_other p q v f h = ground (arith, h)

module _ {K : Type 0} (backend : Backend K) (s_fd : ℕ) where
  -- Each descriptor but the listener's that is registered has a connection, and that is alive.
  abbrev pub Inv : Server K → Type 0
  Inv s = (fd : ℕ) (p : Ptr) → fd ≢ s_fd → backend.reading s.kernel fd ≡ some p → Alive s fd p

  -- What `malloc` and `accept` may answer: addresses that are not in use, and a descriptor that is
  -- neither the listener's nor registered.
  pub record IsFresh (a : Attempt) (s : Server K) : Type 0 where
    pub new_block : s.conns a.block ≡ none
    pub new_routine : s.routines a.routine ≡ none
    pub new_fd :
        (fd : ℕ) → a.accept ≡ got_client fd → (fd ≢ s_fd) × (backend.reading s.kernel fd ≡ none)

  -- What was registered is still registered with the same connection.
  abbrev pub Keeps : Server K → Server K → Type 0
  Keeps s s' =
      (j : ℕ) (p : Ptr) → backend.reading s.kernel j ≡ some p → backend.reading s'.kernel j ≡ some p

  pub record After (s s' : Server K) : Type 0 where
    pub inv : Inv s'
    pub keeps : Keeps s s'

  -- The turn has touched only the new connection and the new routine.
  pub record Within (a : Attempt) (s s' : Server K) : Type 0 where
    pub same_kernel : s'.kernel ≡ s.kernel
    pub conns_off : (q : Ptr) → q ≢ a.block → s'.conns q ≡ s.conns q
    pub routines_off : (q : Ptr) → q ≢ a.routine → s'.routines q ≡ s.routines q

  module _ (a : Attempt) (s : Server K) (f : IsFresh a s) where
    Within-Alive :
        (s' : Server K)
        → ((q : Ptr) → q ≢ a.block → s'.conns q ≡ s.conns q)
        → ((q : Ptr) → q ≢ a.routine → s'.routines q ≡ s.routines q)
        → (fd : ℕ) (p : Ptr) → Alive s fd p
        → Alive s' fd p
    Within-Alive s' c r fd p l =
        let new_p : p ≢ a.block = λ e. cc (e, f.new_block, l.conn_at) in
        let new_r : l.routine ≢ a.routine = λ e. cc (e, f.new_routine, l.routine_at) in
        Alive-kept s s' fd p l (c p new_p) (r l.routine new_r)

    pub Within-Inv : (s' : Server K) → Inv s → Within a s s' → Inv s'
    Within-Inv s' v w fd p n e =
        Within-Alive s' w.conns_off w.routines_off fd p
          (v fd p n (subst (λ k. backend.reading k fd ≡ some p) w.same_kernel e))

    pub Within-After : (s' : Server K) → Inv s → Within a s s' → After s s'
    Within-After s' v w = record {
      inv = Within-Inv s' v w;
      keeps = λ j p e. subst (λ k. backend.reading k j ≡ some p) (sym w.same_kernel) e;
    }

    -- What `poll_add` leaves.
    pub watch-After :
        (fd : ℕ) (s' : Server K)
        → (fd ≢ s_fd) × (backend.reading s.kernel fd ≡ none)
        → Inv s
        → Within a s s'
        → Alive s' fd a.block
        → After s (watch backend a.add_ok fd a.block s')
    unfolding watch
    watch-After fd s' n v w l = elim (Bool-cases (a.add_ok)) [
      | inr e ↦
          let q : watch backend a.add_ok fd a.block s' ≡ s' =
            rw (e, backend.add-fails fd eread a.block s'.kernel, watch) refl in
          subst (After s) (sym q) (Within-After s' v w)
      | inl e ↦
          let (k, added, view) = backend.add-succeeds fd a.block s'.kernel in
          let all : Inv (record s' { kernel = k }) = λ j p m r. elim (Bool-cases (j == fd)) [
            | inl same ↦
                let here : j ≡ fd = ground (arith, same) in
                let seen : backend.reading k j ≡ some a.block = rw same at (view j) in
                let at : a.block ≡ p = cc in
                subst (λ i. Alive (record s' { kernel = k }) i p) (sym here)
                  (subst (λ q. Alive (record s' { kernel = k }) fd q) at
                    (Alive-kept s' (record s' { kernel = k }) fd a.block l refl refl))
            | inr differs ↦
                let before : backend.reading s'.kernel j ≡ some p =
                  sym (rw differs at (view j)) ∙ r in
                Alive-kept s' (record s' { kernel = k }) j p (Within-Inv s' v w j p m before) refl
                  refl
          ] in
          let q : watch backend a.add_ok fd a.block s' ≡ record s' { kernel = k } =
            rw (e, added, watch) refl in
          let stays : Keeps s (record s' { kernel = k }) = λ j p r. elim (Bool-cases (j == fd)) [
            | inl same ↦ let here : j ≡ fd = ground (arith, same) in absurd (cc (here, n.1, r))
            | inr differs ↦ rw differs at (view j) ∙ (Within-After s' v w).keeps j p r
          ] in
          subst (After s) (sym q) (record { inv = all; keeps = stays })
    ]
