-- ===== src/HttpServer/Turns.antt =====
-- `handle_accept` of main.c keeps the invariant, and ends where some turn leaves its loop.
use ukgoll_github_io.Prelude.{
  ℕ, ◌≡◌, ◌≢◌, refl, subst, ◌∙◌, Bool, true, false, ◌||◌, ltb, ◌==◌, if◌then◌else◌, Option, none,
  some, List, [], ◌∷◌, Bool-cases, inl, inr,
}
use ukgoll_github_io.HttpServer.Poll.{null, Backend}
use ukgoll_github_io.HttpServer.State.{
  Conn, Routine, Call, Server, done, store, eagain, eintr, other, set_non_blocking,
}
use ukgoll_github_io.HttpServer.Accept.{
  AcceptResult, got_client, accept_fails, Attempt, Turn, next, leave, start_routine, on_accept,
  accept_once, handle_accept,
}
use ukgoll_github_io.HttpServer.Inv.{
  Inv, IsFresh, After, Within, Within-After, watch-After, store_self, store_other,
}

-- A turn with these answers leaves the loop.
abbrev pub stops : Attempt → Bool
stops a = elim (a.accept) [
  | accept_fails e ↦ true
  | got_client fd ↦ (a.sa == null) || (a.block == null) || (a.routine == null)
]

abbrev pub some_stops : List Attempt → Bool
some_stops [] = false
some_stops (a ∷ rest) = if stops a then true else some_stops rest

module _ {K : Type 0} (backend : Backend K) (s_fd : ℕ) where
  abbrev TurnAfter : Server K → Turn K → Type 0
  TurnAfter s (next s') = After backend s_fd s s'
  TurnAfter s (leave s') = After backend s_fd s s'

  module _ (a : Attempt) (s : Server K) (f : IsFresh backend s_fd a s)
      (v : Inv backend s_fd s) where
    -- The connection may be written, and freed, again.
    Within-store :
        (s' : Server K) (o : Option Conn) (l : List Call)
        → Within backend s_fd a s s'
        → Within backend s_fd a s (record s' { conns = store a.block o s'.conns; calls = l })
    Within-store s' o l w = record {
      same_kernel = w.same_kernel;
      conns_off = λ q h. store_other a.block q o s'.conns h ∙ w.conns_off q h;
      routines_off = w.routines_off;
    }

    start_routine-After :
        (fd : ℕ) (s' : Server K)
        → (fd ≢ s_fd) × (backend.reading s.kernel fd ≡ none)
        → Within backend s_fd a s s'
        → TurnAfter s (start_routine backend a fd s')
    unfolding start_routine
    start_routine-After fd s' n w = elim (Bool-cases (a.routine == null)) [
      | inl e ↦ simp e (Within-After backend s_fd a s f _ v (Within-store s' none _ w))
      | inr e ↦
          let c : Conn = record { fd = fd; routine = a.routine; sa = a.sa } in
          let r : Routine = record { arg = a.block; is_end = false } in
          let w' = Within-store s' (some c) s'.calls w in
          simp e (
            watch-After backend s_fd a s f fd _ n v
              (record {
                same_kernel = w.same_kernel;
                conns_off = w'.conns_off;
                routines_off =
                    λ q h. store_other a.routine q (some r) s'.routines h ∙ w.routines_off q h;
              })
              (record {
                routine = a.routine;
                sa = a.sa;
                conn_at = store_self a.block (some c) s'.conns;
                routine_at = store_self a.routine (some r) s'.routines;
              }))
    ]

    on_accept-After :
        (r : AcceptResult) (s' : Server K)
        → a.accept ≡ r
        → Within backend s_fd a s s'
        → TurnAfter s (on_accept backend a r s')
    unfolding on_accept
    on_accept-After (got_client fd) s' e w = elim (Bool-cases (ltb (set_non_blocking a.fcntl) 0)) [
      | inl b ↦ simp b (Within-After backend s_fd a s f _ v (Within-store _ none _ w))
      | inr b ↦ simp b (start_routine-After fd _ (f.new_fd fd e) (Within-store s' _ _ w))
    ]
    on_accept-After (accept_fails eagain) s' e w = Within-After backend s_fd a s f s' v w
    on_accept-After (accept_fails eintr) s' e w =
        Within-After backend s_fd a s f _ v (Within-store s' none _ w)
    on_accept-After (accept_fails other) s' e w =
        Within-After backend s_fd a s f _ v (Within-store s' none _ w)

    unchanged : Within backend s_fd a s s
    unchanged = record { same_kernel = refl; conns_off = λ q h. refl; routines_off = λ q h. refl }

    -- A turn of the loop in `handle_accept` keeps the invariant on each of its paths.
    pub accept_once-After : TurnAfter s (accept_once backend a s)
    unfolding accept_once
    accept_once-After = elim (Bool-cases (a.sa == null)) [
      | inl e ↦ simp e (record { inv = v; keeps = λ j p r. r })
      | inr e ↦ elim (Bool-cases (a.block == null)) [
        | inl b ↦
            simp (e, b)
              (Within-After backend s_fd a s f _ v (record {
                same_kernel = refl;
                conns_off = λ q h. refl;
                routines_off = λ q h. refl;
              }))
        | inr b ↦ simp (e, b) (on_accept-After a.accept _ refl (Within-store s _ _ unchanged))
      ]
    ]

  -- Each turn has fresh answers.
  abbrev pub AllFresh : List Attempt → Server K → Type 0
  AllFresh [] s = Unit
  AllFresh (a ∷ rest) s =
      IsFresh backend s_fd a s
      × elim (accept_once backend a s) [ next s' ↦ AllFresh rest s' | leave s' ↦ Unit ]

  abbrev FreshAfter : List Attempt → Turn K → Type 0
  FreshAfter rest t = elim t [ next s' ↦ AllFresh rest s' | leave s' ↦ Unit ]

  abbrev state_of : Turn K → Server K
  state_of (next s) = s
  state_of (leave s) = s

  abbrev Leaves : Turn K → Type 0
  Leaves t = t ≡ leave (state_of t)

  on_accept-Leaves :
      (a : Attempt) (r : AcceptResult) (s : Server K)
      → a.accept ≡ r
      → stops a ≡ true
      → (a.sa == null) ≡ false
      → (a.block == null) ≡ false
      → Leaves (on_accept backend a r s)
  unfolding on_accept
  on_accept-Leaves a (accept_fails eagain) s e h x y = refl
  on_accept-Leaves a (accept_fails eintr) s e h x y = refl
  on_accept-Leaves a (accept_fails other) s e h x y = refl
  on_accept-Leaves a (got_client fd) s e h x y =
      let no_routine : (a.routine == null) ≡ true = rw (e, x, y) at h in
      elim (Bool-cases (ltb (set_non_blocking a.fcntl) 0)) [
        | inl b ↦ simp b refl
        | inr b ↦ simp (b, no_routine) refl
      ]

  stops-Leaves : (a : Attempt) (s : Server K) → stops a ≡ true → Leaves (accept_once backend a s)
  unfolding accept_once
  stops-Leaves a s h = elim (Bool-cases (a.sa == null)) [
    | inl x ↦ simp x refl
    | inr x ↦ elim (Bool-cases (a.block == null)) [
      | inl y ↦ simp (x, y) refl
      | inr y ↦ simp (x, y) (on_accept-Leaves a a.accept _ refl h x y)
    ]
  ]

  -- The loop in `handle_accept` ends where some turn leaves it, and keeps the invariant.
  pub handle_accept-After :
      (l : List Attempt) (s : Server K)
      → AllFresh l s
      → some_stops l ≡ true
      → Inv backend s_fd s
      → (s' : Server K) × (handle_accept backend l s ≡ done s') × After backend s_fd s s'
  unfolding handle_accept
  handle_accept-After [] s f e v = cc
  handle_accept-After (a ∷ rest) s f e v = elim (Bool-cases (stops a)) [
    | inl h ↦
        let q = stops-Leaves a s h in
        (
          state_of (accept_once backend a s),
          rw (q, handle_accept) refl,
          subst (TurnAfter s) q (accept_once-After a s f.0 v),
        )
    | inr h ↦
        go (accept_once backend a s) (accept_once-After a s f.0 v) f.1
          (λ s' w g. handle_accept-After rest s' g (rw h at e) w)
  ]
    where
      go :
          (t : Turn K)
          → TurnAfter s t
          → FreshAfter rest t
          → ((s' : Server K)
              → Inv backend s_fd s'
              → AllFresh rest s'
              → (s'' : Server K) × (handle_accept backend rest s' ≡ done s'')
                × After backend s_fd s' s'')
          → (s' : Server K) × (elim t [
            | next s' ↦ handle_accept backend rest s'
            | leave s' ↦ done s'
          ]
              ≡ done s')
            × After backend s_fd s s'
      go (next s') w g again =
          let (s'', q, x) = again s' w.inv g in
          (s'', q, record { inv = x.inv; keeps = λ j p e. x.keeps j p (w.keeps j p e) })
      go (leave s') w g again = (s', refl, w)
