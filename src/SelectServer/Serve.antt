-- ===== src/SelectServer/Serve.antt =====
-- A whole round of select-server.c: every ready descriptor is served once.
use ukgoll_github_io.Prelude.{
  ℕ, zero, suc, ◌+◌, ◌-◌, ◌*◌, ◌≤◌, ◌<◌, ◌≡◌, refl, ◌∙◌, ap, true, false, some, ltb, leb, ◌==◌,
  if◌then◌else◌, arith, Bool-cases, inl, inr,
}
use ukgoll_github_io.SelectServer.Server.{
  FdSet, Select, Answers, visit, serve, fd_setsize, ready, go_on, on_selected, served, round,
}
use ukgoll_github_io.SelectServer.Inv.{
  Inv, reads, closes, at_end, bit, IsFresh, Visited, visit-Visited, Greeted, visit-Greeted,
}

-- How many of the `n` descriptors from `i` on are in the set: what `select` returns.
abbrev pub ready_count : FdSet → ℕ → ℕ → ℕ
ready_count readfd i zero = 0
ready_count readfd i (suc n) = bit (readfd i) + ready_count readfd (i + 1) n

module _ (sfd : ℕ) (a : Answers) (readfd : FdSet) where
  -- 1 where the descriptor `j` is to be read, if the loop stands at `i`.
  abbrev due : ℕ → ℕ → ℕ
  due i j = if leb i j then bit (readfd j) else 0

  -- The clients from `i` on are served: each ready one is read once, and closed at its end of input.
  pub record Served (i : ℕ) (s s' : Select) : Type 0 where
    pub kept : Inv sfd s'
    pub read_once : (j : ℕ) → reads j s'.calls ≡ reads j s.calls + due i j
    pub close_once :
        (j : ℕ)
        → closes j s'.calls
          ≡ closes j s.calls + (if leb i j then (if readfd j then at_end (a.read j) else 0) else 0)
    pub same_max : s'.maxfd ≡ s.maxfd

  none_due : (i : ℕ) (s : Select) → ((j : ℕ) → i ≤ j → readfd j ≡ false) → Inv sfd s → Served i s s
  none_due i s idle v = record {
    kept = v;
    read_once = λ j. ground (arith, idle j);
    close_once = λ j. ground (arith, idle j);
    same_max = refl;
  }

  none_ready :
      (i n : ℕ) → ready_count readfd i n ≡ 0 → (j : ℕ) → i ≤ j → j < i + n → readfd j ≡ false
  none_ready i zero z j l b = absurd (omega arith)
  none_ready i (suc n) z j l b = elim (Bool-cases (i == j)) [
    | inl d ↦ ground arith
    | inr d ↦ none_ready (i + 1) n (omega arith) j (ground arith) (omega arith)
  ]

  -- After a visit to a ready client, what is left to do is what comes behind it.
  Served-next :
      (i : ℕ) (s s' s'' : Select)
      → readfd i ≡ true
      → Visited sfd a.read i s s'
      → Served (i + 1) s' s''
      → Served i s s''
  Served-next i s s' s'' e w v = record {
    kept = v.kept;
    read_once = λ j. ground (arith, v.read_once j, w.one_read j);
    close_once = λ j. ground (arith, v.close_once j, w.one_close j);
    same_max = v.same_max ∙ w.same_max;
  }

  Served-skip : (i : ℕ) (s s'' : Select) → readfd i ≡ false → Served (i + 1) s s'' → Served i s s''
  Served-skip i s s'' e v = record {
    kept = v.kept;
    read_once = λ j. ground (arith, v.read_once j);
    close_once = λ j. ground (arith, v.close_once j);
    same_max = v.same_max;
  }

  none_left :
      (i n : ℕ)
      → ready_count readfd i n ≡ 0
      → ((j : ℕ) → i ≤ j → readfd j ≡ true → j < i + n)
      → (j : ℕ) → i ≤ j
      → readfd j ≡ false
  none_left i n z ok j l = elim (Bool-cases (readfd j)) [
    | inl e ↦ none_ready i n z j l (ok j l e)
    | inr e ↦ e
  ]

  serve_stops :
      (fuel i ret : ℕ) (s : Select)
      → (ret == 0) ≡ true
      → serve sfd a readfd (suc fuel) i ret s ≡ some s
  unfolding serve
  serve_stops fuel i ret s d = elim (Bool-cases (ltb i s.maxfd)) [
    | inl e ↦ rw (d, e) refl
    | inr e ↦ rw (d, e) refl
  ]

  -- The loop over the clients, with `n` descriptors left to look at that may be ready.
  serve_clients :
      (fuel n i ret : ℕ) (s : Select)
      → n < fuel
      → sfd < i
      → i + n ≤ s.maxfd
      → ret ≡ ready_count readfd i n
      → ((j : ℕ) → i ≤ j → readfd j ≡ true → s.cache j ≡ true)
      → ((j : ℕ) → i ≤ j → readfd j ≡ true → j < i + n)
      → Inv sfd s
      → (s' : Select) × (serve sfd a readfd fuel i ret s ≡ some s') × Served i s s'
  unfolding serve
  serve_clients zero n i ret s f h b r ok ub v = absurd (omega arith)
  serve_clients (suc fuel) zero i ret s f h b r ok ub v =
      (s, serve_stops fuel i ret s (ground arith), none_due i s (none_left i 0 refl ub) v)
  serve_clients (suc fuel) (suc n) i ret s f h b r ok ub v = elim (Bool-cases (ret == 0)) [
    | inl d ↦
        (s, serve_stops fuel i ret s d, none_due i s (none_left i (suc n) (ground arith) ub) v)
    | inr d ↦
        let t : ltb i s.maxfd ≡ true = ground arith in
        elim (Bool-cases (readfd i)) [
          | inl e ↦
              let w = visit-Visited sfd a i s h (ok i (omega arith) e) v in
              let s' : Select = visit sfd a i s in
              let (s'', q, done) =
                serve_clients fuel n (i + 1) (ret - 1) s' (omega arith) (omega arith)
                  (omega (arith, w.same_max)) (ground arith)
                  (λ j l c. w.others j (omega arith) ∙ ok j (omega arith) c)
                  (λ j l c. omega (arith, ub j (omega arith) c)) w.kept in
              (s'', rw (d, t, e) q, Served-next i s s' s'' e w done)
          | inr e ↦
              let (s'', q, done) =
                serve_clients fuel n (i + 1) ret s (omega arith) (omega arith) (omega arith)
                  (ground arith) (λ j l c. ok j (omega arith) c)
                  (λ j l c. omega (arith, ub j (omega arith) c)) v in
              (s'', rw (d, t, e) q, Served-skip i s s'' e done)
        ]
  ]

  -- What POSIX promises of `select`: it returns the number of descriptors in the set, which are
  -- among those asked for.
  pub record IsHonest (ret : ℕ) (s : Select) : Type 0 where
    pub counted : ret ≡ ready_count readfd sfd (s.maxfd - sfd)
    pub asked : (j : ℕ) → readfd j ≡ true → s.cache j ≡ true

  -- 1 where the descriptor is a client that is ready.
  abbrev pub ready_client : ℕ → ℕ
  ready_client j = if j == sfd then 0 else bit (readfd j)

  -- What a round does to the log and to `maxfd`.
  record Round (s s' : Select) : Type 0 where
    kept : Inv sfd s'
    grows : s.maxfd ≤ s'.maxfd
    read_once : (j : ℕ) → reads j s'.calls ≡ reads j s.calls + ready_client j
    close_once : (j : ℕ) → closes j s'.calls ≡ closes j s.calls + ready_client j * at_end (a.read j)

  clients-Round :
      (s s' s'' : Select)
      → Greeted sfd s s'
      → ((j : ℕ) → readfd j ≡ true → sfd ≤ j)
      → Served (sfd + 1) s' s''
      → Round s s''
  clients-Round s s' s'' w low v = record {
    kept = v.kept;
    grows = omega (arith, w.grows, v.same_max);
    read_once = λ j. ground (arith, w.no_read j, v.read_once j, low j);
    close_once = λ j. ground (arith, w.no_close j, v.close_once j, low j);
  }

  unmoved : (s : Select) → Inv sfd s → Greeted sfd s s
  unmoved s v = record {
    kept = v;
    grows = omega arith;
    keeps = λ j e. e;
    no_read = λ j. refl;
    no_close = λ j. refl;
  }

  serve-Round :
      (fuel n ret : ℕ) (s : Select)
      → Inv sfd s
      → s.maxfd ≡ sfd + suc n
      → n < fuel
      → IsHonest ret s
      → IsFresh sfd a.accept s
      → (s' : Select) × (serve sfd a readfd (suc fuel) sfd ret s ≡ some s') × Round s s'
  unfolding serve
  serve-Round fuel n ret s v m f o g =
      let low : (j : ℕ) → readfd j ≡ true → sfd ≤ j = λ j e. (v.range j (o.asked j e)).0 in
      let ub : (j : ℕ) → readfd j ≡ true → j < sfd + suc n =
        λ j e. omega (arith, v.range j (o.asked j e)) in
      let c : ret ≡ ready_count readfd sfd (suc n) =
        o.counted ∙ ap (ready_count readfd sfd) {y = suc n} (omega arith) in
      elim (Bool-cases (ret == 0)) [
        | inl d ↦ (
          s,
          serve_stops fuel sfd ret s d,
          clients-Round s s s (unmoved s v) low (
              none_due (sfd + 1) s
                (λ j l. none_left sfd (suc n) (ground arith) (λ j l e. ub j e) j (omega arith)) v),
        )
        | inr d ↦
            let t : ltb sfd s.maxfd ≡ true = ground arith in
            elim (Bool-cases (readfd sfd)) [
              | inl e ↦
                  let w = visit-Greeted sfd a s g v in
                  let s' : Select = visit sfd a sfd s in
                  let (s'', q, done) =
                    serve_clients fuel n (sfd + 1) (ret - 1) s' f (omega arith)
                      (omega (arith, w.grows)) (ground arith) (λ j l h. w.keeps j (o.asked j h))
                      (λ j l h. omega (arith, ub j h)) w.kept in
                  (s'', rw (d, t, e) q, clients-Round s s' s'' w low done)
              | inr e ↦
                  let (s'', q, done) =
                    serve_clients fuel n (sfd + 1) ret s f (omega arith) (omega arith)
                      (ground arith) (λ j l h. o.asked j h) (λ j l h. omega (arith, ub j h)) v in
                  (s'', rw (d, t, e) q, clients-Round s s s'' (unmoved s v) low done)
            ]
      ]

  -- Where `maxfd` is below FD_SETSIZE, `select` reports a count and a set as POSIX promises, and
  -- `accept` returns a descriptor above the listener that is not open: with more fuel than
  -- `maxfd - sfd` the round ends and the server goes on; the invariant holds again, `maxfd` has not
  -- fallen, each client that was ready has been read exactly once, no other descriptor has been read,
  -- and exactly the ready clients whose `read` returned 0 or -1 have been closed, once each.
  pub round_serves_once :
      (fuel ret : ℕ) (s : Select)
      → Inv sfd s
      → s.maxfd < fd_setsize
      → s.maxfd - sfd < fuel
      → IsHonest ret s
      → IsFresh sfd a.accept s
      → (s' : Select) × (round sfd a fuel (ready ret readfd) s ≡ go_on s')
        × Inv sfd s'
        × (s.maxfd ≤ s'.maxfd)
        × ((j : ℕ) → reads j s'.calls ≡ reads j s.calls + ready_client j)
        × ((j : ℕ) → closes j s'.calls ≡ closes j s.calls + ready_client j * at_end (a.read j))
  unfolding round on_selected served
  round_serves_once zero ret s v m f o g = absurd (omega arith)
  round_serves_once (suc fuel) ret s v m f o g =
      let inside = (v.range sfd v.listens).1 in
      let below : leb fd_setsize s.maxfd ≡ false = ground arith in
      let (s', q, r) =
        serve-Round fuel (s.maxfd - (sfd + 1)) ret s v (omega arith) (omega arith) o g in
      (s', rw (below, q) refl, r.kept, r.grows, r.read_once, r.close_once)
