-- ===== src/SelectServer/Inv.antt =====
-- The invariant of select-server.c, and that a visit to a descriptor keeps it.
use ukgoll_github_io.Prelude.{
  ℕ, zero, suc, ◌+◌, ◌-◌, ◌≤◌, ◌<◌, ◌≡◌, ◌≢◌, refl, Bool, true, false, Option, none, some, List, [],
  ◌∷◌, ◌==◌, if◌then◌else◌, arith, ◌∙◌, subst, Bool-cases, inl, inr,
}
use ukgoll_github_io.SelectServer.Server.{
  FdSet, fd_put, Call, accepted, read_from, closed, Select, Answers, log, scan_max, on_listener,
  shrink, on_bytes, on_client, visit,
}

-- How often a descriptor was accepted, and how often it was closed.
abbrev pub accepts : ℕ → List Call → ℕ
accepts j [] = 0
accepts j (accepted i ∷ l) = accepts j l + (if i == j then 1 else 0)
accepts j (_ ∷ l) = accepts j l

abbrev pub closes : ℕ → List Call → ℕ
closes j [] = 0
closes j (closed i ∷ l) = closes j l + (if i == j then 1 else 0)
closes j (_ ∷ l) = closes j l

-- How often a descriptor was read.
abbrev pub reads : ℕ → List Call → ℕ
reads j [] = 0
reads j (read_from i ∷ l) = reads j l + (if i == j then 1 else 0)
reads j (_ ∷ l) = reads j l

-- 1 where `read` returned 0 or -1.
abbrev pub at_end : List ℕ → ℕ
at_end [] = 1
at_end (_ ∷ _) = 0

abbrev pub bit : Bool → ℕ
bit b = if b then 1 else 0

-- The listener is watched; each watched descriptor lies below `maxfd` and not below the listener;
-- each descriptor was accepted as often as it was closed, and once more while it is watched.
pub record Inv (sfd : ℕ) (s : Select) : Type 0 where
  pub listens : s.cache sfd ≡ true
  pub range : (j : ℕ) → s.cache j ≡ true → (sfd ≤ j) × (j < s.maxfd)
  pub balance : (j : ℕ) → j ≢ sfd → accepts j s.calls ≡ closes j s.calls + bit (s.cache j)

-- The scan ends behind the last descriptor if it is set.
scan_max_last :
    (set : FdSet) (top j n m : ℕ)
    → j + n ≡ top
    → set top ≡ true
    → scan_max set j (suc n) m ≡ top + 1
unfolding scan_max
scan_max_last set top j zero m h e =
    let last : set j ≡ true = subst (λ k. set k ≡ true) {y = j} (omega arith) e in
    rw last (omega arith)
scan_max_last set top j (suc n) m h e =
    scan_max_last set top (j + 1) n (if set j then j + 1 else m) (omega arith) e

module _ (sfd : ℕ) where
  -- While the client is still in the set, the scan gives back the old `maxfd`.
  pub shrink-maxfd :
      (i : ℕ) (s : Select) → sfd < i → i < s.maxfd → s.cache i ≡ true → shrink sfd i s ≡ s.maxfd
  unfolding shrink
  shrink-maxfd i s h b e = elim (Bool-cases (i == s.maxfd - 1)) [
    | inl d ↦ rw d (
        subst (λ n. scan_max s.cache (sfd + 1) n (sfd + 1) ≡ s.maxfd) {x = suc (i - (sfd + 1))}
          {y = s.maxfd - (sfd + 1)} (ground arith)
          (scan_max_last s.cache i (sfd + 1) (i - (sfd + 1)) (sfd + 1) (omega arith) e
            ∙ ground arith))
    | inr d ↦ rw d refl
  ]

  -- What the answers of one round may be: `accept` returns a descriptor above the listener that is
  -- not open yet.
  abbrev pub IsFresh : Option ℕ → Select → Type 0
  IsFresh none s = Unit
  IsFresh (some cfd) s = (sfd < cfd) × (s.cache cfd ≡ false)

  on_listener-Inv :
      (a : Option ℕ) (s : Select) → IsFresh a s → Inv sfd s → Inv sfd (on_listener sfd a s)
  unfolding on_listener fd_put
  on_listener-Inv none s f v = record { listens = v.listens; range = v.range; balance = v.balance }
  on_listener-Inv (some cfd) s f v = record {
    listens = ground (arith, v.listens);
    range = λ j e. ground (arith, v.range j);
    balance = λ j d. ground (arith, v.balance j d, f.1);
  }

  on_bytes-Inv :
      (bs : List ℕ) (i : ℕ) (s : Select)
      → sfd < i
      → s.cache i ≡ true
      → Inv sfd s
      → Inv sfd (on_bytes sfd i bs s)
  unfolding on_bytes fd_put
  on_bytes-Inv [] i s h e v =
      let same = shrink-maxfd i s h (v.range i e).1 e in
      record {
        listens = ground (arith, v.listens);
        range = λ j c. ground (arith, v.range j, same);
        balance = λ j d. ground (arith, v.balance j d, e);
      }
  on_bytes-Inv (b ∷ bs) i s h e v = record {
    listens = v.listens;
    range = v.range;
    balance = v.balance;
  }

  -- What a visit to a ready client does: one `read`, a `close` at the end of input, nothing to
  -- `maxfd` or to the other descriptors.
  pub record Visited (read : ℕ → List ℕ) (i : ℕ) (s s' : Select) : Type 0 where
    pub kept : Inv sfd s'
    pub same_max : s'.maxfd ≡ s.maxfd
    pub others : (j : ℕ) → j ≢ i → s'.cache j ≡ s.cache j
    pub one_read : (j : ℕ) → reads j s'.calls ≡ reads j s.calls + (if i == j then 1 else 0)
    pub one_close :
        (j : ℕ) → closes j s'.calls ≡ closes j s.calls + (if i == j then at_end (read i) else 0)

  on_bytes-Visited :
      (read : ℕ → List ℕ) (bs : List ℕ) (i : ℕ) (s : Select)
      → sfd < i
      → s.cache i ≡ true
      → Inv sfd s
      → read i ≡ bs
      → Visited read i s (on_bytes sfd i bs (log s (read_from i)))
  unfolding on_bytes fd_put
  on_bytes-Visited read [] i s h e v r =
      let s' : Select = log s (read_from i) in
      let v' : Inv sfd s' = record { listens = v.listens; range = v.range; balance = v.balance } in
      record {
        kept = on_bytes-Inv [] i s' h e v';
        same_max = shrink-maxfd i s' h (v.range i e).1 e;
        others = λ j d. ground arith;
        one_read = λ j. ground arith;
        one_close = λ j. rw r (ground arith);
      }
  on_bytes-Visited read (b ∷ bs) i s h e v r =
      let s' : Select = log s (read_from i) in
      let v' : Inv sfd s' = record { listens = v.listens; range = v.range; balance = v.balance } in
      record {
        kept = on_bytes-Inv (b ∷ bs) i s' h e v';
        same_max = refl;
        others = λ j d. refl;
        one_read = λ j. ground arith;
        one_close = λ j. rw r (ground arith);
      }

  pub visit-Visited :
      (a : Answers) (i : ℕ) (s : Select)
      → sfd < i
      → s.cache i ≡ true
      → Inv sfd s
      → Visited a.read i s (visit sfd a i s)
  unfolding visit on_client
  visit-Visited a i s h e v = elim (Bool-cases (i == sfd)) [
    | inl d ↦ absurd (ground arith)
    | inr d ↦ rw d (on_bytes-Visited a.read (a.read i) i s h e v refl)
  ]

  -- What a visit to the listener does: no read and no `close`, and `maxfd` does not fall.
  pub record Greeted (s s' : Select) : Type 0 where
    pub kept : Inv sfd s'
    pub grows : s.maxfd ≤ s'.maxfd
    pub keeps : (j : ℕ) → s.cache j ≡ true → s'.cache j ≡ true
    pub no_read : (j : ℕ) → reads j s'.calls ≡ reads j s.calls
    pub no_close : (j : ℕ) → closes j s'.calls ≡ closes j s.calls

  on_listener-Greeted :
      (a : Option ℕ) (s : Select) → IsFresh a s → Inv sfd s → Greeted s (on_listener sfd a s)
  unfolding on_listener fd_put
  on_listener-Greeted none s f v = record {
    kept = on_listener-Inv none s f v;
    grows = omega arith;
    keeps = λ j e. e;
    no_read = λ j. refl;
    no_close = λ j. refl;
  }
  on_listener-Greeted (some cfd) s f v = record {
    kept = on_listener-Inv (some cfd) s f v;
    grows = ground arith;
    keeps = λ j e. ground (arith, e);
    no_read = λ j. refl;
    no_close = λ j. refl;
  }

  pub visit-Greeted :
      (a : Answers) (s : Select) → IsFresh a.accept s → Inv sfd s → Greeted s (visit sfd a sfd s)
  unfolding visit
  visit-Greeted a s f v = elim (Bool-cases (sfd == sfd)) [
    | inl d ↦ rw d (on_listener-Greeted a.accept s f v)
    | inr d ↦ absurd (ground arith)
  ]
