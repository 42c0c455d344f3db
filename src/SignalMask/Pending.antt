-- ===== src/SignalMask/Pending.antt =====
-- codes/apue/signal/sig_mask.c: what becomes of SIGINT.
use ukgoll_github_io.Prelude.{
  ℕ, ◌+◌, ◌≡◌, subst, refl, Bool, true, false, not, ◌&&◌, if◌then◌else◌, some, List, [], ◌∷◌, ◌⊎◌,
  inl, inr, arith, Bool-cases,
}
use ukgoll_github_io.SignalMask.Program.{
  Signal, sigint, sigterm, Message, sigint_handled, Place, looping, pausing, testing, asking,
  resetting, exited, Process, print, handle_signal, deliver, arrive, ask, reset, call, Event, sent,
  called, on_event, run, Setup, start, entered,
}

-- How often the handler has printed that SIGINT is handled.
abbrev pub handled : List Message → ℕ
handled [] = 0
handled (sigint_handled ∷ ms) = handled ms + 1
handled (_ ∷ ms) = handled ms

abbrev pub waits : Bool → ℕ
waits true = 1
waits false = 0

-- Behind the test of the flag.
abbrev past_test : Place → Bool
past_test asking = true
past_test resetting = true
past_test _ = false

-- Each SIGINT that was sent was handled, waits or was merged with one that waited. None waits where
-- SIGINT is not blocked, and it stays blocked, and none is handled, until SIGTERM has set the flag.
record Kept (p : Process) : Type 0 where
  accounted : handled p.printed + waits p.pending + p.merged ≡ p.arrived
  unblocked : (p.blocked ≡ true) ⊎ (p.pending ≡ false)
  flagged : (p.blocked ≡ true) ⊎ (p.unblock_sig_int ≡ true)
  in_body : (past_test p.place ≡ false) ⊎ (p.unblock_sig_int ≡ true)
  after_flag : (handled p.printed ≡ 0) ⊎ (p.unblock_sig_int ≡ true)

if-Kept :
    (b : Bool) (p q : Process)
    → (b ≡ true → Kept p)
    → (b ≡ false → Kept q)
    → Kept (if b then p else q)
if-Kept true p q f g = f refl
if-Kept false p q f g = g refl

-- Once the flag is set, the counts are all there is to it.
flag_Kept :
    (p : Process)
    → p.unblock_sig_int ≡ true
    → handled p.printed + waits p.pending + p.merged ≡ p.arrived
    → ((p.blocked ≡ true) ⊎ (p.pending ≡ false))
    → Kept p
flag_Kept p f a n = record {
  accounted = a;
  unblocked = n;
  flagged = inr f;
  in_body = inr f;
  after_flag = inr f;
}

arrive-Kept : (sig : Signal) (p : Process) → Kept p → Kept (arrive sig p)
unfolding arrive deliver handle_signal print
arrive-Kept sigterm p v = record {
  accounted = v.accounted;
  unblocked = v.unblocked;
  flagged = inr refl;
  in_body = inr refl;
  after_flag = inr refl;
}
arrive-Kept sigint p v =
    if-Kept p.blocked _ _
      (λ e. record {
        accounted = elim (Bool-cases p.pending) [
          | inl w ↦ rw w (omega (arith, rw w at v.accounted))
          | inr w ↦ rw w (omega (arith, rw w at v.accounted))
        ];
        unblocked = inl e;
        flagged = inl e;
        in_body = v.in_body;
        after_flag = v.after_flag;
      })
      (λ e.
        let flag : p.unblock_sig_int ≡ true = elim (v.flagged) [
          | inl f ↦ absurd (cc (e, f))
          | inr f ↦ f
        ] in
        record {
          accounted = omega (arith, v.accounted);
          unblocked = v.unblocked;
          flagged = inr flag;
          in_body = inr flag;
          after_flag = inr flag;
        })

ask-Kept : (ok : Bool) (p : Process) → p.unblock_sig_int ≡ true → Kept p → Kept (ask ok p)
unfolding ask print
ask-Kept ok p f v =
    if-Kept (not ok) _ _ (λ _. flag_Kept _ f v.accounted v.unblocked)
      (λ _.
        if-Kept p.pending _ _ (λ _. flag_Kept _ f v.accounted v.unblocked)
          (λ _. flag_Kept _ f v.accounted v.unblocked))

reset-Kept : (ok : Bool) (p : Process) → p.unblock_sig_int ≡ true → Kept p → Kept (reset ok p)
unfolding reset print handle_signal
reset-Kept ok p f v =
    if-Kept (not ok) _ _ (λ _. flag_Kept _ f v.accounted v.unblocked)
      (λ _. elim (Bool-cases (p.pending && not p.old_blocked)) [
        | inl e ↦
            let waiting : p.pending ≡ true = ground (arith, e) in
            let most = rw waiting at v.accounted in
            simp e (flag_Kept _ f (omega (arith, most)) (inr refl))
        | inr e ↦ simp e (flag_Kept _ f v.accounted (ground (arith, e)))
      ])

-- Behind the test, the flag is set.
body_flag : (p : Process) → past_test p.place ≡ true → Kept p → p.unblock_sig_int ≡ true
body_flag p h v = elim (v.in_body) [ inl e ↦ absurd (cc (e, h)) | inr f ↦ f ]

move-Kept :
    (l : Place) (p : Process)
    → (past_test l ≡ false) ⊎ (p.unblock_sig_int ≡ true)
    → Kept p
    → Kept (record p { place = l })
move-Kept l p h v = record {
  accounted = v.accounted;
  unblocked = v.unblocked;
  flagged = v.flagged;
  in_body = h;
  after_flag = v.after_flag;
}

tested : (b : Bool) → (past_test (if b then asking else looping) ≡ false) ⊎ (b ≡ true)
tested true = inr refl
tested false = inl refl

call-Kept : (l : Place) (ok : Bool) (p : Process) → p.place ≡ l → Kept p → Kept (call l ok p)
unfolding call
call-Kept looping ok p e v = move-Kept pausing p (inl refl) v
call-Kept pausing ok p e v = v
call-Kept testing ok p e v =
    move-Kept (if p.unblock_sig_int then asking else looping) p (tested p.unblock_sig_int) v
call-Kept asking ok p e v = ask-Kept ok p (body_flag p (rw e refl) v) v
call-Kept resetting ok p e v = reset-Kept ok p (body_flag p (rw e refl) v) v
call-Kept exited ok p e v = v

on_event-Kept : (e : Event) (p : Process) → Kept p → Kept (on_event e p)
unfolding on_event
on_event-Kept (called ok) p v = call-Kept p.place ok p refl v
on_event-Kept (sent sig) p v = go p.place
  where
    go : (l : Place) → Kept (elim l [ exited ↦ p | _ ↦ arrive sig p ])
    go exited = v
    go looping = arrive-Kept sig p v
    go pausing = arrive-Kept sig p v
    go testing = arrive-Kept sig p v
    go asking = arrive-Kept sig p v
    go resetting = arrive-Kept sig p v

run-Kept : (es : List Event) (p : Process) → Kept p → Kept (run es p)
unfolding run
run-Kept [] p v = v
run-Kept (e ∷ es) p v = run-Kept es _ (on_event-Kept e p v)

entered-Kept : (b : Bool) → Kept (entered b)
unfolding entered
entered-Kept b = record {
  accounted = refl;
  unblocked = inl refl;
  flagged = inl refl;
  in_body = inl refl;
  after_flag = inl refl;
}

start-Kept : (a : Setup) (p : Process) → start a ≡ some p → Kept p
unfolding start
start-Kept a p e =
    elim (Bool-cases
      (a.sigint_ok && a.sigterm_ok && a.get_mask_ok && a.empty_ok && a.add_ok && a.block_ok)) [
        | inl h ↦
            let q : some (entered a.was_blocked) ≡ some p = rw h at e in
            let same : entered a.was_blocked ≡ p = cc q in
            subst Kept same (entered-Kept a.was_blocked)
        | inr h ↦ absurd (cc (rw h at e))
      ]

-- From the loop on, whatever signals are sent and whatever the calls answer: of the SIGINTs that were
-- sent, each was handled, waits, or was merged by the system with one that waited; none waits where
-- SIGINT is not blocked; and while no SIGTERM has set the flag none is handled.
pub interrupt_kept :
    (a : Setup) (p : Process) (es : List Event)
    → start a ≡ some p
    → let q = run es p in
      (handled q.printed + waits q.pending + q.merged ≡ q.arrived)
      × ((q.blocked ≡ true) ⊎ (q.pending ≡ false))
      × ((handled q.printed ≡ 0) ⊎ (q.unblock_sig_int ≡ true))
interrupt_kept a p es e =
    let v = run-Kept es p (start-Kept a p e) in (v.accounted, v.unblocked, v.after_flag)
