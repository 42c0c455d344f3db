-- ===== src/PidPipe/Handshake.antt =====
-- codes/apue/process/parent_child_tell.c: what is printed.
use ukgoll_github_io.Prelude.{
  ℕ, ◌≡◌, refl, ap, Bool, true, false, not, ◌&&◌, ◌==◌, ==_iff, if◌then◌else◌, Option, none, some,
  List, [], ◌∷◌, ◌⊎◌, inl, inr, Bool-cases,
}
use ukgoll_github_io.PidPipe.System.{
  Sender, writing, telling, Waiter, reading, checking, Message, exec_first, exec_second, System,
  SenderStep, WaiterStep, by_sender, by_waiter, Reachable, start, next, write_pid, write_fails,
  tell, read_pid, read_end, read_fails, check,
}

-- The pid is written.
abbrev sent : Sender → Bool
sent Sender.closing_read_end = false
sent writing = false
sent _ = true

abbrev told : Sender → Bool
told Sender.closing_write_end = true
told Sender.ended = true
told _ = false

abbrev open_in_sender : Sender → Bool
open_in_sender Sender.ended = false
open_in_sender _ = true

-- The pid is read.
abbrev got : Waiter → Bool
got Waiter.closing_write_end = false
got reading = false
got _ = true

abbrev checked : Waiter → Bool
checked Waiter.closing_read_end = true
checked Waiter.ended = true
checked _ = false

abbrev open_in_waiter : Waiter → Bool
open_in_waiter Waiter.closing_write_end = true
open_in_waiter _ = false

module _ (pid : ℕ) where
  abbrev Holds : Waiter → Type 0
  Holds (checking p) = p ≡ pid
  Holds _ = Unit

  -- What is printed, by whether the first process and the second have told.
  abbrev Printed : Bool → Bool → List Message → Type 0
  Printed false false out = out ≡ []
  Printed true false out = out ≡ exec_first pid ∷ []
  Printed false true out = out ≡ exec_second pid ∷ []
  Printed true true out =
      (out ≡ exec_second pid ∷ exec_first pid ∷ []) ⊎ (out ≡ exec_first pid ∷ exec_second pid ∷ [])

  -- Where no call fails: the first process stands at `a`, the second at `b`.
  record Good (a : Sender) (b : Waiter) (pipe : Option ℕ) (writes : Bool) (out : List Message)
      : Type 0 where
    filled : pipe ≡ (if sent a && not (got b) then some pid else none)
    order : got b ≡ true → sent a ≡ true
    holds : Holds b
    printed : Printed (told a) (checked b) out
    write_end : writes ≡ open_in_sender a

  tell-Printed :
      (d : Bool) (out : List Message) → Printed false d out → Printed true d (exec_first pid ∷ out)
  tell-Printed false out e = ap (λ l. exec_first pid ∷ l) e
  tell-Printed true out e = inr (ap (λ l. exec_first pid ∷ l) e)

  check-Printed :
      (d : Bool) (out : List Message) → Printed d false out → Printed d true (exec_second pid ∷ out)
  check-Printed false out e = ap (λ l. exec_second pid ∷ l) e
  check-Printed true out e = inl (ap (λ l. exec_second pid ∷ l) e)

  write_pid-Good :
      (b : Waiter) (pipe : Option ℕ) (w : Bool) (out : List Message)
      → Good writing b pipe w out
      → Good telling b (some pid) w out
  write_pid-Good b pipe w out v = record {
    filled = elim (Bool-cases (got b)) [ inl h ↦ absurd (cc (v.order h)) | inr h ↦ rw h refl ];
    order = λ h. refl;
    holds = v.holds;
    printed = v.printed;
    write_end = v.write_end;
  }

  read_pid-Good :
      (a : Sender) (p : ℕ) (w : Bool) (out : List Message)
      → Good a reading (some p) w out
      → Good a (checking p) none w out
  read_pid-Good a p w out v = elim (Bool-cases (sent a)) [
    | inl h ↦ record {
      filled = rw h refl;
      order = λ e. h;
      holds = cc (rw h at v.filled);
      printed = v.printed;
      write_end = v.write_end;
    }
    | inr h ↦ absurd (cc (rw h at v.filled))
  ]

  -- The first process closes its write end only behind the pid.
  no_end : (a : Sender) (out : List Message) → Good a reading none false out → ⊥
  no_end Sender.ended out v = cc (v.filled)
  no_end Sender.closing_read_end out v = cc (v.write_end)
  no_end writing out v = cc (v.write_end)
  no_end telling out v = cc (v.write_end)
  no_end Sender.closing_write_end out v = cc (v.write_end)

  Inv : System → Type 0
  Inv s = Good s.sender s.waiter s.pipe s.sender_writes s.printed

  sender-Inv : {s s' : System} → SenderStep pid false s s' → Inv s → Inv s'
  unfolding Inv
  sender-Inv {s} (SenderStep.close_read_end e) v =
      let u : Good Sender.closing_read_end s.waiter s.pipe s.sender_writes s.printed = rw e at v in
      record {
        filled = u.filled;
        order = u.order;
        holds = u.holds;
        printed = u.printed;
        write_end = u.write_end;
      }
  sender-Inv {s} (write_pid e) v =
      write_pid-Good s.waiter s.pipe s.sender_writes s.printed (rw e at v)
  sender-Inv (write_fails f e) v = absurd (cc f)
  sender-Inv {s} (tell e) v =
      let u : Good telling s.waiter s.pipe s.sender_writes s.printed = rw e at v in
      record {
        filled = u.filled;
        order = u.order;
        holds = u.holds;
        printed = tell-Printed (checked s.waiter) s.printed u.printed;
        write_end = u.write_end;
      }
  sender-Inv {s} (SenderStep.close_write_end e) v =
      let u : Good Sender.closing_write_end s.waiter s.pipe s.sender_writes s.printed = rw e at v in
      record {
        filled = u.filled;
        order = u.order;
        holds = u.holds;
        printed = u.printed;
        write_end = refl;
      }

  waiter-Inv : {s s' : System} → WaiterStep pid false s s' → Inv s → Inv s'
  unfolding Inv
  waiter-Inv {s} (WaiterStep.close_write_end e) v =
      let u : Good s.sender Waiter.closing_write_end s.pipe s.sender_writes s.printed = rw e at v in
      record {
        filled = u.filled;
        order = u.order;
        holds = u.holds;
        printed = u.printed;
        write_end = u.write_end;
      }
  waiter-Inv {s} (read_pid p e q) v =
      read_pid-Good s.sender p s.sender_writes s.printed (rw (e, q) at v)
  waiter-Inv {s} (read_end g e q a b) v = absurd (no_end s.sender s.printed (rw (e, q, a) at v))
  waiter-Inv (read_fails g f e) v = absurd (cc f)
  waiter-Inv {s} (check p e) v =
      let u : Good s.sender (checking p) s.pipe s.sender_writes s.printed = rw e at v in
      let same : (p == pid) ≡ true = (==_iff p pid).1 u.holds in
      record {
        filled = u.filled;
        order = u.order;
        holds = tt;
        printed = rw (same, u.holds) (check-Printed (told s.sender) s.printed u.printed);
        write_end = u.write_end;
      }
  waiter-Inv {s} (WaiterStep.close_read_end e) v =
      let u : Good s.sender Waiter.closing_read_end s.pipe s.sender_writes s.printed = rw e at v in
      record {
        filled = u.filled;
        order = u.order;
        holds = u.holds;
        printed = u.printed;
        write_end = u.write_end;
      }

  Reachable-Inv : {s : System} → Reachable pid false s → Inv s
  unfolding Inv
  Reachable-Inv start = record {
    filled = refl;
    order = λ h. absurd (cc h);
    holds = tt;
    printed = refl;
    write_end = refl;
  }
  Reachable-Inv (next r (by_sender m)) = sender-Inv m (Reachable-Inv r)
  Reachable-Inv (next r (by_waiter m)) = waiter-Inv m (Reachable-Inv r)

  -- Where no call returns -1 and both processes have ended: the second has got the pid, and each has
  -- printed its line, once and without an error; the lines may stand in either order.
  pub both_told :
      {s : System}
      → Reachable pid false s
      → s.sender ≡ Sender.ended
      → s.waiter ≡ Waiter.ended
      → (s.printed ≡ exec_second pid ∷ exec_first pid ∷ [])
        ⊎ (s.printed ≡ exec_first pid ∷ exec_second pid ∷ [])
  unfolding Inv
  both_told {s} r a b =
      let u : Good Sender.ended Waiter.ended s.pipe s.sender_writes s.printed =
        rw (a, b) at (Reachable-Inv {s = s} r) in
      u.printed
