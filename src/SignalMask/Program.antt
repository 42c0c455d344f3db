-- ===== src/SignalMask/Program.antt =====
-- codes/apue/signal/sig_mask.c: SIGINT is blocked until SIGTERM comes.
use ukgoll_github_io.Prelude.{
  ℕ, ◌+◌, Bool, true, false, not, ◌&&◌, if◌then◌else◌, Option, none, some, List, [], ◌∷◌,
}

pub data Signal : Type 0 where
  sigint : Signal
  sigterm : Signal

pub data Message : Type 0 where
  sigint_handled : Message
  sigterm_received : Message
  sigint_pending : Message
  sigint_not_pending : Message
  mask_reset : Message
  call_error : Message

-- Where `main` stands in the loop: before the call of `pause`, in it, before the test of the flag, before
-- `sigpending` and the test of the set, before `sigprocmask`; or the end.
pub data Place : Type 0 where
  looping : Place
  pausing : Place
  testing : Place
  asking : Place
  resetting : Place
  exited : Place

-- `blocked` and `old_blocked`: whether SIGINT is in the mask, and in `old_sig_mask`. `pending` and
-- `arrived` tell of SIGINT: whether it waits, and how often it was sent; `merged` counts those sent while
-- one waited, of which the system keeps only that one. `printed` has the latest first.
pub record Process : Type 0 where
  pub place : Place
  pub blocked : Bool
  pub old_blocked : Bool
  pub unblock_sig_int : Bool
  pub pending : Bool
  pub arrived : ℕ
  pub merged : ℕ
  pub printed : List Message

unfoldable pub print : Message → Process → Process
print m p = record p { printed = m ∷ p.printed }

unfoldable pub handle_signal : Signal → Process → Process
unfolding print
handle_signal sigint p = print sigint_handled p
handle_signal sigterm p = record (print sigterm_received p) { unblock_sig_int = true }

-- `pause` returns once a handler has returned; the other calls go on where they are.
abbrev pub woken : Place → Place
woken pausing = testing
woken l = l

unfoldable pub deliver : Signal → Process → Process
unfolding handle_signal
deliver sig p = record (handle_signal sig p) { place = woken p.place }

-- A signal is sent to the process.
unfoldable pub arrive : Signal → Process → Process
unfolding deliver
arrive sigterm p = deliver sigterm p
arrive sigint p =
    let p' = record p { arrived = p.arrived + 1 } in
    if p.blocked
    then record p' { pending = true; merged = if p.pending then p.merged + 1 else p.merged }
    else deliver sigint p'

-- `sigpending`, and `sigismember` of SIGINT in the set.
unfoldable pub ask : Bool → Process → Process
unfolding print
ask ok p =
    if not ok
    then record (print call_error p) { place = exited }
    else if p.pending
    then record (print sigint_pending p) { place = resetting }
    else record (print sigint_not_pending p) { place = looping }

-- `sigprocmask(SIG_SETMASK, &old_sig_mask, NULL)`: a signal that waits and is not blocked any more is
-- delivered before the call returns.
unfoldable pub reset : Bool → Process → Process
unfolding print handle_signal
reset ok p =
    if not ok
    then record (print call_error p) { place = exited }
    else (let p' = record p { blocked = p.old_blocked; place = looping } in
        print mask_reset (
          if p.pending && not p.old_blocked
          then handle_signal sigint (record p' { pending = false })
          else p'))

-- The next call of the loop, with whether it succeeds; `pause` waits.
unfoldable pub call : Place → Bool → Process → Process
unfolding ask reset
call looping ok p = record p { place = pausing }
call pausing ok p = p
call testing ok p = record p { place = if p.unblock_sig_int then asking else looping }
call asking ok p = ask ok p
call resetting ok p = reset ok p
call exited ok p = p

pub data Event : Type 0 where
  sent : Signal → Event
  called : Bool → Event

unfoldable pub on_event : Event → Process → Process
unfolding arrive call
on_event (called ok) p = call p.place ok p
on_event (sent sig) p = elim (p.place) [ exited ↦ p | _ ↦ arrive sig p ]

unfoldable pub run : List Event → Process → Process
unfolding on_event
run [] p = p
run (e ∷ es) p = run es (on_event e p)

-- What the calls before the loop answer, and whether the process was started with SIGINT blocked.
pub record Setup : Type 0 where
  pub sigint_ok : Bool
  pub sigterm_ok : Bool
  pub get_mask_ok : Bool
  pub empty_ok : Bool
  pub add_ok : Bool
  pub block_ok : Bool
  pub was_blocked : Bool

-- Where the loop is entered.
unfoldable pub entered : Bool → Process
entered was_blocked = record {
  place = looping;
  blocked = true;
  old_blocked = was_blocked;
  unblock_sig_int = false;
  pending = false;
  arrived = 0;
  merged = 0;
  printed = [];
}

-- `main` up to the loop, `none` for its exits.
unfoldable pub start : Setup → Option Process
unfolding entered
start a =
    if a.sigint_ok && a.sigterm_ok && a.get_mask_ok && a.empty_ok && a.add_ok && a.block_ok
    then some (entered a.was_blocked)
    else none
