-- ===== src/SignalMask/Tests.antt =====
-- Runs of sig_mask.c, and the theorem at one.
use ukgoll_github_io.Prelude.{◌+◌, ◌≡◌, refl, true, false, List, [], ◌∷◌, ◌⊎◌}
use ukgoll_github_io.SignalMask.Program.{
  sigint, sigterm, sigint_handled, mask_reset, sigint_pending, sigterm_received, sigint_not_pending,
  Setup, Event, sent, called, run, start, entered,
}
use ukgoll_github_io.SignalMask.Pending.{handled, waits, interrupt_kept}

abbrev all_ok : Setup
all_ok = record {
  sigint_ok = true;
  sigterm_ok = true;
  get_mask_ok = true;
  empty_ok = true;
  add_ok = true;
  block_ok = true;
  was_blocked = false;
}

-- SIGINT twice, then SIGTERM.
abbrev interrupted : List Event
interrupted =
    called true
    ∷ sent sigint
    ∷ sent sigint
    ∷ called true
    ∷ sent sigterm
    ∷ called true
    ∷ called true
    ∷ called true
    ∷ []

one_handled :
    (run interrupted (entered false)).printed
    ≡ mask_reset ∷ sigint_handled ∷ sigint_pending ∷ sigterm_received ∷ []
unfolding run entered
one_handled = refl

-- SIGTERM comes before SIGINT: the mask is not reset, and SIGINT waits.
abbrev early_sigterm : List Event
early_sigterm =
    called true
    ∷ sent sigterm
    ∷ called true
    ∷ called true
    ∷ called true
    ∷ sent sigint
    ∷ called true
    ∷ []

sigint_waits :
    (run early_sigterm (entered false)).printed ≡ sigint_not_pending ∷ sigterm_received ∷ []
unfolding run entered
sigint_waits = refl

-- SIGTERM comes just before the call of `pause`: the flag is set, but `pause` waits for a third signal.
abbrev late_sigterm : List Event
late_sigterm = sent sigint ∷ sent sigterm ∷ called true ∷ called true ∷ []

sigint_sits : (run late_sigterm (entered false)).printed ≡ sigterm_received ∷ []
unfolding run entered
sigint_sits = refl

interrupt_kept_example :
    let q = run interrupted (entered false) in
    (handled q.printed + waits q.pending + q.merged ≡ q.arrived)
    × ((q.blocked ≡ true) ⊎ (q.pending ≡ false))
    × ((handled q.printed ≡ 0) ⊎ (q.unblock_sig_int ≡ true))
unfolding start
interrupt_kept_example = interrupt_kept all_ok (entered false) interrupted refl
