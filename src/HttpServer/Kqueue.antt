-- ===== src/HttpServer/Kqueue.antt =====
-- unix_kqueue.c: the back end on kqueue.
use ukgoll_github_io.Prelude.{
  ℕ, ◌≡◌, refl, Bool, true, false, ◌&&◌, ◌==◌, if◌then◌else◌, Option, none, some, arith,
}
use ukgoll_github_io.HttpServer.Poll.{Ptr, Interest, eread, ewrite, Backend}

-- `EVFILT_READ` and `EVFILT_WRITE`
pub data Filter : Type 0 where
  evfilt_read : Filter
  evfilt_write : Filter

abbrev pub same_filter : Filter → Filter → Bool
same_filter evfilt_read evfilt_read = true
same_filter evfilt_write evfilt_write = true
same_filter _ _ = false

-- The entries of the queue, by descriptor and filter, with their `udata`.
abbrev pub Queue : Type 0
Queue = ℕ → Filter → Option Ptr

-- A `kevent` call with EV_ADD or EV_DELETE that succeeds.
abbrev pub put : ℕ → Filter → Option Ptr → Queue → Queue
put fd f c k j g = if (j == fd) && same_filter g f then c else k j g

unfoldable pub filter_of : Interest → Filter
filter_of eread = evfilt_read
filter_of ewrite = evfilt_write

-- `poll_add`
unfoldable pub poll_add : Bool → ℕ → Interest → Ptr → Queue → Option Queue
unfolding filter_of
poll_add kevent_ok fd pe c k = if kevent_ok then some (put fd (filter_of pe) (some c) k) else none

-- `poll_delete` up to its first return.
unfoldable pub delete_entry : Bool → ℕ → Queue → Option Queue
delete_entry kevent_ok fd k = if kevent_ok then some (put fd evfilt_read none k) else none

abbrev pub readers : Queue → ℕ → Option Ptr
readers k fd = k fd evfilt_read

pub readers-put :
    (fd : ℕ) (c : Option Ptr) (k : Queue) (j : ℕ)
    → readers (put fd evfilt_read c k) j ≡ (if j == fd then c else readers k j)
readers-put fd c k j = ground arith

-- The functions of unix_kqueue.c keep the contract of poll.h: a call that fails changes nothing; an
-- addition for reading that succeeds makes the descriptor's readable events come with the connection,
-- a deletion makes them stop, and neither touches another descriptor.
unfoldable pub kqueue_backend : Backend Queue
unfolding poll_add delete_entry
kqueue_backend = record {
  add = poll_add;
  remove = delete_entry;
  reading = readers;
  add-fails = λ fd i c k. refl;
  add-succeeds = λ fd c k. (put fd evfilt_read (some c) k, refl, readers-put fd (some c) k);
  remove-fails = λ fd k. refl;
  remove-succeeds = λ fd k. (put fd evfilt_read none k, refl, readers-put fd none k);
}
