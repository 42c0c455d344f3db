-- ===== src/HttpServer/Epoll.antt =====
-- unix_epoll.c: the back end on epoll.
use ukgoll_github_io.Prelude.{
  ℕ, ◌≡◌, refl, Bool, true, false, ◌==◌, if◌then◌else◌, Option, none, some, arith,
}
use ukgoll_github_io.HttpServer.Poll.{Ptr, Interest, eread, ewrite, Backend}

-- A struct epoll_event: `EPOLLIN`, `EPOLLOUT`, `EPOLLET` and `data.ptr`.
pub record EpollEvent : Type 0 where
  pub epollin : Bool
  pub epollout : Bool
  pub epollet : Bool
  pub ptr : Ptr

-- The entries of the epoll instance, by descriptor.
abbrev pub Entries : Type 0
Entries = ℕ → Option EpollEvent

-- An `epoll_ctl` call with EPOLL_CTL_ADD or EPOLL_CTL_DEL that succeeds.
abbrev pub ctl : ℕ → Option EpollEvent → Entries → Entries
ctl fd e k j = if j == fd then e else k j

unfoldable pub event_of : Interest → Ptr → EpollEvent
event_of eread c = record { epollin = true; epollout = false; epollet = true; ptr = c }
event_of ewrite c = record { epollin = false; epollout = true; epollet = true; ptr = c }

-- `poll_add`
unfoldable pub add_entry : Bool → ℕ → Interest → Ptr → Entries → Option Entries
unfolding event_of
add_entry ctl_ok fd pe c k = if ctl_ok then some (ctl fd (some (event_of pe c)) k) else none

-- `poll_delete` up to its first return.
unfoldable pub remove_entry : Bool → ℕ → Entries → Option Entries
remove_entry ctl_ok fd k = if ctl_ok then some (ctl fd none k) else none

abbrev pub reader : Option EpollEvent → Option Ptr
reader none = none
reader (some e) = if e.epollin then some e.ptr else none

abbrev pub readers : Entries → ℕ → Option Ptr
readers k fd = reader (k fd)

pub readers-ctl :
    (fd : ℕ) (e : Option EpollEvent) (k : Entries) (j : ℕ)
    → readers (ctl fd e k) j ≡ (if j == fd then reader e else readers k j)
readers-ctl fd e k j = ground arith

-- The functions of unix_epoll.c keep the same contract.
unfoldable pub epoll_backend : Backend Entries
unfolding add_entry remove_entry event_of
epoll_backend = record {
  add = add_entry;
  remove = remove_entry;
  reading = readers;
  add-fails = λ fd i c k. refl;
  add-succeeds = λ fd c k.
      (ctl fd (some (event_of eread c)) k, refl, readers-ctl fd (some (event_of eread c)) k);
  remove-fails = λ fd k. refl;
  remove-succeeds = λ fd k. (ctl fd none k, refl, readers-ctl fd none k);
}
