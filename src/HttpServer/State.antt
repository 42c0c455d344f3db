-- ===== src/HttpServer/State.antt =====
-- The memory of the server of main.c, and what its calls answer.
use ukgoll_github_io.Prelude.{
  ℕ, Bool, true, false, ◌==◌, if◌then◌else◌, Option, none, some, List, ◌∷◌,
}
use ukgoll_github_io.HttpServer.Poll.{Ptr}

-- `conn_t`
pub record Conn : Type 0 where
  pub fd : ℕ
  pub routine : Ptr
  pub sa : Ptr

-- What main.c reads of an `aco_t`.
pub record Routine : Type 0 where
  pub arg : Ptr
  pub is_end : Bool

pub data Call : Type 0 where
  malloc_sa : Ptr → Call
  free_sa : Ptr → Call
  malloc_conn : Ptr → Call
  free_conn : Ptr → Call
  accepted : ℕ → Call
  closed : ℕ → Call
  read_from : ℕ → Call
  wrote : ℕ → Call
  created : Ptr → Call
  destroyed : Ptr → Call

-- What is registered, the connections and the routines that are allocated, and the calls made, the
-- last one first.
pub record Server (K : Type 0) : Type 0 where
  pub kernel : K
  pub conns : Ptr → Option Conn
  pub routines : Ptr → Option Routine
  pub calls : List Call

-- A loop that needs more answers than it was given is `running`; `fault` is the use of an address that
-- is not allocated, or the resumption of a routine that has ended.
pub data Result {ℓ} (A : Type ℓ) : Type ℓ where
  done : A → Result A
  running : Result A
  fault : Result A

infixl 5 ◌>>=◌
abbrev pub ◌>>=◌ {ℓ κ} : {A : Type ℓ} {B : Type κ} → Result A → (A → Result B) → Result B
done a >>= f = f a
running >>= f = running
fault >>= f = fault

abbrev pub load {ℓ} : {A : Type ℓ} → Option A → Result A
load none = fault
load (some a) = done a

abbrev pub store : {A : Type 0} → Ptr → Option A → (Ptr → Option A) → Ptr → Option A
store p v f q = if q == p then v else f q

module _ {K : Type 0} where
  abbrev pub log : Server K → Call → Server K
  log s c = record s { calls = c ∷ s.calls }

-- What -1 comes with.
pub data Errno : Type 0 where
  eagain : Errno
  eintr : Errno
  other : Errno

abbrev pub is_eagain : Errno → Bool
is_eagain eagain = true
is_eagain _ = false

abbrev pub is_eintr : Errno → Bool
is_eintr eintr = true
is_eintr _ = false

-- `set_non_blocking` of utils.c, given the errno with which `fcntl` fails: it returns that errno.
unfoldable pub set_non_blocking : Option ℕ → ℕ
set_non_blocking none = 0
set_non_blocking (some errno) = errno
