-- ===== src/StaleBuffer/Lines.antt =====
-- What the client of codes/apue/kqueue_server/client.cpp prints, said without its array.
use ukgoll_github_io.Prelude.{
  ℕ, true, false, List, [], ◌∷◌, ◌++◌, ◌≡◌, refl, ◌∙◌, ap, sym, ◌<◌, ◌≤◌, arith, length, take, ltb,
  if◌then◌else◌, overwrite, length-overwrite, take-whole, Bool-cases, inl, inr, some,
}
use ukgoll_github_io.Prelude.CString.{
  before_zero, until_zero, until_zero-overwrite, overwrite-front, take-overwrite_front,
}
use ukgoll_github_io.StaleBuffer.Client.{
  Event, send, send_start, send_end, n_is, fputs, fputs_error, server_closed, read_error,
  create_success, server_ip_success, connect_success, Outcome, waiting, ReadResult, got,
  end_of_file, failed, greeting, store, close_client, loop, converse, main,
}

-- Of every answer, the string in its first 255 bytes.
abbrev pub printed : List ReadResult → List Event → Outcome
printed [] log = waiting log
printed (end_of_file ∷ rs) log = close_client (log ++ (server_closed ∷ []))
printed (failed ∷ rs) log = close_client (log ++ (read_error ∷ []))
printed (got b bs fputs_ok ∷ rs) log =
    let log' = log ++ (n_is (length (b ∷ bs)) ∷ fputs (before_zero (take 255 (b ∷ bs))) ∷ []) in
    let rest = printed rs log' in
    if fputs_ok then rest else close_client (log' ++ (fputs_error ∷ []))

-- No answer is longer than the 256 bytes that `read` asks for.
abbrev pub AtMost256 : List ReadResult → Type 0
AtMost256 [] = Unit
AtMost256 (end_of_file ∷ rs) = AtMost256 rs
AtMost256 (failed ∷ rs) = AtMost256 rs
AtMost256 (got b bs fputs_ok ∷ rs) = (length (b ∷ bs) ≤ 256) × AtMost256 rs

length-store : (recvline bytes : List ℕ) → length (store recvline bytes) ≡ length recvline
length-store recvline bytes =
    length-overwrite (overwrite recvline 0 bytes) _ (0 ∷ []) ∙ length-overwrite recvline 0 bytes

ends_at :
    (i : ℕ) (recvline bytes : List ℕ)
    → i < 257
    → i ≤ length bytes
    → length bytes ≤ 256
    → length recvline ≡ 257
    → until_zero (overwrite (overwrite recvline 0 bytes) i (0 ∷ []))
      ≡ some (before_zero (take i bytes))
ends_at i recvline bytes h l m r =
    until_zero-overwrite i (overwrite recvline 0 bytes)
      (omega (arith, h, r, length-overwrite recvline 0 bytes))
    ∙ ap (λ s. some (before_zero s))
        (take-overwrite_front i recvline bytes (omega (arith, l)) (omega (arith, m, r)))

store-string :
    (recvline bytes : List ℕ)
    → length bytes ≤ 256
    → length recvline ≡ 257
    → until_zero (store recvline bytes) ≡ some (before_zero (take 255 bytes))
store-string recvline bytes m r =
    let n = length bytes in
    elim (Bool-cases (ltb n 256)) [
      | inl e ↦
          let short : n < 256 = ground (arith, e) in
          let whole : take n bytes ≡ take 255 bytes =
            take-whole n bytes (omega arith) ∙ sym (take-whole 255 bytes (omega (arith, short))) in
          rw e (
            ends_at n recvline bytes (omega (arith, short)) (omega arith) m r
            ∙ ap (λ s. some (before_zero s)) whole)
      | inr e ↦
          let full : 256 ≤ n = ground (arith, e) in
          rw e (ends_at 255 recvline bytes (omega arith) (omega (arith, full)) m r)
    ]

loop-printed :
    (rs : List ReadResult) (recvline : List ℕ) (log : List Event)
    → AtMost256 rs
    → length recvline ≡ 257
    → loop rs recvline log ≡ printed rs log
unfolding loop
loop-printed [] recvline log v r = refl
loop-printed (end_of_file ∷ rs) recvline log v r = refl
loop-printed (failed ∷ rs) recvline log v r = refl
loop-printed (got b bs true ∷ rs) recvline log (m, v) r =
    rw (store-string recvline (b ∷ bs) m r)
      (loop-printed rs (store recvline (b ∷ bs)) _ v (length-store recvline (b ∷ bs) ∙ r))
loop-printed (got b bs false ∷ rs) recvline log (m, v) r =
    rw (store-string recvline (b ∷ bs) m r) refl

greeting-string :
    (recvline : List ℕ)
    → length recvline ≡ 257
    → until_zero (overwrite recvline 0 (greeting ++ (0 ∷ []))) ≡ some greeting
unfolding until_zero
greeting-string recvline r =
    ap until_zero (overwrite-front (greeting ++ (0 ∷ [])) recvline (omega (arith, r)))

-- Once connected, whatever `recvline` holds at the start, the client sends the greeting and prints it,
-- and then, of every answer of at most 256 bytes, the string in its first 255 bytes, until the server
-- closes, `read` fails or `fputs` fails.
pub client_prints :
    (recvline : List ℕ) (reads : List ReadResult)
    → length recvline ≡ 257
    → AtMost256 reads
    → main 2 recvline
        (record { socket_ok = true; inet_pton_ok = true; connect_ok = true; reads = reads })
      ≡ printed reads (
          create_success
          ∷ server_ip_success
          ∷ connect_success
          ∷ send greeting
          ∷ send_start
          ∷ send_end greeting
          ∷ [])
unfolding main converse
client_prints recvline reads r v = rw (greeting-string recvline r) (
    loop-printed reads (overwrite recvline 0 (greeting ++ (0 ∷ []))) _ v
      (length-overwrite recvline 0 (greeting ++ (0 ∷ [])) ∙ r))
