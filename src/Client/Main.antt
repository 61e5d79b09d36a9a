-- ===== src/Client/Main.antt =====
-- src/client/client.c: one connection for each request, and what the user is told. The answers of the
-- system calls are given.
pub mod Session
use socks_v5_proxy.Prelude.{
  if◌then◌else◌, length, replicate, overwrite, ℤ, pos, negsuc, ℕ, ◌⊎◌, inl, inr, Bool, true, false,
  ◌||◌, List, [], ◌∷◌, ◌++◌,
}
use socks_v5_proxy.Client.{ClientRequestArgs, request_sent}
use socks_v5_proxy.Client.Response.{Received, Report, process_response}

pub data Recv : Type 0 where
  recv_failed recv_closed : Recv
  recv_bytes : List ℕ → Recv

-- What `socket`, `connect`, `send`, the calls of `recv` and `close` answer for one request.
pub record Answers : Type 0 where
  pub socket : ℤ
  pub connect : ℤ
  pub send : ℤ
  pub recvs : List Recv
  pub close : ℤ

-- How `main` ends: with its result, or by `abort`; or it waits in `recv` when the answers end.
pub data End : Type 0 where
  returned : ℕ → End
  aborted : End
  waiting : End

-- What was sent and what was told, one request after another, and the end.
pub record Trace : Type 0 where
  pub sent : List (List ℕ)
  pub reports : List Report
  pub ended : End

-- The variables that outlive a request.
pub record Buffers : Type 0 where
  pub write_buffer : List ℕ
  pub buf : List ℕ
  pub received : Received

abbrev pub is_negative : ℤ → Bool
is_negative (pos n) = false
is_negative (negsuc n) = true

-- The loop of `recv`: every call stores at the start of `buf`.
unfoldable pub recv_loop : List ℕ → List Recv → End ⊎ List ℕ
recv_loop buf [] = inl waiting
recv_loop buf (recv_failed ∷ rs) = inl aborted
recv_loop buf (recv_closed ∷ rs) = inr buf
recv_loop buf (recv_bytes xs ∷ rs) = recv_loop (overwrite buf 0 xs) rs

-- The `memset` calls at the end of a request; `numeric_response` keeps its value.
abbrev pub cleared : Buffers → Buffers
cleared b = record {
  write_buffer = replicate 65556 0;
  buf = replicate 65538 0;
  received = record (b.received) {
    combinedlen = replicate 2 0;
    numeric_data_array = replicate 4 0;
  };
}

-- One request: the bytes sent, if it came to that, the report, if it came to that, and what follows: the
-- end of the program or the buffers for the next request.
pub record Exchange : Type 0 where
  pub sends : List (List ℕ)
  pub tells : List Report
  pub next : End ⊎ Buffers

abbrev pub stopped : List (List ℕ) → List Report → End → Exchange
stopped sends tells e = record { sends = sends; tells = tells; next = inl e }

-- Behind the loop of `recv`.
unfoldable pub conclude_exchange :
    ClientRequestArgs → Answers → List ℕ → Buffers → List ℕ → Exchange
conclude_exchange args w bytes b buf =
    let (received, report) = process_response args buf b.received in
    if is_negative w.close then stopped (bytes ∷ []) (report ∷ []) (returned 1) else record {
      sends = bytes ∷ [];
      tells = report ∷ [];
      next = inr (cleared (record b { received = received }));
    }

unfoldable pub exchange : ClientRequestArgs → List ℕ → Answers → Buffers → Exchange
exchange args token w b =
    if is_negative w.socket || is_negative w.connect
    then stopped [] [] (returned 1)
    else (let bytes = request_sent args token b.write_buffer in
        if is_negative w.send then stopped [] [] (returned 1) else elim (recv_loop b.buf w.recvs) [
          | inl e ↦ stopped (bytes ∷ []) [] e
          | inr buf ↦ conclude_exchange args w bytes b buf
        ])

-- What follows a request.
abbrev pub then_loop : Exchange → (Buffers → Trace) → Trace
then_loop x rest = elim x.next [
  | inl e ↦ record { sent = x.sends; reports = x.tells; ended = e }
  | inr b ↦
      let t = rest b in
      record { sent = x.sends ++ t.sent; reports = x.tells ++ t.reports; ended = t.ended }
]

-- The loop over the requests, each with its answers.
unfoldable pub main_loop : List (ClientRequestArgs × Answers) → List ℕ → Buffers → Trace
main_loop [] token b = record { sent = []; reports = []; ended = returned 0 }
main_loop ((args, w) ∷ more) token b =
    then_loop (exchange args token w b) (λ b'. main_loop more token b')

-- The answers of a server that takes the request, sends its response in one piece and closes.
abbrev pub whole_response : List ℕ → Answers
whole_response response = record {
  socket = pos 3;
  connect = pos 0;
  send = pos (length response);
  recvs = recv_bytes response ∷ recv_closed ∷ [];
  close = pos 0;
}
