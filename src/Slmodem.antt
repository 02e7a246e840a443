-- ===== src/Slmodem.antt =====
-- slmodem.rs: the inherited file descriptor: the checks, and whether the system calls succeed.
mod Tests
use slmodem_sip_bridge.Base.{
  ℕ, ◌<◌, Bool, true, false, ltb, ◌≡◌, ◌≢◌, ◌↔◌, ◌⊎◌, inl, inr, refl, arith, Bool-cases,
}
use slmodem_sip_bridge.Base.Int.{ℤ, pos, negsuc}
use slmodem_sip_bridge.Base.Outcome.{
  Outcome, ok, panic, ◌>>=◌, ◌>>◌, assert, ensure, >>=-ok, ensure-inv,
}

abbrev pub fd_limit : ℕ
fd_limit = 4096

abbrev pub is_non_negative : ℤ → Bool
is_non_negative (pos n) = true
is_non_negative (negsuc n) = false

abbrev is_below_limit : ℤ → Bool
is_below_limit (pos n) = ltb n fd_limit
is_below_limit (negsuc n) = true

-- The two assertions of `socket_from_raw_fd`.
unfoldable pub check_fd : {E : Type 0} → ℤ → Outcome E (Unit {0})
check_fd fd = do assert (is_non_negative fd); assert (is_below_limit fd)

pub data SocketError : Type 0 where
  not_nonblocking not_converted : SocketError

-- With whether the system makes the socket non-blocking, and whether tokio takes it.
unfoldable pub socket_from_raw_fd : ℤ → Bool → Bool → Outcome SocketError (Unit {0})
unfolding check_fd
socket_from_raw_fd fd nonblocking_ok stream_ok = do
  check_fd fd
  ensure nonblocking_ok not_nonblocking
  ensure stream_ok not_converted

-- The descriptor is taken exactly if it is one of 0 to 4095; any other is a panic.
pub check_fd_iff :
    {E : Type 0} (fd : ℤ)
    → ((check_fd {E = E} fd ≡ ok tt) ↔ ((n : ℕ) × (fd ≡ pos n) × (n < 4096)))
      × ((check_fd {E = E} fd ≡ ok tt) ⊎ (check_fd {E = E} fd ≡ panic))
unfolding check_fd
check_fd_iff (pos n) = elim (Bool-cases (ltb n 4096)) [
  | inl small ↦ rw small (((λ _. (n, refl, ground arith)), (λ _. refl)), inl refl)
  | inr large ↦ rw large (((λ h. absurd (cc)), (λ (m, e, lt). absurd (ground arith))), inr refl)
]
check_fd_iff (negsuc n) = (((λ h. absurd (cc)), (λ (m, e, lt). absurd (cc))), inr refl)

-- The socket is taken exactly if the descriptor is in range and both system calls succeed.
pub socket_from_raw_fd_iff :
    (fd : ℤ) (nonblocking_ok stream_ok : Bool)
    → (socket_from_raw_fd fd nonblocking_ok stream_ok ≡ ok tt)
      ↔ (((n : ℕ) × (fd ≡ pos n) × (n < 4096)) × (nonblocking_ok ≡ true) × (stream_ok ≡ true))
unfolding socket_from_raw_fd
socket_from_raw_fd_iff fd nonblocking_ok stream_ok = (forth, back)
  where
    forth :
        socket_from_raw_fd fd nonblocking_ok stream_ok ≡ ok tt
        → ((n : ℕ) × (fd ≡ pos n) × (n < 4096)) × (nonblocking_ok ≡ true) × (stream_ok ≡ true)
    forth h =
        let (u, e1, k1) =
          >>=-ok (check_fd fd)
            (λ _. ensure nonblocking_ok not_nonblocking >> ensure stream_ok not_converted) h in
        let (v, e2, k2) =
          >>=-ok (ensure nonblocking_ok not_nonblocking) (λ _. ensure stream_ok not_converted) k1 in
        (
          (check_fd_iff fd).0.0 e1,
          ensure-inv nonblocking_ok not_nonblocking v e2,
          ensure-inv stream_ok not_converted tt k2,
        )

    back :
        ((n : ℕ) × (fd ≡ pos n) × (n < 4096)) × (nonblocking_ok ≡ true) × (stream_ok ≡ true)
        → socket_from_raw_fd fd nonblocking_ok stream_ok ≡ ok tt
    back (in_range, nonblocking, converted) =
        rw ((check_fd_iff fd).0.1 in_range, nonblocking, converted) refl
